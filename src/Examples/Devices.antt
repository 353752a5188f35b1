-- ===== src/Examples/Devices.antt =====
-- The theorems on src/mm-memphy.c, on the frames of src/mm64.c and on its copying, at the small
-- devices.
use hdh.Base.{◌*◌, ◌≡◌, refl, some, [], false, arith}
use hdh.Memphy.{Memphy, paging_pagesz}
use hdh.Vm.{alloc_pages_range, swap_cp_page, minus_one}
use hdh.Vm.Copy.{Copied, swap_cp_page-Copied}
use hdh.Vm.Frames.{alloc_pages_range-failure}
use hdh.Examples.{ram, swap_space}

abbrev tape : Memphy
tape = record ram { rdmflg = false }

swap_cp_page-Copied_example :
    (dst : Memphy) × (swap_cp_page ram 1 swap_space 0 ≡ some (ram, dst))
    × Copied ram swap_space dst (1 * paging_pagesz) (0 * paging_pagesz) 0 paging_pagesz
swap_cp_page-Copied_example =
    swap_cp_page-Copied ram swap_space 1 0 refl refl (omega arith) (omega arith) (omega arith)
      (omega arith)

alloc_pages_range-failure_example : alloc_pages_range 5 ram [] ≡ (minus_one, [], ram)
alloc_pages_range-failure_example = alloc_pages_range-failure 5 ram (omega arith)
