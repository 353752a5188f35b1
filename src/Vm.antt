-- ===== src/Vm.antt =====
-- src/mm-vm.c, and alloc_pages_range, vm_map_ram and __swap_cp_page of src/mm64.c: memory areas
-- grow, and the new pages get frames. `caller` and `caller->krnl->mm` are never NULL here, and
-- `malloc` does not fail.
pub mod Frames
pub mod Growth
pub mod Keeps
pub mod Copy
use hdh.Base.{
  ℕ, zero, suc, ◌+◌, ◌-◌, ◌*◌, ◌/◌, ◌^◌, ◌==◌, ltb, leb, if◌then◌else◌, Bool, not, ◌&&◌, Option,
  none, some, ◌>>=◌, ◌>>◌, check, Status, ok, failed, List, [], ◌∷◌, get_elem?, set,
}
use hdh.Base.Word.{u32, u64, through_int}
use hdh.Memphy.{Memphy, paging_pagesz, get_freefp, put_freefp, memphy_read, memphy_write}
use hdh.Mm.{Mm, Vma, Region, get_vma_by_num}
use hdh.PageTable.{paging64_pagesz, vmap_page_range}
use hdh.Kernel.{Kernel}

-- The inner `while` of alloc_pages_range: the frames already obtained are put back.
unfoldable pub rollback : Memphy → List ℕ → Memphy
rollback mp [] = mp
rollback mp (fpn ∷ frm_lst) = rollback (put_freefp mp fpn) frm_lst

-- `(addr_t)-1`.
abbrev pub minus_one : ℕ
minus_one = 2 ^ 64 - 1

-- alloc_pages_range, with `req_pgnum` rounds left: the `addr_t` that it returns, the frame list
-- and the device.
unfoldable pub alloc_pages_range : ℕ → Memphy → List ℕ → ℕ × List ℕ × Memphy
alloc_pages_range zero mp frm_lst = (0, frm_lst, mp)
alloc_pages_range (suc req_pgnum) mp frm_lst = elim (get_freefp mp).0 [
  | none ↦ (minus_one, [], rollback mp frm_lst)
  | some fpn ↦ alloc_pages_range req_pgnum (get_freefp mp).1 (fpn ∷ frm_lst)
]

-- How many rounds `for (i = 0; i < n; i++)` makes when `n` is an `int` with these low 32 bits.
abbrev pub int_rounds : ℕ → ℕ
int_rounds n = if ltb (u32 n) (2 ^ 31) then u32 n else 0

-- vm_map_ram. Its result is an `addr_t`, so the test `ret_alloc < 0` never holds; the other test
-- asks for -3000.
unfoldable pub vm_map_ram : Kernel → ℕ → ℕ → ℕ × Kernel
vm_map_ram k mapstart incpgnum =
    let (ret_alloc, frm_lst, mram') = alloc_pages_range (int_rounds incpgnum) k.mram [] in
    let taken = record k { mram = mram' } in
    if ltb ret_alloc 0 && not (ret_alloc == 2 ^ 64 - 3000)
    then (minus_one, taken)
    else if ret_alloc == 2 ^ 64 - 3000
    then (minus_one, taken)
    else (0, record taken { mm = (vmap_page_range k.mm mapstart (int_rounds incpgnum) frm_lst).1 })

-- OVERLAP(x1, x2, y1, y2) of include/mm.h.
abbrev pub overlap : ℕ → ℕ → ℕ → ℕ → Bool
overlap x1 x2 y1 y2 = ltb x1 y2 && ltb y1 x2

unfoldable pub validate_overlap_vm_area : List Vma → ℕ → ℕ → ℕ → Status
validate_overlap_vm_area [] vmaid vmastart vmaend = ok
validate_overlap_vm_area (v ∷ vs) vmaid vmastart vmaend =
    let rest = validate_overlap_vm_area vs vmaid vmastart vmaend in
    if not (v.vm_id == through_int vmaid) && overlap vmastart vmaend v.vm_start v.vm_end
    then failed
    else rest

-- PAGING64_PAGE_ALIGNSZ and PAGING_PAGE_ALIGNSZ.
abbrev pub page_align : ℕ → ℕ → ℕ
page_align pagesz sz = u64 (u64 (sz + (pagesz - 1)) / pagesz * pagesz)

-- The part of inc_vma_limit after the area `area`, at place `at` of the list, has been found. The
-- result of vm_map_ram is unsigned, so the roll-back behind `< 0` is never reached.
unfoldable pub extend_area : Kernel → ℕ → Vma → ℕ → ℕ → Status × Kernel
extend_area k at area vmaid aligned_sz =
    let new_vm_end = u64 (area.vm_end + aligned_sz) in
    elim (validate_overlap_vm_area k.mm.mmap vmaid area.vm_end new_vm_end) [
      | failed ↦ (failed, k)
      | ok ↦
          let mm' = record k.mm { mmap = set k.mm.mmap at (record area { vm_end = new_vm_end }) } in
          let (ret, mapped) =
            vm_map_ram (record k { mm = mm' }) area.vm_end (aligned_sz / paging64_pagesz) in
          if ltb ret 0 then (failed, record mapped { mm = k.mm }) else (ok, mapped)
    ]

unfoldable pub inc_vma_limit : Kernel → ℕ → ℕ → Option (Status × Kernel)
inc_vma_limit k vmaid inc_sz = if inc_sz == 0 then some (failed, k) else (do
  found ← get_vma_by_num k.mm vmaid
  elim found [
    | none ↦ some (failed, k)
    | some at ↦ get_elem? k.mm.mmap at >>= λ area.
        some (extend_area k at area vmaid (page_align paging64_pagesz inc_sz))
  ])

-- get_vm_area_node_at_brk; the inner `none` is NULL.
unfoldable pub get_vm_area_node_at_brk : Mm → ℕ → ℕ → ℕ → Option (Option Region × Mm)
get_vm_area_node_at_brk mm vmaid size alignedsz = do
  found ← get_vma_by_num mm vmaid
  elim found [
    | none ↦ some (none, mm)
    | some at ↦ get_elem? mm.mmap at >>= λ v.
        let alloc_sz = if alignedsz == 0 then page_align paging_pagesz size else alignedsz in
        let rg_end = u64 (v.sbrk + alloc_sz) in
        if ltb v.vm_end rg_end
        then some (none, mm)
        else some (
          some (record { rg_start = v.sbrk; rg_end = rg_end }),
          record mm { mmap = set mm.mmap at (record v { sbrk = rg_end }) },
        )
  ]

-- __swap_cp_page, with `n` rounds left from cell `cellidx` on. The statuses are not looked at; a
-- byte that could not be read is indeterminate, and writing it is taken for a fault.
unfoldable pub copy_cells : ℕ → ℕ → Memphy → ℕ → Memphy → ℕ → Option (Memphy × Memphy)
copy_cells zero cellidx mpsrc srcfpn mpdst dstfpn = some (mpsrc, mpdst)
copy_cells (suc n) cellidx mpsrc srcfpn mpdst dstfpn =
    memphy_read mpsrc (u64 (srcfpn * paging_pagesz + cellidx)) >>= λ r. r.0 >>= λ byte.
    memphy_write mpdst (u64 (dstfpn * paging_pagesz + cellidx)) byte >>= λ w.
    copy_cells n (cellidx + 1) r.1 srcfpn w.1 dstfpn

unfoldable pub swap_cp_page : Memphy → ℕ → Memphy → ℕ → Option (Memphy × Memphy)
unfolding copy_cells
swap_cp_page mpsrc srcfpn mpdst dstfpn = copy_cells paging_pagesz 0 mpsrc srcfpn mpdst dstfpn

-- __mm_swap_page.
unfoldable pub mm_swap_page : Kernel → ℕ → ℕ → Option (Status × Kernel)
unfolding swap_cp_page
mm_swap_page k vicfpn swpfpn = swap_cp_page k.mram vicfpn k.active_mswp swpfpn >>= λ d.
    some (ok, record k { mram = d.0; active_mswp = d.1 })
