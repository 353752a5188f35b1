-- ===== src/Examples/Tables.antt =====
-- The theorems on the page tables of src/mm64.c and on the macros of include/mm.h.
use hdh.Base.{
  ℕ, ◌+◌, ◌*◌, ◌/◌, ◌%◌, ◌≡◌, ◌≢◌, ◌<◌, ap, refl, some, true, false, [], ◌∷◌, get_elem?, arith,
}
use hdh.Pte.{page_present, page_swapped, paging_fpn, paging_swp, paging_pgn, paging_offst, mark_fpn}
use hdh.Pte.Fields.{mark_fpn-fields, paging_pgn-offst}
use hdh.Mm.{Mm, init_mm}
use hdh.PageTable.{Indices, pte_set_fpn, pte_set_swap, pte_get_entry, vmap_page_range}
use hdh.PageTable.Entries.{MapsTo, SameElsewhere, pte_set_fpn-MapsTo, pte_set_swap-present}
use hdh.PageTable.Range.{vmap_page_range-MapsTo}

mark_fpn-fields_example :
    (page_present (mark_fpn 0 5) ≡ true)
    × (page_swapped (mark_fpn 0 5) ≡ false)
    × (paging_fpn (mark_fpn 0 5) ≡ 5)
mark_fpn-fields_example = mark_fpn-fields 0 5 (omega arith)

paging_pgn-offst_example : (paging_pgn 5000 ≡ 5000 / 256) × (paging_offst 5000 ≡ 5000 % 256)
paging_pgn-offst_example = paging_pgn-offst 5000 (omega arith)

abbrev indices : ℕ → Indices
indices pt = record { pgd = 0; p4d = 0; pud = 0; pmd = 1; pt = pt }

indices_ne : indices 4 ≢ indices 5
indices_ne e = absurd (omega (arith, ap (λ (i : Indices). i.pt) e))

pte_set_swap-present_example :
    (page_swapped (pte_get_entry (pte_set_swap (init_mm []) 600 0 3) 600) ≡ true)
    × (paging_swp (pte_get_entry (pte_set_swap (init_mm []) 600 0 3) 600) ≡ 3)
    × (page_present (pte_get_entry (pte_set_swap (init_mm []) 600 0 3) 600) ≡ true)
    × (paging_fpn (pte_get_entry (pte_set_swap (init_mm []) 600 0 3) 600) ≡ 3 % 256 * 32)
    × SameElsewhere (init_mm []) (pte_set_swap (init_mm []) 600 0 3) 600
pte_set_swap-present_example = pte_set_swap-present (init_mm []) 600 3 (omega arith) (omega arith)

pte_set_fpn-MapsTo_example :
    MapsTo (pte_set_fpn (init_mm []) 600 5) 600 5
    × SameElsewhere (init_mm []) (pte_set_fpn (init_mm []) 600 5) 600
pte_set_fpn-MapsTo_example = pte_set_fpn-MapsTo (init_mm []) 600 5 (omega arith) (omega arith)

abbrev mapped_two : Mm
mapped_two = (vmap_page_range (init_mm []) (600 * 4096) 2 (6 ∷ 5 ∷ [])).1

vmap_page_range-MapsTo_example :
    ((i f : ℕ) → i < 2 → get_elem? (6 ∷ 5 ∷ []) i ≡ some f → MapsTo mapped_two (600 + i) f)
    × ((q : ℕ) → q < 600 → pte_get_entry mapped_two q ≡ pte_get_entry (init_mm []) q)
vmap_page_range-MapsTo_example =
    vmap_page_range-MapsTo (init_mm []) (600 * 4096) 600 2 (6 ∷ 5 ∷ []) refl (omega arith)
      (omega arith) (omega arith, (omega arith, tt))
