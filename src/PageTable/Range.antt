-- ===== src/PageTable/Range.antt =====
-- src/mm64.c: vmap_page_range maps consecutive pages to the frames of a list.
use mathlib.Core.Path.{subst}
use hdh.Base.{
  ℕ, zero, suc, ◌+◌, ◌*◌, ◌/◌, ◌^◌, ◌≤◌, ◌<◌, ◌≡◌, refl, ap, ◌∙◌, some, List, [], ◌∷◌, All,
  get_elem?, arith,
}
use hdh.Base.Word.{u64, through_int, through_int-small}
use hdh.Pte.{page_present, page_swapped, paging_fpn}
use hdh.Mm.{Mm, enlist_pgn_node}
use hdh.PageTable.{paging64_pagesz, pte_get_entry, pte_set_fpn, map_from, vmap_page_range}
use hdh.PageTable.Entries.{MapsTo, max_pgn, pte_set_fpn-MapsTo}

MapsTo-same :
    (mm mm' : Mm) (q f : ℕ)
    → pte_get_entry mm' q ≡ pte_get_entry mm q
    → MapsTo mm q f
    → MapsTo mm' q f
MapsTo-same mm mm' q f e m = record {
  present = ap page_present e ∙ m.present;
  in_ram = ap page_swapped e ∙ m.in_ram;
  frame = ap paging_fpn e ∙ m.frame;
}

-- The state after one round of the loop.
abbrev round : Mm → ℕ → ℕ → Mm
round mm pgn fpn =
    let mapped = pte_set_fpn mm pgn fpn in
    record mapped { fifo_pgn = enlist_pgn_node mapped.fifo_pgn pgn }

entry-fifo :
    (mm : Mm) (pages : List ℕ) (q : ℕ)
    → pte_get_entry (record mm { fifo_pgn = pages }) q ≡ pte_get_entry mm q
unfolding pte_get_entry
entry-fifo mm pages q = refl

module _ (addr base : ℕ) (aligned : addr ≡ base * paging64_pagesz) where
  page_of_round :
      (pgit : ℕ)
      → base + pgit < max_pgn
      → pgit < 2 ^ 19
      → u64 (addr + through_int (pgit * paging64_pagesz)) / 2 ^ 12 ≡ base + pgit
  page_of_round pgit h few = omega (arith, through_int-small (pgit * paging64_pagesz) (omega arith))

  -- Pages below the round's stay as they are.
  map_from-below :
      (pgnum pgit : ℕ) (mm : Mm) (frames : List ℕ) (q : ℕ)
      → base + pgit + pgnum ≤ max_pgn
      → pgit + pgnum ≤ 2 ^ 19
      → All (λ f. f < 2 ^ 13) frames
      → q < base + pgit
      → pte_get_entry (map_from mm addr pgnum pgit frames) q ≡ pte_get_entry mm q
  unfolding map_from
  map_from-below zero pgit mm frames q h few small below = refl
  map_from-below (suc pgnum) pgit mm [] q h few small below = refl
  map_from-below (suc pgnum) pgit mm (f ∷ frames) q h few small below =
      rw (page_of_round pgit (omega arith) (omega arith)) (
        map_from-below pgnum (pgit + 1) (round mm (base + pgit) f) frames q (omega arith)
          (omega arith) small.1 (omega arith)
        ∙ entry-fifo (pte_set_fpn mm (base + pgit) f) _ q
        ∙ (pte_set_fpn-MapsTo mm (base + pgit) f (omega arith) small.0).1 q (omega arith)
            (omega arith))

  map_from-MapsTo :
      (pgnum pgit : ℕ) (mm : Mm) (frames : List ℕ) (i f : ℕ)
      → base + pgit + pgnum ≤ max_pgn
      → pgit + pgnum ≤ 2 ^ 19
      → All (λ g. g < 2 ^ 13) frames
      → i < pgnum
      → get_elem? frames i ≡ some f
      → MapsTo (map_from mm addr pgnum pgit frames) (base + pgit + i) f
  unfolding map_from
  map_from-MapsTo zero pgit mm frames i f h few small lt e = absurd (omega arith)
  map_from-MapsTo (suc pgnum) pgit mm [] i f h few small lt e = absurd (cc)
  map_from-MapsTo (suc pgnum) pgit mm (g ∷ frames) zero f h few small lt e =
      let same : g ≡ f = ground (arith, e) in
      let here : base + pgit + 0 ≡ base + pgit = omega arith in
      rw (page_of_round pgit (omega arith) (omega arith), here, ← same)
        (MapsTo-same (pte_set_fpn mm (base + pgit) g) _ (base + pgit) g
          (map_from-below pgnum (pgit + 1) (round mm (base + pgit) g) frames (base + pgit)
              (omega arith) (omega arith) small.1 (omega arith)
            ∙ entry-fifo (pte_set_fpn mm (base + pgit) g) _ (base + pgit))
          (pte_set_fpn-MapsTo mm (base + pgit) g (omega arith) small.0).0)
  map_from-MapsTo (suc pgnum) pgit mm (g ∷ frames) (suc i) f h few small lt e =
      let there : base + pgit + suc i ≡ base + (pgit + 1) + i = omega arith in
      rw there (
        map_from-MapsTo pgnum (pgit + 1) _ frames i f (omega arith) (omega arith) small.1
          (omega arith) e)

-- vmap_page_range maps the page `base + i` to the `i`th frame of the list, for every frame that
-- the list has up to the number of pages asked for, and leaves the pages below `base` alone. The
-- address is that of page `base`, the pages lie in the 57-bit space and are at most 2 ^ 19, so that
-- their bytes fit an `int`, and frame numbers fit their field.
pub vmap_page_range-MapsTo :
    (mm : Mm) (addr base pgnum : ℕ) (frames : List ℕ)
    → addr ≡ base * paging64_pagesz
    → base + pgnum ≤ max_pgn
    → pgnum ≤ 2 ^ 19
    → All (λ g. g < 2 ^ 13) frames
    → let mm' = (vmap_page_range mm addr pgnum frames).1 in
      ((i f : ℕ) → i < pgnum → get_elem? frames i ≡ some f → MapsTo mm' (base + i) f)
      × ((q : ℕ) → q < base → pte_get_entry mm' q ≡ pte_get_entry mm q)
unfolding vmap_page_range
vmap_page_range-MapsTo mm addr base pgnum frames aligned h few small =
    let zero_round : base + 0 ≡ base = omega arith in
    (
      λ i f lt e.
          subst (λ b. MapsTo (map_from mm addr pgnum 0 frames) (b + i) f) zero_round
            (map_from-MapsTo addr base aligned pgnum 0 mm frames i f (omega arith) (omega arith)
              small lt e),
      λ q lt.
          map_from-below addr base aligned pgnum 0 mm frames q (omega arith) (omega arith) small
            (omega arith),
    )
