-- ===== src/PageTable/Entries.antt =====
-- src/mm64.c: what the entry functions promise about one page and about every other.
use hdh.Base.{ℕ, ◌-◌, ◌*◌, ◌%◌, ◌^◌, ◌<◌, ◌≡◌, ◌≢◌, refl, sym, ap, ◌∙◌, true, false, bit_and}
use hdh.Base.Word.{u32}
use hdh.Base.Bits.{bit_and_mask, bit_and_assoc}
use hdh.Pte.{page_present, page_swapped, paging_fpn, paging_swp, mark_fpn, mark_swap}
use hdh.Pte.Fields.{mark_fpn-fields, mark_swap-fields}
use hdh.Mm.{Mm}
use hdh.PageTable.{
  get_pd_from_pagenum, write_entry, read_entry, pte_set_fpn, pte_set_swap, pte_get_entry,
}
use hdh.PageTable.Digits.{get_pd_from_pagenum-injective}
use hdh.PageTable.Walk.{read_entry-write_entry, read_entry-other}

-- The cast to `uint32_t` keeps every field.
u32-mask : (x m : ℕ) → bit_and (2 ^ 32 - 1) m ≡ m → bit_and (u32 x) m ≡ bit_and x m
u32-mask x m h =
    ap (λ y. bit_and y m) (sym (bit_and_mask 32 x))
    ∙ bit_and_assoc x (2 ^ 32 - 1) m
    ∙ ap (bit_and x) h

page_present-u32 : (x : ℕ) → page_present (u32 x) ≡ page_present x
unfolding page_present
page_present-u32 x = rw (u32-mask x (2 ^ 31) refl)

page_swapped-u32 : (x : ℕ) → page_swapped (u32 x) ≡ page_swapped x
unfolding page_swapped
page_swapped-u32 x = rw (u32-mask x (2 ^ 30) refl)

paging_fpn-u32 : (x : ℕ) → paging_fpn (u32 x) ≡ paging_fpn x
unfolding paging_fpn
paging_fpn-u32 x = rw (u32-mask x 8191 refl)

paging_swp-u32 : (x : ℕ) → paging_swp (u32 x) ≡ paging_swp x
unfolding paging_swp
paging_swp-u32 x = rw (u32-mask x 67108832 refl)

-- The page is present in the frame.
pub record MapsTo (mm : Mm) (pgn fpn : ℕ) : Type 0 where
  pub present : page_present (pte_get_entry mm pgn) ≡ true
  pub in_ram : page_swapped (pte_get_entry mm pgn) ≡ false
  pub frame : paging_fpn (pte_get_entry mm pgn) ≡ fpn

-- Page numbers of the 57-bit address space.
abbrev pub max_pgn : ℕ
max_pgn = 2 ^ 45

abbrev pub SameElsewhere : Mm → Mm → ℕ → Type 0
SameElsewhere mm mm' pgn =
    (q : ℕ) → q < max_pgn → q ≢ pgn → pte_get_entry mm' q ≡ pte_get_entry mm q

pub entry_set :
    (mm : Mm) (pgn : ℕ) (f : ℕ → ℕ)
    → pte_get_entry (record mm { pgd = write_entry mm.pgd (get_pd_from_pagenum pgn) f }) pgn
      ≡ u32 (f (read_entry mm.pgd (get_pd_from_pagenum pgn)))
unfolding pte_get_entry
entry_set mm pgn f = ap u32 (read_entry-write_entry mm.pgd (get_pd_from_pagenum pgn) f)

pub entry_other :
    (mm : Mm) (pgn : ℕ) (f : ℕ → ℕ)
    → pgn < max_pgn
    → SameElsewhere mm (record mm { pgd = write_entry mm.pgd (get_pd_from_pagenum pgn) f }) pgn
unfolding pte_get_entry
entry_other mm pgn f h q hq ne = ap u32 (
    read_entry-other mm.pgd (get_pd_from_pagenum pgn) (get_pd_from_pagenum q) f
      (λ e. ne (sym (get_pd_from_pagenum-injective pgn q h hq e))))

-- For a page of the 57-bit space and a frame number of 13 bits: after pte_set_fpn the page is
-- present in that frame, whatever its entry was, and every other page's entry is what it was.
pub pte_set_fpn-MapsTo :
    (mm : Mm) (pgn fpn : ℕ)
    → pgn < max_pgn
    → fpn < 2 ^ 13
    → MapsTo (pte_set_fpn mm pgn fpn) pgn fpn × SameElsewhere mm (pte_set_fpn mm pgn fpn) pgn
unfolding pte_set_fpn
pte_set_fpn-MapsTo mm pgn fpn h k =
    let old = read_entry mm.pgd (get_pd_from_pagenum pgn) in
    let (p, s, f) = mark_fpn-fields old fpn k in
    let e = entry_set mm pgn (λ pte. mark_fpn pte fpn) in
    (
      record {
        present = ap page_present e ∙ page_present-u32 (mark_fpn old fpn) ∙ p;
        in_ram = ap page_swapped e ∙ page_swapped-u32 (mark_fpn old fpn) ∙ s;
        frame = ap paging_fpn e ∙ paging_fpn-u32 (mark_fpn old fpn) ∙ f;
      },
      entry_other mm pgn (λ pte. mark_fpn pte fpn) h,
    )

-- For a page of the 57-bit space and an offset of 21 bits: after pte_set_swap with swap type 0
-- the entry is marked as swapped and holds the offset, but it is still marked as present, and the
-- frame that it names is the low 8 bits of the offset times 32; other pages' entries are what
-- they were.
pub pte_set_swap-present :
    (mm : Mm) (pgn swpoff : ℕ)
    → pgn < max_pgn
    → swpoff < 2 ^ 21
    → let mm' = pte_set_swap mm pgn 0 swpoff in
      (page_swapped (pte_get_entry mm' pgn) ≡ true)
      × (paging_swp (pte_get_entry mm' pgn) ≡ swpoff)
      × (page_present (pte_get_entry mm' pgn) ≡ true)
      × (paging_fpn (pte_get_entry mm' pgn) ≡ swpoff % 256 * 32)
      × SameElsewhere mm mm' pgn
unfolding pte_set_swap
pte_set_swap-present mm pgn swpoff h k =
    let old = read_entry mm.pgd (get_pd_from_pagenum pgn) in
    let (p, s, o, f) = mark_swap-fields old swpoff k in
    let e = entry_set mm pgn (λ pte. mark_swap pte 0 swpoff) in
    (
      ap page_swapped e ∙ page_swapped-u32 (mark_swap old 0 swpoff) ∙ s,
      ap paging_swp e ∙ paging_swp-u32 (mark_swap old 0 swpoff) ∙ o,
      ap page_present e ∙ page_present-u32 (mark_swap old 0 swpoff) ∙ p,
      ap paging_fpn e ∙ paging_fpn-u32 (mark_swap old 0 swpoff) ∙ f,
      entry_other mm pgn (λ pte. mark_swap pte 0 swpoff) h,
    )
