-- ===== src/Flat/Agreement.antt =====
-- src/mm64.c implements the array of src/mm.c: the entry that a walk through the five levels reads
-- is the one that the array holds.
use hdh.Base.{
  ℕ, ◌-◌, ◌^◌, ◌≡◌, ◌<◌, ◌≢◌, refl, sym, ap, ◌∙◌, inl, inr, ◌==◌, Bool-cases, ok, update,
  update_self, update-ne, arith, bit_and,
}
use mathlib.Core.Path.{subst}
use hdh.Base.Word.{u32, u64}
use hdh.Base.Bits.{bit_and_mask}
use hdh.Pte.{present_mask, swapped_mask, fpn_mask}
use hdh.Pte.Fields.{bit_laws}
use hdh.Mm.{Mm}
use hdh.PageTable.{get_pd_from_pagenum, write_entry, pte_get_entry, pte_set_fpn, pte_set_swap}
use hdh.PageTable.Entries.{max_pgn, entry_set, entry_other}
use hdh.Pte
use hdh.Flat

u32-bits : (x : ℕ) → u32 x ≡ bit_and x (2 ^ 32 - 1)
u32-bits x = sym (bit_and_mask 32 x)

u64-bits : (x : ℕ) → u64 x ≡ bit_and x (2 ^ 64 - 1)
u64-bits x = sym (bit_and_mask 64 x)

mark_fpn-u32 : (pte fpn : ℕ) → u32 (Pte.mark_fpn pte fpn) ≡ Flat.mark_fpn (u32 pte) fpn
unfolding Pte.mark_fpn Flat.mark_fpn
mark_fpn-u32 pte fpn = simp (bit_laws, u32-bits, u64-bits) refl

mark_swap-u32 :
    (pte swptyp swpoff : ℕ)
    → u32 (Pte.mark_swap pte swptyp swpoff) ≡ Flat.mark_swap (u32 pte) swptyp swpoff
unfolding Pte.mark_swap Flat.mark_swap
mark_swap-u32 pte swptyp swpoff = simp (bit_laws, u32-bits, u64-bits) refl

walk_self :
    (mm : Mm) (pgn : ℕ) (f g : ℕ → ℕ)
    → ((pte : ℕ) → u32 (f pte) ≡ g (u32 pte))
    → pte_get_entry (record mm { pgd = write_entry mm.pgd (get_pd_from_pagenum pgn) f }) pgn
      ≡ g (pte_get_entry mm pgn)
unfolding pte_get_entry
walk_self mm pgn f g agrees = entry_set mm pgn f ∙ agrees _

-- Writing one entry through the walk is an update of the array.
walk-update :
    (mm : Mm) (pgn : ℕ) (f g : ℕ → ℕ)
    → pgn < max_pgn
    → ((pte : ℕ) → u32 (f pte) ≡ g (u32 pte))
    → (q : ℕ) → q < max_pgn
    → pte_get_entry (record mm { pgd = write_entry mm.pgd (get_pd_from_pagenum pgn) f }) q
      ≡ update (pte_get_entry mm) pgn (g (pte_get_entry mm pgn)) q
walk-update mm pgn f g h agrees q hq = elim (Bool-cases (pgn == q)) [
  | inl here ↦
      let same : pgn ≡ q = ground arith in
      subst
        (λ x.
          pte_get_entry (record mm { pgd = write_entry mm.pgd (get_pd_from_pagenum pgn) f }) x
          ≡ update (pte_get_entry mm) pgn (g (pte_get_entry mm pgn)) x)
        same (walk_self mm pgn f g agrees ∙ sym (update_self (pte_get_entry mm) pgn _))
  | inr elsewhere ↦
      let other : q ≢ pgn = λ e. ground arith in
      entry_other mm pgn f h q hq other ∙ sym (update-ne (pte_get_entry mm) pgn q _ other)
]

-- For pages of the 57-bit address space the table of five levels is the array of entries: reading
-- any page after pte_set_fpn or pte_set_swap of src/mm64.c gives what the array of src/mm.c holds
-- after the function of that name, if the array held before what the walk read before.
pub walk-array :
    (mm : Mm) (pgn q : ℕ)
    → pgn < max_pgn
    → q < max_pgn
    → ((fpn : ℕ)
        → pte_get_entry (pte_set_fpn mm pgn fpn) q ≡ Flat.pte_set_fpn (pte_get_entry mm) pgn fpn q)
      × ((swptyp swpoff : ℕ)
          → pte_get_entry (pte_set_swap mm pgn swptyp swpoff) q
            ≡ Flat.pte_set_swap (pte_get_entry mm) pgn swptyp swpoff q)
unfolding pte_set_fpn pte_set_swap Flat.pte_set_fpn Flat.pte_set_swap
walk-array mm pgn q h hq = (
  λ fpn.
      walk-update mm pgn (λ pte. Pte.mark_fpn pte fpn) (λ pte. Flat.mark_fpn pte fpn) h
        (λ pte. mark_fpn-u32 pte fpn) q hq,
  λ swptyp swpoff.
      walk-update mm pgn (λ pte. Pte.mark_swap pte swptyp swpoff)
        (λ pte. Flat.mark_swap pte swptyp swpoff) h (λ pte. mark_swap-u32 pte swptyp swpoff) q hq,
)

-- init_pte writes into 32 bits what the other mode writes into 64, and has the same result.
pub init_pte-u32 :
    (pte pre fpn drt swp swptyp swpoff : ℕ)
    → Flat.init_pte (u32 pte) pre fpn drt swp swptyp swpoff ≡ (
      (Pte.init_pte pte pre fpn drt swp swptyp swpoff).0,
      u32 (Pte.init_pte pte pre fpn drt swp swptyp swpoff).1,
    )
unfolding Pte.init_pte Flat.init_pte
init_pte-u32 pte pre fpn drt swp swptyp swpoff = elim (Bool-cases (pre == 0)) [
  | inl absent ↦ rw absent refl
  | inr present ↦ elim (Bool-cases (swp == 0)) [
    | inl online ↦ elim (Bool-cases (fpn == 0)) [
      | inl no_frame ↦ rw (present, online, no_frame) refl
      | inr frame ↦
          rw (present, online, frame) (ap (λ x. (ok, x)) (simp (bit_laws, u32-bits, u64-bits) refl))
    ]
    | inr swapped ↦
        rw (present, swapped) (ap (λ x. (ok, x)) (simp (bit_laws, u32-bits, u64-bits) refl))
  ]
]
