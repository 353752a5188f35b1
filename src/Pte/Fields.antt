-- ===== src/Pte/Fields.antt =====
-- include/mm.h: what the fields of an entry hold after it has been set.
use hdh.Base.{ℕ, ◌-◌, ◌*◌, ◌/◌, ◌%◌, ◌^◌, ◌<◌, ◌≡◌, true, false, arith}
use hdh.Base.Word.{u32, u64}
use hdh.Base.Bits.{
  bit_and-zero, zero-bit_and, bit_or-zero, zero-bit_or, bit_and_assoc, bit_or-bit_and, bit_and_mask,
  bit_and_field, bit_and-shift, bit_or-absorb,
}
use hdh.Pte.{
  page_present, page_swapped, paging_fpn, paging_swp, paging_pgn, paging_offst, mark_fpn, mark_swap,
}

pub ruleset bit_laws =
    (bit_and-zero, zero-bit_and, bit_or-zero, zero-bit_or, bit_and_assoc, bit_or-bit_and)

-- An entry that pte_set_fpn has written says: present, not swapped, in the frame that was given (if
-- its number fits the 13 bits of the field), whatever the entry held before.
pub mark_fpn-fields :
    (pte fpn : ℕ)
    → fpn < 2 ^ 13
    → (page_present (mark_fpn pte fpn) ≡ true)
      × (page_swapped (mark_fpn pte fpn) ≡ false)
      × (paging_fpn (mark_fpn pte fpn) ≡ fpn)
unfolding mark_fpn page_present page_swapped paging_fpn
mark_fpn-fields pte fpn h = (
  simp (bit_laws, bit_or-absorb pte (2 ^ 31)),
  simp bit_laws,
  simp bit_laws (omega (arith, bit_and_mask 13 (u64 (fpn * 1)))),
)

-- An entry that pte_set_swap has written for swap type 0 says: swapped, at the given offset (if it
-- fits 21 bits). It also says present, and as a frame number it reads the offset's low 8 bits
-- times 32, not the frame that the page had.
pub mark_swap-fields :
    (pte swpoff : ℕ)
    → swpoff < 2 ^ 21
    → (page_present (mark_swap pte 0 swpoff) ≡ true)
      × (page_swapped (mark_swap pte 0 swpoff) ≡ true)
      × (paging_swp (mark_swap pte 0 swpoff) ≡ swpoff)
      × (paging_fpn (mark_swap pte 0 swpoff) ≡ swpoff % 256 * 32)
unfolding mark_swap page_present page_swapped paging_fpn paging_swp
mark_swap-fields pte swpoff h = (
  simp (bit_laws, bit_or-absorb pte (2 ^ 31)),
  simp (bit_laws, bit_or-absorb pte (2 ^ 30)),
  simp bit_laws (
      omega (
        arith,
        bit_and_field 5 (2 ^ 21 - 1) (u64 (swpoff * 32)),
        bit_and_mask 21 (u64 (swpoff * 32) / 32),
      )),
  simp bit_laws (
      let e : u64 (swpoff * 32) ≡ swpoff * 32 = omega arith in
      rw e (omega (arith, bit_and-shift 5 swpoff 255, bit_and_mask 8 swpoff))),
)

-- For an address below 2 ^ 22, PAGING_PGN is its quotient and PAGING_OFFST its remainder by 256.
pub paging_pgn-offst :
    (addr : ℕ) → addr < 2 ^ 22 → (paging_pgn addr ≡ addr / 256) × (paging_offst addr ≡ addr % 256)
unfolding paging_pgn paging_offst
paging_pgn-offst addr h = (
  omega (arith, bit_and_field 8 (2 ^ 14 - 1) (u32 addr), bit_and_mask 14 (u32 addr / 256)),
  omega (arith, bit_and_mask 8 (u32 addr)),
)
