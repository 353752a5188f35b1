-- ===== src/Flat.antt =====
-- src/mm.c: the page table of the mode without MM64, where `addr_t` has 32 bits and `pgd` is one
-- array of entries. The other functions of that file print that the mode is deprecated and return
-- 0; init_mm is one of them, so nobody allocates the array, and what it holds is an argument.
pub mod Agreement
use hdh.Base.{
  ℕ, ◌+◌, ◌-◌, ◌*◌, ◌^◌, ◌==◌, if◌then◌else◌, Status, ok, failed, bit_and, bit_or, update,
}
use hdh.Base.Word.{u32}
use hdh.Pte.{
  complement, setbit, clrbit, present_mask, swapped_mask, dirty_mask, fpn_mask, swptyp_mask,
  swpoff_mask,
}

-- SETVAL on 32 bits.
abbrev pub setval : ℕ → ℕ → ℕ → ℕ → ℕ
setval v value mask offst =
    bit_or (bit_and v (complement mask)) (bit_and (u32 (value * 2 ^ offst)) mask)

-- What pte_set_fpn and pte_set_swap do to `*pte`.
unfoldable pub mark_fpn : ℕ → ℕ → ℕ
mark_fpn pte fpn = setval (clrbit (setbit pte present_mask) swapped_mask) fpn fpn_mask 0

unfoldable pub mark_swap : ℕ → ℕ → ℕ → ℕ
mark_swap pte swptyp swpoff =
    setval (setval (setbit (setbit pte present_mask) swapped_mask) swptyp swptyp_mask 0) swpoff
      swpoff_mask 5

-- init_pte; `drt` is not read.
unfoldable pub init_pte : ℕ → ℕ → ℕ → ℕ → ℕ → ℕ → ℕ → Status × ℕ
init_pte pte pre fpn drt swp swptyp swpoff =
    if pre == 0
    then (ok, pte)
    else if swp == 0
    then if fpn == 0 then (failed, pte) else (
      ok,
      setval (clrbit (clrbit (setbit pte present_mask) swapped_mask) dirty_mask) fpn fpn_mask 0,
    )
    else (
      ok,
      setval
          (setval (clrbit (setbit (setbit pte present_mask) swapped_mask) dirty_mask) swptyp
            swptyp_mask 0)
          swpoff swpoff_mask 5,
    )

-- `pgd`, by page number.
unfoldable pub pte_set_fpn : (ℕ → ℕ) → ℕ → ℕ → ℕ → ℕ
pte_set_fpn pgd pgn fpn = update pgd pgn (mark_fpn (pgd pgn) fpn)

unfoldable pub pte_set_swap : (ℕ → ℕ) → ℕ → ℕ → ℕ → ℕ → ℕ
pte_set_swap pgd pgn swptyp swpoff = update pgd pgn (mark_swap (pgd pgn) swptyp swpoff)

unfoldable pub pte_set_entry : (ℕ → ℕ) → ℕ → ℕ → ℕ → ℕ
pte_set_entry pgd pgn pte_val = update pgd pgn (u32 pte_val)
