-- ===== src/Pte.antt =====
-- include/mm.h and include/bitops.h: the masks and macros of page-table entries and addresses, and
-- init_pte of src/mm64.c. An entry is a `uint64_t` that holds 32-bit fields; the masks are `1U`
-- and `~0U` shifted, hence 32 bits wide.
pub mod Fields
use hdh.Base.{
  ℕ, ◌+◌, ◌-◌, ◌*◌, ◌/◌, ◌^◌, ◌==◌, if◌then◌else◌, Bool, not, Status, ok, failed, bit_and, bit_or,
}
use hdh.Base.Word.{u32, u64}

-- BIT(nr), and GENMASK(h, l) with BITS_PER_LONG = 32 (CONFIG64 is not defined).
abbrev pub bit : ℕ → ℕ
bit nr = 2 ^ nr

abbrev pub genmask : ℕ → ℕ → ℕ
genmask h l = bit_and (u32 ((2 ^ 32 - 1) * 2 ^ l)) ((2 ^ 32 - 1) / 2 ^ (32 - h - 1))

-- `~mask` of a 32-bit mask.
abbrev pub complement : ℕ → ℕ
complement mask = 2 ^ 32 - 1 - mask

abbrev pub setbit : ℕ → ℕ → ℕ
setbit v mask = bit_or v mask

abbrev pub clrbit : ℕ → ℕ → ℕ
clrbit v mask = bit_and v (complement mask)

abbrev pub setval : ℕ → ℕ → ℕ → ℕ → ℕ
setval v value mask offst =
    bit_or (bit_and v (complement mask)) (bit_and (u64 (value * 2 ^ offst)) mask)

abbrev pub getval : ℕ → ℕ → ℕ → ℕ
getval v mask offst = bit_and v mask / 2 ^ offst

abbrev pub present_mask : ℕ
present_mask = bit 31

abbrev pub swapped_mask : ℕ
swapped_mask = bit 30

abbrev pub dirty_mask : ℕ
dirty_mask = bit 28

abbrev pub fpn_mask : ℕ
fpn_mask = genmask 12 0

abbrev pub swptyp_mask : ℕ
swptyp_mask = genmask 4 0

abbrev pub swpoff_mask : ℕ
swpoff_mask = genmask 25 5

-- PAGING_PAGE_PRESENT, and the swapped bit, for which there is no such macro.
unfoldable pub page_present : ℕ → Bool
page_present pte = not (bit_and pte present_mask == 0)

unfoldable pub page_swapped : ℕ → Bool
page_swapped pte = not (bit_and pte swapped_mask == 0)

-- PAGING_FPN and PAGING_SWP of an entry.
unfoldable pub paging_fpn : ℕ → ℕ
paging_fpn pte = getval pte fpn_mask 0

unfoldable pub paging_swp : ℕ → ℕ
paging_swp pte = bit_and pte swpoff_mask / 2 ^ 5

-- PAGING_PGN and PAGING_OFFST of an address that is an `int`: bits 8 to 21, and bits 0 to 7.
unfoldable pub paging_pgn : ℕ → ℕ
paging_pgn addr = getval (u32 addr) (genmask 21 8) 8

unfoldable pub paging_offst : ℕ → ℕ
paging_offst addr = getval (u32 addr) (genmask 7 0) 0

-- What pte_set_fpn and pte_set_swap do to `*pte`.
unfoldable pub mark_fpn : ℕ → ℕ → ℕ
mark_fpn pte fpn = setval (clrbit (setbit pte present_mask) swapped_mask) fpn fpn_mask 0

unfoldable pub mark_swap : ℕ → ℕ → ℕ → ℕ
mark_swap pte swptyp swpoff =
    setval (setval (setbit (setbit pte present_mask) swapped_mask) swptyp swptyp_mask 0) swpoff
      swpoff_mask 5

-- init_pte; `drt` is not read.
unfoldable pub init_pte : ℕ → ℕ → ℕ → ℕ → ℕ → ℕ → ℕ → Status × ℕ
init_pte pte pre fpn drt swp swptyp swpoff =
    if pre == 0
    then (ok, pte)
    else if swp == 0
    then if fpn == 0 then (failed, pte) else (
      ok,
      setval (clrbit (clrbit (setbit pte present_mask) swapped_mask) dirty_mask) fpn fpn_mask 0,
    )
    else (
      ok,
      setval
          (setval (clrbit (setbit (setbit pte present_mask) swapped_mask) dirty_mask) swptyp
            swptyp_mask 0)
          swpoff swpoff_mask 5,
    )
