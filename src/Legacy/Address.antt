-- ===== src/Legacy/Address.antt =====
-- src/mem.c: the three parts of an address.
use hdh.Base.{ℕ, ◌+◌, ◌*◌, ◌/◌, ◌%◌, ◌^◌, ◌<◌, ◌≡◌, arith}
use hdh.Base.Bits.{bit_and_mask}
use hdh.Legacy.{get_offset, get_first_lv, get_second_lv}

get_offset_lem : (addr : ℕ) → get_offset addr ≡ addr % 1024
unfolding get_offset
get_offset_lem addr = bit_and_mask 10 addr

get_second_lv_lem : (addr : ℕ) → addr < 2 ^ 64 → get_second_lv addr ≡ addr / 1024 % 32
unfolding get_second_lv get_first_lv
get_second_lv_lem addr h = omega arith

-- An address of 64 bits is made up of the indices of the first and of the second level and of the
-- offset, which are below 32 and 1024 but for the first.
pub get_lv-offset :
    (addr : ℕ)
    → addr < 2 ^ 64
    → (get_first_lv addr * 2 ^ 15 + get_second_lv addr * 2 ^ 10 + get_offset addr ≡ addr)
      × (get_second_lv addr < 2 ^ 5)
      × (get_offset addr < 2 ^ 10)
unfolding get_first_lv
get_lv-offset addr h =
    let low = get_offset_lem addr in
    let middle = get_second_lv_lem addr h in (omega arith, omega arith, omega arith)
