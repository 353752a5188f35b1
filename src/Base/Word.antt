-- ===== src/Base/Word.antt =====
-- Machine words: `uint32_t` and `uint64_t` (`addr_t`) arithmetic wraps, and an `addr_t` that passes
-- through an `int` is cut to 32 bits and sign-extended again.
use Prim.Native.Nat.{ℕ, ◌+◌, ◌-◌, ◌%◌, ◌^◌, ◌<◌}
use mathlib.Core.Path.{◌≡◌}
use native.Mathlib.Omega.{arith}
use hdh.Base.Tests.{ltb, if◌then◌else◌}

abbrev pub u32 : ℕ → ℕ
u32 x = x % 2 ^ 32

abbrev pub u64 : ℕ → ℕ
u64 x = x % 2 ^ 64

-- `(addr_t)(int)x`.
abbrev pub through_int : ℕ → ℕ
through_int x = if ltb (u32 x) (2 ^ 31) then u32 x else u32 x + (2 ^ 64 - 2 ^ 32)

pub through_int-small : (x : ℕ) → x < 2 ^ 31 → through_int x ≡ x
through_int-small x h = ground arith
