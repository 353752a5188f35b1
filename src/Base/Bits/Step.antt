-- ===== src/Base/Bits/Step.antt =====
-- The lowest digit of `&` and `|`, and what is above it.
use Prim.Native.Nat.{
  digits, bit_and-bitwise, bit_or-bitwise, bit_and, bit_or, max, min, ◌≤◌, ◌%◌, ◌/◌, suc, zero, ℕ,
}
use mathlib.Core.Path.{◌≡◌, refl}
use native.Mathlib.Omega.{arith}

module _ (above : ℕ → ℕ) (digit : ℕ → ℕ → ℕ) where
  -- The number of rounds does not matter once it is not smaller than the first argument.
  rounds_enough :
      (x y rounds others : ℕ)
      → x ≤ others
      → x ≤ rounds
      → digits above digit rounds x y ≡ digits above digit others x y
  rounds_enough zero y zero zero le_others le_rounds = refl
  rounds_enough zero y zero (suc others) le_others le_rounds = refl
  rounds_enough zero y (suc rounds) zero le_others le_rounds = refl
  rounds_enough zero y (suc rounds) (suc others) le_others le_rounds = refl
  rounds_enough (suc x) y zero others le_others le_rounds = absurd (omega arith)
  rounds_enough (suc x) y (suc rounds) zero le_others le_rounds = absurd (omega arith)
  rounds_enough (suc x) y (suc rounds) (suc others) le_others le_rounds =
      rw (rounds_enough (suc x / 2) (y / 2) rounds others (omega arith) (omega arith))

  one_round :
      (x y : ℕ)
      → digits above digit x (suc x / 2) (y / 2)
        ≡ digits above digit (suc x / 2) (suc x / 2) (y / 2)
  one_round x y = rounds_enough (suc x / 2) (y / 2) x (suc x / 2) (omega arith) (omega arith)

-- Both parts of a conjunction of digits.
split_and :
    (x y : ℕ)
    → (bit_and x y / 2 ≡ bit_and (x / 2) (y / 2)) × (bit_and x y % 2 ≡ min (x % 2) (y % 2))
split_and zero y = (simp bit_and-bitwise (omega arith), simp bit_and-bitwise (omega arith))
split_and (suc x) y = (
  simp bit_and-bitwise (omega (arith, one_round (λ _. 0) min x y)),
  simp bit_and-bitwise (omega (arith, one_round (λ _. 0) min x y)),
)

split_or :
    (x y : ℕ) → (bit_or x y / 2 ≡ bit_or (x / 2) (y / 2)) × (bit_or x y % 2 ≡ max (x % 2) (y % 2))
split_or zero y = (simp bit_or-bitwise (omega arith), simp bit_or-bitwise (omega arith))
split_or (suc x) y = (
  simp bit_or-bitwise (omega (arith, one_round (λ rest. rest) max x y)),
  simp bit_or-bitwise (omega (arith, one_round (λ rest. rest) max x y)),
)

pub half-bit_and : (x y : ℕ) → bit_and x y / 2 ≡ bit_and (x / 2) (y / 2)
half-bit_and x y = (split_and x y).0

pub parity-bit_and : (x y : ℕ) → bit_and x y % 2 ≡ min (x % 2) (y % 2)
parity-bit_and x y = (split_and x y).1

pub half-bit_or : (x y : ℕ) → bit_or x y / 2 ≡ bit_or (x / 2) (y / 2)
half-bit_or x y = (split_or x y).0

pub parity-bit_or : (x y : ℕ) → bit_or x y % 2 ≡ max (x % 2) (y % 2)
parity-bit_or x y = (split_or x y).1
