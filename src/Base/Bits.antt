-- ===== src/Base/Bits.antt =====
-- `&` and `|` at variables: the laws from which the page-table macros are computed.
mod Step
use Step.{half-bit_and, parity-bit_and, half-bit_or, parity-bit_or}
use Prim.Native.Nat.{
  ℕ, zero, suc, ◌+◌, ◌-◌, ◌*◌, ◌/◌, ◌%◌, ◌^◌, ◌≤◌, ◌<◌, min, max, bit_and, bit_or, bit_and-bitwise,
  bit_or-bitwise,
}
use mathlib.Core.Path.{◌≡◌, refl, ap, ap₂, sym, ◌∙◌}
use native.Mathlib.Nat.{
  pow-suc, pow-succ', one-le-pow, mod-eq_of_lt, mod-lt, mod-one, mul-one, div-one, div-add-mod,
  add-mul-mod_self_left, div-div-eq-div-mul,
}
use native.Mathlib.Omega.{arith}

from_digits : {a b : ℕ} → a / 2 ≡ b / 2 → a % 2 ≡ b % 2 → a ≡ b
from_digits h p = omega arith

-- Each law goes from halves to wholes; `n` bounds the arguments.
bit_and-zero_upto : (n a : ℕ) → a ≤ n → bit_and a 0 ≡ 0
bit_and-zero_upto n zero h = refl
bit_and-zero_upto zero (suc a) h = absurd (omega arith)
bit_and-zero_upto (suc n) (suc a) h =
    from_digits (half-bit_and (suc a) 0 ∙ bit_and-zero_upto n (suc a / 2) (omega arith))
      (omega (arith, parity-bit_and (suc a) 0))

pub bit_and-zero : (a : ℕ) → bit_and a 0 ≡ 0
bit_and-zero a = bit_and-zero_upto a a (omega arith)

pub zero-bit_and : (a : ℕ) → bit_and 0 a ≡ 0
zero-bit_and a = bit_and-bitwise 0 a

bit_or-zero_upto : (n a : ℕ) → a ≤ n → bit_or a 0 ≡ a
bit_or-zero_upto n zero h = refl
bit_or-zero_upto zero (suc a) h = absurd (omega arith)
bit_or-zero_upto (suc n) (suc a) h =
    from_digits (half-bit_or (suc a) 0 ∙ bit_or-zero_upto n (suc a / 2) (omega arith))
      (omega (arith, parity-bit_or (suc a) 0))

pub bit_or-zero : (a : ℕ) → bit_or a 0 ≡ a
bit_or-zero a = bit_or-zero_upto a a (omega arith)

pub zero-bit_or : (a : ℕ) → bit_or 0 a ≡ a
zero-bit_or a = bit_or-bitwise 0 a

bit_and_assoc_upto : (n a b c : ℕ) → a ≤ n → bit_and (bit_and a b) c ≡ bit_and a (bit_and b c)
bit_and_assoc_upto n zero b c h = rw (zero-bit_and b, zero-bit_and c, zero-bit_and (bit_and b c))
bit_and_assoc_upto zero (suc a) b c h = absurd (omega arith)
bit_and_assoc_upto (suc n) (suc a) b c h =
    from_digits
      (rw (half-bit_and (bit_and (suc a) b) c, half-bit_and (suc a) b)
        (rw (half-bit_and (suc a) (bit_and b c), half-bit_and b c)
          (bit_and_assoc_upto n (suc a / 2) (b / 2) (c / 2) (omega arith))))
      (omega (
        arith,
        parity-bit_and (bit_and (suc a) b) c,
        parity-bit_and (suc a) b,
        parity-bit_and (suc a) (bit_and b c),
        parity-bit_and b c,
      ))

pub bit_and_assoc : (a b c : ℕ) → bit_and (bit_and a b) c ≡ bit_and a (bit_and b c)
bit_and_assoc a b c = bit_and_assoc_upto a a b c (omega arith)

bit_or-bit_and_upto :
    (n a b c : ℕ) → a ≤ n → b ≤ n → bit_and (bit_or a b) c ≡ bit_or (bit_and a c) (bit_and b c)
bit_or-bit_and_upto zero a b c h k =
    let e : a ≡ 0 = omega arith in
    let d : b ≡ 0 = omega arith in rw (e, d, zero-bit_or 0, zero-bit_and c, zero-bit_or 0)
bit_or-bit_and_upto (suc n) a b c h k =
    from_digits
      (rw (half-bit_and (bit_or a b) c, half-bit_or a b)
        (rw (half-bit_or (bit_and a c) (bit_and b c), half-bit_and a c, half-bit_and b c)
          (bit_or-bit_and_upto n (a / 2) (b / 2) (c / 2) (omega arith) (omega arith))))
      (omega (
        arith,
        parity-bit_and (bit_or a b) c,
        parity-bit_or a b,
        parity-bit_or (bit_and a c) (bit_and b c),
        parity-bit_and a c,
        parity-bit_and b c,
      ))

pub bit_or-bit_and : (a b c : ℕ) → bit_and (bit_or a b) c ≡ bit_or (bit_and a c) (bit_and b c)
bit_or-bit_and a b c = bit_or-bit_and_upto (a + b) a b c (omega arith) (omega arith)

two-pow-pos : (k : ℕ) → 0 < 2 ^ k
two-pow-pos k = one-le-pow k 2 (omega arith)

mod_two_mul : (m a : ℕ) → 0 < m → a % (m * 2) ≡ a / 2 % m * 2 + a % 2
mod_two_mul m a h =
    ap (λ (t : ℕ). t % (m * 2)) regroup
    ∙ add-mul-mod_self_left (a / 2 % m * 2 + a % 2) (m * 2) (a / 2 / m)
    ∙ mod-eq_of_lt (omega (arith, mod-lt (a / 2) h))
  where
    regroup : a ≡ a / 2 % m * 2 + a % 2 + m * 2 * (a / 2 / m)
    regroup = omega (arith, div-add-mod (a / 2) m)

-- A mask of `k` low ones is the remainder by `2 ^ k`.
pub bit_and_mask : (k a : ℕ) → bit_and a (2 ^ k - 1) ≡ a % 2 ^ k
bit_and_mask zero a = bit_and-zero a ∙ sym (mod-one a)
bit_and_mask (suc k) a = rw (pow-suc 2 k) (
    from_digits
      (half-bit_and a (2 ^ k * 2 - 1)
        ∙ ap (λ m. bit_and (a / 2) m) (omega (arith, two-pow-pos k))
        ∙ bit_and_mask k (a / 2)
        ∙ omega (arith, mod_two_mul (2 ^ k) a (two-pow-pos k)))
      (omega (
        arith,
        mod_two_mul (2 ^ k) a (two-pow-pos k),
        parity-bit_and a (2 ^ k * 2 - 1),
        two-pow-pos k,
      )))

-- A mask shifted up cuts out a field.
pub bit_and_field : (k m a : ℕ) → bit_and a (m * 2 ^ k) / 2 ^ k ≡ bit_and (a / 2 ^ k) m
bit_and_field zero m a = div-one (bit_and a (m * 1)) ∙ ap₂ bit_and (sym (div-one a)) (omega arith)
bit_and_field (suc k) m a = rw (pow-succ' 2 k) (
    rw
      (
        ← div-div-eq-div-mul (bit_and a (m * (2 * 2 ^ k))) 2 (2 ^ k),
        ← div-div-eq-div-mul a 2 (2 ^ k),
      )
      (ap (λ (t : ℕ). t / 2 ^ k)
          (half-bit_and a (m * (2 * 2 ^ k)) ∙ ap (λ t. bit_and (a / 2) t) (omega arith))
        ∙ bit_and_field k m (a / 2)))

-- A common shift comes out.
pub bit_and-shift : (k a m : ℕ) → bit_and (a * 2 ^ k) (m * 2 ^ k) ≡ bit_and a m * 2 ^ k
bit_and-shift zero a m = ap₂ bit_and (mul-one a) (mul-one m) ∙ sym (mul-one (bit_and a m))
bit_and-shift (suc k) a m = rw (pow-suc 2 k) (
    from_digits
      (half-bit_and (a * (2 ^ k * 2)) (m * (2 ^ k * 2))
        ∙ ap₂ bit_and (omega arith) (omega arith)
        ∙ bit_and-shift k a m
        ∙ omega arith)
      (omega (arith, parity-bit_and (a * (2 ^ k * 2)) (m * (2 ^ k * 2)))))

absorb_upto : (n a m : ℕ) → a ≤ n → m ≤ n → bit_or (bit_and a m) m ≡ m
absorb_upto zero a m h k =
    let e : a ≡ 0 = omega arith in
    let d : m ≡ 0 = omega arith in rw (e, d, zero-bit_and 0, zero-bit_or 0)
absorb_upto (suc n) a m h k =
    from_digits
      (rw (half-bit_or (bit_and a m) m, half-bit_and a m)
        (absorb_upto n (a / 2) (m / 2) (omega arith) (omega arith)))
      (omega (arith, parity-bit_or (bit_and a m) m, parity-bit_and a m))

-- Bits that are set already may be set again.
pub bit_or-absorb : (a m : ℕ) → bit_or (bit_and a m) m ≡ m
bit_or-absorb a m = absorb_upto (a + m) a m (omega arith) (omega arith)
