-- ===== src/Base/Arrays.antt =====
-- Fixed C arrays as functions of the index; the code checks an index before it is used.
use Prim.Native.Nat.{ℕ}
use mathlib.Core.Path.{◌≡◌, sym}
use mathlib.Core.Logic.{◌≢◌}
use hdh.Base.Tests.{◌==◌, ==_self, ==_ne, if◌then◌else◌}

-- One entry of an array is written.
abbrev pub update {ℓ} : {A : Type ℓ} → (ℕ → A) → ℕ → A → ℕ → A
update f i a j = if i == j then a else f j

pub update_self {ℓ} : {A : Type ℓ} (f : ℕ → A) (i : ℕ) (a : A) → update f i a i ≡ a
update_self f i a = rw (==_self i)

pub update-ne {ℓ} : {A : Type ℓ} (f : ℕ → A) (i k : ℕ) (a : A) → k ≢ i → update f i a k ≡ f k
update-ne f i k a h = rw (==_ne i k (λ e. h (sym e)))
