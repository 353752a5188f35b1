-- ===== src/Timer/Ticks.antt =====
-- src/timer.c: the steps of timer_routine keep every device in time.
use hdh.Base.{
  ℕ, zero, suc, ◌+◌, ◌<◌, ◌≡◌, inl, inr, refl, sym, ap, ◌∙◌, ltb, leb, true, false, ◌||◌,
  Bool-cases, none, some, List, [], ◌∷◌, get_elem?, set, arith,
}
use hdh.Base.Word.{u64}
use hdh.Timer.{Device}
use hdh.Timer.Steps.{AllGone}
use hdh.Timer.Invariant.{InTime, at_work, arrived, held, released, finished, set-cases}

pub lt-get_elem?-none :
    (l : List Device) (at i : ℕ) (d : Device)
    → get_elem? l at ≡ none
    → get_elem? l i ≡ some d
    → i < at
lt-get_elem?-none [] at i d h e = absurd (cc)
lt-get_elem?-none (x ∷ l) zero i d h e = absurd (cc)
lt-get_elem?-none (x ∷ l) (suc at) zero d h e = omega arith
lt-get_elem?-none (x ∷ l) (suc at) (suc i) d h e = omega (arith, lt-get_elem?-none l at i d h e)

not_passed :
    (i at : ℕ) (x : Device)
    → x.done ≡ false
    → x.fsh ≡ false
    → ltb i at ≡ false
    → (i ≡ at → (x.done || x.fsh) ≡ true)
    → ltb i (at + 1) ≡ false
not_passed i at x dn fs before seen = elim (Bool-cases (ltb i (at + 1))) [
  | inl now ↦ let here : i ≡ at = ground arith in absurd (ground (arith, seen here, dn, fs))
  | inr later ↦ later
]

-- The timer passes a device that is done or has finished.
pub pass-InTime :
    (time i at : ℕ) (x : Device)
    → (i ≡ at → (x.done || x.fsh) ≡ true)
    → InTime time false (ltb i at) x
    → InTime time false (ltb i (at + 1)) x
pass-InTime time i at x seen (at_work p dn fs l b s) =
    at_work p dn fs l (not_passed i at x dn fs b seen) s
pass-InTime time i at x seen (arrived p dn fs l s) = arrived p dn fs l s
pass-InTime time i at x seen (held p dn fs l s) = absurd (cc)
pass-InTime time i at x seen (released p dn fs l b s) =
    released p dn fs l (not_passed i at x dn fs b seen) s
pass-InTime time i at x seen (finished p fs) = finished p fs

-- The time goes on when all devices have been passed.
pub time-InTime :
    (time i at : ℕ) (x : Device)
    → i < at
    → InTime time false (ltb i at) x
    → InTime (u64 (time + 1)) (leb 0 i) false x
time-InTime time i at x lt (at_work p dn fs l b s) = absurd (ground arith)
time-InTime time i at x lt (arrived p dn fs l s) =
    held p dn fs (ground arith) (ap (λ n. u64 (n + 1)) s)
time-InTime time i at x lt (held p dn fs l s) = absurd (cc)
time-InTime time i at x lt (released p dn fs l b s) = absurd (ground arith)
time-InTime time i at x lt (finished p fs) = finished p fs

-- The device that is released.
pub release-InTime :
    (time at : ℕ) (x : Device)
    → InTime time (leb at at) false x
    → InTime time (leb (at + 1) at) false (record x { done = false })
release-InTime time at x (at_work p dn fs l b s) = absurd (ground arith)
release-InTime time at x (arrived p dn fs l s) = absurd (ground arith)
release-InTime time at x (held p dn fs l s) = released p refl fs (ground arith) refl s
release-InTime time at x (released p dn fs l b s) = absurd (ground arith)
release-InTime time at x (finished p fs) = finished p fs

pub AllGone-same :
    (l : List Device) (i : ℕ) (d new : Device)
    → get_elem? l i ≡ some d
    → new.phase ≡ d.phase
    → AllGone l
    → AllGone (set l i new)
AllGone-same l i d new e same all k x g = elim (set-cases l i k new x g) [
  | inl (_, is) ↦ ap Device.phase (sym is) ∙ same ∙ all i d e
  | inr (_, old) ↦ all k x old
]
