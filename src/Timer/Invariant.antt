-- ===== src/Timer/Invariant.antt =====
-- src/timer.c: how the devices stand to the current time, and that the steps of threads keep it.
use mathlib.Core.Option.{some_inj}
use hdh.Base.{
  ℕ, zero, suc, ◌+◌, ◌≤◌, ◌<◌, ◌≡◌, ◌≢◌, ◌⊎◌, inl, inr, refl, ap, ltb, leb, Bool, true, false, some,
  List, [], ◌∷◌, get_elem?, set, arith,
}
use hdh.Base.Word.{u64}
use hdh.Timer.{Device, Stage, Timer, working, waiting, gone, off, scan, release, stopped}
use hdh.Timer.Steps.{AllGone, put}

-- The timer has increased the time and has still to release the device at this place.
abbrev pub late : Stage → ℕ → Bool
late off i = false
late (scan at f e) i = false
late (release at f e) i = leb at i
late stopped i = false

-- The timer has found the device at this place done or finished, and has not increased the time.
abbrev pub passed : Stage → ℕ → Bool
passed off i = false
passed (scan at f e) i = ltb i at
passed (release at f e) i = false
passed stopped i = false

-- What a device can be like at a time.
pub data InTime (time : ℕ) (late passed : Bool) (d : Device) : Type 0 where
  at_work :
      d.phase ≡ working
      → d.done ≡ false
      → d.fsh ≡ false
      → late ≡ false
      → passed ≡ false
      → d.slots ≡ time
      → InTime time late passed d
  arrived :
      d.phase ≡ waiting
      → d.done ≡ true
      → d.fsh ≡ false
      → late ≡ false
      → d.slots ≡ time
      → InTime time late passed d
  held :
      d.phase ≡ waiting
      → d.done ≡ true
      → d.fsh ≡ false
      → late ≡ true
      → u64 (d.slots + 1) ≡ time
      → InTime time late passed d
  released :
      d.phase ≡ waiting
      → d.done ≡ false
      → d.fsh ≡ false
      → late ≡ false
      → passed ≡ false
      → u64 (d.slots + 1) ≡ time
      → InTime time late passed d
  finished : d.phase ≡ gone → d.fsh ≡ true → InTime time late passed d

abbrev pub GoneBelow : ℕ → List Device → Type 0
GoneBelow n l = (i : ℕ) (d : Device) → i < n → get_elem? l i ≡ some d → d.phase ≡ gone

-- What the timer's own variables say of the devices.
abbrev pub Counted : Stage → List Device → Type 0
Counted off l = Unit
Counted (scan at f e) l = (f ≤ e) × (f ≡ e → GoneBelow at l)
Counted (release at f e) l = f ≡ e → AllGone l
Counted stopped l = AllGone l

pub record IsTimed (t : Timer) : Type 0 where
  pub in_time :
      (i : ℕ) (d : Device)
      → get_elem? t.dev_list i ≡ some d
      → InTime t.time (late t.stage i) (passed t.stage i) d
  pub counted : Counted t.stage t.dev_list
  pub stop_last : t.timer_stop ≡ true → AllGone t.dev_list

pub set-cases :
    {A : Type 0} (l : List A) (i k : ℕ) (x y : A)
    → get_elem? (set l i x) k ≡ some y
    → ((k ≡ i) × (x ≡ y)) ⊎ ((k ≢ i) × (get_elem? l k ≡ some y))
set-cases [] i k x y e = absurd (cc)
set-cases (a ∷ l) zero zero x y e = inl (refl, some_inj.0 e)
set-cases (a ∷ l) zero (suc k) x y e = inr (λ h. absurd (omega (arith, h)), e)
set-cases (a ∷ l) (suc i) zero x y e = inr (λ h. absurd (omega (arith, h)), e)
set-cases (a ∷ l) (suc i) (suc k) x y e = elim (set-cases l i k x y e) [
  | inl (h, g) ↦ inl (ap suc h, g)
  | inr (h, g) ↦ inr (λ q. h (omega (arith, q)), g)
]

-- A thread that still works has not been passed by.
GoneBelow-put :
    (n : ℕ) (l : List Device) (i : ℕ) (d new : Device)
    → get_elem? l i ≡ some d
    → d.phase ≢ gone
    → GoneBelow n l
    → GoneBelow n (set l i new)
GoneBelow-put n l i d new e live below k x lt g = elim (set-cases l i k new x g) [
  | inl (same, _) ↦ absurd (live (below i d (omega arith) e))
  | inr (_, old) ↦ below k x lt old
]

AllGone-put :
    (l : List Device) (i : ℕ) (d new : Device)
    → get_elem? l i ≡ some d
    → d.phase ≢ gone
    → AllGone l
    → AllGone (set l i new)
AllGone-put l i d new e live all = absurd (live (all i d e))

Counted-put :
    (s : Stage) (l : List Device) (i : ℕ) (d new : Device)
    → get_elem? l i ≡ some d
    → d.phase ≢ gone
    → Counted s l
    → Counted s (set l i new)
Counted-put off l i d new e live c = tt
Counted-put (scan at f g) l i d new e live c = (c.0, λ q. GoneBelow-put at l i d new e live (c.1 q))
Counted-put (release at f g) l i d new e live c = λ q. AllGone-put l i d new e live (c q)
Counted-put stopped l i d new e live c = AllGone-put l i d new e live c

-- A step of a thread: its device is replaced by one that is in time.
pub put-IsTimed :
    (t : Timer) (i : ℕ) (d new : Device)
    → get_elem? t.dev_list i ≡ some d
    → d.phase ≢ gone
    → IsTimed t
    → InTime t.time (late t.stage i) (passed t.stage i) new
    → IsTimed (put t i new)
put-IsTimed t i d new e live inv ok = record {
  in_time = λ k x g. elim (set-cases t.dev_list i k new x g) [
    | inl (same, is) ↦ rw (same, ← is) ok
    | inr (_, old) ↦ inv.in_time k x old
  ];
  counted = Counted-put t.stage t.dev_list i d new e live inv.counted;
  stop_last = λ s. AllGone-put t.dev_list i d new e live (inv.stop_last s);
}
