-- ===== src/Timer/Phases.antt =====
-- src/timer.c: what a step of timer_routine does to the phases of the threads.
use mathlib.Core.Option.{some_inj}
use mathlib.Core.Path.{subst}
use hdh.Base.{
  ℕ, ◌+◌, ◌≡◌, ◌≢◌, inl, inr, refl, sym, ap, ◌∙◌, ◌==◌, Bool, true, false, ◌||◌, Bool-cases, none,
  some, Option-cases, List, get_elem?, get_elem?-set_self, get_elem?-set_ne, lt-get_elem?, set,
  arith,
}
use hdh.Base.Word.{u64}
use hdh.Timer.{Device, Stage, Timer, working, waiting, off, scan, release, stopped, timer_routine}
use hdh.Timer.Invariant.{InTime, at_work, arrived, held, released, finished, IsTimed, set-cases}
use hdh.Timer.Routine.{at_stage}

-- The same threads, in the same phases and slots.
pub record SamePhases (l l' : List Device) : Type 0 where
  pub forth :
      (i : ℕ) (d : Device)
      → get_elem? l i ≡ some d
      → (d' : Device) × (get_elem? l' i ≡ some d') × (d'.phase ≡ d.phase) × (d'.slots ≡ d.slots)
  pub back :
      (i : ℕ) (d' : Device)
      → get_elem? l' i ≡ some d'
      → (d : Device) × (get_elem? l i ≡ some d) × (d'.phase ≡ d.phase) × (d'.slots ≡ d.slots)

abbrev pub same_phases : (l : List Device) → SamePhases l l
same_phases l = record { forth = λ i d e. (d, e, refl, refl); back = λ i d e. (d, e, refl, refl) }

freed-SamePhases :
    (l : List Device) (at : ℕ) (d : Device)
    → get_elem? l at ≡ some d
    → SamePhases l (set l at (record d { done = false }))
freed-SamePhases l at d e = record {
  forth = λ i x g. elim (Bool-cases (at == i)) [
    | inl same ↦
        let is : at ≡ i = ground arith in
        let one : d ≡ x = some_inj.0 (sym e ∙ ap (get_elem? l) is ∙ g) in
        (
          record d { done = false },
          ap (get_elem? (set l at (record d { done = false }))) (sym is)
              ∙ get_elem?-set_self l at _ (lt-get_elem? l at e),
          ap Device.phase one,
          ap Device.slots one,
        )
    | inr other ↦ (x, get_elem?-set_ne l at i _ (ground arith) ∙ g, refl, refl)
  ];
  back = λ i x g. elim (set-cases l at i (record d { done = false }) x g) [
    | inl (same, is) ↦
        (d, ap (get_elem? l) same ∙ e, sym (ap Device.phase is), sym (ap Device.slots is))
    | inr (_, old) ↦ (x, old, refl, refl)
  ];
}

-- A step of timer_routine within a slot, or the one that ends it.
pub data Ticked (t u : Timer) : Type 0 where
  within : u.time ≡ t.time → SamePhases t.dev_list u.dev_list → Ticked t u
  ended : (f e : ℕ) → u.dev_list ≡ t.dev_list → u.stage ≡ release 0 f e → Ticked t u

pub timer_routine-Ticked :
    (t u : Timer) (s : Stage) → timer_routine (at_stage t s) ≡ some u → Ticked (at_stage t s) u
unfolding timer_routine
timer_routine-Ticked t u off e = absurd (cc)
timer_routine-Ticked t u stopped e = absurd (cc)
timer_routine-Ticked t u (scan at f g) e = elim (Option-cases (get_elem? t.dev_list at)) [
  | inl end ↦
      subst (Ticked (at_stage t (scan at f g))) (some_inj.0 (rw (end, timer_routine) at e))
        (ended f g refl refl)
  | inr (d, it) ↦ elim (Bool-cases (d.done || d.fsh)) [
    | inl ready ↦
        subst (Ticked (at_stage t (scan at f g))) (some_inj.0 (rw (it, ready, timer_routine) at e))
          (within refl (same_phases t.dev_list))
    | inr waits ↦ let stuck : none ≡ some u = rw (it, waits, timer_routine) at e in absurd (cc)
  ]
]
timer_routine-Ticked t u (release at f g) e = elim (Option-cases (get_elem? t.dev_list at)) [
  | inl end ↦
      subst (Ticked (at_stage t (release at f g))) (some_inj.0 (rw (end, timer_routine) at e))
        (within refl (same_phases t.dev_list))
  | inr (d, it) ↦
      subst (Ticked (at_stage t (release at f g))) (some_inj.0 (rw (it, timer_routine) at e))
        (within refl (freed-SamePhases t.dev_list at d it))
]

late_works :
    (time : ℕ) (l p : Bool) (d : Device) → l ≡ true → d.phase ≡ working → InTime time l p d → ⊥
late_works time l p d late w (at_work _ _ _ la _ _) = absurd (cc)
late_works time l p d late w (arrived q _ _ _ _) = absurd (cc)
late_works time l p d late w (held q _ _ _ _) = absurd (cc)
late_works time l p d late w (released q _ _ _ _ _) = absurd (cc)
late_works time l p d late w (finished q _) = absurd (cc)

-- When the time has just been increased, no thread works.
pub ended-none_works :
    (t : Timer) (f e i : ℕ) (d : Device)
    → t.stage ≡ release 0 f e
    → IsTimed t
    → get_elem? t.dev_list i ≡ some d
    → d.phase ≢ working
ended-none_works t f e i d s inv at w =
    let timed = inv.in_time i d at in late_works t.time _ _ d (ground (arith, s)) w timed

pub next_slot_ne : (s time : ℕ) → u64 (s + 1) ≡ time → s ≢ time
next_slot_ne s time e h = absurd (omega arith)

behind :
    (time : ℕ) (l p : Bool) (d : Device)
    → d.phase ≡ waiting
    → d.done ≡ false
    → InTime time l p d
    → d.slots ≢ time
behind time l p d w free (at_work q _ _ _ _ _) = absurd (cc)
behind time l p d w free (arrived _ dn _ _ _) = absurd (cc)
behind time l p d w free (held _ dn _ _ _) = absurd (cc)
behind time l p d w free (released _ _ _ _ _ s) = next_slot_ne d.slots time s
behind time l p d w free (finished q _) = absurd (cc)

-- A thread that can leave next_slot has waited since an earlier slot.
pub released-behind :
    (t : Timer) (i : ℕ) (d : Device)
    → IsTimed t
    → get_elem? t.dev_list i ≡ some d
    → d.phase ≡ waiting
    → d.done ≡ false
    → d.slots ≢ t.time
released-behind t i d inv at w free = behind t.time _ _ d w free (inv.in_time i d at)
