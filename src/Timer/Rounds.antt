-- ===== src/Timer/Rounds.antt =====
-- src/timer.c: the timer never blocks for good. While it waits for a device, that device's thread
-- can go on; and once every device is done or has finished, the timer by itself ends the round.
use mathlib.Core.Option.{some_inj}
use hdh.Base.{
  ℕ, ◌+◌, ◌≡◌, ◌≢◌, ◌⊎◌, inl, inr, refl, ap, ◌∙◌, ◌==◌, if◌then◌else◌, Bool, true, false, ◌||◌,
  Bool-cases, none, some, Option-cases, get_elem?, set, arith,
}
use hdh.Base.Word.{u64}
use hdh.Timer.{
  Device, Stage, Timer, working, off, scan, release, stopped, loop_head, timer_routine, begin_slot,
  start_timer, stop_timer,
}
use hdh.Timer.Steps.{Step, tick, arrive, leave, detach, stop, Reach, here, next}
use hdh.Timer.Invariant.{InTime, at_work, arrived, held, released, finished, IsTimed}
use hdh.Timer.Routine.{at_stage}
use hdh.Timer.Barrier.{attached, start_timer-IsTimed, Reach-IsTimed}

-- What each step of the timer's thread does.
pub tick_pass :
    (t : Timer) (at f e : ℕ) (d : Device)
    → get_elem? t.dev_list at ≡ some d
    → (d.done || d.fsh) ≡ true
    → timer_routine (at_stage t (scan at f e))
      ≡ some (at_stage t (scan (at + 1) (if d.fsh then f + 1 else f) (e + 1)))
unfolding timer_routine
tick_pass t at f e d it ready = rw (timer_routine, it, ready) refl

pub tick_time :
    (t : Timer) (at f e : ℕ)
    → get_elem? t.dev_list at ≡ none
    → timer_routine (at_stage t (scan at f e))
      ≡ some (record t { time = u64 (t.time + 1); stage = release 0 f e })
unfolding timer_routine
tick_time t at f e end = rw (timer_routine, end) refl

pub tick_release :
    (t : Timer) (at f e : ℕ) (d : Device)
    → get_elem? t.dev_list at ≡ some d
    → timer_routine (at_stage t (release at f e))
      ≡ some (record t {
        dev_list = set t.dev_list at (record d { done = false });
        stage = release (at + 1) f e;
      })
unfolding timer_routine
tick_release t at f e d it = rw (timer_routine, it) refl

pub tick_head :
    (t : Timer) (at f e : ℕ)
    → get_elem? t.dev_list at ≡ none
    → timer_routine (at_stage t (release at f e))
      ≡ some (at_stage t (if f == e then stopped else loop_head t.timer_stop))
unfolding timer_routine
tick_head t at f e end = rw (timer_routine, end) refl

-- A device for which the timer waits: its thread has a step.
thread_can_go :
    (t : Timer) (i : ℕ) (d : Device) {time : ℕ} {l p : Bool}
    → get_elem? t.dev_list i ≡ some d
    → (d.done || d.fsh) ≡ false
    → InTime time l p d
    → (u : Timer) × Step t u
unfolding begin_slot
thread_can_go t i d e no_wait (at_work w _ _ _ _ _) = (_, arrive i d e w)
thread_can_go t i d e no_wait (arrived _ dn _ _ _) = absurd (ground (arith, no_wait, dn))
thread_can_go t i d e no_wait (held _ dn _ _ _) = absurd (ground (arith, no_wait, dn))
thread_can_go t i d e no_wait (released w dn _ _ _ _) =
    let go : begin_slot d ≡ some (record d { phase = working; slots = u64 (d.slots + 1) }) =
      rw dn refl in
    (_, leave i d e w go)
thread_can_go t i d e no_wait (finished _ fs) = absurd (ground (arith, no_wait, fs))

scan_goes :
    (t : Timer) (at f e : ℕ)
    → IsTimed (at_stage t (scan at f e))
    → (u : Timer) × Step (at_stage t (scan at f e)) u
scan_goes t at f e inv = elim (Option-cases (get_elem? t.dev_list at)) [
  | inl end ↦ (_, tick (tick_time t at f e end))
  | inr (d, it) ↦ elim (Bool-cases (d.done || d.fsh)) [
    | inl ready ↦ (_, tick (tick_pass t at f e d it ready))
    | inr waits ↦ thread_can_go (at_stage t (scan at f e)) at d it waits (inv.in_time at d it)
  ]
]

-- A stage of the timer's thread that runs.
head_on : (b : Bool) → loop_head b ≢ off
head_on true e = absurd (cc)
head_on false e = absurd (cc)

end_on : (same b : Bool) → (if same then stopped else loop_head b) ≢ off
end_on true b e = absurd (cc)
end_on false b e = head_on b e

tick_on : (t u : Timer) (s : Stage) → timer_routine (at_stage t s) ≡ some u → u.stage ≢ off
unfolding timer_routine
tick_on t u off e = absurd (cc)
tick_on t u stopped e = absurd (cc)
tick_on t u (scan at f g) e = elim (Option-cases (get_elem? t.dev_list at)) [
  | inl end ↦
      λ o. absurd (ground (arith, ap Timer.stage (some_inj.0 (rw (end, timer_routine) at e)), o))
  | inr (d, it) ↦ elim (Bool-cases (d.done || d.fsh)) [
    | inl ready ↦ λ o.
        absurd (ground (arith, ap Timer.stage (some_inj.0 (rw (it, ready, timer_routine) at e)), o))
    | inr waits ↦ let stuck : none ≡ some u = rw (it, waits, timer_routine) at e in absurd (cc)
  ]
]
tick_on t u (release at f g) e = elim (Option-cases (get_elem? t.dev_list at)) [
  | inl end ↦ λ o.
      end_on (f == g) t.timer_stop (ap Timer.stage (some_inj.0 (rw (end, timer_routine) at e)) ∙ o)
  | inr (d, it) ↦
      λ o. absurd (ground (arith, ap Timer.stage (some_inj.0 (rw (it, timer_routine) at e)), o))
]

Reach-on : {s t : Timer} → s.stage ≢ off → Reach s t → t.stage ≢ off
unfolding stop_timer
Reach-on on here = on
Reach-on on (next {t} {u} r (tick e)) = tick_on t u t.stage e
Reach-on on (next r (arrive _ _ _ _)) = Reach-on on r
Reach-on on (next r (leave _ _ _ _ _)) = Reach-on on r
Reach-on on (next r (detach _ _ _ _)) = Reach-on on r
Reach-on on (next r (stop _)) = Reach-on on r

goes_at :
    (t : Timer) (s : Stage)
    → s ≢ off
    → IsTimed (at_stage t s)
    → (s ≡ stopped) ⊎ ((u : Timer) × Step (at_stage t s) u)
goes_at t off on inv = absurd (on refl)
goes_at t stopped on inv = inl refl
goes_at t (scan at f e) on inv = inr (scan_goes t at f e inv)
goes_at t (release at f e) on inv = elim (Option-cases (get_elem? t.dev_list at)) [
  | inl end ↦ inr (_, tick (tick_head t at f e end))
  | inr (d, it) ↦ inr (_, tick (tick_release t at f e d it))
]

-- However the threads have run after `n` devices have been attached and the timer started: the
-- timer has ended, or some thread has a step. So the threads never all wait for one another.
pub Reach-goes :
    (n : ℕ) (t : Timer)
    → Reach (start_timer (attached n)) t
    → (t.stage ≡ stopped) ⊎ ((u : Timer) × Step t u)
unfolding start_timer
Reach-goes n t r =
    goes_at t t.stage (Reach-on (head_on (attached n).timer_stop) r)
      (Reach-IsTimed (start_timer-IsTimed n) r)
