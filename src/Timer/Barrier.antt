-- ===== src/Timer/Barrier.antt =====
-- src/timer.c: no thread works in a slot other than the current one, in any order of steps.
use hdh.Base.{
  ℕ, zero, suc, ◌+◌, ◌≡◌, ◌≢◌, inl, inr, refl, ap, ltb, Bool, false, Bool-cases, none, some,
  get_elem?, get_elem?-replicate, replicate, arith,
}
use mathlib.Core.Option.{some_inj}
use mathlib.Core.Path.{subst}
use hdh.Base.Word.{u64}
use hdh.Timer.{
  Device, Timer, working, waiting, gone, stopped, end_slot, begin_slot, detach_event, stop_timer,
  fresh, initial, attach_event, start_timer,
}
use hdh.Timer.Steps.{AllGone, Step, tick, arrive, leave, detach, stop, Reach, here, next}
use hdh.Timer.Invariant.{
  late, passed, InTime, at_work, arrived, held, released, finished, Counted, IsTimed, put-IsTimed,
}
use hdh.Timer.Routine.{timer_routine-IsTimed}

working_live : (d : Device) → d.phase ≡ working → d.phase ≢ gone
working_live d w g = absurd (cc)

arrive-InTime :
    (time : ℕ) (l p : Bool) (d : Device)
    → d.phase ≡ working
    → InTime time l p d
    → InTime time l p (end_slot d)
unfolding end_slot
arrive-InTime time l p d w (at_work _ dn fs la pa s) = arrived refl refl fs la s
arrive-InTime time l p d w (arrived q _ _ _ _) = absurd (cc)
arrive-InTime time l p d w (held q _ _ _ _) = absurd (cc)
arrive-InTime time l p d w (released q _ _ _ _ _) = absurd (cc)
arrive-InTime time l p d w (finished q _) = absurd (cc)

pub begin_slot-some :
    (d d' : Device)
    → begin_slot d ≡ some d'
    → (d.done ≡ false)
      × (record { done = false; fsh = d.fsh; phase = working; slots = u64 (d.slots + 1) } ≡ d')
unfolding begin_slot
begin_slot-some d d' b = elim (Bool-cases d.done) [
  | inl waits ↦ let stuck : none ≡ some d' = rw waits at b in absurd (cc)
  | inr goes ↦ (goes, some_inj.0 (rw goes at b))
]

begin-InTime :
    (time : ℕ) (l p : Bool) (d : Device)
    → d.phase ≡ waiting
    → d.done ≡ false
    → InTime time l p d
    → InTime time l p
        (record { done = false; fsh = d.fsh; phase = working; slots = u64 (d.slots + 1) })
begin-InTime time l p d w free (at_work q _ _ _ _ _) = absurd (cc)
begin-InTime time l p d w free (arrived _ dn _ _ _) = absurd (cc)
begin-InTime time l p d w free (held _ dn _ _ _) = absurd (cc)
begin-InTime time l p d w free (released _ dn fs la pa s) = at_work refl refl fs la pa s
begin-InTime time l p d w free (finished q _) = absurd (cc)

waiting_live : (d : Device) → d.phase ≡ waiting → d.phase ≢ gone
waiting_live d w g = absurd (cc)

-- Every step of the threads keeps the invariant.
pub Step-IsTimed : {t u : Timer} → Step t u → IsTimed t → IsTimed u
unfolding detach_event stop_timer
Step-IsTimed {t} {u} (tick e) inv = timer_routine-IsTimed t u t.stage e inv
Step-IsTimed {t} (arrive i d e w) inv =
    put-IsTimed t i d (end_slot d) e (working_live d w) inv
      (arrive-InTime t.time _ _ d w (inv.in_time i d e))
Step-IsTimed {t} (leave i d {d'} e w b) inv =
    let (goes, is) = begin_slot-some d d' b in
    put-IsTimed t i d d' e (waiting_live d w) inv (
      subst (InTime t.time (late t.stage i) (passed t.stage i)) is
        (begin-InTime t.time _ _ d w goes (inv.in_time i d e)))
Step-IsTimed {t} (detach i d e w) inv =
    put-IsTimed t i d (detach_event d) e (working_live d w) inv (finished refl refl)
Step-IsTimed (stop all) inv = record {
  in_time = inv.in_time;
  counted = inv.counted;
  stop_last = λ _. all;
}

pub Reach-IsTimed : {s t : Timer} → IsTimed s → Reach s t → IsTimed t
Reach-IsTimed inv here = inv
Reach-IsTimed inv (next r st) = Step-IsTimed st (Reach-IsTimed inv r)

-- The state after the program has attached `n` devices, as `main` does before it starts the timer.
abbrev pub attached : ℕ → Timer
attached zero = initial
attached (suc n) = (attach_event (attached n)).1

attached_fields : (n : ℕ) → (attached n ≡ record initial { dev_list = replicate n fresh })
unfolding attach_event
attached_fields zero = refl
attached_fields (suc n) = ap (λ t. (attach_event t).1) (attached_fields n)

pub start_timer-IsTimed : (n : ℕ) → IsTimed (start_timer (attached n))
unfolding start_timer
start_timer-IsTimed n = rw (attached_fields n) (record {
  in_time = λ i d e.
      subst (InTime 0 false (ltb i 0)) (get_elem?-replicate n fresh d i e)
        (at_work refl refl refl refl (ground arith) refl);
  counted = (omega arith, λ q i x lt h. absurd (omega arith));
  stop_last = λ s. absurd (cc);
})

pub working_now :
    (time : ℕ) (l p : Bool) (d : Device) → InTime time l p d → d.phase ≡ working → d.slots ≡ time
working_now time l p d (at_work _ _ _ _ _ s) w = s
working_now time l p d (arrived q _ _ _ _) w = absurd (cc)
working_now time l p d (held q _ _ _ _) w = absurd (cc)
working_now time l p d (released q _ _ _ _ _) w = absurd (cc)
working_now time l p d (finished q _) w = absurd (cc)

-- However the threads run after `n` devices have been attached and the timer started: a thread that
-- works has completed as many time slots as current_time() says, so that no thread is ahead of
-- another; and the timer has ended only when every thread has detached its device. (Slots are
-- counted modulo 2 ^ 64, as the time is.)
pub Reach-in_step :
    (n : ℕ) (t : Timer)
    → Reach (start_timer (attached n)) t
    → ((i : ℕ) (d : Device)
        → get_elem? t.dev_list i ≡ some d
        → d.phase ≡ working
        → d.slots ≡ t.time)
      × (t.stage ≡ stopped → AllGone t.dev_list)
Reach-in_step n t r =
    let inv = Reach-IsTimed (start_timer-IsTimed n) r in
    (
      λ i d e w. working_now t.time _ _ d (inv.in_time i d e) w,
      λ end. subst (λ s. Counted s t.dev_list) end inv.counted,
    )
