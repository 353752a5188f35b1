-- ===== src/Examples/Slots.antt =====
-- The theorems on src/timer.c with two devices: the first thread completes a time slot, and the
-- second detaches its device at once.
use hdh.Base.{
  ℕ, zero, suc, ◌≡◌, ◌⊎◌, refl, sym, ap, Bool, ◌||◌, true, false, Option, some, none, [], ◌∷◌,
  get_elem?,
}
use hdh.Timer.{
  Device, Timer, working, waiting, gone, scan, release, stopped, fresh, attach_event, start_timer,
  timer_routine, end_slot, begin_slot, detach_event,
}
use hdh.Timer.Steps.{AllGone, Step, tick, arrive, leave, detach, Reach, here, next}
use hdh.Timer.Barrier.{attached, Reach-in_step}
use hdh.Timer.Rounds.{Reach-goes}
use hdh.Timer.Slots.{ticks, ticks-round}

abbrev one_slot : Timer
one_slot = record {
  dev_list =
      record { done = false; fsh = false; phase = working; slots = 1 }
      ∷ record { done = false; fsh = true; phase = gone; slots = 0 }
      ∷ [];
  time = 1;
  timer_started = true;
  timer_stop = false;
  stage = release 1 1 2;
}

one_slot_reached : Reach (start_timer (attached 2)) one_slot
unfolding start_timer attach_event timer_routine end_slot begin_slot detach_event
one_slot_reached =
    next
      (next
        (next
          (next
            (next (next (next here (arrive 0 fresh refl refl)) (tick refl))
              (detach 1 fresh refl refl))
            (tick refl))
          (tick refl))
        (tick refl))
      (leave 0 (record { done = false; fsh = false; phase = waiting; slots = 0 }) refl refl refl)

Reach-in_step_example :
    ((i : ℕ) (d : Device)
      → get_elem? one_slot.dev_list i ≡ some d
      → d.phase ≡ working
      → d.slots ≡ 1)
    × (release 1 1 2 ≡ stopped → AllGone one_slot.dev_list)
Reach-in_step_example = Reach-in_step 2 one_slot one_slot_reached

Reach-goes_example : (one_slot.stage ≡ stopped) ⊎ ((u : Timer) × Step one_slot u)
Reach-goes_example = Reach-goes 2 one_slot one_slot_reached

-- The first device is done and the second finished.
abbrev two_ready : Timer
two_ready = record {
  dev_list =
      record { done = true; fsh = false; phase = waiting; slots = 4 }
      ∷ record { done = false; fsh = true; phase = gone; slots = 2 }
      ∷ [];
  time = 4;
  timer_started = true;
  timer_stop = false;
  stage = scan 0 0 0;
}

abbrev ready : Option Device → Bool
ready none = true
ready (some d) = d.done || d.fsh

all_ready :
    (i : ℕ) (d : Device) → get_elem? two_ready.dev_list i ≡ some d → (d.done || d.fsh) ≡ true
all_ready zero d e = ap ready (sym e)
all_ready (suc zero) d e = ap ready (sym e)
all_ready (suc (suc i)) d e = absurd (cc)

ticks-round_example :
    ticks 6 two_ready
    ≡ some (record two_ready {
      dev_list =
          record { done = false; fsh = false; phase = waiting; slots = 4 }
          ∷ record { done = false; fsh = true; phase = gone; slots = 2 }
          ∷ [];
      time = 5;
      stage = scan 0 0 0;
    })
ticks-round_example = ticks-round two_ready refl all_ready
