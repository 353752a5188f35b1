-- ===== src/Timer/Steps.antt =====
-- src/timer.c: the threads in any order. `main` stops the timer after it has joined every other
-- thread.
use hdh.Base.{ℕ, ◌≡◌, some, get_elem?, set, List}
use hdh.Timer.{
  Device, Timer, working, waiting, gone, timer_routine, end_slot, begin_slot, detach_event,
  stop_timer,
}

-- Every thread has detached its device.
abbrev pub AllGone : List Device → Type 0
AllGone l = (i : ℕ) (d : Device) → get_elem? l i ≡ some d → d.phase ≡ gone

-- The device at a place of the list is replaced.
abbrev pub put : Timer → ℕ → Device → Timer
put t i d = record t { dev_list = set t.dev_list i d }

pub data Step (t : Timer) : Timer → Type 0 where
  tick : {u : Timer} → timer_routine t ≡ some u → Step t u
  arrive :
      (i : ℕ) (d : Device)
      → get_elem? t.dev_list i ≡ some d
      → d.phase ≡ working
      → Step t (put t i (end_slot d))
  leave :
      (i : ℕ) (d : Device) {d' : Device}
      → get_elem? t.dev_list i ≡ some d
      → d.phase ≡ waiting
      → begin_slot d ≡ some d'
      → Step t (put t i d')
  detach :
      (i : ℕ) (d : Device)
      → get_elem? t.dev_list i ≡ some d
      → d.phase ≡ working
      → Step t (put t i (detach_event d))
  stop : AllGone t.dev_list → Step t (stop_timer t)

pub data Reach (s : Timer) : Timer → Type 0 where
  here : Reach s s
  next : {t u : Timer} → Reach s t → Step t u → Reach s u
