-- ===== src/Timer.antt =====
-- src/timer.c: the clock that the loader and the processors share. Each thread has a device on
-- `dev_list`; the timer waits until every device is done or has finished, increases the time, and
-- lets the devices go on. What a thread does under one mutex is one step, and waiting on a
-- condition variable is a step that is not possible yet. The list does not change once the timer
-- runs, so a device is its place on it.
pub mod Steps
pub mod Invariant
pub mod Ticks
pub mod Routine
pub mod Barrier
pub mod Rounds
pub mod Slots
pub mod Phases
use hdh.Base.{
  ℕ, zero, suc, ◌+◌, ◌==◌, if◌then◌else◌, Bool, true, false, ◌||◌, Option, none, some, ◌>>=◌, List,
  [], ◌∷◌, get_elem?, set,
}
use hdh.Base.Word.{u64}

-- Where the thread of a device is: in its time slot, in next_slot, or behind detach_event.
pub data Phase : Type 0 where
  working waiting gone : Phase

-- `struct timer_id_t` without its locks. `slots` is no field of the code: it counts the slots that
-- the thread has completed, modulo 2 ^ 64 as `_time` does.
pub record Device : Type 0 where
  pub done : Bool
  pub fsh : Bool
  pub phase : Phase
  pub slots : ℕ

-- Where timer_routine is: not yet created, at the place `at` of one of its two loops with its
-- local variables, or behind its loop.
pub data Stage : Type 0 where
  off : Stage
  scan : (at fsh event : ℕ) → Stage
  release : (at fsh event : ℕ) → Stage
  stopped : Stage

-- The static variables, and the timer's thread.
pub record Timer : Type 0 where
  pub dev_list : List Device
  pub time : ℕ
  pub timer_started : Bool
  pub timer_stop : Bool
  pub stage : Stage

-- The variables as the program starts.
abbrev pub initial : Timer
initial = record { dev_list = []; time = 0; timer_started = false; timer_stop = false; stage = off }

abbrev pub fresh : Device
fresh = record { done = false; fsh = false; phase = working; slots = 0 }

-- `false` is the result NULL; otherwise the result points to the front of the list.
unfoldable pub attach_event : Timer → Bool × Timer
attach_event t =
    if t.timer_started then (false, t) else (true, record t { dev_list = fresh ∷ t.dev_list })

-- The test of the `while` of timer_routine.
abbrev pub loop_head : Bool → Stage
loop_head timer_stop = if timer_stop then stopped else scan 0 0 0

unfoldable pub start_timer : Timer → Timer
start_timer t = record t { timer_started = true; stage = loop_head t.timer_stop }

-- One step of timer_routine; `none` is that it waits or has ended.
unfoldable pub timer_routine : Timer → Option Timer
timer_routine t = elim t.stage [
  | off ↦ none
  | scan at fsh event ↦ elim (get_elem? t.dev_list at) [
    | none ↦ some (record t { time = u64 (t.time + 1); stage = release 0 fsh event })
    | some d ↦
        if (d.done || d.fsh)
        then some (record t { stage = scan (at + 1) (if d.fsh then fsh + 1 else fsh) (event + 1) })
        else none
  ]
  | release at fsh event ↦ elim (get_elem? t.dev_list at) [
    | none ↦ some (record t { stage = if fsh == event then stopped else loop_head t.timer_stop })
    | some d ↦ some (record t {
      dev_list = set t.dev_list at (record d { done = false });
      stage = release (at + 1) fsh event;
    })
  ]
  | stopped ↦ none
]

-- The two halves of next_slot: a thread says that it is done, and goes on when it is not any more.
unfoldable pub end_slot : Device → Device
end_slot d = record d { done = true; phase = waiting }

unfoldable pub begin_slot : Device → Option Device
begin_slot d =
    if d.done then none else some (record d { phase = working; slots = u64 (d.slots + 1) })

unfoldable pub detach_event : Device → Device
detach_event d = record d { fsh = true; phase = gone }

-- The first line of stop_timer; what follows joins the timer's thread and frees the list.
unfoldable pub stop_timer : Timer → Timer
stop_timer t = record t { timer_stop = true }
