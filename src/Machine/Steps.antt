-- ===== src/Machine/Steps.antt =====
-- src/os.c: cpu_routine, ld_routine and the timer's thread in any order of steps. There is no step
-- where the program exits or its behaviour is undefined.
use hdh.Base.{
  ℕ, ◌+◌, ◌-◌, ◌≡◌, ltb, Bool, true, false, Option, none, some, List, length, get_elem?, set,
  update,
}
use hdh.Base.Word.{u32}
use hdh.Queue.{Ptr}
use hdh.Sched.{Sched, add_mlq_proc}
use hdh.Kernel.{Kernel, Pcb}
use hdh.Processor.{Processor, Round, give_up, take_proc, dispatch}
use hdh.Timer.{Timer, Device, Phase, timer_routine, end_slot, begin_slot, detach_event, stop_timer}
use hdh.Timer.Steps.{AllGone, put}
use hdh.Loader.{Stdio, Memory, Outcome, load}
use hdh.Machine.{
  Machine, Entry, head, calling, chosen, ending, off, looping, resting, leaving, ended,
}

-- The thread of the device at this place is in its time slot.
pub record IsWorking (t : Timer) (i : ℕ) (d : Device) : Type 0 where
  pub is : get_elem? t.dev_list i ≡ some d
  pub working : d.phase ≡ Phase.working

-- The test `proc == NULL`.
abbrev pub is_null : Option Ptr → Bool
is_null none = true
is_null (some p) = false

module _ {FilePath File Line : Type 0} (io : Stdio FilePath File Line) (time_slot : ℕ)
    (ld_processes : List (Entry FilePath)) where
  pub data Step (m : Machine) : Machine → Type 0 where
    -- The call of load, whose process is at an address that was free.
    loads :
        (d : Device) (entry : Entry FilePath) (memory : Memory) (p : Ptr) (pcb : Pcb)
        (avail_pid : ℕ)
        → IsWorking m.timer 0 d
        → m.loader.spot ≡ looping
        → m.loader.proc ≡ none
        → get_elem? ld_processes m.loader.i ≡ some entry
        → m.kernel.procs p ≡ none
        → load io m.avail_pid memory entry.path ≡ Outcome.returns (pcb, avail_pid)
        → Step m (record m {
          kernel = record m.kernel {
            procs = update m.kernel.procs p (some (record pcb { prio = u32 entry.prio }));
          };
          loader = record m.loader { proc = some p };
          avail_pid = avail_pid;
        })
    waits :
        (d : Device) (entry : Entry FilePath) (p : Ptr)
        → IsWorking m.timer 0 d
        → m.loader.spot ≡ looping
        → m.loader.proc ≡ some p
        → get_elem? ld_processes m.loader.i ≡ some entry
        → ltb m.timer.time entry.start_time ≡ true
        → Step m (record m { timer = put m.timer 0 (end_slot d) })
    -- add_proc.
    adds :
        (d : Device) (entry : Entry FilePath) (p : Ptr) (pcb : Pcb) (sched : Sched)
        → IsWorking m.timer 0 d
        → m.loader.spot ≡ looping
        → m.loader.proc ≡ some p
        → get_elem? ld_processes m.loader.i ≡ some entry
        → ltb m.timer.time entry.start_time ≡ false
        → m.kernel.procs p ≡ some pcb
        → add_mlq_proc m.kernel.sched p pcb.prio ≡ some sched
        → Step m (record m {
          kernel = record m.kernel { sched = sched };
          loader = record { i = m.loader.i + 1; proc = none; spot = resting };
        })
    rests :
        (d : Device)
        → IsWorking m.timer 0 d
        → m.loader.spot ≡ resting
        → Step m (record m {
          loader = record m.loader { spot = looping };
          timer = put m.timer 0 (end_slot d);
        })
    finishes :
        (d : Device)
        → IsWorking m.timer 0 d
        → m.loader.spot ≡ looping
        → m.loader.proc ≡ none
        → get_elem? ld_processes m.loader.i ≡ none
        → Step m (record m { done = true; loader = record m.loader { spot = leaving } })
    ends :
        (d : Device)
        → IsWorking m.timer 0 d
        → m.loader.spot ≡ leaving
        → Step m (record m {
          loader = record m.loader { spot = ended };
          timer = put m.timer 0 (detach_event d);
        })
    -- The first `if` of the loop: the process goes on.
    keeps :
        (j : ℕ) (d : Device) (c c' : Processor) (k : Kernel)
        → IsWorking m.timer (length m.cpus - j) d
        → get_elem? m.cpus j ≡ some (head c)
        → give_up m.kernel c ≡ some (false, c', k)
        → Step m (record m { kernel = k; cpus = set m.cpus j (chosen false c') })
    -- The first `if` of the loop up to the call of get_proc, with put_proc or free.
    gives :
        (j : ℕ) (d : Device) (c c' : Processor) (k : Kernel)
        → IsWorking m.timer (length m.cpus - j) d
        → get_elem? m.cpus j ≡ some (head c)
        → give_up m.kernel c ≡ some (true, c', k)
        → Step m (record m { kernel = k; cpus = set m.cpus j (calling (is_null c.proc) c') })
    -- get_proc.
    takes :
        (j : ℕ) (d : Device) (fresh : Bool) (c : Processor)
        → IsWorking m.timer (length m.cpus - j) d
        → get_elem? m.cpus j ≡ some (calling fresh c)
        → Step m (record m {
          kernel = (take_proc m.kernel c).1;
          cpus = set m.cpus j (chosen fresh (take_proc m.kernel c).0);
        })
    -- The rest of a round up to next_slot.
    runs :
        (j : ℕ) (d : Device) (fresh : Bool) (c c' : Processor) (k : Kernel)
        → IsWorking m.timer (length m.cpus - j) d
        → get_elem? m.cpus j ≡ some (chosen fresh c)
        → dispatch fresh m.done time_slot (c, m.kernel) ≡ some (Round.next c' k)
        → Step m (record m { kernel = k; cpus = set m.cpus j (ending c') })
    arrives :
        (j : ℕ) (d : Device) (c : Processor)
        → IsWorking m.timer (length m.cpus - j) d
        → get_elem? m.cpus j ≡ some (ending c)
        → Step m (record m {
          cpus = set m.cpus j (head c);
          timer = put m.timer (length m.cpus - j) (end_slot d);
        })
    -- The end of the loop of cpu_routine.
    stops :
        (j : ℕ) (d : Device) (fresh : Bool) (c : Processor) (k : Kernel)
        → IsWorking m.timer (length m.cpus - j) d
        → get_elem? m.cpus j ≡ some (chosen fresh c)
        → dispatch fresh m.done time_slot (c, m.kernel) ≡ some (Round.stopped k)
        → Step m (record m { kernel = k; cpus = set m.cpus j off })
    -- detach_event; the processor stays behind its loop.
    detaches :
        (j : ℕ) (d : Device)
        → IsWorking m.timer (length m.cpus - j) d
        → get_elem? m.cpus j ≡ some off
        → Step m (record m {
          cpus = set m.cpus j off;
          timer = put m.timer (length m.cpus - j) (detach_event d);
        })
    -- A thread comes back from next_slot.
    leaves :
        (i : ℕ) (d d' : Device)
        → get_elem? m.timer.dev_list i ≡ some d
        → d.phase ≡ Phase.waiting
        → begin_slot d ≡ some d'
        → Step m (record m { timer = put m.timer i d' })
    ticks : (t : Timer) → timer_routine m.timer ≡ some t → Step m (record m { timer = t })
    -- `main` has joined the processors and the loader.
    joins : AllGone m.timer.dev_list → Step m (record m { timer = stop_timer m.timer })

  pub data Reach (s : Machine) : Machine → Type 0 where
    here : Reach s s
    next : {m n : Machine} → Reach s m → Step m n → Reach s n
