-- ===== src/Examples/Threads.antt =====
-- The theorems on src/os.c with one processor and one process: the loader loads it, adds it to the
-- ready queues and waits for the next slot, and the processor takes it.
use hdh.Base.{◌+◌, ◌≡◌, refl, ok, some, none, true, List, [], ◌∷◌, update, arith}
use hdh.Queue.{enqueue}
use hdh.Sched.{Sched, add_mlq_proc}
use hdh.Kernel.{Kernel, Pcb, Opcode}
use hdh.Cpu.{calc, execute, run}
use hdh.Cpu.Effect.{OnlyProcess, run-OnlyProcess}
use hdh.Processor.{get_proc, give_up, take_proc}
use hdh.Timer.{fresh, attach_event, start_timer, end_slot}
use hdh.Timer.Steps as Clock
use hdh.Loader.Text.{loaded_code, print, load-print}
use hdh.Machine.{Machine, Memory, Entry, start, idle, chosen, looping, resting}
use hdh.Machine.Steps.{loads, adds, rests, gives, takes, Reach, here, next}
use hdh.Machine.Weight.{of_proc, mark, backlog}
use hdh.Machine.Reloads.{present}
use hdh.Machine.Places.{on_cpus}
use hdh.Machine.Account.{Reach-one_place}
use hdh.Examples.{one_running, ram, swap_space, machine, program, heap}
use hdh.Examples.Texts.{Token, tokens, printed, code, old, numbers}
use hdh.Examples.Texts as Texts

abbrev pub entries : List (Entry (List Token))
entries = record { path = print printed 5 code []; start_time = 0; prio = 3 } ∷ []

abbrev pub memory : Memory
memory = record { sched = one_running; regions = []; frames = []; mram = ram; mswp = swap_space }

abbrev pub started : Machine
started = start memory 1 2048 1024

abbrev loaded : Pcb
loaded = record {
  pid = 1;
  priority = 5;
  code = loaded_code (λ _. old) 0 code;
  regs = [];
  pc = 0;
  prio = 3;
}

abbrev with_process : Machine
with_process = record started {
  kernel = record started.kernel { procs = update started.kernel.procs 7 (some loaded) };
  loader = record { i = 0; proc = some 7; spot = looping };
  avail_pid = 2;
}

abbrev queued : Sched
queued = record with_process.kernel.sched {
  mlq_ready_queue =
      update with_process.kernel.sched.mlq_ready_queue 3
        (enqueue (with_process.kernel.sched.mlq_ready_queue 3) 7);
}

abbrev added : Machine
added = record with_process {
  kernel = record with_process.kernel { sched = queued };
  loader = record { i = 1; proc = none; spot = resting };
}

abbrev rested : Machine
rested = record added {
  loader = record { i = 1; proc = none; spot = looping };
  timer = Clock.put added.timer 0 (end_slot fresh);
}

abbrev pub taken : Machine
taken = record rested {
  kernel = (get_proc added.kernel).1;
  cpus = chosen true (record { proc = (get_proc added.kernel).0; time_left = 0 }) ∷ [];
}

unfoldable pub taken_reached : Reach tokens 2 entries started taken
unfolding start start_timer attach_event add_mlq_proc give_up take_proc
taken_reached =
    next
      (next
        (next
          (next
            (next here (
              loads fresh _ Texts.heap 7 _ 2 (record { is = refl; working = refl }) refl refl refl
                refl
                (load-print printed 1 5 Texts.heap (print printed 5 code []) code [] refl
                  (omega arith) (omega arith)
                  (
                    (omega arith, (omega arith, tt)),
                    ((omega arith, (omega arith, (omega arith, (omega arith, tt)))), (tt, tt)),
                  ))))
            (adds fresh _ 7 loaded queued (record { is = refl; working = refl }) refl refl refl refl
              refl refl))
          (rests fresh (record { is = refl; working = refl }) refl))
        (gives 0 fresh idle idle added.kernel (record { is = refl; working = refl }) refl refl))
      (takes 0 fresh true idle (record { is = refl; working = refl }) refl)

Reach-one_place_example :
    backlog (mark 7) taken.kernel.sched + on_cpus (mark 7) taken.cpus + of_proc (mark 7) none
    ≡ present taken.kernel 7
Reach-one_place_example =
    Reach-one_place tokens 2 entries memory 1 2048 1024 taken (omega arith) taken_reached 7

-- The process 1 of the machine with CALC as its only instruction.
abbrev calculating : Pcb
calculating = record program {
  code = record { opcode = Opcode.calc; arg_0 = 0; arg_1 = 0; arg_2 = 0; arg_3 = 0 } ∷ [];
}

abbrev calculator : Kernel
calculator = record machine { procs = update heap 1 (some calculating) }

abbrev calculated : Kernel
calculated = record machine {
  procs = update calculator.procs 1 (some (record calculating { pc = 1 }));
}

calculates : run calculator 1 ≡ some (ok, calculated)
unfolding run execute calc
calculates = refl

run-OnlyProcess_example : OnlyProcess 1 calculator (record calculating { pc = 1 }) calculated
run-OnlyProcess_example = run-OnlyProcess calculator 1 calculating (ok, calculated) refl calculates
