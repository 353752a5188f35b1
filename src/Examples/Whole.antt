-- ===== src/Examples/Whole.antt =====
-- A whole run of src/os.c with one processor and one process, which has one CALC instruction.
use hdh.Base.{
  ℕ, zero, suc, ◌≡◌, ◌≢◌, refl, sym, some, none, true, false, List, [], ◌∷◌, get_elem?, update,
  arith,
}
use mathlib.Core.Option.{some_inj}
use hdh.Queue.{Ptr, empty, enqueue, dequeue, scan, shift_left}
use hdh.Sched.{
  Sched, add_mlq_proc, init_scheduler, clear_queues, fill_slots, reset_slot, eligible, has_slot,
  has_slot_from, refresh, take_from, pick_from, get_mlq_proc,
}
use hdh.Kernel.{Kernel, Pcb, Inst, Opcode}
use hdh.Cpu.{calc, execute, run}
use hdh.Processor.{get_proc, give_up, take_proc, dispatch}
use hdh.Timer.{
  Device, Stage, Phase, fresh, attach_event, start_timer, timer_routine, end_slot, begin_slot,
  detach_event,
}
use hdh.Timer.Steps as Clock
use hdh.Loader.Text.{loaded_code, print, load-print}
use hdh.Machine.{Machine, Memory, Place, Entry, start, idle, head, off, looping, ended}
use hdh.Machine.Steps.{
  loads, adds, rests, finishes, ends, gives, takes, runs, arrives, stops, detaches, leaves, ticks,
  Reach, here, next,
}
use hdh.Machine.Weight.{one, backlog-init_scheduler}
use hdh.Machine.Idle.{Reach-never_stops}
use hdh.Machine.Order.Finish.{Reach-all_finished}
use hdh.Examples.{one_running, ram, swap_space}
use hdh.Examples.Texts.{Token, tokens, printed, old}
use hdh.Examples.Texts as Texts

abbrev calc_only : List Inst
calc_only = record { opcode = Opcode.calc; arg_0 = 0; arg_1 = 0; arg_2 = 0; arg_3 = 0 } ∷ []

abbrev entries : List (Entry (List Token))
entries = record { path = print printed 5 calc_only []; start_time = 0; prio = 3 } ∷ []

abbrev memory : Memory
memory = record { sched = one_running; regions = []; frames = []; mram = ram; mswp = swap_space }

abbrev started : Machine
started = start memory 1 2048 1024

abbrev loaded : Pcb
loaded = record {
  pid = 1;
  priority = 5;
  code = loaded_code (λ _. old) 0 calc_only;
  regs = [];
  pc = 0;
  prio = 3;
}

abbrev with_process : Kernel
with_process = record started.kernel { procs = update started.kernel.procs 7 (some loaded) }

abbrev queued : Sched
queued = record with_process.sched {
  mlq_ready_queue =
      update with_process.sched.mlq_ready_queue 3
        (enqueue (with_process.sched.mlq_ready_queue 3) 7);
}

abbrev added : Kernel
added = record with_process { sched = queued }

abbrev held : Kernel
held = (get_proc added).1

abbrev at_end : Kernel
at_end = record held { procs = update held.procs 7 (some (record loaded { pc = 1 })) }

abbrev freed : Kernel
freed = record at_end { procs = update at_end.procs 7 none }

-- Both threads wait for the end of the first slot.
abbrev first_slot : Machine
first_slot = record started {
  kernel = at_end;
  cpus = head (record { proc = some 7; time_left = 1 }) ∷ [];
  loader = record { i = 1; proc = none; spot = looping };
  timer = Clock.put (Clock.put started.timer 0 (end_slot fresh)) 1 (end_slot fresh);
  avail_pid = 2;
}

until_first_slot : Reach tokens 2 entries started first_slot
unfolding start start_timer attach_event add_mlq_proc give_up take_proc dispatch run execute calc
    get_proc get_mlq_proc refresh has_slot has_slot_from eligible pick_from take_from dequeue scan
    enqueue empty init_scheduler clear_queues fill_slots
until_first_slot =
    next
      (next
        (next
          (next
            (next
              (next
                (next here (
                  loads fresh _ Texts.heap 7 _ 2 (record { is = refl; working = refl }) refl refl
                    refl refl
                    (load-print printed 1 5 Texts.heap (print printed 5 calc_only []) calc_only []
                      refl (omega arith) (omega arith) (tt, tt))))
                (adds fresh _ 7 loaded queued (record { is = refl; working = refl }) refl refl refl
                  refl refl refl))
              (rests fresh (record { is = refl; working = refl }) refl))
            (gives 0 fresh idle idle added (record { is = refl; working = refl }) refl refl))
          (takes 0 fresh true idle (record { is = refl; working = refl }) refl))
        (runs 0 fresh true (record { proc = some 7; time_left = 0 })
          (record { proc = some 7; time_left = 1 }) at_end (record { is = refl; working = refl })
          refl refl))
      (arrives 0 fresh (record { proc = some 7; time_left = 1 })
        (record { is = refl; working = refl }) refl)

abbrev again : Device
again = record { done = false; fsh = false; phase = Phase.working; slots = 1 }

abbrev released : Device
released = record { done = false; fsh = false; phase = Phase.waiting; slots = 0 }

-- Both threads are in the second slot.
abbrev second_slot : Machine
second_slot = record first_slot {
  timer = record {
    dev_list = again ∷ again ∷ [];
    time = 1;
    timer_started = true;
    timer_stop = false;
    stage = Stage.scan 0 0 0;
  };
}

until_second_slot : Reach tokens 2 entries started second_slot
unfolding start start_timer attach_event timer_routine end_slot begin_slot
until_second_slot =
    next
      (next
        (next
          (next
            (next (next (next (next until_first_slot (ticks _ refl)) (ticks _ refl)) (ticks _ refl))
              (ticks _ refl))
            (ticks _ refl))
          (ticks _ refl))
        (leaves 0 released again refl refl refl))
      (leaves 1 released again refl refl refl)

-- The loader is done, and the processor has finished its process and stopped.
abbrev all_off : Machine
all_off = record second_slot {
  kernel = (get_proc freed).1;
  cpus = off ∷ [];
  loader = record { i = 1; proc = none; spot = ended };
  done = true;
  timer = Clock.put (Clock.put second_slot.timer 0 (detach_event again)) 1 (detach_event again);
}

until_all_off : Reach tokens 2 entries started all_off
unfolding start give_up take_proc dispatch get_proc get_mlq_proc refresh reset_slot has_slot
    has_slot_from eligible pick_from take_from dequeue scan shift_left enqueue empty init_scheduler
    clear_queues fill_slots
until_all_off =
    next
      (next
        (next
          (next
            (next
              (next until_second_slot
                (finishes again (record { is = refl; working = refl }) refl refl refl))
              (ends again (record { is = refl; working = refl }) refl))
            (gives 0 again (record { proc = some 7; time_left = 1 })
              (record { proc = some 7; time_left = 0 }) freed (record { is = refl; working = refl })
              refl refl))
          (takes 0 again false (record { proc = some 7; time_left = 0 })
            (record { is = refl; working = refl }) refl))
        (stops 0 again false idle (get_proc freed).1 (record { is = refl; working = refl }) refl
          refl))
      (detaches 0 again (record { is = refl; working = refl }) refl)

only_off : (j : ℕ) (x : Place) → get_elem? all_off.cpus j ≡ some x → x ≡ off
only_off zero x e = sym (some_inj.0 e)
only_off (suc j) x e = absurd (cc)

Reach-all_finished_example :
    (get_elem? entries 1 ≡ none)
    × (all_off.loader.proc ≡ none)
    × ((p : Ptr) → (get_proc freed).1.procs p ≡ none)
Reach-all_finished_example =
    Reach-all_finished tokens 2 entries 1 memory 2048 1024 all_off (omega arith) (omega arith)
      until_all_off only_off

-- With no process to load, the loader ends at once, and the processor goes through one round.
abbrev no_work : Machine
no_work = record started {
  kernel = (get_proc started.kernel).1;
  cpus = head idle ∷ [];
  loader = record { i = 0; proc = none; spot = ended };
  done = true;
  timer = Clock.put (Clock.put started.timer 0 (detach_event fresh)) 1 (end_slot fresh);
}

until_no_work : Reach tokens 2 [] started no_work
unfolding start start_timer attach_event give_up take_proc dispatch get_proc get_mlq_proc refresh
    reset_slot has_slot has_slot_from eligible pick_from take_from empty init_scheduler clear_queues
    fill_slots
until_no_work =
    next
      (next
        (next
          (next
            (next (next here (finishes fresh (record { is = refl; working = refl }) refl refl refl))
              (ends fresh (record { is = refl; working = refl }) refl))
            (gives 0 fresh idle idle started.kernel (record { is = refl; working = refl }) refl
              refl))
          (takes 0 fresh true idle (record { is = refl; working = refl }) refl))
        (runs 0 fresh true idle idle (get_proc started.kernel).1
          (record { is = refl; working = refl }) refl refl))
      (arrives 0 fresh idle (record { is = refl; working = refl }) refl)

Reach-never_stops_example : get_elem? no_work.cpus 0 ≢ some off
unfolding start
Reach-never_stops_example =
    Reach-never_stops tokens 2 [] 0 started no_work idle refl refl
      (backlog-init_scheduler one one_running) refl refl refl until_no_work
