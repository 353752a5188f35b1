-- ===== src/Machine.antt =====
-- src/os.c: the loader, the processors and the timer on one kernel structure. Every call that takes
-- a lock is a step, and so are free, load and `done = 1`. The loader attaches its device last, so
-- that it is the first on the list, and the processor `j` of `n` has the device at the place
-- `n - j`.
pub mod Steps
pub mod Weight
pub mod Reloads
pub mod Runs
pub mod Places
pub mod Account
pub mod Clock
pub mod Order
pub mod Idle
pub mod Regions
use hdh.Base.{ℕ, ◌+◌, Bool, true, false, Option, none, List, replicate}
use hdh.Queue.{Ptr}
use hdh.Sched.{Sched, init_scheduler}
use hdh.Memphy.{Memphy, init_memphy}
use hdh.Mm.{Region, init_mm}
use hdh.Kernel.{Kernel}
use hdh.Processor.{Processor}
use hdh.Timer.{Timer, start_timer}
use hdh.Timer.Barrier.{attached}

-- Where the thread of a processor is: at the head of its loop, which it also reaches from
-- next_slot; at the call of get_proc in the first `if`, whose result replaces `proc`; behind this
-- `if`; at the call of next_slot; or behind its loop. The Boolean says that there was no process before.
pub data Place : Type 0 where
  head : Processor → Place
  calling : Bool → Processor → Place
  chosen : Bool → Processor → Place
  ending : Processor → Place
  off : Place

-- Where the loader is: in its loop, at the call of next_slot behind add_proc, behind `done = 1`, or behind detach_event.
pub data Spot : Type 0 where
  looping resting leaving ended : Spot

-- The variables of ld_routine; `proc` is a process that waits for its start time.
pub record Loader : Type 0 where
  pub i : ℕ
  pub proc : Option Ptr
  pub spot : Spot

-- An entry of `ld_processes`.
pub record Entry (FilePath : Type 0) : Type 0 where
  pub path : FilePath
  pub start_time : ℕ
  pub prio : ℕ

pub record Machine : Type 0 where
  pub kernel : Kernel
  pub timer : Timer
  pub cpus : List Place
  pub loader : Loader
  pub done : Bool
  pub avail_pid : ℕ

abbrev pub idle : Processor
idle = record { proc = none; time_left = 0 }

-- What the memory holds that `main` and the functions that it calls initialise.
pub record Memory : Type 0 where
  pub sched : Sched
  pub regions : List Region
  pub frames : List ℕ
  pub mram : Memphy
  pub mswp : Memphy

-- The state in which `main` has created the threads. The devices of sizes memswpsz[1] to [3] are
-- never used.
unfoldable pub start : Memory → (num_cpus memramsz memswpsz : ℕ) → Machine
start memory num_cpus memramsz memswpsz = record {
  kernel = record {
    sched = init_scheduler memory.sched;
    procs = λ _. none;
    mm = init_mm memory.regions;
    mram = init_memphy memory.frames memory.mram memramsz true;
    active_mswp = init_memphy memory.frames memory.mswp memswpsz true;
  };
  timer = start_timer (attached (num_cpus + 1));
  cpus = replicate num_cpus (head idle);
  loader = record { i = 0; proc = none; spot = looping };
  done = false;
  avail_pid = 1;
}
