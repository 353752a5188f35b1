-- ===== src/Examples.antt =====
-- A small machine on which the theorems are applied: one process, number 7 at address 1, on the
-- running list; 8 frames of memory and 4 of swap space.
mod Queues
mod Devices
mod Tables
mod Processes
mod Paging
mod Slots
mod Texts
mod Threads
mod Whole
mod Configs
mod Regions
mod Modes
use hdh.Base.{
  ℕ, suc, zero, ◌+◌, ◌-◌, ◌*◌, ◌==◌, ◌≡◌, ap, refl, sym, ◌∙◌, if◌then◌else◌, Option, none, some,
  Bool, true, List, [], ◌∷◌, get_elem?,
}
use mathlib.Core.Option.{some_inj}
use hdh.Queue.{Ptr}
use hdh.Sched.{Sched, max_prio}
use hdh.Memphy.{Memphy}
use hdh.Mm.{Mm, Vma, init_mm}
use hdh.Kernel.{Kernel, Pcb, Inst, Opcode}
use hdh.Syscall.Caller.{IsQueued, IsLive}

abbrev pub one_running : Sched
one_running = record {
  ready_queue = [];
  run_queue = [];
  running_list = 1 ∷ [];
  mlq_ready_queue = λ _. [];
  slot = λ k. max_prio - k;
}

-- Two processes of level 2 are ready.
abbrev pub two_ready : Sched
two_ready = record one_running { mlq_ready_queue = λ k. if k == 2 then 4 ∷ 5 ∷ [] else [] }

abbrev pub alloc_inst : Inst
alloc_inst = record { opcode = Opcode.alloc; arg_0 = 100; arg_1 = 2; arg_2 = 0; arg_3 = 0 }

abbrev pub program : Pcb
program = record {
  pid = 7;
  priority = 0;
  code = alloc_inst ∷ [];
  regs = 0 ∷ 0 ∷ 0 ∷ 0 ∷ 0 ∷ 0 ∷ 0 ∷ 0 ∷ 0 ∷ 0 ∷ [];
  pc = 0;
  prio = 0;
}

abbrev pub ram : Memphy
ram = record {
  storage = λ _. 0;
  maxsz = 2048;
  rdmflg = true;
  cursor = 0;
  free_fp_list = 0 ∷ 1 ∷ 2 ∷ [];
  used_fp_list = [];
}

abbrev pub swap_space : Memphy
swap_space = record ram { maxsz = 1024; free_fp_list = 3 ∷ 2 ∷ [] }

abbrev pub heap : Ptr → Option Pcb
heap p = if 1 == p then some program else none

abbrev pub machine : Kernel
machine = record {
  sched = one_running;
  procs = heap;
  mm = init_mm [];
  mram = ram;
  active_mswp = swap_space;
}

abbrev pub first_area : Vma
first_area = record {
  vm_id = 0;
  vm_start = 0;
  vm_end = 0;
  sbrk = 0;
  vm_freerg_list = record { rg_start = 0; rg_end = 0 } ∷ [];
}

pub machine-IsLive : (p : Ptr) → IsQueued one_running p → IsLive heap p
machine-IsLive p (IsQueued.running (zero, e)) = (program, ap heap (sym (some_inj.0 e)))
machine-IsLive p (IsQueued.running (suc i, e)) = absurd (cc)
machine-IsLive p (IsQueued.ready (i, e)) = absurd (cc)
machine-IsLive p (IsQueued.level pr h (i, e)) = absurd (cc)
