-- ===== src/Kernel.antt =====
-- include/common.h: instructions, process control blocks and the kernel structure. All processes
-- share the one kernel structure `os` of src/os.c, its memory description and its devices.
use hdh.Base.{ℕ, Option, List}
use hdh.Queue.{Ptr}
use hdh.Sched.{Sched}
use hdh.Mm.{Mm}
use hdh.Memphy.{Memphy}

-- `enum ins_opcode_t`.
pub data Opcode : Type 0 where
  calc alloc free read write syscall : Opcode

-- `struct inst_t`.
pub record Inst : Type 0 where
  pub opcode : Opcode
  pub arg_0 : ℕ
  pub arg_1 : ℕ
  pub arg_2 : ℕ
  pub arg_3 : ℕ

-- `struct pcb_t`, less `path`, `page_table` and `bp`, which the paging mode does not read.
pub record Pcb : Type 0 where
  pub pid : ℕ
  pub priority : ℕ
  pub code : List Inst
  pub regs : List ℕ
  pub pc : ℕ
  pub prio : ℕ

-- `struct krnl_t` with what its pointers reach. `sched` has the queues; `procs` is the heap of
-- process control blocks, where a freed one is `none`.
pub record Kernel : Type 0 where
  pub sched : Sched
  pub procs : Ptr → Option Pcb
  pub mm : Mm
  pub mram : Memphy
  pub active_mswp : Memphy
