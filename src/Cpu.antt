-- ===== src/Cpu.antt =====
-- src/cpu.c under MM_PAGING: one instruction of a process. The functions alloc, free_data, read and
-- write of that file are for the other memory mode and are not called.
pub mod Step
pub mod Calls
pub mod Rest
pub mod Areas
pub mod Apart
pub mod Disjoint
pub mod Effect
use hdh.Base.{
  ℕ, ◌+◌, ◌%◌, ◌==◌, leb, if◌then◌else◌, Option, none, some, ◌>>=◌, Status, ok, failed, length,
  get_elem?, update,
}
use hdh.Base.Word.{u32}
use hdh.Queue.{Ptr}
use hdh.Kernel.{Kernel, Pcb, Inst, Opcode}
use hdh.Syscall.{libsyscall}
use hdh.Alloc.{liballoc, libfree}
use hdh.Access.{libread, libwrite}

-- calc returns `proc & 0`.
unfoldable pub calc : Ptr → Status
calc proc = ok

-- The status of a read.
abbrev pub read_status : Option ℕ → Status
read_status none = failed
read_status (some _) = ok

-- The `switch` of run. libread writes the byte to its own copy of the instruction, which is
-- dropped. Indices are `uint32_t`, and the byte to be written is a `char`.
unfoldable pub execute : Kernel → Ptr → Inst → Option (Status × Kernel)
unfolding calc
execute k proc ins = elim ins.opcode [
  | Opcode.calc ↦ some (calc proc, k)
  | Opcode.alloc ↦ liballoc k proc ins.arg_0 (u32 ins.arg_1)
  | Opcode.free ↦ libfree k proc (u32 ins.arg_0)
  | Opcode.read ↦ libread k proc (u32 ins.arg_0) ins.arg_1 >>= λ r. some (read_status r.0, r.1)
  | Opcode.write ↦ libwrite k proc (ins.arg_0 % 256) (u32 ins.arg_1) ins.arg_2
  | Opcode.syscall ↦
      libsyscall k proc (u32 ins.arg_0) ins.arg_1 ins.arg_2 ins.arg_3 >>= λ r. some (r.0, r.2)
]

-- run: 0 is `ok`, any other result `failed`.
unfoldable pub run : Kernel → Ptr → Option (Status × Kernel)
unfolding execute
run k proc = k.procs proc >>= λ pcb.
    if leb (length pcb.code) pcb.pc
    then some (failed, k)
    else (get_elem? pcb.code pcb.pc >>= λ ins.
        execute (record k { procs = update k.procs proc (some (record pcb { pc = pcb.pc + 1 })) })
          proc ins)
