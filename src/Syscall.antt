-- ===== src/Syscall.antt =====
-- src/libstd.c, src/syscall.c and src/sys_mem.c: the system call that user code makes, the
-- dispatch on its number, and sys_memmap. `none` is undefined behaviour: a PCB that was freed is
-- read, or a fault of the operation that is called. The pointers of `struct krnl_t` to the queues
-- are set, as add_mlq_proc does before a process can run.
pub mod Caller
pub mod Growth
use hdh.Base.{
  ℕ, ◌+◌, ◌-◌, ◌%◌, ◌^◌, ◌==◌, ltb, if◌then◌else◌, Option, none, some, ◌>>=◌, Status, ok, failed,
  List, [], ◌∷◌, zero, suc,
}
use hdh.Base.Word.{u32, through_int}
use hdh.Queue.{Ptr, Queue}
use hdh.Sched.{max_prio}
use hdh.Memphy.{memphy_read, memphy_write}
use hdh.PageTable.{vmap_pgd_memset}
use hdh.Kernel.{Kernel, Pcb}
use hdh.Vm.{int_rounds, inc_vma_limit, mm_swap_page}

-- The arguments of `struct sc_regs` that the calls use.
pub record Regs : Type 0 where
  pub a1 : ℕ
  pub a2 : ℕ
  pub a3 : ℕ

-- One of the loops over a queue; the inner `none` is NULL.
unfoldable pub find_pid : (Ptr → Option Pcb) → ℕ → Queue → Option (Option Ptr)
find_pid procs pid [] = some none
find_pid procs pid (p ∷ q) =
    let rest = find_pid procs pid q in
    procs p >>= λ pcb. if pcb.pid == pid then some (some p) else rest

-- The loop over the priorities from `pr` on, `n` of them.
unfoldable pub find_mlq : (Ptr → Option Pcb) → ℕ → (ℕ → Queue) → ℕ → ℕ → Option (Option Ptr)
unfolding find_pid
find_mlq procs pid mlq zero pr = some none
find_mlq procs pid mlq (suc n) pr =
    let rest = find_mlq procs pid mlq n (pr + 1) in
    find_pid procs pid (mlq pr) >>= λ r. elim r [ some p ↦ some (some p) | none ↦ rest ]

-- The first part of __sys_memmap.
unfoldable pub find_caller : Kernel → ℕ → Option (Option Ptr)
find_caller k pid = find_pid k.procs pid k.sched.running_list >>= λ r. elim r [
  | some p ↦ some (some p)
  | none ↦ find_pid k.procs pid k.sched.ready_queue >>= λ s. elim s [
    | some p ↦ some (some p)
    | none ↦ find_mlq k.procs pid k.sched.mlq_ready_queue max_prio 0
  ]
]

-- `(arg_t)value` for a `char`.
abbrev pub char_to_arg : ℕ → ℕ
char_to_arg value = if ltb value 128 then value else value + (2 ^ 64 - 256)

-- The `switch` of __sys_memmap. The results of the operations are dropped; a byte that
-- MEMPHY_read did not store is indeterminate, and using it is taken for a fault.
unfoldable pub memop : Kernel → Regs → Option (Regs × Kernel)
memop k regs =
    if through_int regs.a1 == 1
    then some (regs, record k { mm = vmap_pgd_memset k.mm regs.a2 (int_rounds regs.a3) })
    else if through_int regs.a1 == 2
    then (inc_vma_limit k regs.a2 regs.a3 >>= λ r. some (regs, r.1))
    else if through_int regs.a1 == 3
    then (mm_swap_page k regs.a2 regs.a3 >>= λ r. some (regs, r.1))
    else if through_int regs.a1 == 4
    then (memphy_read k.mram regs.a2 >>= λ r.
        r.0 >>= λ value. some (record regs { a3 = char_to_arg value }, record k { mram = r.1 }))
    else if through_int regs.a1 == 5
    then (memphy_write k.mram regs.a2 (regs.a3 % 256) >>= λ r. some (regs, record k { mram = r.1 }))
    else some (regs, k)

unfoldable pub sys_memmap : Kernel → ℕ → Regs → Option (Status × Regs × Kernel)
unfolding find_caller memop
sys_memmap k pid regs = find_caller k pid >>= λ found. elim found [
  | none ↦ some (failed, regs, k)
  | some caller ↦ memop k regs >>= λ r. some (ok, r.0, r.1)
]

-- `syscall`: number 0 is sys_listsyscall, which prints the table of calls.
unfoldable pub syscall : Kernel → ℕ → ℕ → Regs → Option (Status × Regs × Kernel)
unfolding sys_memmap
syscall k pid nr regs =
    if u32 nr == 0
    then some (ok, regs, k)
    else if u32 nr == 17
    then sys_memmap k pid regs
    else some (ok, regs, k)

unfoldable pub libsyscall : Kernel → Ptr → ℕ → ℕ → ℕ → ℕ → Option (Status × Regs × Kernel)
unfolding syscall
libsyscall k caller syscall_idx a1 a2 a3 =
    k.procs caller >>= λ pcb. syscall k pcb.pid syscall_idx (record { a1 = a1; a2 = a2; a3 = a3 })
