-- ===== src/Cpu/Step.antt =====
-- src/cpu.c: the program counter.
use hdh.Base.{
  ℕ, ◌+◌, ◌^◌, ◌≤◌, ◌<◌, ◌≡◌, refl, ap, ◌∙◌, ◌==◌, leb, true, false, some, ok, failed, length,
  get_elem?, lt-get_elem?, set, ltb, Bool-cases, inl, inr, update, update_self, arith,
}
use hdh.Queue.{Ptr}
use hdh.Kernel.{Kernel, Pcb, Inst, Opcode}
use hdh.Base.Word.{u32}
use hdh.Mm.{Vma}
use hdh.Syscall.Caller.{IsQueued, IsLive}
use hdh.Alloc.{set_reg, liballoc}
use hdh.Alloc.Separate.{IsSeparate, Allocated}
use hdh.Alloc.Acquire.{alloc-Allocated}
use hdh.Cpu.{execute, run}

-- A process whose program counter is at the end of its code executes nothing.
pub run_finished :
    (k : Kernel) (proc : Ptr) (pcb : Pcb)
    → k.procs proc ≡ some pcb
    → length pcb.code ≤ pcb.pc
    → run k proc ≡ some (failed, k)
unfolding run
run_finished k proc pcb e finished =
    let over : leb (length pcb.code) pcb.pc ≡ true = ground arith in rw (e, over) refl

set_reg_lem :
    (k : Kernel) (proc : Ptr) (pcb : Pcb) (reg value : ℕ)
    → k.procs proc ≡ some pcb
    → reg < 10
    → set_reg k proc reg value
      ≡ some (record k {
        procs = update k.procs proc (some (record pcb { regs = set pcb.regs reg value }));
      })
unfolding set_reg
set_reg_lem k proc pcb reg value e small =
    let is_reg : ltb reg 10 ≡ true = ground arith in rw (e, is_reg) refl

liballoc-Allocated :
    (k : Kernel) (v : Vma) (proc : Ptr) (pcb : Pcb) (reg size : ℕ)
    → IsSeparate k.mm v
    → ((p : Ptr) → IsQueued k.sched p → IsLive k.procs p)
    → k.procs proc ≡ some pcb
    → reg < 10
    → v.sbrk + size < 2 ^ 31
    → (addr : ℕ) × (k' : Kernel) × (liballoc k proc size reg ≡ some (ok, k'))
      × Allocated reg size addr k'.mm
      × (k'.procs proc ≡ some (record pcb { regs = set pcb.regs reg addr }))
unfolding liballoc
liballoc-Allocated k v proc pcb reg size sep live e small low =
    let (addr, k', run, allocated, heap) =
      alloc-Allocated k v proc pcb reg size sep live e (omega arith) low in
    let here : k'.procs proc ≡ some pcb = ap (λ h. h proc) heap ∙ e in
    (
      addr,
      record k' {
        procs = update k'.procs proc (some (record pcb { regs = set pcb.regs reg addr }));
      },
      rw (run, set_reg_lem k' proc pcb reg addr here small) refl,
      allocated,
      update_self k'.procs proc _,
    )

IsLive-update :
    (k : Kernel) (proc p : Ptr) (pcb : Pcb)
    → IsLive k.procs p
    → IsLive (update k.procs proc (some pcb)) p
IsLive-update k proc p pcb (old, e) = elim (Bool-cases (proc == p)) [
  | inl same ↦ (pcb, rw same refl)
  | inr other ↦ (old, rw other e)
]

-- Let the one area be separate, no queued process be freed, the process be live with an ALLOC
-- instruction at its program counter that names one of the 10 registers, and the break plus the
-- size stay below 2 ^ 31. Then run returns 0, the program counter is one further, the entry of
-- that number has a region of the size asked for, and the register holds its address.
pub run-alloc :
    (k : Kernel) (v : Vma) (proc : Ptr) (pcb : Pcb) (ins : Inst)
    → IsSeparate k.mm v
    → ((p : Ptr) → IsQueued k.sched p → IsLive k.procs p)
    → k.procs proc ≡ some pcb
    → get_elem? pcb.code pcb.pc ≡ some ins
    → ins.opcode ≡ Opcode.alloc
    → ins.arg_1 < 10
    → v.sbrk + ins.arg_0 < 2 ^ 31
    → (addr : ℕ) × (k' : Kernel) × (run k proc ≡ some (ok, k'))
      × Allocated ins.arg_1 ins.arg_0 addr k'.mm
      × (k'.procs proc ≡ some (record pcb { pc = pcb.pc + 1; regs = set pcb.regs ins.arg_1 addr }))
unfolding run execute
run-alloc k v proc pcb ins sep live e at op small low =
    let more : leb (length pcb.code) pcb.pc ≡ false =
      ground (arith, lt-get_elem? pcb.code pcb.pc at) in
    let reg : u32 ins.arg_1 ≡ ins.arg_1 = omega arith in
    let pcb1 : Pcb = record pcb { pc = pcb.pc + 1 } in
    let k1 : Kernel = record k { procs = update k.procs proc (some pcb1) } in
    let (addr, k', called, allocated, after) =
      liballoc-Allocated k1 v proc pcb1 ins.arg_1 ins.arg_0 sep
        (λ p q. IsLive-update k proc p pcb1 (live p q)) (update_self k.procs proc (some pcb1)) small
        low in
    (addr, k', rw (e, more, at, op, reg) called, allocated, after)
