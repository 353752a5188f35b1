-- ===== src/Cpu/Effect.antt =====
-- src/cpu.c: an instruction changes no other process than the one that runs it, and of that one
-- neither the numbers nor the code.
use hdh.Base.{
  ℕ, ◌+◌, ◌%◌, ◌≡◌, ◌≢◌, inl, inr, refl, ap, ◌∙◌, leb, ltb, if◌then◌else◌, Bool-cases, Option-cases,
  none, some, >>=-eq-some, Status, ok, failed, length, get_elem?, set, update, update_self,
  update-ne,
}
use mathlib.Core.Option.{some_inj}
use mathlib.Core.Path.{subst}
use hdh.Base.Word.{u32}
use hdh.Queue.{Ptr}
use hdh.Kernel.{Kernel, Pcb, Inst, Opcode}
use hdh.Syscall.{Regs, libsyscall}
use hdh.Alloc.{alloc, free, set_reg, liballoc, libfree}
use hdh.Access.{libread}
use hdh.Cpu.{execute, run}
use hdh.Cpu.Rest.{
  SameRest, syscall-SameRest, alloc-SameRest, free-SameRest, read-SameRest, write-SameRest,
}

-- The queues are the same, and of the heap at most the process `p` has changed, which is there and
-- has the same numbers, priorities, code and program counter.
pub record OnlyProcess (p : Ptr) (k : Kernel) (pcb : Pcb) (k' : Kernel) : Type 0 where
  pub queues : k'.sched ≡ k.sched
  pub others : (q : Ptr) → q ≢ p → k'.procs q ≡ k.procs q
  pub pcb' : Pcb
  pub there : k'.procs p ≡ some pcb'
  pub pid : pcb'.pid ≡ pcb.pid
  pub prio : pcb'.prio ≡ pcb.prio
  pub priority : pcb'.priority ≡ pcb.priority
  pub code : pcb'.code ≡ pcb.code
  pub pc : pcb'.pc ≡ pcb.pc

SameRest-OnlyProcess :
    (k k' : Kernel) (p : Ptr) (pcb : Pcb)
    → k.procs p ≡ some pcb
    → SameRest k k'
    → OnlyProcess p k pcb k'
SameRest-OnlyProcess k k' p pcb live (queues, heap) = record {
  queues = queues;
  others = λ q _. ap (λ h. h q) heap;
  pcb' = pcb;
  there = ap (λ h. h p) heap ∙ live;
  pid = refl;
  prio = refl;
  priority = refl;
  code = refl;
  pc = refl;
}

after-SameRest :
    (k k' k'' : Kernel) (p : Ptr) (pcb : Pcb)
    → SameRest k k'
    → OnlyProcess p k' pcb k''
    → OnlyProcess p k pcb k''
after-SameRest k k' k'' p pcb (queues, heap) o = record {
  queues = o.queues ∙ queues;
  others = λ q h. o.others q h ∙ ap (λ f. f q) heap;
  pcb' = o.pcb';
  there = o.there;
  pid = o.pid;
  prio = o.prio;
  priority = o.priority;
  code = o.code;
  pc = o.pc;
}

set_reg-OnlyProcess :
    (k k' : Kernel) (p : Ptr) (pcb : Pcb) (reg value : ℕ)
    → k.procs p ≡ some pcb
    → set_reg k p reg value ≡ some k'
    → OnlyProcess p k pcb k'
unfolding set_reg
set_reg-OnlyProcess k k' p pcb reg value live e = elim (Bool-cases (ltb reg 10)) [
  | inl is_reg ↦ subst (OnlyProcess p k pcb) (some_inj.0 (rw (live, is_reg) at e)) (record {
    queues = refl;
    others = λ q h. update-ne k.procs p q _ h;
    pcb' = record pcb { regs = set pcb.regs reg value };
    there = update_self k.procs p _;
    pid = refl;
    prio = refl;
    priority = refl;
    code = refl;
    pc = refl;
  })
  | inr other ↦
      subst (OnlyProcess p k pcb) (some_inj.0 (rw (live, other) at e))
        (SameRest-OnlyProcess k k p pcb live (refl, refl))
]

liballoc-OnlyProcess :
    (k : Kernel) (p : Ptr) (pcb : Pcb) (size reg : ℕ) (r : Status × Kernel)
    → k.procs p ≡ some pcb
    → liballoc k p size reg ≡ some r
    → OnlyProcess p k pcb r.1
unfolding liballoc
liballoc-OnlyProcess k p pcb size reg r live e =
    let ((a, k1), allocs, more) = >>=-eq-some (alloc k p 0 reg size) _ e in
    let (k2, sets, is) = >>=-eq-some (set_reg k1 p reg a) _ more in
    let rest = alloc-SameRest k k1 p 0 reg size a allocs in
    subst (λ (x : Status × Kernel). OnlyProcess p k pcb x.1) (some_inj.0 is)
      (after-SameRest k k1 k2 p pcb rest
        (set_reg-OnlyProcess k1 k2 p pcb reg a (ap (λ h. h p) rest.1 ∙ live) sets))

libfree-OnlyProcess :
    (k : Kernel) (p : Ptr) (pcb : Pcb) (reg : ℕ) (r : Status × Kernel)
    → k.procs p ≡ some pcb
    → libfree k p reg ≡ some r
    → OnlyProcess p k pcb r.1
unfolding libfree
libfree-OnlyProcess k p pcb reg r live e = elim (Option-cases (free k 0 reg)) [
  | inl fault ↦ let no_r : none ≡ some r = rw fault at e in absurd (cc)
  | inr ((failed, k1), frees) ↦
      subst (λ (x : Status × Kernel). OnlyProcess p k pcb x.1) (some_inj.0 (rw frees at e))
        (SameRest-OnlyProcess k k1 p pcb live (free-SameRest k k1 0 reg failed frees))
  | inr ((ok, k1), frees) ↦
      let (k2, sets, is) = >>=-eq-some (set_reg k1 p reg 0) _ (rw frees at e) in
      let rest = free-SameRest k k1 0 reg ok frees in
      subst (λ (x : Status × Kernel). OnlyProcess p k pcb x.1) (some_inj.0 is)
        (after-SameRest k k1 k2 p pcb rest
          (set_reg-OnlyProcess k1 k2 p pcb reg 0 (ap (λ h. h p) rest.1 ∙ live) sets))
]

libsyscall-SameRest :
    (k : Kernel) (p : Ptr) (nr a b c : ℕ) (m : Status × Regs × Kernel)
    → libsyscall k p nr a b c ≡ some m
    → SameRest k m.2
unfolding libsyscall
libsyscall-SameRest k p nr a b c m e =
    let (pcb, _, calls) = >>=-eq-some (k.procs p) _ e in syscall-SameRest k pcb.pid nr _ m calls

execute-OnlyProcess :
    (k : Kernel) (p : Ptr) (pcb : Pcb) (ins : Inst) (op : Opcode) (r : Status × Kernel)
    → k.procs p ≡ some pcb
    → execute k p (record ins { opcode = op }) ≡ some r
    → OnlyProcess p k pcb r.1
unfolding execute
execute-OnlyProcess k p pcb ins Opcode.calc r live e =
    subst (λ (x : Status × Kernel). OnlyProcess p k pcb x.1) (some_inj.0 e)
      (SameRest-OnlyProcess k k p pcb live (refl, refl))
execute-OnlyProcess k p pcb ins Opcode.alloc r live e =
    liballoc-OnlyProcess k p pcb ins.arg_0 (u32 ins.arg_1) r live e
execute-OnlyProcess k p pcb ins Opcode.free r live e =
    libfree-OnlyProcess k p pcb (u32 ins.arg_0) r live e
execute-OnlyProcess k p pcb ins Opcode.read r live e =
    let ((v, k1), reads, is) = >>=-eq-some (libread k p (u32 ins.arg_0) ins.arg_1) _ e in
    subst (λ (x : Status × Kernel). OnlyProcess p k pcb x.1) (some_inj.0 is)
      (SameRest-OnlyProcess k k1 p pcb live
        (read-SameRest k k1 p (u32 ins.arg_0) ins.arg_1 v reads))
execute-OnlyProcess k p pcb ins Opcode.write (s, k1) live e =
    SameRest-OnlyProcess k k1 p pcb live
      (write-SameRest k k1 p (ins.arg_0 % 256) (u32 ins.arg_1) ins.arg_2 s e)
execute-OnlyProcess k p pcb ins Opcode.syscall r live e =
    let (m, calls, is) =
      >>=-eq-some (libsyscall k p (u32 ins.arg_0) ins.arg_1 ins.arg_2 ins.arg_3) _ e in
    subst (λ (x : Status × Kernel). OnlyProcess p k pcb x.1) (some_inj.0 is)
      (SameRest-OnlyProcess k m.2 p pcb live
        (libsyscall-SameRest k p (u32 ins.arg_0) ins.arg_1 ins.arg_2 ins.arg_3 m calls))

after-write :
    (k k' : Kernel) (p : Ptr) (old pcb : Pcb)
    → OnlyProcess p (record k { procs = update k.procs p (some pcb) }) pcb k'
    → OnlyProcess p k pcb k'
after-write k k' p old pcb o = record {
  queues = o.queues;
  others = λ q h. o.others q h ∙ update-ne k.procs p q _ h;
  pcb' = o.pcb';
  there = o.there;
  pid = o.pid;
  prio = o.prio;
  priority = o.priority;
  code = o.code;
  pc = o.pc;
}

-- A process that has an instruction left and does not fault goes on by one instruction: the program
-- counter is one further, and the queues, every other process, and the numbers and the code of this
-- one are as before. A process at its end changes nothing.
pub run-OnlyProcess :
    (k : Kernel) (p : Ptr) (pcb : Pcb) (r : Status × Kernel)
    → k.procs p ≡ some pcb
    → run k p ≡ some r
    → OnlyProcess p k
        (record pcb { pc = if leb (length pcb.code) pcb.pc then pcb.pc else pcb.pc + 1 })
        r.1
unfolding run
run-OnlyProcess k p pcb r live e = elim (Bool-cases (leb (length pcb.code) pcb.pc)) [
  | inl over ↦ rw over (
      subst (λ (x : Status × Kernel). OnlyProcess p k pcb x.1) (some_inj.0 (rw (live, over) at e))
        (SameRest-OnlyProcess k k p pcb live (refl, refl)))
  | inr left ↦
      let (ins, _, runs) = >>=-eq-some (get_elem? pcb.code pcb.pc) _ (rw (live, left) at e) in
      let on : Pcb = record pcb { pc = pcb.pc + 1 } in
      rw left (
        after-write k r.1 p pcb on
          (execute-OnlyProcess _ p on ins ins.opcode r (update_self k.procs p (some on)) runs))
]

-- A process that has been freed cannot run.
pub run_freed : (k : Kernel) (p : Ptr) → k.procs p ≡ none → run k p ≡ none
unfolding run
run_freed k p freed = rw freed refl
