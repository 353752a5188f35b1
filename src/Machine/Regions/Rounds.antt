-- ===== src/Machine/Regions/Rounds.antt =====
-- src/os.c: one round of a processor is at most one instruction, which asks for no more bytes than
-- the instructions of its process do.
use mathlib.Core.Option.{some_inj}
use mathlib.Core.Path.{subst}
use hdh.Base.{
  ℕ, zero, suc, ◌≤◌, ◌≡◌, ◌≢◌, [], ◌∷◌, All, inl, inr, refl, sym, ap, ◌∙◌, leb, ◌==◌, Bool, true,
  false, Bool-cases, Option-cases, none, some, >>=-eq-some, Status, List, length, get_elem?, arith,
}
use hdh.Queue.{Ptr}
use hdh.Kernel.{Kernel, Pcb, Inst}
use hdh.Cpu.{run}
use hdh.Cpu.Effect.{OnlyProcess, run-OnlyProcess}
use hdh.Cpu.Apart.{asked}
use hdh.Cpu.Disjoint.{Executes, runs, stops, elsewhere}
use hdh.Processor.{Processor, Round, get_proc, give_up, take_proc, dispatch}
use hdh.Machine.Reloads.{GivesUp, had_none, finished, put_back, goes_on, give_up-GivesUp}
use hdh.Machine.Runs.{round_kernel, idle_round}

-- The effect of something that takes place between two states of the kernel structure, and asks
-- for at most `most` bytes.
abbrev pub Executed : ℕ → Kernel → Kernel → Type 0
Executed most k k' = (n : ℕ) × Executes k n k' × (n ≤ most)

pub quiet : (most : ℕ) (k k' : Kernel) → k'.mm ≡ k.mm → Executed most k k'
quiet most k k' same = (0, elsewhere same stops, omega arith)

-- No instruction of a process asks for more than `most` bytes.
abbrev pub IsFrugal : ℕ → List Inst → Type 0
IsFrugal most = All (λ ins. asked ins.opcode ins.arg_0 ≤ most)

abbrev pub Frugal : ℕ → Kernel → Type 0
Frugal most k = (q : Ptr) (pcb : Pcb) → k.procs q ≡ some pcb → IsFrugal most pcb.code

IsFrugal-get_elem? :
    (most : ℕ) (code : List Inst) (pc : ℕ) (ins : Inst)
    → IsFrugal most code
    → get_elem? code pc ≡ some ins
    → asked ins.opcode ins.arg_0 ≤ most
IsFrugal-get_elem? most [] pc ins h e = absurd (cc)
IsFrugal-get_elem? most (x ∷ code) zero ins h e =
    subst (λ (y : Inst). asked y.opcode y.arg_0 ≤ most) (some_inj.0 e) h.0
IsFrugal-get_elem? most (x ∷ code) (suc pc) ins h e = IsFrugal-get_elem? most code pc ins h.1 e

pub give_up-quiet :
    (k : Kernel) (c : Processor) (r : Bool × Processor × Kernel)
    → give_up k c ≡ some r
    → r.2.mm ≡ k.mm
give_up-quiet k c r e = same_mm r.0 r.2 (give_up-GivesUp k c r e).0
  where
    same_mm : (calls : Bool) (k' : Kernel) → GivesUp k c calls k' → k'.mm ≡ k.mm
    same_mm calls k' (had_none idle) = refl
    same_mm calls k' (finished p pcb has live) = refl
    same_mm calls k' (put_back p prio sched has puts) = refl
    same_mm calls k' (goes_on p has) = refl

-- A processor that gives its process up leaves every other process as it is.
pub give_up-Frugal :
    (most : ℕ) (k : Kernel) (c : Processor) (r : Bool × Processor × Kernel)
    → Frugal most k
    → give_up k c ≡ some r
    → Frugal most r.2
give_up-Frugal most k c r frugal e = still_frugal r.0 r.2 (give_up-GivesUp k c r e).0
  where
    still_frugal : (calls : Bool) (k' : Kernel) → GivesUp k c calls k' → Frugal most k'
    still_frugal calls k' (had_none idle) q qcb at = frugal q qcb at
    still_frugal calls k' (finished p pcb has live) q qcb at = elim (Bool-cases (p == q)) [
      | inl here ↦ absurd (ground (arith, at))
      | inr other ↦ frugal q qcb (rw other at at)
    ]
    still_frugal calls k' (put_back p prio sched has puts) q qcb at = frugal q qcb at
    still_frugal calls k' (goes_on p has) q qcb at = frugal q qcb at

pub take_proc-quiet : (k : Kernel) (c : Processor) → (take_proc k c).1.mm ≡ k.mm
unfolding take_proc get_proc
take_proc-quiet k c = refl

pub take_proc-Frugal :
    (most : ℕ) (k : Kernel) (c : Processor) → Frugal most k → Frugal most (take_proc k c).1
unfolding take_proc get_proc
take_proc-Frugal most k c frugal = frugal

OnlyProcess-Frugal :
    (most : ℕ) (k k' : Kernel) (p : Ptr) (old pcb : Pcb)
    → k.procs p ≡ some old
    → pcb.code ≡ old.code
    → OnlyProcess p k pcb k'
    → Frugal most k
    → Frugal most k'
OnlyProcess-Frugal most k k' p old pcb live code o frugal q qcb at = elim (Bool-cases (q == p)) [
  | inl here ↦
      let same : q ≡ p = ground arith in
      let is : o.pcb' ≡ qcb = some_inj.0 (sym o.there ∙ ap k'.procs (sym same) ∙ at) in
      subst (IsFrugal most) (sym code ∙ sym o.code ∙ ap Pcb.code is) (frugal p old live)
  | inr other ↦ let apart : q ≢ p = ground arith in frugal q qcb (sym (o.others q apart) ∙ at)
]

run-Executed :
    (most : ℕ) (k : Kernel) (p : Ptr) (r : Status × Kernel)
    → Frugal most k
    → run k p ≡ some r
    → Executed most k r.1 × Frugal most r.1
unfolding run
run-Executed most k p r frugal e = elim (Option-cases (k.procs p)) [
  | inl freed ↦ let no_r : none ≡ some r = rw freed at e in absurd (cc)
  | inr (pcb, live) ↦
      let after = run-OnlyProcess k p pcb r live e in
      (ran pcb live, OnlyProcess-Frugal most k r.1 p pcb _ live refl after frugal)
]
  where
    ran : (pcb : Pcb) → k.procs p ≡ some pcb → Executed most k r.1
    ran pcb live = elim (Bool-cases (leb (length pcb.code) pcb.pc)) [
      | inl over ↦
          quiet most k r.1
            (ap (λ (x : Status × Kernel). x.1.mm) (sym (some_inj.0 (rw (live, over) at e))))
      | inr more ↦
          let (ins, at_pc, _) = >>=-eq-some (get_elem? pcb.code pcb.pc) _ (rw (live, more) at e) in
          let low = IsFrugal-get_elem? most pcb.code pcb.pc ins (frugal p pcb live) at_pc in
          (_, runs p pcb ins r live at_pc e stops, omega (arith, low))
    ]

idle-quiet :
    (fresh done : Bool) (c : Processor) (k : Kernel) → round_kernel (idle_round fresh done c k) ≡ k
unfolding round_kernel
idle-quiet true done c k = refl
idle-quiet false true c k = refl
idle-quiet false false c k = refl

pub dispatch-Executed :
    (most : ℕ) (fresh done : Bool) (time_slot : ℕ) (c : Processor) (k : Kernel) (r : Round)
    → Frugal most k
    → dispatch fresh done time_slot (c, k) ≡ some r
    → Executed most k (round_kernel r) × Frugal most (round_kernel r)
unfolding dispatch round_kernel
dispatch-Executed most fresh done time_slot c k r frugal e = elim (Option-cases c.proc) [
  | inl idle ↦
      let is = some_inj.0 (rw idle at e) in
      let still : k ≡ round_kernel r =
        sym (idle-quiet fresh done c k) ∙ ap (λ x. round_kernel x) is in
      (quiet most k (round_kernel r) (ap Kernel.mm (sym still)), subst (Frugal most) still frugal)
  | inr (p, has) ↦
      let (s, ran, is) = >>=-eq-some (run k p) _ (rw has at e) in
      subst (λ x. Executed most k (round_kernel x) × Frugal most (round_kernel x)) (some_inj.0 is)
        (run-Executed most k p s frugal ran)
]
