-- ===== src/Machine/Runs.antt =====
-- src/os.c: what a processor does to the processes in the second part of a round of its loop.
use mathlib.Core.Option.{some_inj}
use hdh.Base.{
  ℕ, ◌≡◌, ◌≢◌, inl, inr, refl, sym, ap, ◌∙◌, ◌==◌, if◌then◌else◌, Bool, true, false, Bool-cases,
  Option, Option-cases, none, some, Status, >>=-eq-some, arith,
}
use hdh.Queue.{Ptr}
use hdh.Kernel.{Kernel, Pcb}
use hdh.Cpu.{run}
use hdh.Cpu.Effect.{OnlyProcess, run-OnlyProcess, run_freed}
use hdh.Processor.{Processor, Round, dispatch}
use hdh.Machine.Reloads.{is_there, present}

present-OnlyProcess :
    (k k' : Kernel) (p q : Ptr) (old pcb : Pcb)
    → k.procs p ≡ some old
    → OnlyProcess p k pcb k'
    → present k' q ≡ present k q
present-OnlyProcess k k' p q old pcb live o = elim (Bool-cases (q == p)) [
  | inl here ↦
      let same : q ≡ p = ground arith in rw same (ap is_there o.there ∙ sym (ap is_there live))
  | inr other ↦ let apart : q ≢ p = ground arith in ap is_there (o.others q apart)
]

-- An instruction leaves the queues and the set of processes as they are.
run-present :
    (k : Kernel) (p : Ptr) (r : Status × Kernel)
    → run k p ≡ some r
    → (r.1.sched ≡ k.sched) × ((q : Ptr) → present r.1 q ≡ present k q)
run-present k p r e = elim (Option-cases (k.procs p)) [
  | inl freed ↦ absurd (ground (arith, run_freed k p freed, e))
  | inr (pcb, live) ↦
      let o = run-OnlyProcess k p pcb r live e in
      (o.queues, λ q. present-OnlyProcess k r.1 p q pcb _ live o)
]

round_proc : Round → Option Ptr
round_proc (Round.next c k) = c.proc
round_proc (Round.stopped k) = none

unfoldable pub round_kernel : Round → Kernel
round_kernel (Round.next c k) = k
round_kernel (Round.stopped k) = k

-- How a round without a process ends.
abbrev pub idle_round : Bool → Bool → Processor → Kernel → Round
idle_round fresh done c k =
    if fresh then Round.next c k else if done then Round.stopped k else Round.next c k

idle-next :
    (fresh done : Bool) (c c' : Processor) (k k' : Kernel)
    → idle_round fresh done c k ≡ Round.next c' k'
    → (c'.proc ≡ c.proc) × (k' ≡ k)
unfolding round_proc round_kernel
idle-next true done c c' k k' e = (sym (ap round_proc e), sym (ap round_kernel e))
idle-next false true c c' k k' e = absurd (cc)
idle-next false false c c' k k' e = (sym (ap round_proc e), sym (ap round_kernel e))

idle-stopped :
    (fresh done : Bool) (c : Processor) (k k' : Kernel)
    → idle_round fresh done c k ≡ Round.stopped k'
    → (k' ≡ k) × (done ≡ true)
unfolding round_kernel
idle-stopped true done c k k' e = absurd (cc)
idle-stopped false true c k k' e = (sym (ap round_kernel e), refl)
idle-stopped false false c k k' e = absurd (cc)

-- The rest of a round loses and doubles no process: the processor keeps the one that it has.
pub dispatch-next :
    (fresh done : Bool) (time_slot : ℕ) (c c' : Processor) (k k' : Kernel)
    → dispatch fresh done time_slot (c, k) ≡ some (Round.next c' k')
    → (c'.proc ≡ c.proc) × (k'.sched ≡ k.sched) × ((q : Ptr) → present k' q ≡ present k q)
unfolding dispatch round_proc round_kernel
dispatch-next fresh done time_slot c c' k k' e = elim (Option-cases c.proc) [
  | inl idle ↦
      let (same, still) = idle-next fresh done c c' k k' (some_inj.0 (rw idle at e)) in
      (same, ap Kernel.sched still, λ q. ap (λ (x : Kernel). present x q) still)
  | inr (p, has) ↦
      let (r, runs, is) = >>=-eq-some (run k p) _ (rw has at e) in
      let h = some_inj.0 is in
      let (queues, heap) = run-present k p r runs in
      let after : k' ≡ r.1 = sym (ap round_kernel h) in
      (
        sym (ap round_proc h),
        ap Kernel.sched after ∙ queues,
        λ q. ap (λ (x : Kernel). present x q) after ∙ heap q,
      )
]

-- A processor stops only when it has no process, and the loader is done.
pub dispatch-stopped :
    (fresh done : Bool) (time_slot : ℕ) (c : Processor) (k k' : Kernel)
    → dispatch fresh done time_slot (c, k) ≡ some (Round.stopped k')
    → (c.proc ≡ none) × (k' ≡ k) × (done ≡ true)
unfolding dispatch
dispatch-stopped fresh done time_slot c k k' e = elim (Option-cases c.proc) [
  | inl idle ↦
      let (still, is_done) = idle-stopped fresh done c k k' (some_inj.0 (rw idle at e)) in
      (idle, still, is_done)
  | inr (p, has) ↦
      let (r, runs, is) = >>=-eq-some (run k p) _ (rw has at e) in absurd (ground (arith, is))
]

-- A processor that had no process before this round does not stop, even if the loader is done.
pub dispatch_fresh :
    (done : Bool) (time_slot : ℕ) (c : Processor) (k k' : Kernel)
    → c.proc ≡ none
    → dispatch true done time_slot (c, k) ≢ some (Round.stopped k')
unfolding dispatch
dispatch_fresh done time_slot c k k' idle e =
    let (_, _) = idle-stopped true done c k k' (some_inj.0 (rw idle at e)) in
    absurd (ground (arith, some_inj.0 (rw idle at e)))
