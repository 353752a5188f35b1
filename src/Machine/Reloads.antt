-- ===== src/Machine/Reloads.antt =====
-- src/os.c: what one processor does to the processes in the first part of a round of its loop.
use mathlib.Core.Option.{some_inj}
use mathlib.Core.Path.{subst}
use hdh.Base.{
  ℕ, ◌+◌, ◌<◌, ◌≡◌, inl, inr, sym, ap, ◌∙◌, refl, ◌==◌, if◌then◌else◌, Bool, true, false,
  Bool-cases, Option, Option-cases, none, some, >>=-eq-some, length, update, arith,
}
use hdh.Queue.{Ptr, max_queue_size}
use hdh.Sched.{Sched, put_mlq_proc}
use hdh.Kernel.{Kernel, Pcb}
use hdh.Processor.{Processor, priority_of, get_proc, give_up, take_proc}
use hdh.Machine.Weight.{
  of_proc, one, mark, backlog, backlog-get_mlq_proc, backlog-none, backlog-put_mlq_proc,
}

-- 1 for a process that is there, 0 for an address that is free.
abbrev pub is_there : Option Pcb → ℕ
is_there none = 0
is_there (some pcb) = 1

abbrev pub present : Kernel → Ptr → ℕ
present k p = is_there (k.procs p)

-- A processor exchanges its process, `o`, for `o'` with the ready queues, and `lost` is freed.
pub record Exchanges (k : Kernel) (o o' : Option Ptr) (k' : Kernel) : Type 0 where
  pub lost : Option Ptr
  pub moved :
      (w : Ptr → ℕ)
      → backlog w k'.sched + of_proc w o' + of_proc w lost ≡ backlog w k.sched + of_proc w o
  pub left : (q : Ptr) → present k' q + of_proc (mark q) lost ≡ present k q

present-free :
    (k : Kernel) (p q : Ptr) (pcb : Pcb)
    → k.procs p ≡ some pcb
    → present (record k { procs = update k.procs p none }) q + mark q p ≡ present k q
present-free k p q pcb live = elim (Bool-cases (p == q)) [
  | inl here ↦
      let same : p ≡ q = ground arith in
      let there : k.procs q ≡ some pcb = ap k.procs (sym same) ∙ live in
      ground (arith, ap is_there there)
  | inr other ↦ rw other (omega arith)
]

-- get_proc, while the processor has no process.
pub take_proc-Exchanges :
    (k : Kernel) (c : Processor) → Exchanges k none (take_proc k c).0.proc (take_proc k c).1
unfolding take_proc get_proc
take_proc-Exchanges k c = record {
  lost = none;
  moved = λ w. omega (arith, backlog-get_mlq_proc w (priority_of k) k.sched);
  left = λ q. omega arith;
}

-- get_proc returns NULL only when nothing waits.
pub take_proc-emptied :
    (k : Kernel) (c : Processor)
    → (take_proc k c).0.proc ≡ none
    → backlog one (take_proc k c).1.sched ≡ 0
unfolding take_proc get_proc
take_proc-emptied k c = backlog-none one (priority_of k) k.sched

-- What give_up has done.
pub data GivesUp (k : Kernel) (c : Processor) : Bool → Kernel → Type 0 where
  had_none : c.proc ≡ none → GivesUp k c true k
  finished :
      (p : Ptr) (pcb : Pcb)
      → c.proc ≡ some p
      → k.procs p ≡ some pcb
      → GivesUp k c true (record k { procs = update k.procs p none })
  put_back :
      (p : Ptr) (prio : ℕ) (sched : Sched)
      → c.proc ≡ some p
      → put_mlq_proc k.sched p prio ≡ some sched
      → GivesUp k c true (record k { sched = sched })
  goes_on : (p : Ptr) → c.proc ≡ some p → GivesUp k c false k

pub give_up-GivesUp :
    (k : Kernel) (c : Processor) (r : Bool × Processor × Kernel)
    → give_up k c ≡ some r
    → GivesUp k c r.0 r.2 × (r.1.proc ≡ c.proc)
unfolding give_up
give_up-GivesUp k c r e = elim (Option-cases c.proc) [
  | inl idle ↦ outcome (some_inj.0 (rw idle at e)) (had_none idle, sym idle)
  | inr (p, has) ↦
      let (pcb, live, more) = >>=-eq-some (k.procs p) _ (rw has at e) in
      elim (Bool-cases (pcb.pc == length pcb.code)) [
        | inl over ↦ outcome (some_inj.0 (rw over at more)) (finished p pcb has live, sym has)
        | inr left ↦ elim (Bool-cases (c.time_left == 0)) [
          | inl spent ↦
              let (sched, puts, is) =
                >>=-eq-some (put_mlq_proc k.sched p pcb.prio) _ (rw (left, spent) at more) in
              outcome (some_inj.0 is) (put_back p pcb.prio sched has puts, sym has)
          | inr goes ↦ outcome (some_inj.0 (rw (left, goes) at more)) (goes_on p has, sym has)
        ]
      ]
]
  where
    outcome :
        {x : Bool × Processor × Kernel}
        → x ≡ r
        → GivesUp k c x.0 x.2 × (x.1.proc ≡ c.proc)
        → GivesUp k c r.0 r.2 × (r.1.proc ≡ c.proc)
    outcome = subst (λ (x : Bool × Processor × Kernel). GivesUp k c x.0 x.2 × (x.1.proc ≡ c.proc))

-- The process that the processor has behind give_up.
abbrev pub still : Bool → Processor → Option Ptr
still calls c = if calls then none else c.proc

GivesUp-Exchanges :
    (k k' : Kernel) (c : Processor) (calls : Bool)
    → ((p : Ptr) → c.proc ≡ some p → backlog one k.sched < max_queue_size)
    → GivesUp k c calls k'
    → Exchanges k c.proc (still calls c) k'
GivesUp-Exchanges k k' c calls room (had_none idle) = record {
  lost = none;
  moved = λ w. omega (arith, ap (of_proc w) idle);
  left = λ q. omega arith;
}
GivesUp-Exchanges k k' c calls room (finished p pcb has live) = record {
  lost = some p;
  moved = λ w. omega (arith, ap (of_proc w) has);
  left = λ q. present-free k p q pcb live;
}
GivesUp-Exchanges k k' c calls room (put_back p prio sched has puts) = record {
  lost = none;
  moved = λ w.
      omega
        (arith, backlog-put_mlq_proc w k.sched sched p prio puts (room p has), ap (of_proc w) has);
  left = λ q. omega arith;
}
GivesUp-Exchanges k k' c calls room (goes_on p has) = record {
  lost = none;
  moved = λ w. omega arith;
  left = λ q. omega arith;
}

-- While a processor that has a process finds room in the ready queues, the first `if` of its loop
-- loses no process but the one that it frees, and doubles none.
pub give_up-Exchanges :
    (k : Kernel) (c : Processor) (r : Bool × Processor × Kernel)
    → ((p : Ptr) → c.proc ≡ some p → backlog one k.sched < max_queue_size)
    → give_up k c ≡ some r
    → Exchanges k c.proc (still r.0 r.1) r.2
give_up-Exchanges k c r room e =
    let (how, same) = give_up-GivesUp k c r e in
    subst (λ o. Exchanges k c.proc (if r.0 then none else o) r.2) (sym same)
      (GivesUp-Exchanges k r.2 c r.0 room how)

-- A processor that keeps its process has one.
pub give_up-keeps :
    (k k' : Kernel) (c c' : Processor)
    → give_up k c ≡ some (false, c', k')
    → (p : Ptr) × (c'.proc ≡ some p)
give_up-keeps k k' c c' e =
    let (how, same) = give_up-GivesUp k c (false, c', k') e in
    let (p, has) = kept false k' how refl in (p, same ∙ has)
  where
    kept :
        (calls : Bool) (after : Kernel)
        → GivesUp k c calls after
        → calls ≡ false
        → (p : Ptr) × (c.proc ≡ some p)
    kept calls after (had_none idle) q = absurd (cc)
    kept calls after (finished p pcb has live) q = absurd (cc)
    kept calls after (put_back p prio sched has puts) q = absurd (cc)
    kept calls after (goes_on p has) q = (p, has)
