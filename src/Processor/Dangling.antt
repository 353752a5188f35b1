-- ===== src/Processor/Dangling.antt =====
-- src/os.c: a finished process is freed, but not taken off the running list.
use hdh.Base.{
  ℕ, ◌≤◌, ◌≡◌, inl, inr, refl, ◌==◌, ==_self, ltb, Bool-cases, true, none, some, length, update,
  update_self, arith,
}
use hdh.Queue.{Ptr, Queue, enqueue}
use hdh.Queue.Removal.{occurrences, occurrences-enqueue, enqueue-full}
use hdh.Queue.{max_queue_size}
use hdh.Sched.{Sched, get_mlq_proc}
use hdh.Sched.Choice.{get_mlq_proc-Chooses, running_list-refresh}
use hdh.Kernel.{Kernel, Pcb}
use hdh.Processor.{Processor, priority_of, get_proc, reload}

occurrences-enqueue-le : (p x : Ptr) (q : Queue) → occurrences p q ≤ occurrences p (enqueue q x)
occurrences-enqueue-le p x q = elim (Bool-cases (ltb (length q) max_queue_size)) [
  | inl room ↦ omega (arith, occurrences-enqueue p x q (ground arith))
  | inr full ↦ rw (enqueue-full x q (ground arith)) (omega arith)
]

-- Taking a process never takes one off the running list.
get_mlq_proc-running :
    (priority : Ptr → ℕ) (s : Sched) (p : Ptr)
    → occurrences p s.running_list ≤ occurrences p (get_mlq_proc priority s).1.running_list
get_mlq_proc-running priority s p = elim (get_mlq_proc-Chooses priority s) [
  | inl (_, e) ↦ rw (e, running_list-refresh s) (omega arith)
  | inr c ↦ rw c.listed (occurrences-enqueue-le p c.proc s.running_list)
]

-- If the processor's process is live, at the end of its code, and on the running list, then the
-- round does not fault up to the choice of the next process, after which the process has been freed
-- and is on the running list still.
pub reload-dangling :
    (k : Kernel) (c : Processor) (p : Ptr) (pcb : Pcb)
    → c.proc ≡ some p
    → k.procs p ≡ some pcb
    → pcb.pc ≡ length pcb.code
    → 1 ≤ occurrences p k.sched.running_list
    → (c' : Processor) × (k' : Kernel) × (reload k c ≡ some (c', k'))
      × (k'.procs p ≡ none)
      × (1 ≤ occurrences p k'.sched.running_list)
unfolding reload get_proc
reload-dangling k c p pcb runs e finished listed =
    let freed : Kernel = record k { procs = update k.procs p none } in
    let over : (pcb.pc == length pcb.code) ≡ true = rw finished (==_self (length pcb.code)) in
    (
      record { proc = (get_proc freed).0; time_left = 0 },
      (get_proc freed).1,
      rw (runs, e, over) refl,
      update_self k.procs p none,
      omega (arith, listed, get_mlq_proc-running (priority_of freed) k.sched p),
    )
