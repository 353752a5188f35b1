-- ===== src/Processor.antt =====
-- src/os.c: the parts of a round of the loop of cpu_routine, and a round in which no other thread
-- runs. `time_left` holds the 32 bits of the `int`, so that 0 - 1 is 2 ^ 32 - 1. `none` is undefined
-- behaviour.
pub mod Dangling
use hdh.Base.{
  ℕ, ◌+◌, ◌-◌, ◌^◌, ◌==◌, if◌then◌else◌, Bool, Option, none, some, ◌>>=◌, length, update,
}
use hdh.Base.Word.{u32}
use hdh.Queue.{Ptr}
use hdh.Sched.{get_mlq_proc, put_mlq_proc}
use hdh.Kernel.{Kernel}
use hdh.Cpu.{run}

-- The local variables of cpu_routine; `none` is NULL.
pub record Processor : Type 0 where
  pub proc : Option Ptr
  pub time_left : ℕ

-- The field `priority` of a process of a ready queue.
abbrev pub priority_of : Kernel → Ptr → ℕ
priority_of k p = elim (k.procs p) [ none ↦ 0 | some pcb ↦ pcb.priority ]

unfoldable pub get_proc : Kernel → Option Ptr × Kernel
get_proc k =
    let (proc, sched) = get_mlq_proc (priority_of k) k.sched in (proc, record k { sched = sched })

-- The first `if` of the loop up to its call of get_proc, and whether it makes this call: a process
-- that has finished is freed, and one whose time is over is put back. That `time_left` becomes 0
-- only behind the call makes no difference, since it is a local variable.
unfoldable pub give_up : Kernel → Processor → Option (Bool × Processor × Kernel)
give_up k c = elim c.proc [
  | none ↦ some (Bool.true, c, k)
  | some p ↦ k.procs p >>= λ pcb.
      if pcb.pc == length pcb.code
      then some (Bool.true, record c { time_left = 0 }, record k { procs = update k.procs p none })
      else if c.time_left == 0
      then (put_mlq_proc k.sched p pcb.prio >>= λ sched.
          some (Bool.true, c, record k { sched = sched }))
      else some (Bool.false, c, k)
]

-- `proc = get_proc()`.
unfoldable pub take_proc : Kernel → Processor → Processor × Kernel
unfolding get_proc
take_proc k c = (record c { proc = (get_proc k).0 }, (get_proc k).1)

-- The first `if` of the loop when no other thread runs meanwhile.
unfoldable pub reload : Kernel → Processor → Option (Processor × Kernel)
unfolding give_up take_proc
reload k c = give_up k c >>= λ r. if r.0 then some (take_proc r.2 r.1) else some (r.1, r.2)

-- How a round ends: the processor goes on to the next slot, or it stops.
pub data Round : Type 0 where
  next : Processor → Kernel → Round
  stopped : Kernel → Round

-- The rest of the round. When the first `get_proc` has found no process the round ends even if the
-- loader is done; `fresh` says that there was no process before.
unfoldable pub dispatch : Bool → Bool → ℕ → Processor × Kernel → Option Round
dispatch fresh done time_slot (c, k) = elim c.proc [
  | none ↦ some (if fresh then next c k else if done then stopped k else next c k)
  | some p ↦ run k p >>= λ r.
      let left = if c.time_left == 0 then time_slot else c.time_left in
      some (next (record c { time_left = u32 (left + (2 ^ 32 - 1)) }) r.1)
]

unfoldable pub cpu_round : Kernel → Processor → Bool → ℕ → Option Round
unfolding reload dispatch
cpu_round k c done time_slot = reload k c >>= λ r.
    dispatch (elim c.proc [ none ↦ Bool.true | some _ ↦ Bool.false ]) done time_slot r
