-- ===== src/Sched.antt =====
-- src/sched.c under MLQ_SCHED: the multi-level queue scheduler. Every operation runs under
-- `queue_lock` and is one step here. `none` is an index outside the arrays of MAX_PRIO entries.
pub mod Slots
pub mod Choice
pub mod Conservation
pub mod Budget
pub mod Starvation
pub mod Fifo
use hdh.Base.{
  ℕ, zero, suc, ◌+◌, ◌-◌, ◌==◌, ltb, if◌then◌else◌, Bool, true, false, ◌&&◌, not, Option, none,
  some, check, ◌>>=◌, ◌>>◌, [], update,
}
use hdh.Queue.{Ptr, Queue, empty, enqueue, dequeue, purgequeue}

abbrev pub max_prio : ℕ
max_prio = 140

-- The file's static variables. `slot` counts down only from a positive entry.
pub record Sched : Type 0 where
  pub ready_queue : Queue
  pub run_queue : Queue
  pub running_list : Queue
  pub mlq_ready_queue : ℕ → Queue
  pub slot : ℕ → ℕ

-- `for (i = i; i < i + n; i++) slot[i] = MAX_PRIO - i`.
unfoldable pub fill_slots : ℕ → ℕ → (ℕ → ℕ) → ℕ → ℕ
fill_slots zero i slot = slot
fill_slots (suc n) i slot = fill_slots n (i + 1) (update slot i (max_prio - i))

unfoldable pub reset_slot : Sched → Sched
reset_slot s = record s { slot = fill_slots max_prio 0 s.slot }

-- The test of `has_slot` and `get_mlq_proc` at one priority.
unfoldable pub eligible : Sched → ℕ → Bool
unfolding empty
eligible s i = not (empty (s.mlq_ready_queue i)) && ltb 0 (s.slot i)

unfoldable pub has_slot_from : ℕ → ℕ → Sched → Bool
has_slot_from zero i s = false
has_slot_from (suc n) i s =
    let rest = has_slot_from n (i + 1) s in if eligible s i then true else rest

unfoldable pub has_slot : Sched → Bool
has_slot s = has_slot_from max_prio 0 s

unfoldable pub clear_queues : ℕ → ℕ → (ℕ → Queue) → ℕ → Queue
clear_queues zero i q = q
clear_queues (suc n) i q = clear_queues n (i + 1) (update q i [])

unfoldable pub init_scheduler : Sched → Sched
init_scheduler s = record {
  ready_queue = [];
  run_queue = [];
  running_list = [];
  mlq_ready_queue = clear_queues max_prio 0 s.mlq_ready_queue;
  slot = fill_slots max_prio 0 s.slot;
}

-- The loop of `queue_empty`, which returns -1 at the first queue that holds a process.
unfoldable pub mlq_empty_from : ℕ → ℕ → Sched → Bool
mlq_empty_from zero i s = true
mlq_empty_from (suc n) i s =
    let rest = mlq_empty_from n (i + 1) s in if empty (s.mlq_ready_queue i) then rest else false

-- `some b` is the result of the last line, `none` the -1 of the loop.
unfoldable pub queue_empty : Sched → Option Bool
queue_empty s =
    if mlq_empty_from max_prio 0 s then some (empty s.ready_queue && empty s.run_queue) else none

-- The slots as the loop finds them: given out again when none of the waiting processes has one.
unfoldable pub refresh : Sched → Sched
refresh s = if has_slot s then s else reset_slot s

module _ (priority : Ptr → ℕ) where
  -- The body of the loop of `get_mlq_proc` at a priority that passes its test.
  unfoldable pub take_from : ℕ → Sched → Option Ptr × Sched
  take_from i s =
      let (proc, rest) = dequeue priority (s.mlq_ready_queue i) in
      (
        proc,
        record s {
          mlq_ready_queue = update s.mlq_ready_queue i rest;
          slot = update s.slot i (s.slot i - 1);
          running_list = elim proc [ none ↦ s.running_list | some p ↦ enqueue s.running_list p ];
        },
      )

  unfoldable pub pick_from : ℕ → ℕ → Sched → Option Ptr × Sched
  pick_from zero i s = (none, s)
  pick_from (suc n) i s =
      let rest = pick_from n (i + 1) s in if eligible s i then take_from i s else rest

  unfoldable pub get_mlq_proc : Sched → Option Ptr × Sched
  get_mlq_proc s = pick_from max_prio 0 (refresh s)

-- `prio` is the `prio` field of the process.
unfoldable pub put_mlq_proc : Sched → Ptr → ℕ → Option Sched
put_mlq_proc s proc prio = do
  check (ltb prio max_prio)
  some (record s {
    slot = update s.slot prio (s.slot prio + 1);
    running_list = (purgequeue s.running_list proc).1;
    mlq_ready_queue = update s.mlq_ready_queue prio (enqueue (s.mlq_ready_queue prio) proc);
  })

unfoldable pub add_mlq_proc : Sched → Ptr → ℕ → Option Sched
add_mlq_proc s proc prio = do
  check (ltb prio max_prio)
  some (record s {
    mlq_ready_queue = update s.mlq_ready_queue prio (enqueue (s.mlq_ready_queue prio) proc);
  })
