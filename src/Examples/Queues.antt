-- ===== src/Examples/Queues.antt =====
-- The theorems on src/queue.c and src/sched.c at concrete queues.
use hdh.Base.{
  ℕ, ◌+◌, ◌≡◌, ◌⊎◌, ◌<◌, ◌≢◌, refl, ◌==◌, if◌then◌else◌, List, none, some, [], ◌∷◌, arith,
}
use hdh.Queue.{empty, Ptr, enqueue, dequeue, scan, shift_left, purgequeue}
use hdh.Queue.Selection.{Dequeues, dequeue-Dequeues}
use hdh.Queue.Removal.{occurrences, occurrences-enqueue}
use hdh.Sched.{eligible, has_slot, has_slot_from, Sched, max_prio, refresh, get_mlq_proc}
use hdh.Queue.Order.{ordered}
use hdh.Queue.Replay.{Call, calls, call, serves, calls-serves}
use hdh.Queue.Replay.Call.{enqueues, dequeues, purges}
use hdh.Sched.Starvation.{Leads, turns, turns_starve}
use hdh.Sched.Choice.{Chooses, get_mlq_proc-Chooses}
use hdh.Examples.{two_ready}

-- Lower numbers of processes have the lower priority value.
abbrev by_number : Ptr → ℕ
by_number p = p

dequeue-Dequeues_example : Dequeues by_number (6 ∷ 3 ∷ 5 ∷ []) (dequeue by_number (6 ∷ 3 ∷ 5 ∷ []))
dequeue-Dequeues_example = dequeue-Dequeues by_number 6 (3 ∷ 5 ∷ [])

-- The process 3 is taken, although it is not at the front.
dequeue_test : dequeue by_number (6 ∷ 3 ∷ 5 ∷ []) ≡ (some 3, 6 ∷ 5 ∷ [])
unfolding dequeue scan shift_left
dequeue_test = refl

occurrences-enqueue_example : occurrences 4 (enqueue (4 ∷ 6 ∷ []) 4) ≡ 1 + 1
occurrences-enqueue_example = occurrences-enqueue 4 4 (4 ∷ 6 ∷ []) (omega arith)

get_mlq_proc-Chooses_example :
    (((k : ℕ) → k < max_prio → two_ready.mlq_ready_queue k ≡ [])
      × (get_mlq_proc by_number two_ready ≡ (none, refresh two_ready)))
    ⊎ Chooses by_number two_ready (get_mlq_proc by_number two_ready)
get_mlq_proc-Chooses_example = get_mlq_proc-Chooses by_number two_ready

-- The process 6 waits at level 7 behind the two of level 2.
abbrev starving : Sched
starving = record two_ready {
  mlq_ready_queue = λ k. if k == 2 then 4 ∷ 5 ∷ [] else if k == 7 then 6 ∷ [] else [];
}

abbrev levels : Ptr → ℕ
levels p = if p == 6 then 7 else 2

starving-Leads : Leads by_number levels starving 2
unfolding eligible refresh has_slot has_slot_from empty
starving-Leads = record {
  in_range = omega arith;
  has_turn = refl;
  none_before = λ k h. ground arith;
  own = (refl, (refl, tt));
}

turns_starve_example :
    (t : Sched) × (turns by_number levels 1000 starving ≡ some t)
    × ((k : ℕ) → k ≢ 2 → t.mlq_ready_queue k ≡ starving.mlq_ready_queue k)
turns_starve_example = turns_starve by_number levels 1000 starving 2 starving-Leads

abbrev four_calls : List Call
four_calls = enqueues 5 ∷ dequeues ∷ purges 6 ∷ dequeues ∷ []

calls-serves_example : serves by_number four_calls (ordered by_number (6 ∷ 3 ∷ [])) ≡ (
  (calls by_number four_calls (6 ∷ 3 ∷ [])).0,
  ordered by_number (calls by_number four_calls (6 ∷ 3 ∷ [])).1,
)
calls-serves_example = calls-serves by_number four_calls (6 ∷ 3 ∷ [])

calls_test : calls by_number four_calls (6 ∷ 3 ∷ []) ≡ (none ∷ some 3 ∷ some 6 ∷ some 5 ∷ [], [])
unfolding calls call enqueue dequeue scan shift_left purgequeue
calls_test = refl
