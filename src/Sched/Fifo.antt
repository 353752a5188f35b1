-- ===== src/Sched/Fifo.antt =====
-- src/sched.c and src/queue.c without MLQ_SCHED: two queues in the order of arrival. A process that
-- was put back stands in the run queue, a new one in the ready queue. The pointers of `struct krnl_t`
-- to the queues, which put_proc and add_proc set, are not read here.
use hdh.Base.{
  ℕ, zero, suc, ◌≡◌, inl, inr, refl, ap, ◌∙◌, Bool-cases, ltb, not, if◌then◌else◌, Option, none,
  some, [], ◌∷◌, ◌++◌, length, arith,
}
use hdh.Queue.{Ptr, Queue, max_queue_size, empty, enqueue}
use hdh.Sched.{Sched}

-- The `#else` part of dequeue: the first goes, and the others move up.
unfoldable pub dequeue : Queue → Option Ptr × Queue
dequeue [] = (none, [])
dequeue (p ∷ q) = (some p, q)

unfoldable pub get_proc : Sched → Option Ptr × Sched
unfolding empty
get_proc s =
    if not (empty s.run_queue)
    then ((dequeue s.run_queue).0, record s { run_queue = (dequeue s.run_queue).1 })
    else if not (empty s.ready_queue)
    then ((dequeue s.ready_queue).0, record s { ready_queue = (dequeue s.ready_queue).1 })
    else (none, s)

unfoldable pub put_proc : Sched → Ptr → Sched
put_proc s proc = record s { run_queue = enqueue s.run_queue proc }

unfoldable pub add_proc : Sched → Ptr → Sched
add_proc s proc = record s { ready_queue = enqueue s.ready_queue proc }

-- The processes in the order in which get_proc takes them.
abbrev pub waiting : Sched → Queue
waiting s = s.run_queue ++ s.ready_queue

-- The first of a queue and the others.
abbrev pub head : Queue → Option Ptr
head [] = none
head (p ∷ q) = some p

abbrev pub tail : Queue → Queue
tail [] = []
tail (p ∷ q) = q

module _ (s : Sched) where
  get_waiting :
      (run ready : Queue)
      → let t = record s { run_queue = run; ready_queue = ready } in
        ((get_proc t).0 ≡ head (waiting t)) × (waiting (get_proc t).1 ≡ tail (waiting t))
  unfolding get_proc dequeue
  get_waiting [] [] = (refl, refl)
  get_waiting [] (p ∷ q) = ground arith
  get_waiting (p ∷ q) ready = ground arith

  -- get_proc takes the first of the run queue followed by the ready queue, or NULL when both are
  -- empty, and leaves the others in their order.
  pub get_proc-waiting :
      ((get_proc s).0 ≡ head (waiting s)) × (waiting (get_proc s).1 ≡ tail (waiting s))
  get_proc-waiting = get_waiting s.run_queue s.ready_queue

-- A turn of a processor, which puts its process back when the time slot is over.
unfoldable pub turn : Sched → Sched
turn s = elim (get_proc s).0 [ none ↦ (get_proc s).1 | some p ↦ put_proc (get_proc s).1 p ]

unfoldable pub turns : ℕ → Sched → Sched
turns zero s = s
turns (suc n) s = turns n (turn s)

enqueue-nonempty : (q : Queue) (p : Ptr) → (x : Ptr) × (r : Queue) × (enqueue q p ≡ x ∷ r)
unfolding enqueue
enqueue-nonempty [] p = (p, [], refl)
enqueue-nonempty (x ∷ q) p = elim (Bool-cases (ltb (length (x ∷ q)) max_queue_size)) [
  | inl room ↦ (x, q ++ (p ∷ []), rw room refl)
  | inr full ↦ (x, q, rw full refl)
]

turn-nonempty :
    (s : Sched) (p : Ptr) (q : Queue)
    → turn (record s { run_queue = p ∷ q }) ≡ record s { run_queue = enqueue q p }
unfolding turn get_proc dequeue put_proc
turn-nonempty s p q = ground arith

turn_lem :
    (s : Sched) (p : Ptr) (q : Queue)
    → s.run_queue ≡ p ∷ q
    → turn s ≡ record s { run_queue = enqueue q p }
turn_lem s p q e = ap (λ l. turn (record s { run_queue = l })) e ∙ turn-nonempty s p q

-- While a process stands in the run queue, turns never reach the ready queue: however many a
-- processor takes, the processes of the ready queue stay there.
pub ready_starves :
    (n : ℕ) (s : Sched) (p : Ptr) (q : Queue)
    → s.run_queue ≡ p ∷ q
    → (turns n s).ready_queue ≡ s.ready_queue
unfolding turns
ready_starves zero s p q e = refl
ready_starves (suc n) s p q e =
    let (x, r, f) = enqueue-nonempty q p in
    ap (λ t. (turns n t).ready_queue) (turn_lem s p q e)
    ∙ ready_starves n (record s { run_queue = enqueue q p }) x r f
