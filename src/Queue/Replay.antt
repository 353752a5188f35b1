-- ===== src/Queue/Replay.antt =====
-- src/queue.c: any sequence of calls on one queue, on the array and on the order of service.
use hdh.Base.{
  ℕ, ◌≡◌, refl, sym, ap, ◌∙◌, inl, inr, ltb, if◌then◌else◌, Bool-cases, Option, none, some, List,
  [], ◌∷◌, ◌++◌, length, arith,
}
use hdh.Queue.{Ptr, Queue, max_queue_size, enqueue, dequeue, purgequeue}
use hdh.Queue.Selection.{dequeue-Dequeues}
use hdh.Queue.Order.{
  arrive, ordered, leave, holds, length-ordered, ordered-append, ordered-first, ordered-leave,
  holds-ordered,
}

-- The calls of queue.h.
pub data Call : Type 0 where
  enqueues : Ptr → Call
  dequeues : Call
  purges : Ptr → Call

module _ (priority : Ptr → ℕ) where
  unfoldable pub call : Call → Queue → Option Ptr × Queue
  call (enqueues p) q = (none, enqueue q p)
  call dequeues q = dequeue priority q
  call (purges p) q = purgequeue q p

  -- What each call of a sequence returns, and the queue in the end.
  unfoldable pub calls : List Call → Queue → List (Option Ptr) × Queue
  calls [] q = ([], q)
  calls (c ∷ cs) q =
      let (result, q') = call c q in let (results, q'') = calls cs q' in (result ∷ results, q'')

  -- The same on a list in the order of service: `dequeues` takes its head.
  unfoldable pub serve : Call → Queue → Option Ptr × Queue
  serve (enqueues p) s = (none, if ltb (length s) max_queue_size then arrive priority p s else s)
  serve dequeues [] = (none, [])
  serve dequeues (p ∷ s) = (some p, s)
  serve (purges p) s = (if holds p s then some p else none, leave p s)

  unfoldable pub serves : List Call → Queue → List (Option Ptr) × Queue
  serves [] s = ([], s)
  serves (c ∷ cs) s =
      let (result, s') = serve c s in let (results, s'') = serves cs s' in (result ∷ results, s'')

  purgequeue-leave :
      (p : Ptr) (q : Queue) → purgequeue q p ≡ (if holds p q then some p else none, leave p q)
  unfolding purgequeue holds leave
  purgequeue-leave p [] = refl
  purgequeue-leave p (x ∷ q) = ground (arith, purgequeue-leave p q)

  serve-ordered :
      (c : Call) (q : Queue)
      → serve c (ordered priority q) ≡ ((call c q).0, ordered priority (call c q).1)
  unfolding serve call enqueue ordered dequeue
  serve-ordered (enqueues p) q = elim (Bool-cases (ltb (length q) max_queue_size)) [
    | inl room ↦
        rw (length-ordered priority q, room)
          (ap (λ s. (none, s)) (sym (ordered-append priority q p)))
    | inr full ↦ rw (length-ordered priority q, full) refl
  ]
  serve-ordered dequeues [] = refl
  serve-ordered dequeues (p ∷ q) =
      let d = dequeue-Dequeues priority p q in
      let split =
        ap (ordered priority) d.selects.split
        ∙ ordered-first priority d.taken d.selects.before d.selects.after d.selects.first
            d.selects.least in
      ap (serve dequeues) split
      ∙ ap (λ o. (o, ordered priority (d.selects.before ++ d.selects.after))) (sym d.returned)
      ∙ ap (λ r. ((dequeue priority (p ∷ q)).0, ordered priority r)) (sym d.left)
  serve-ordered (purges p) q =
      rw (holds-ordered priority p q, ← ordered-leave priority p q, purgequeue-leave p q) refl

  -- Any sequence of calls on the array returns what it returns on the order of service, and leaves
  -- the array in that order.
  pub calls-serves :
      (cs : List Call) (q : Queue)
      → serves cs (ordered priority q) ≡ ((calls cs q).0, ordered priority (calls cs q).1)
  unfolding serves calls
  calls-serves [] q = refl
  calls-serves (c ∷ cs) q = rw (serve-ordered c q, calls-serves cs (call c q).1) refl
