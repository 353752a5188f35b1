-- ===== src/Machine/Weight.antt =====
-- src/queue.c and src/sched.c: what waits in the ready queues, where every process has a weight.
-- With the weight 1 it is the number of entries, with 1 for one process and 0 for the others the
-- number of times that this one waits.
use hdh.Base.{
  ℕ, zero, suc, ◌+◌, ◌≤◌, ◌<◌, ◌≡◌, inl, inr, refl, ap, ◌∙◌, ◌==◌, if◌then◌else◌, Bool-cases,
  Option, none, some, [], ◌∷◌, ◌++◌, length, update, update_self, update-ne, arith,
}
use hdh.Queue.{Ptr, Queue, max_queue_size, enqueue}
use hdh.Queue.Selection.{Dequeues}
use hdh.Sched.{
  max_prio, Sched, clear_queues, init_scheduler, get_mlq_proc, put_mlq_proc, add_mlq_proc,
}
use hdh.Sched.Choice.{get_mlq_proc-Chooses, mlq-refresh}
use hdh.Sched.Conservation.{total, total-change, total-le, total-zero, put_fields}

-- The weight of the process that a pointer points to; NULL has none.
abbrev pub of_proc : (Ptr → ℕ) → Option Ptr → ℕ
of_proc w none = 0
of_proc w (some p) = w p

abbrev pub one : Ptr → ℕ
one p = 1

abbrev pub mark : Ptr → Ptr → ℕ
mark p x = if x == p then 1 else 0

abbrev pub weight : (Ptr → ℕ) → Queue → ℕ
weight w [] = 0
weight w (p ∷ q) = w p + weight w q

abbrev pub backlog : (Ptr → ℕ) → Sched → ℕ
backlog w s = total (λ k. weight w (s.mlq_ready_queue k)) max_prio

weight-append : (w : Ptr → ℕ) (xs ys : Queue) → weight w (xs ++ ys) ≡ weight w xs + weight w ys
weight-append w [] ys = omega arith
weight-append w (x ∷ xs) ys = omega (arith, weight-append w xs ys)

weight-one : (q : Queue) → weight one q ≡ length q
weight-one [] = refl
weight-one (x ∷ q) = omega (arith, weight-one q)

weight-enqueue :
    (w : Ptr → ℕ) (q : Queue) (p : Ptr)
    → length q < max_queue_size
    → weight w (enqueue q p) ≡ weight w q + w p
unfolding enqueue
weight-enqueue w q p room = ground (arith, weight-append w q (p ∷ []))

weight-Dequeues :
    (w : Ptr → ℕ) {priority : Ptr → ℕ} {q : Queue} {r : Option Ptr × Queue}
    (d : Dequeues priority q r)
    → weight w r.1 + w d.taken ≡ weight w q
weight-Dequeues w d = omega (
  arith,
  ap (weight w) d.left,
  ap (weight w) d.selects.split,
  weight-append w d.selects.before d.selects.after,
  weight-append w d.selects.before (d.taken ∷ d.selects.after),
)

-- While fewer processes wait than a queue holds, no queue is full.
pub room_of :
    (s : Sched) (k : ℕ)
    → k < max_prio
    → backlog one s < max_queue_size
    → length (s.mlq_ready_queue k) < max_queue_size
room_of s k low few = omega (
  arith,
  weight-one (s.mlq_ready_queue k),
  total-le (λ j. weight one (s.mlq_ready_queue j)) k max_prio low,
)

-- The process that get_mlq_proc returns is one that has waited.
pub backlog-get_mlq_proc :
    (w : Ptr → ℕ) (priority : Ptr → ℕ) (s : Sched)
    → backlog w (get_mlq_proc priority s).1 + of_proc w (get_mlq_proc priority s).0 ≡ backlog w s
backlog-get_mlq_proc w priority s = elim (get_mlq_proc-Chooses priority s) [
  | inl (_, e) ↦ rw (e, mlq-refresh s) (omega arith)
  | inr c ↦
      let at = λ (t : Sched) (k : ℕ). weight w (t.mlq_ready_queue k) in
      let taken : c.from_queue.taken ≡ c.proc = ground (arith, c.from_queue.returned) in
      omega (
        arith,
        total-change (at (get_mlq_proc priority s).1) (at s) c.level max_prio c.in_range
            (λ k h. ap (weight w) (c.other_queues k h)),
        weight-Dequeues w c.from_queue,
        ap (of_proc w) c.returned,
        ap w taken,
      )
]

-- A process is put at the end of a ready queue that has room.
backlog-enqueue :
    (w : Ptr → ℕ) (s t : Sched) (p : Ptr) (prio : ℕ)
    → prio < max_prio
    → t.mlq_ready_queue ≡ update s.mlq_ready_queue prio (enqueue (s.mlq_ready_queue prio) p)
    → backlog one s < max_queue_size
    → backlog w t ≡ backlog w s + w p
backlog-enqueue w s t p prio low queues few =
    let at = λ (u : Sched) (k : ℕ). weight w (u.mlq_ready_queue k) in
    omega (
      arith,
      total-change (at t) (at s) prio max_prio low
          (λ k h. ap (weight w) (ap (λ m. m k) queues ∙ update-ne s.mlq_ready_queue prio k _ h)),
      ap (weight w) (ap (λ m. m prio) queues ∙ update_self s.mlq_ready_queue prio _),
      weight-enqueue w (s.mlq_ready_queue prio) p (room_of s prio low few),
    )

pub backlog-put_mlq_proc :
    (w : Ptr → ℕ) (s t : Sched) (p : Ptr) (prio : ℕ)
    → put_mlq_proc s p prio ≡ some t
    → backlog one s < max_queue_size
    → backlog w t ≡ backlog w s + w p
backlog-put_mlq_proc w s t p prio e few =
    let (low, queues, _, _) = put_fields s p prio t e in backlog-enqueue w s t p prio low queues few

add_fields :
    (s t : Sched) (p : Ptr) (prio : ℕ)
    → add_mlq_proc s p prio ≡ some t
    → (prio < max_prio)
      × (t.mlq_ready_queue ≡ update s.mlq_ready_queue prio (enqueue (s.mlq_ready_queue prio) p))
unfolding add_mlq_proc
add_fields s t p prio e = ground arith

pub backlog-add_mlq_proc :
    (w : Ptr → ℕ) (s t : Sched) (p : Ptr) (prio : ℕ)
    → add_mlq_proc s p prio ≡ some t
    → backlog one s < max_queue_size
    → backlog w t ≡ backlog w s + w p
backlog-add_mlq_proc w s t p prio e few =
    let (low, queues) = add_fields s t p prio e in backlog-enqueue w s t p prio low queues few

clear_queues-keeps : (n i k : ℕ) (q : ℕ → Queue) → q k ≡ [] → clear_queues n i q k ≡ []
unfolding clear_queues
clear_queues-keeps zero i k q e = e
clear_queues-keeps (suc n) i k q e =
    clear_queues-keeps n (i + 1) k (update q i []) (ground (arith, e))

clear_queues-at : (n i k : ℕ) (q : ℕ → Queue) → i ≤ k → k < i + n → clear_queues n i q k ≡ []
unfolding clear_queues
clear_queues-at zero i k q le lt = absurd (omega arith)
clear_queues-at (suc n) i k q le lt = elim (Bool-cases (i == k)) [
  | inl here ↦ clear_queues-keeps n (i + 1) k (update q i []) (rw here refl)
  | inr further ↦ clear_queues-at n (i + 1) k (update q i []) (ground arith) (omega arith)
]

-- No process waits behind init_scheduler.
pub backlog-init_scheduler : (w : Ptr → ℕ) (s : Sched) → backlog w (init_scheduler s) ≡ 0
unfolding init_scheduler
backlog-init_scheduler w s = total-zero _ max_prio (λ k lt.
    ap (weight w) (clear_queues-at max_prio 0 k s.mlq_ready_queue (omega arith) (omega arith)))

-- get_mlq_proc returns NULL only when nothing waits.
pub backlog-none :
    (w : Ptr → ℕ) (priority : Ptr → ℕ) (s : Sched)
    → (get_mlq_proc priority s).0 ≡ none
    → backlog w (get_mlq_proc priority s).1 ≡ 0
backlog-none w priority s e = elim (get_mlq_proc-Chooses priority s) [
  | inl (all, is) ↦
      ap (λ (r : Option Ptr × Sched). backlog w r.1) is
      ∙ total-zero _ max_prio (λ k lt. ap (weight w) (ap (λ m. m k) (mlq-refresh s) ∙ all k lt))
  | inr c ↦ absurd (ground (arith, c.returned, e))
]

total_mono : (f g : ℕ → ℕ) (n : ℕ) → total g n ≡ 0 → ((k : ℕ) → f k ≤ g k) → total f n ≡ 0
total_mono f g n e le = total-zero f n (λ k lt. omega (arith, le k, total-le g k n lt, e))

weight-mark : (p : Ptr) (q : Queue) → weight (mark p) q ≤ weight one q
weight-mark p [] = omega arith
weight-mark p (x ∷ q) = ground (arith, weight-mark p q)

pub backlog-mark : (p : Ptr) (s : Sched) → backlog one s ≡ 0 → backlog (mark p) s ≡ 0
backlog-mark p s e = total_mono _ _ max_prio e (λ k. weight-mark p (s.mlq_ready_queue k))
