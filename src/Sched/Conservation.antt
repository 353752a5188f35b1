-- ===== src/Sched/Conservation.antt =====
-- src/sched.c: no operation overfills a queue, and none loses or doubles a process while there is
-- room.
use hdh.Base.{
  ℕ, zero, suc, ◌+◌, ◌≤◌, ◌<◌, ◌≡◌, ◌≢◌, inl, inr, refl, ap, ◌∙◌, ◌==◌, if◌then◌else◌, Bool-cases,
  Option, some, length, update, update_self, update-ne, arith,
}
use hdh.Queue.{Ptr, Queue, max_queue_size, enqueue, purgequeue}
use hdh.Queue.Removal.{
  occurrences, occurrences-enqueue, occurrences-purgequeue, occurrences-Dequeues, length-Dequeues,
  length-enqueue-le, length-purgequeue-le,
}
use hdh.Sched.{max_prio, Sched, get_mlq_proc, put_mlq_proc}
use hdh.Sched.Choice.{Chooses, get_mlq_proc-Chooses, mlq-refresh, running_list-refresh}

-- No queue holds more than its array does.
pub record IsBounded (s : Sched) : Type 0 where
  pub ready : (k : ℕ) → length (s.mlq_ready_queue k) ≤ max_queue_size
  pub running : length s.running_list ≤ max_queue_size

Chooses-IsBounded :
    {priority : Ptr → ℕ} {s : Sched} {r : Option Ptr × Sched}
    → Chooses priority s r
    → IsBounded s
    → IsBounded r.1
Chooses-IsBounded {s} {r} c b = record {
  ready = λ k. elim (Bool-cases (k == c.level)) [
    | inl same ↦
        let e : k ≡ c.level = ground arith in
        rw e (omega (arith, length-Dequeues c.from_queue, b.ready c.level))
    | inr other ↦ rw (c.other_queues k (ground arith)) (b.ready k)
  ];
  running = rw c.listed (length-enqueue-le c.proc s.running_list b.running);
}

-- If every queue is within its array, it is so after `get_mlq_proc`.
pub get_mlq_proc-IsBounded :
    (priority : Ptr → ℕ) (s : Sched) → IsBounded s → IsBounded (get_mlq_proc priority s).1
get_mlq_proc-IsBounded priority s b = elim (get_mlq_proc-Chooses priority s) [
  | inl (_, e) ↦ rw e (record {
    ready = λ k. rw (mlq-refresh s) (b.ready k);
    running = rw (running_list-refresh s) b.running;
  })
  | inr c ↦ Chooses-IsBounded c b
]

-- If every queue is within its array, it is so after a `put_mlq_proc` that does not fault.
pub put_mlq_proc-IsBounded :
    (s : Sched) (p : Ptr) (prio : ℕ) (t : Sched)
    → put_mlq_proc s p prio ≡ some t
    → IsBounded s
    → IsBounded t
unfolding put_mlq_proc
put_mlq_proc-IsBounded s p prio t e b = record {
  ready =
      λ k. ground (arith, b.ready k, length-enqueue-le p (s.mlq_ready_queue prio) (b.ready prio));
  running = ground (arith, b.running, length-purgequeue-le s.running_list p);
}

-- The sum of `f` over the priorities below `n`.
pub total : (ℕ → ℕ) → ℕ → ℕ
total f zero = 0
total f (suc n) = total f n + f n

total-same : (f g : ℕ → ℕ) (n : ℕ) → ((k : ℕ) → k < n → f k ≡ g k) → total f n ≡ total g n
unfolding total
total-same f g zero h = refl
total-same f g (suc n) h =
    omega (arith, total-same f g n (λ k l. h k (omega arith)), h n (omega arith))

pub total-change :
    (f g : ℕ → ℕ) (j n : ℕ)
    → j < n
    → ((k : ℕ) → k ≢ j → f k ≡ g k)
    → total f n + g j ≡ total g n + f j
unfolding total
total-change f g j zero l h = absurd (omega arith)
total-change f g j (suc n) l h = elim (Bool-cases (j == n)) [
  | inl e ↦
      let same : j ≡ n = ground arith in
      rw same (omega (arith, total-same f g n (λ k u. h k (omega arith))))
  | inr e ↦ omega (arith, total-change f g j n (ground arith) h, h n (ground arith))
]

pub total-le : (f : ℕ → ℕ) (j n : ℕ) → j < n → f j ≤ total f n
unfolding total
total-le f j zero l = absurd (omega arith)
total-le f j (suc n) l = elim (Bool-cases (j == n)) [
  | inl e ↦ let same : j ≡ n = ground arith in rw same (omega arith)
  | inr e ↦ omega (arith, total-le f j n (ground arith))
]

pub total-zero : (f : ℕ → ℕ) (n : ℕ) → ((k : ℕ) → k < n → f k ≡ 0) → total f n ≡ 0
unfolding total
total-zero f zero h = refl
total-zero f (suc n) h = omega (arith, total-zero f n (λ k l. h k (omega arith)), h n (omega arith))

-- How often a process stands in the ready queues and in the running list.
abbrev pub held : Ptr → Sched → ℕ
held p s = total (λ k. occurrences p (s.mlq_ready_queue k)) max_prio + occurrences p s.running_list

-- While the running list has room, every process stands in the ready queues and the running list
-- as often after `get_mlq_proc` as before.
pub get_mlq_proc-held :
    (priority : Ptr → ℕ) (s : Sched) (p : Ptr)
    → length s.running_list < max_queue_size
    → held p (get_mlq_proc priority s).1 ≡ held p s
get_mlq_proc-held priority s p room = elim (get_mlq_proc-Chooses priority s) [
  | inl (_, e) ↦ rw (e, mlq-refresh s, running_list-refresh s)
  | inr c ↦
      let at = λ (t : Sched) (k : ℕ). occurrences p (t.mlq_ready_queue k) in
      let taken : c.from_queue.taken ≡ c.proc = ground (arith, c.from_queue.returned) in
      omega (
        arith,
        total-change (at (get_mlq_proc priority s).1) (at s) c.level max_prio c.in_range
            (λ k h. ap (occurrences p) (c.other_queues k h)),
        occurrences-Dequeues c.from_queue p,
        ap (occurrences p) c.listed,
        occurrences-enqueue p c.proc s.running_list room,
        ap {B = ℕ} (λ x. if x == p then 1 else 0) taken,
      )
]

pub put_fields :
    (s : Sched) (x : Ptr) (prio : ℕ) (t : Sched)
    → put_mlq_proc s x prio ≡ some t
    → (prio < max_prio)
      × (t.mlq_ready_queue ≡ update s.mlq_ready_queue prio (enqueue (s.mlq_ready_queue prio) x))
      × (t.running_list ≡ (purgequeue s.running_list x).1)
      × (t.slot ≡ update s.slot prio (s.slot prio + 1))
unfolding put_mlq_proc
put_fields s x prio t e = ground arith

held_of_runs :
    (x p : Ptr) (q : Queue) → 1 ≤ occurrences x q → (if x == p then 1 else 0) ≤ occurrences p q
held_of_runs x p q h = elim (Bool-cases (x == p)) [
  | inl e ↦ let same : x ≡ p = ground arith in rw e (omega (arith, ap (λ y. occurrences y q) same))
  | inr e ↦ rw e (omega arith)
]

-- If `put_mlq_proc` does not fault, the process is on the running list, and its ready queue has
-- room, then every process stands in the ready queues and the running list as often as before.
pub put_mlq_proc-held :
    (s : Sched) (x : Ptr) (prio : ℕ) (t : Sched) (p : Ptr)
    → put_mlq_proc s x prio ≡ some t
    → length (s.mlq_ready_queue prio) < max_queue_size
    → 1 ≤ occurrences x s.running_list
    → held p t ≡ held p s
put_mlq_proc-held s x prio t p e room runs =
    let (low, queues, running, _) = put_fields s x prio t e in
    let at = λ (t : Sched) (k : ℕ). occurrences p (t.mlq_ready_queue k) in
    omega (
      arith,
      total-change (at t) (at s) prio max_prio low (λ k h.
          ap (occurrences p) (ap (λ m. m k) queues ∙ update-ne s.mlq_ready_queue prio k _ h)),
      ap (occurrences p) (ap (λ m. m prio) queues ∙ update_self s.mlq_ready_queue prio _),
      occurrences-enqueue p x (s.mlq_ready_queue prio) room,
      ap (occurrences p) running,
      occurrences-purgequeue p x s.running_list,
      held_of_runs x p s.running_list runs,
    )
