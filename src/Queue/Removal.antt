-- ===== src/Queue/Removal.antt =====
-- src/queue.c: what `enqueue` and `purgequeue` leave behind, by the number of occurrences.
use hdh.Base.{
  ℕ, ◌+◌, ◌-◌, ◌≤◌, ◌<◌, ◌≡◌, ap, ◌==◌, if◌then◌else◌, Option, [], ◌∷◌, ◌++◌, length, length-append,
  arith,
}
use hdh.Queue.{Ptr, Queue, max_queue_size, enqueue, purgequeue}
use hdh.Queue.Selection.{Dequeues}

abbrev pub occurrences : Ptr → Queue → ℕ
occurrences p [] = 0
occurrences p (x ∷ q) = (if x == p then 1 else 0) + occurrences p q

pub occurrences-append :
    (p : Ptr) (xs ys : Queue) → occurrences p (xs ++ ys) ≡ occurrences p xs + occurrences p ys
occurrences-append p [] ys = omega arith
occurrences-append p (x ∷ xs) ys = omega (arith, occurrences-append p xs ys)

-- With room, `enqueue` adds one occurrence of its process and of no other.
pub occurrences-enqueue :
    (p x : Ptr) (q : Queue)
    → length q < max_queue_size
    → occurrences p (enqueue q x) ≡ occurrences p q + (if x == p then 1 else 0)
unfolding enqueue
occurrences-enqueue p x q h = ground (arith, occurrences-append p q (x ∷ []))

-- A full queue is left as it is: the process is lost.
pub enqueue-full : (x : Ptr) (q : Queue) → max_queue_size ≤ length q → enqueue q x ≡ q
unfolding enqueue
enqueue-full x q h = ground arith

pub length-enqueue-le :
    (x : Ptr) (q : Queue) → length q ≤ max_queue_size → length (enqueue q x) ≤ max_queue_size
unfolding enqueue
length-enqueue-le x q h = ground (arith, length-append q (x ∷ []))

-- `purgequeue` takes out one occurrence of its process, if there is one, and none of any other.
pub occurrences-purgequeue :
    (p x : Ptr) (q : Queue)
    → occurrences p (purgequeue q x).1 ≡ occurrences p q - (if x == p then 1 else 0)
unfolding purgequeue
occurrences-purgequeue p x [] = ground arith
occurrences-purgequeue p x (y ∷ q) = ground (arith, occurrences-purgequeue p x q)

pub length-purgequeue-le : (q : Queue) (x : Ptr) → length (purgequeue q x).1 ≤ length q
unfolding purgequeue
length-purgequeue-le [] x = omega arith
length-purgequeue-le (y ∷ q) x = ground (arith, length-purgequeue-le q x)

module _ {priority : Ptr → ℕ} {q : Queue} {r : Option Ptr × Queue} (d : Dequeues priority q r) where
  -- `dequeue` takes out the process that it returns and no other.
  pub occurrences-Dequeues :
      (p : Ptr) → occurrences p r.1 + (if d.taken == p then 1 else 0) ≡ occurrences p q
  occurrences-Dequeues p = ground (
    arith,
    ap (occurrences p) d.left,
    ap (occurrences p) d.selects.split,
    occurrences-append p d.selects.before d.selects.after,
    occurrences-append p d.selects.before (d.taken ∷ d.selects.after),
  )

  pub length-Dequeues : length r.1 + 1 ≡ length q
  length-Dequeues = omega (
    arith,
    ap length d.left,
    ap length d.selects.split,
    length-append d.selects.before d.selects.after,
    length-append d.selects.before (d.taken ∷ d.selects.after),
  )
