-- ===== src/Queue.antt =====
-- src/queue.c under MLQ_SCHED: the bounded process queue. `proc[0 .. size)` is a list of pointers
-- to PCBs; a pointer is a number, and `priority` reads the `priority` field behind it, which
-- nothing writes after the loader has set it.
pub mod Selection
pub mod Removal
pub mod Order
pub mod Replay
use hdh.Base.{
  ℕ, zero, suc, ◌+◌, ◌==◌, ltb, if◌then◌else◌, Bool, Option, none, some, List, [], ◌∷◌, ◌++◌,
  length,
}

abbrev pub Ptr : Type 0
Ptr = ℕ

abbrev pub Queue : Type 0
Queue = List Ptr

abbrev pub max_queue_size : ℕ
max_queue_size = 50

unfoldable pub empty : Queue → Bool
empty q = length q == 0

-- A process that finds the queue full is dropped.
unfoldable pub enqueue : Queue → Ptr → Queue
enqueue q p = if ltb (length q) max_queue_size then q ++ (p ∷ []) else q

-- `q->proc[i] = q->proc[i + 1]` from `index` on, and one entry fewer.
unfoldable pub shift_left : ℕ → Queue → Queue
shift_left i [] = []
shift_left zero (p ∷ q) = q
shift_left (suc i) (p ∷ q) = p ∷ shift_left i q

module _ (priority : Ptr → ℕ) where
  -- The loop over `i` with `temp` and `index`.
  unfoldable pub scan : Ptr → ℕ → ℕ → Queue → Ptr × ℕ
  scan temp index i [] = (temp, index)
  scan temp index i (p ∷ q) =
      scan (if ltb (priority p) (priority temp) then p else temp)
        (if ltb (priority p) (priority temp) then i else index) (i + 1) q

  unfoldable pub dequeue : Queue → Option Ptr × Queue
  dequeue [] = (none, [])
  dequeue (p ∷ q) = let (temp, index) = scan p 0 1 q in (some temp, shift_left index (p ∷ q))

-- The outer loop finds the first entry that is `p`, the inner one closes the gap.
unfoldable pub purgequeue : Queue → Ptr → Option Ptr × Queue
purgequeue [] p = (none, [])
purgequeue (x ∷ q) p =
    let (found, rest) = purgequeue q p in if x == p then (some p, q) else (found, x ∷ rest)
