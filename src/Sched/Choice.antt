-- ===== src/Sched/Choice.antt =====
-- src/sched.c: which process `get_mlq_proc` takes, and what it leaves.
use mathlib.Core.Bool.{false≢true}
use hdh.Base.{
  ℕ, ◌-◌, ◌<◌, ◌≡◌, ◌≢◌, ◌⊎◌, inl, inr, refl, sym, ap, ◌∙◌, ◌==◌, ==_self, if◌then◌else◌, true,
  false, Bool-cases, Option, none, some, [], ◌∷◌, arith,
}
use hdh.Queue.{Ptr, Queue, enqueue, dequeue}
use hdh.Queue.Selection.{Dequeues, dequeue-Dequeues}
use hdh.Sched.{max_prio, Sched, reset_slot, eligible, has_slot, take_from, refresh, get_mlq_proc}
use hdh.Sched.Slots.{
  First, NoneFrom, First-eligible, has_slot_from-none, pick_from-First, pick_from-none,
  reset_slot-slots,
}

pub mlq-refresh : (s : Sched) → (refresh s).mlq_ready_queue ≡ s.mlq_ready_queue
unfolding refresh reset_slot
mlq-refresh s = ground arith

pub running_list-refresh : (s : Sched) → (refresh s).running_list ≡ s.running_list
unfolding refresh reset_slot
running_list-refresh s = ground arith

eligible-nonempty :
    (s : Sched) (i : ℕ)
    → eligible s i ≡ true
    → (y : Ptr) × (q : Queue) × (s.mlq_ready_queue i ≡ y ∷ q)
unfolding eligible
eligible-nonempty s i h = split (s.mlq_ready_queue i) refl
  where
    split :
        (m : Queue)
        → s.mlq_ready_queue i ≡ m
        → (y : Ptr) × (q : Queue) × (s.mlq_ready_queue i ≡ y ∷ q)
    split [] e = absurd (ground arith)
    split (y ∷ q) e = (y, q, e)

ineligible-empty :
    (s : Sched) (i : ℕ) → eligible s i ≡ false → 0 < s.slot i → s.mlq_ready_queue i ≡ []
unfolding eligible
ineligible-empty s i h pos = split (s.mlq_ready_queue i) refl
  where
    split : (m : Queue) → s.mlq_ready_queue i ≡ m → s.mlq_ready_queue i ≡ []
    split [] e = e
    split (y ∷ q) e = absurd (ground arith)

-- What a call of `get_mlq_proc` that returns a process does to the scheduler.
pub record Chooses (priority : Ptr → ℕ) (s : Sched) (r : Option Ptr × Sched) : Type 0 where
  pub level : ℕ
  pub in_range : level < max_prio
  -- No queue of a smaller priority number has both a process and a slot.
  pub has_turn : eligible (refresh s) level ≡ true
  pub none_before : (k : ℕ) → k < level → eligible (refresh s) k ≡ false
  -- The process is the one that `dequeue` takes from that queue.
  pub proc : Ptr
  pub returned : r.0 ≡ some proc
  pub from_queue :
      Dequeues priority (s.mlq_ready_queue level) (some proc, r.1.mlq_ready_queue level)
  pub other_queues : (k : ℕ) → k ≢ level → r.1.mlq_ready_queue k ≡ s.mlq_ready_queue k
  -- One slot of that queue is spent.
  pub slots :
      (k : ℕ) → r.1.slot k ≡ (if level == k then (refresh s).slot k - 1 else (refresh s).slot k)
  pub listed : r.1.running_list ≡ enqueue s.running_list proc

take_from-running_list :
    (priority : Ptr → ℕ) (j : ℕ) (t : Sched) (p : Ptr)
    → (dequeue priority (t.mlq_ready_queue j)).0 ≡ some p
    → (take_from priority j t).1.running_list ≡ enqueue t.running_list p
unfolding take_from
take_from-running_list priority j t p e = rw (e, take_from)

module _ (priority : Ptr → ℕ) (s : Sched) where
  take_nonempty :
      (j : ℕ)
      → First (refresh s) 0 max_prio j
      → (y : Ptr) (q : Queue) → s.mlq_ready_queue j ≡ y ∷ q
      → Chooses priority s (take_from priority j (refresh s))
  unfolding take_from
  take_nonempty j f y q e =
      let whole : Dequeues priority (s.mlq_ready_queue j) (dequeue priority (s.mlq_ready_queue j)) =
        rw e (dequeue-Dequeues priority y q) in
      let at_j : (refresh s).mlq_ready_queue j ≡ s.mlq_ready_queue j =
        ap (λ m. m j) (mlq-refresh s) in
      record {
        level = j;
        in_range = f.upper;
        has_turn = f.passes;
        none_before = λ k h. f.fails k (omega arith) h;
        proc = whole.taken;
        returned = rw at_j whole.returned;
        from_queue = record {
          taken = whole.taken;
          position = whole.position;
          selects = whole.selects;
          returned = refl;
          left = rw (at_j, ==_self j) whole.left;
        };
        other_queues = λ k h. ground (arith, ap (λ m. m k) (mlq-refresh s));
        slots = λ k. ground arith;
        listed =
            take_from-running_list priority j (refresh s) whole.taken (rw at_j whole.returned)
            ∙ ap (λ l. enqueue l whole.taken) (running_list-refresh s);
      }

  take_from-Chooses :
      (j : ℕ)
      → First (refresh s) 0 max_prio j
      → Chooses priority s (take_from priority j (refresh s))
  take_from-Chooses j f =
      let (y, q, e) = eligible-nonempty (refresh s) j f.passes in
      take_nonempty j f y q (ap (λ m. m j) (sym (mlq-refresh s)) ∙ e)

  all_empty : NoneFrom (refresh s) 0 max_prio → (k : ℕ) → k < max_prio → s.mlq_ready_queue k ≡ []
  unfolding refresh has_slot reset_slot
  all_empty f k h = elim (Bool-cases (has_slot s)) [
    | inl yes_slot ↦
        absurd (false≢true (sym (has_slot_from-none max_prio 0 s (rw yes_slot at f)) ∙ yes_slot))
    | inr no_slot ↦
        ineligible-empty (reset_slot s) k (rw no_slot at f k (omega arith) h)
          (omega (arith, reset_slot-slots s k h))
  ]

  -- Either every ready queue is empty, and `get_mlq_proc` returns NULL; or it takes the process
  -- that `dequeue` yields at a level that has a process and a slot, where no smaller level has
  -- both, spends one slot of that level, puts the process on the running list, and leaves the
  -- other queues alone.
  pub get_mlq_proc-Chooses :
      (((k : ℕ) → k < max_prio → s.mlq_ready_queue k ≡ [])
        × (get_mlq_proc priority s ≡ (none, refresh s)))
      ⊎ Chooses priority s (get_mlq_proc priority s)
  unfolding get_mlq_proc
  get_mlq_proc-Chooses = elim (First-eligible max_prio 0 (refresh s)) [
    | inl (j, f) ↦
        inr (rw (pick_from-First priority max_prio 0 (refresh s) j f) (take_from-Chooses j f))
    | inr f ↦ inl (all_empty f, pick_from-none priority max_prio 0 (refresh s) f)
  ]
