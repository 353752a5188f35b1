-- ===== src/Sched/Budget.antt =====
-- src/sched.c: what becomes of the slots when a process is put back.
use mathlib.Core.Bool.{false≢true}
use hdh.Base.{
  ℕ, ◌+◌, ◌<◌, ◌≡◌, ◌≢◌, ◌⊎◌, inl, inr, sym, ap, ◌∙◌, ◌==◌, ltb, ltb→lt, true, false, Bool-cases,
  Option, some, [], ◌∷◌, length-append, update, update_self, update-ne, arith,
}
use hdh.Queue.{Ptr, Queue, enqueue}
use hdh.Sched.{max_prio, Sched, eligible, has_slot, refresh, put_mlq_proc}
use hdh.Sched.Slots.{has_slot_from-First}
use hdh.Sched.Choice.{Chooses, mlq-refresh}
use hdh.Sched.Conservation.{put_fields}

eligible-slot : (s : Sched) (k : ℕ) → eligible s k ≡ true → 0 < s.slot k
unfolding eligible
eligible-slot s k h = ground arith

eligible-same :
    (s t : Sched) (k : ℕ)
    → s.mlq_ready_queue k ≡ t.mlq_ready_queue k
    → s.slot k ≡ t.slot k
    → eligible s k ≡ eligible t k
unfolding eligible
eligible-same s t k e f = rw (e, f)

eligible-enqueue :
    (s : Sched) (k : ℕ) (q : Queue) (x : Ptr)
    → s.mlq_ready_queue k ≡ enqueue q x
    → 0 < s.slot k
    → eligible s k ≡ true
unfolding eligible enqueue
eligible-enqueue s k q x e h = rw e (ground (arith, length-append q (x ∷ [])))

module _ {priority : Ptr → ℕ} {s : Sched} {r : Option Ptr × Sched} (c : Chooses priority s r)
    (t : Sched) (back : put_mlq_proc r.1 c.proc c.level ≡ some t) where
  slot_returned :
      (k : ℕ)
      → ((c.level == k) ≡ true) ⊎ ((c.level == k) ≡ false)
      → update r.1.slot c.level (r.1.slot c.level + 1) k ≡ (refresh s).slot k
  slot_returned k (inl e) =
      let same : c.level ≡ k = ground arith in
      let pos : 0 < (refresh s).slot k =
        rw (← same) (eligible-slot (refresh s) c.level c.has_turn) in
      rw e (ap (λ l. r.1.slot l + 1) same ∙ ap (λ n. n + 1) (c.slots k) ∙ rw e (omega arith))
  slot_returned k (inr e) = rw e (c.slots k ∙ rw e)

  -- A process that is put back to the level that it came from gives its slot back: afterwards every
  -- level has the slots that it had before the process was taken.
  pub put_get_slots : (k : ℕ) → t.slot k ≡ (refresh s).slot k
  put_get_slots k =
      let (_, _, _, slots) = put_fields r.1 c.proc c.level t back in
      ap (λ f. f k) slots ∙ slot_returned k (Bool-cases (c.level == k))

  pub has_turn_again : eligible t c.level ≡ true
  has_turn_again =
      let (_, queues, _, _) = put_fields r.1 c.proc c.level t back in
      eligible-enqueue t c.level _ c.proc
        (ap (λ m. m c.level) queues ∙ update_self r.1.mlq_ready_queue c.level _)
        (rw (put_get_slots c.level) (eligible-slot (refresh s) c.level c.has_turn))

  pub none_before_again : (k : ℕ) → k < c.level → eligible t k ≡ false
  none_before_again k h =
      let (_, queues, _, _) = put_fields r.1 c.proc c.level t back in
      let other : k ≢ c.level = omega arith in
      eligible-same t (refresh s) k
        (ap (λ m. m k) queues
          ∙ update-ne r.1.mlq_ready_queue c.level k _ other
          ∙ c.other_queues k other
          ∙ ap (λ m. m k) (sym (mlq-refresh s)))
        (put_get_slots k)
      ∙ c.none_before k h

  pub refresh_again : refresh t ≡ t
  unfolding refresh has_slot
  refresh_again = rw (
      has_slot_from-First max_prio 0 t c.level (record {
        lower = omega arith;
        upper = c.in_range;
        passes = has_turn_again;
        fails = λ k _ h. none_before_again k h;
      }))

  -- So the next process comes from that level again, for as long as no smaller one gets a process:
  -- the slots never let a larger priority number have its turn.
  pub same_level_again : {r' : Option Ptr × Sched} (c' : Chooses priority t r') → c'.level ≡ c.level
  same_level_again c' = elim (Bool-cases (ltb c'.level c.level)) [
    | inl lower ↦
        absurd (false≢true (sym (none_before_again c'.level (ltb→lt _ _ lower)) ∙ turn c'))
    | inr not_lower ↦ elim (Bool-cases (ltb c.level c'.level)) [
      | inl higher ↦ absurd (false≢true (sym (before c' (ltb→lt _ _ higher)) ∙ has_turn_again))
      | inr not_higher ↦ ground arith
    ]
  ]
    where
      turn : {r' : Option Ptr × Sched} (c' : Chooses priority t r') → eligible t c'.level ≡ true
      turn c' = ap (λ u. eligible u c'.level) (sym refresh_again) ∙ c'.has_turn

      before :
          {r' : Option Ptr × Sched} (c' : Chooses priority t r')
          → c.level < c'.level
          → eligible t c.level ≡ false
      before c' h = ap (λ u. eligible u c.level) (sym refresh_again) ∙ c'.none_before c.level h
