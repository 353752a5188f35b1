-- ===== src/Sched/Starvation.antt =====
-- src/sched.c: processes that are taken and put back, over and over.
use mathlib.Core.Bool.{false≢true}
use mathlib.Core.Path.{subst}
use hdh.Base.{
  ℕ, zero, suc, ◌<◌, ◌≡◌, ◌≢◌, inl, inr, refl, sym, ap, ◌∙◌, ltb, ltb→lt, lt→ltb, true, false,
  Bool-cases, Option, none, some, ◌>>=◌, [], ◌∷◌, ◌++◌, length, All, All-append, update_self,
  update-ne, arith,
}
use hdh.Queue.{Ptr, Queue, max_queue_size, empty, enqueue}
use hdh.Queue.Selection.{Dequeues}
use hdh.Sched.{max_prio, Sched, eligible, refresh, get_mlq_proc, put_mlq_proc}
use hdh.Sched.Choice.{Chooses, mlq-refresh, get_mlq_proc-Chooses}
use hdh.Sched.Conservation.{put_fields}
use hdh.Sched.Budget.{has_turn_again, none_before_again, refresh_again}

module _ (priority prio : Ptr → ℕ) where
  -- A processor takes a process, and puts it back to the level of its `prio` field.
  unfoldable pub turn : Sched → Option Sched
  turn s =
      let (proc, s') = get_mlq_proc priority s in
      elim proc [ none ↦ some s' | some p ↦ put_mlq_proc s' p (prio p) ]

  unfoldable pub turns : ℕ → Sched → Option Sched
  turns zero s = some s
  turns (suc n) s = turn s >>= turns n

  -- Level `j` is the first with a process and a slot, and holds only processes of that level.
  pub record Leads (s : Sched) (j : ℕ) : Type 0 where
    pub in_range : j < max_prio
    pub has_turn : eligible (refresh s) j ≡ true
    pub none_before : (k : ℕ) → k < j → eligible (refresh s) k ≡ false
    pub own : All (λ x. prio x ≡ j) (s.mlq_ready_queue j)

  Chooses-level :
      (s : Sched) (j : ℕ) {r : Option Ptr × Sched}
      → Leads s j
      → (c : Chooses priority s r) → c.level ≡ j
  Chooses-level s j l c = elim (Bool-cases (ltb c.level j)) [
    | inl lower ↦ absurd (false≢true (sym (l.none_before c.level (ltb→lt _ _ lower)) ∙ c.has_turn))
    | inr not_lower ↦ elim (Bool-cases (ltb j c.level)) [
      | inl higher ↦ absurd (false≢true (sym (c.none_before j (ltb→lt _ _ higher)) ∙ l.has_turn))
      | inr not_higher ↦ ground arith
    ]
  ]

  All-enqueue : (P : Ptr → Type 0) (q : Queue) (x : Ptr) → All P q → P x → All P (enqueue q x)
  unfolding enqueue
  All-enqueue P q x h k = elim (Bool-cases (ltb (length q) max_queue_size)) [
    | inl room ↦ rw room (All-append P q (x ∷ []) h (k, tt))
    | inr full ↦ rw full h
  ]

  All-middle :
      (P : Ptr → Type 0) (front back : Queue) (x : Ptr)
      → All P (front ++ (x ∷ back))
      → P x × All P (front ++ back)
  All-middle P [] back x h = h
  All-middle P (y ∷ front) back x h =
      let (at_x, rest) = All-middle P front back x h.1 in (at_x, (h.0, rest))

  All-Dequeues :
      (P : Ptr → Type 0) (q : Queue) {r : Option Ptr × Queue}
      → (d : Dequeues priority q r) → All P q
      → P d.taken × All P r.1
  All-Dequeues P q d h =
      let (at_taken, rest) =
        All-middle P d.selects.before d.selects.after d.taken (subst (All P) d.selects.split h) in
      (at_taken, subst (All P) (sym d.left) rest)

  put_mlq_proc_in_range :
      (s : Sched) (p : Ptr) (k : ℕ) → k < max_prio → (t : Sched) × (put_mlq_proc s p k ≡ some t)
  unfolding put_mlq_proc
  put_mlq_proc_in_range s p k h = rw (lt→ltb k max_prio h) (_, refl)

  Leads-nonempty : (s : Sched) (j : ℕ) → Leads s j → s.mlq_ready_queue j ≢ []
  unfolding eligible empty
  Leads-nonempty s j l e =
      let none_left = ap (λ m. m j) (mlq-refresh s) ∙ e in
      absurd (false≢true (rw none_left at l.has_turn))

  -- What one turn leaves.
  abbrev pub Goes : Sched → ℕ → Type 0
  Goes s j =
      (t : Sched) × (turn s ≡ some t)
      × Leads t j
      × ((k : ℕ) → k ≢ j → t.mlq_ready_queue k ≡ s.mlq_ready_queue k)

  module _ (s : Sched) (c : Chooses priority s (get_mlq_proc priority s))
      (own : All (λ x. prio x ≡ c.level) (s.mlq_ready_queue c.level)) where
    from_level :
        (prio c.proc ≡ c.level)
        × All (λ x. prio x ≡ c.level) ((get_mlq_proc priority s).1.mlq_ready_queue c.level)
    from_level =
        let (at_taken, rest) = All-Dequeues (λ x. prio x ≡ c.level) _ c.from_queue own in
        let same : c.proc ≡ c.from_queue.taken = let e = c.from_queue.returned in cc in
        (ap prio same ∙ at_taken, rest)

    Chooses-Goes : Goes s c.level
    unfolding turn
    Chooses-Goes =
        let (t, back) =
          put_mlq_proc_in_range (get_mlq_proc priority s).1 c.proc c.level c.in_range in
        let (_, queues, _, _) = put_fields (get_mlq_proc priority s).1 c.proc c.level t back in
        (
          t,
          rw (turn, c.returned, from_level.0) back,
          record {
            in_range = c.in_range;
            has_turn =
                ap (λ u. eligible u c.level) (refresh_again c t back) ∙ has_turn_again c t back;
            none_before = λ k h.
                ap (λ u. eligible u k) (refresh_again c t back) ∙ none_before_again c t back k h;
            own =
                subst (All (λ x. prio x ≡ c.level))
                  (sym (
                    ap (λ m. m c.level) queues
                    ∙ update_self (get_mlq_proc priority s).1.mlq_ready_queue c.level _))
                  (All-enqueue _ _ c.proc from_level.1 from_level.0);
          },
          λ k other.
              ap (λ m. m k) queues
              ∙ update-ne (get_mlq_proc priority s).1.mlq_ready_queue c.level k _ other
              ∙ c.other_queues k other,
        )

  -- A turn leaves the lead where it is, and the other levels alone.
  turn-Goes : (s : Sched) (j : ℕ) → Leads s j → Goes s j
  turn-Goes s j l = elim (get_mlq_proc-Chooses priority s) [
    | inl (all_empty, _) ↦ absurd (Leads-nonempty s j l (all_empty j l.in_range))
    | inr c ↦
        let same = Chooses-level s j l c in subst (Goes s) same (Chooses-Goes s c (rw same l.own))
  ]

  -- However many turns a processor takes, the processes of the other levels stay where they are.
  pub turns_starve :
      (n : ℕ) (s : Sched) (j : ℕ)
      → Leads s j
      → (t : Sched) × (turns n s ≡ some t)
        × ((k : ℕ) → k ≢ j → t.mlq_ready_queue k ≡ s.mlq_ready_queue k)
  unfolding turns
  turns_starve zero s j l = (s, refl, λ k _. refl)
  turns_starve (suc n) s j l =
      let (t, e, again, others) = turn-Goes s j l in
      let (u, f, rest) = turns_starve n t j again in
      (u, rw e f, λ k other. rest k other ∙ others k other)
