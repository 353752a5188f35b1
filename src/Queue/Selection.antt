-- ===== src/Queue/Selection.antt =====
-- src/queue.c: which process `dequeue` takes.
use mathlib.Core.Path.{subst}
use mathlib.Core.List.{append_assoc, append-nil}
use hdh.Base.{
  ℕ, ◌+◌, ◌≤◌, ◌<◌, ◌≡◌, refl, sym, ap, ◌∙◌, inl, inr, ltb, Bool-cases, ltb→lt, Option, some, [],
  ◌∷◌, ◌++◌, length, length-append, All, All-append, All-weaken, arith,
}
use hdh.Queue.{Ptr, Queue, shift_left, scan, dequeue}

module _ (priority : Ptr → ℕ) where
  -- `p` is the first among the entries of `q` with the least priority value, and stands at `i`.
  pub record Selects (q : Queue) (p : Ptr) (i : ℕ) : Type 0 where
    pub before : Queue
    pub after : Queue
    pub split : q ≡ before ++ (p ∷ after)
    pub position : i ≡ length before
    pub first : All (λ x. priority p < priority x) before
    pub least : All (λ x. priority p ≤ priority x) after

  -- A later entry takes over exactly when its value is smaller.
  Selects-lower :
      (x : Ptr) (seen : Queue) (p : Ptr) (i : ℕ)
      → Selects seen p i
      → priority x < priority p
      → Selects (seen ++ (x ∷ [])) x (length seen)
  Selects-lower x seen p i s lower = record {
    before = seen;
    after = [];
    split = refl;
    position = refl;
    first =
        let strict = λ (y : Ptr). priority x < priority y in
        subst (All strict) (sym s.split) (
          All-append strict s.before (p ∷ s.after)
            (All-weaken (λ y. priority p < priority y) strict s.before (λ y h. omega arith) s.first)
            (
              lower,
              All-weaken (λ y. priority p ≤ priority y) strict s.after (λ y h. omega arith) s.least,
            ));
    least = tt;
  }

  Selects-kept :
      (x : Ptr) (seen : Queue) (p : Ptr) (i : ℕ)
      → Selects seen p i
      → priority p ≤ priority x
      → Selects (seen ++ (x ∷ [])) p i
  Selects-kept x seen p i s kept = record {
    before = s.before;
    after = s.after ++ (x ∷ []);
    split = ap (λ q. q ++ (x ∷ [])) s.split ∙ append_assoc s.before (p ∷ s.after) (x ∷ []);
    position = s.position;
    first = s.first;
    least = All-append (λ y. priority p ≤ priority y) s.after (x ∷ []) s.least (kept, tt);
  }

  scan-Selects :
      (rest seen : Queue) (p : Ptr) (i n : ℕ)
      → n ≡ length seen
      → Selects seen p i
      → let (p', i') = scan priority p i n rest in Selects (seen ++ rest) p' i'
  unfolding scan
  scan-Selects [] seen p i n e s = rw (append-nil seen) s
  scan-Selects (x ∷ rest) seen p i n e s = elim (Bool-cases (ltb (priority x) (priority p))) [
    | inl lower ↦
        rw (lower, scan)
          (rw (← append_assoc seen (x ∷ []) rest) (
            scan-Selects rest (seen ++ (x ∷ [])) x n (n + 1)
              (omega (arith, length-append seen (x ∷ [])))
              (rw e (Selects-lower x seen p i s (ltb→lt _ _ lower)))))
    | inr kept ↦
        rw (kept, scan)
          (rw (← append_assoc seen (x ∷ []) rest) (
            scan-Selects rest (seen ++ (x ∷ [])) p i (n + 1)
              (omega (arith, length-append seen (x ∷ [])))
              (Selects-kept x seen p i s (ground arith))))
  ]

shift_left-append :
    (before after : Queue) (p : Ptr)
    → shift_left (length before) (before ++ (p ∷ after)) ≡ before ++ after
unfolding shift_left
shift_left-append [] after p = refl
shift_left-append (x ∷ before) after p = ap (◌∷◌ x) (shift_left-append before after p)

-- What a call of `dequeue` on a queue that is not empty returns and leaves.
pub record Dequeues (priority : Ptr → ℕ) (q : Queue) (r : Option Ptr × Queue) : Type 0 where
  pub taken : Ptr
  pub position : ℕ
  pub selects : Selects priority q taken position
  pub returned : r.0 ≡ some taken
  pub left : r.1 ≡ selects.before ++ selects.after

-- `dequeue` on a queue that is not empty returns its first process with the least priority value,
-- and leaves the others in their order.
pub dequeue-Dequeues :
    (priority : Ptr → ℕ) (p : Ptr) (q : Queue)
    → Dequeues priority (p ∷ q) (dequeue priority (p ∷ q))
unfolding dequeue
dequeue-Dequeues priority p q =
    let s =
      scan-Selects priority q (p ∷ []) p 0 1 refl (record {
        before = [];
        after = [];
        split = refl;
        position = refl;
        first = tt;
        least = tt;
      }) in
    record {
      taken = (scan priority p 0 1 q).0;
      position = (scan priority p 0 1 q).1;
      selects = s;
      returned = refl;
      left =
          ap (λ i. shift_left i (p ∷ q)) s.position
          ∙ ap (shift_left (length s.before)) s.split
          ∙ shift_left-append s.before s.after (scan priority p 0 1 q).0;
    }
