-- ===== src/Queue/Order.antt =====
-- src/queue.c: the queue as its clients may think of it: a list in the order of service. `ordered`
-- lists the entries of an array by priority value, those with one value in the order of arrival.
use hdh.Base.{
  ℕ, ◌+◌, ◌≤◌, ◌<◌, ◌≡◌, refl, sym, ap, ◌∙◌, inl, inr, ltb, ◌==◌, if◌then◌else◌, Bool, Bool-cases,
  true, false, ltb→lt, lt→ltb, [], ◌∷◌, ◌++◌, length, All, All-weaken, arith,
}
use hdh.Queue.{Ptr, Queue}

-- Taking one process out of a queue.
unfoldable pub leave : Ptr → Queue → Queue
leave p [] = []
leave p (x ∷ s) = if x == p then s else x ∷ leave p s

unfoldable pub holds : Ptr → Queue → Bool
holds p [] = false
holds p (x ∷ s) = if x == p then true else holds p s

module _ (priority : Ptr → ℕ) where
  -- Behind every entry that is not served later.
  unfoldable pub arrive : Ptr → Queue → Queue
  arrive p [] = p ∷ []
  arrive p (x ∷ s) = if ltb (priority p) (priority x) then p ∷ (x ∷ s) else x ∷ arrive p s

  -- In front of every entry that is not served earlier.
  unfoldable pub put_first : Ptr → Queue → Queue
  put_first p [] = p ∷ []
  put_first p (x ∷ s) = if ltb (priority x) (priority p) then x ∷ put_first p s else p ∷ (x ∷ s)

  unfoldable pub ordered : Queue → Queue
  ordered [] = []
  ordered (p ∷ q) = put_first p (ordered q)

  arrive-put_first : (x y : Ptr) (s : Queue) → arrive x (put_first y s) ≡ put_first y (arrive x s)
  unfolding arrive put_first
  arrive-put_first x y [] = refl
  arrive-put_first x y (a ∷ s) = let next = arrive-put_first x y s in ground arith

  length-arrive : (p : Ptr) (s : Queue) → length (arrive p s) ≡ length s + 1
  unfolding arrive
  length-arrive p [] = refl
  length-arrive p (x ∷ s) = ground (arith, length-arrive p s)

  length-put_first : (p : Ptr) (s : Queue) → length (put_first p s) ≡ length s + 1
  unfolding put_first
  length-put_first p [] = refl
  length-put_first p (x ∷ s) = ground (arith, length-put_first p s)

  put_first-least :
      (p : Ptr) (s : Queue) → All (λ x. priority p ≤ priority x) s → put_first p s ≡ p ∷ s
  unfolding put_first
  put_first-least p [] h = refl
  put_first-least p (x ∷ s) (h, k) = ground arith

  All-put_first :
      (n : ℕ) (p : Ptr) (s : Queue)
      → n ≤ priority p
      → All (λ x. n ≤ priority x) s
      → All (λ x. n ≤ priority x) (put_first p s)
  unfolding put_first
  All-put_first n p [] h k = (h, tt)
  All-put_first n p (x ∷ s) h k =
      let rest = All-put_first n p s h k.1 in
      elim (Bool-cases (ltb (priority x) (priority p))) [
        | inl lower ↦ rw lower (k.0, rest)
        | inr kept ↦ rw kept (h, k)
      ]

  All-ordered :
      (n : ℕ) (q : Queue) → All (λ x. n ≤ priority x) q → All (λ x. n ≤ priority x) (ordered q)
  unfolding ordered
  All-ordered n [] h = tt
  All-ordered n (x ∷ q) h = All-put_first n x (ordered q) h.0 (All-ordered n q h.1)

  abbrev IsOrdered : Queue → Type 0
  IsOrdered [] = Unit
  IsOrdered (p ∷ s) = All (λ x. priority p ≤ priority x) s × IsOrdered s

  put_first-IsOrdered : (p : Ptr) (s : Queue) → IsOrdered s → IsOrdered (put_first p s)
  unfolding put_first
  put_first-IsOrdered p [] h = (tt, tt)
  put_first-IsOrdered p (x ∷ s) h =
      let rest = put_first-IsOrdered p s h.1 in
      elim (Bool-cases (ltb (priority x) (priority p))) [
        | inl lower ↦
            rw lower (All-put_first (priority x) p s (omega (arith, ltb→lt _ _ lower)) h.0, rest)
        | inr kept ↦
            let le : priority p ≤ priority x = ground arith in
            rw kept (
              (
                le,
                All-weaken (λ y. priority x ≤ priority y) (λ y. priority p ≤ priority y) s
                    (λ y k. omega arith) h.0,
              ),
              h,
            )
      ]

  -- `ordered` lists by priority value.
  pub ordered-IsOrdered : (q : Queue) → IsOrdered (ordered q)
  unfolding ordered
  ordered-IsOrdered [] = tt
  ordered-IsOrdered (p ∷ q) = put_first-IsOrdered p (ordered q) (ordered-IsOrdered q)

  pub length-ordered : (q : Queue) → length (ordered q) ≡ length q
  unfolding ordered
  length-ordered [] = refl
  length-ordered (p ∷ q) = omega (arith, length-put_first p (ordered q), length-ordered q)

  -- The last to come arrives.
  pub ordered-append : (q : Queue) (p : Ptr) → ordered (q ++ (p ∷ [])) ≡ arrive p (ordered q)
  unfolding ordered arrive put_first
  ordered-append [] p = refl
  ordered-append (x ∷ q) p =
      ap (put_first x) (ordered-append q p) ∙ sym (arrive-put_first p x (ordered q))

  -- The first of the least is the head.
  pub ordered-first :
      (p : Ptr) (before after : Queue)
      → All (λ x. priority p < priority x) before
      → All (λ x. priority p ≤ priority x) after
      → ordered (before ++ (p ∷ after)) ≡ p ∷ ordered (before ++ after)
  unfolding ordered put_first
  ordered-first p [] after h k =
      put_first-least p (ordered after) (All-ordered (priority p) after k)
  ordered-first p (x ∷ before) after h k =
      ap (put_first x) (ordered-first p before after h.1 k)
      ∙ rw (lt→ltb (priority p) (priority x) h.0) refl

  leave-put_first_self : (p : Ptr) (s : Queue) → leave p (put_first p s) ≡ s
  unfolding leave put_first
  leave-put_first_self p [] = ground arith
  leave-put_first_self p (x ∷ s) = ground (arith, leave-put_first_self p s)

  leave-put_first_ne :
      (p x : Ptr) (s : Queue)
      → (x == p) ≡ false
      → IsOrdered s
      → leave p (put_first x s) ≡ put_first x (leave p s)
  unfolding leave put_first
  leave-put_first_ne p x [] ne h = ground arith
  leave-put_first_ne p x (a ∷ s) ne h = elim (Bool-cases (ltb (priority a) (priority x))) [
    | inl lower ↦ ground (arith, leave-put_first_ne p x s ne h.1)
    | inr kept ↦
        let le : priority x ≤ priority a = ground arith in
        let above =
          All-weaken (λ y. priority a ≤ priority y) (λ y. priority x ≤ priority y) s
            (λ y k. omega arith) h.0 in
        ground (arith, put_first-least x s above)
  ]

  -- `leave` takes the same process from the array and from the order of service.
  pub ordered-leave : (p : Ptr) (q : Queue) → ordered (leave p q) ≡ leave p (ordered q)
  unfolding ordered leave
  ordered-leave p [] = refl
  ordered-leave p (x ∷ q) = elim (Bool-cases (x == p)) [
    | inl same ↦
        let equal : x ≡ p = ground arith in
        rw (same, equal) (sym (leave-put_first_self p (ordered q)))
    | inr other ↦ rw other (
        ap (put_first x) (ordered-leave p q)
        ∙ sym (leave-put_first_ne p x (ordered q) other (ordered-IsOrdered q)))
  ]

  holds-put_first :
      (p x : Ptr) (s : Queue) → holds p (put_first x s) ≡ (if x == p then true else holds p s)
  unfolding holds put_first
  holds-put_first p x [] = refl
  holds-put_first p x (a ∷ s) = ground (arith, holds-put_first p x s)

  pub holds-ordered : (p : Ptr) (q : Queue) → holds p (ordered q) ≡ holds p q
  unfolding ordered holds
  holds-ordered p [] = refl
  holds-ordered p (x ∷ q) = ground (arith, holds-put_first p x (ordered q), holds-ordered p q)
