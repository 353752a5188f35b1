-- ===== src/Sched/Slots.antt =====
-- src/sched.c: the slots.
use hdh.Base.{
  ℕ, zero, suc, ◌+◌, ◌-◌, ◌≤◌, ◌<◌, ◌≡◌, ◌≢◌, ◌⊎◌, inl, inr, refl, sym, ap, ◌∙◌, ◌==◌, ltb, true,
  false, Bool-cases, none, ltb→lt, update, arith,
}
use mathlib.Core.Bool.{false≢true}
use hdh.Queue.{Ptr}
use hdh.Sched.{
  max_prio, Sched, fill_slots, reset_slot, eligible, has_slot_from, take_from, pick_from,
}

fill_slots-below : (n i : ℕ) (slot : ℕ → ℕ) (j : ℕ) → j < i → fill_slots n i slot j ≡ slot j
unfolding fill_slots
fill_slots-below zero i slot j h = refl
fill_slots-below (suc n) i slot j h =
    fill_slots-below n (i + 1) (update slot i (max_prio - i)) j (omega arith) ∙ ground arith

pub fill_slots-at :
    (n i : ℕ) (slot : ℕ → ℕ) (j : ℕ) → i ≤ j → j < i + n → fill_slots n i slot j ≡ max_prio - j
unfolding fill_slots
fill_slots-at zero i slot j h k = absurd (omega arith)
fill_slots-at (suc n) i slot j h k = elim (Bool-cases (i == j)) [
  | inl e ↦
      fill_slots-below n (i + 1) (update slot i (max_prio - i)) j (ground arith) ∙ ground arith
  | inr e ↦ fill_slots-at n (i + 1) (update slot i (max_prio - i)) j (ground arith) (omega arith)
]

-- `reset_slot` gives the queue of each priority `i` its MAX_PRIO - i slots.
pub reset_slot-slots : (s : Sched) (i : ℕ) → i < max_prio → (reset_slot s).slot i ≡ max_prio - i
unfolding reset_slot
reset_slot-slots s i h = fill_slots-at max_prio 0 s.slot i (omega arith) (omega arith)

-- `j` is the first eligible priority from `i` on, among `n`.
pub record First (s : Sched) (i n j : ℕ) : Type 0 where
  pub lower : i ≤ j
  pub upper : j < i + n
  pub passes : eligible s j ≡ true
  pub fails : (k : ℕ) → i ≤ k → k < j → eligible s k ≡ false

abbrev pub NoneFrom : Sched → ℕ → ℕ → Type 0
NoneFrom s i n = (k : ℕ) → i ≤ k → k < i + n → eligible s k ≡ false

ineligible-from :
    (s : Sched) (i k : ℕ)
    → eligible s i ≡ false
    → i ≤ k
    → (i + 1 ≤ k → eligible s k ≡ false)
    → eligible s k ≡ false
ineligible-from s i k now h later = elim (Bool-cases (i == k)) [
  | inl e ↦ let same : i ≡ k = ground arith in rw (← same) now
  | inr e ↦ later (ground arith)
]

pub First-eligible : (n i : ℕ) (s : Sched) → ((j : ℕ) × First s i n j) ⊎ NoneFrom s i n
First-eligible zero i s = inr (λ k h u. absurd (omega arith))
First-eligible (suc n) i s = elim (Bool-cases (eligible s i)) [
  | inl now ↦ inl (
    i,
    record {
      lower = omega arith;
      upper = omega arith;
      passes = now;
      fails = λ k h u. absurd (omega arith);
    },
  )
  | inr now ↦ elim (First-eligible n (i + 1) s) [
    | inl (j, f) ↦ inl (
      j,
      record {
        lower = omega (arith, f.lower);
        upper = omega (arith, f.upper);
        passes = f.passes;
        fails = λ k h u. ineligible-from s i k now h (λ g. f.fails k g u);
      },
    )
    | inr f ↦ inr (λ k h u. ineligible-from s i k now h (λ g. f k g (omega arith)))
  ]
]

First-later :
    {s : Sched} {i n j : ℕ} → First s i (suc n) j → eligible s i ≡ false → First s (i + 1) n j
First-later {s} {i} {n} {j} f now =
    let ne : i ≢ j = λ e. false≢true (sym now ∙ ap (eligible s) e ∙ f.passes) in
    record {
      lower = omega (arith, f.lower, ne);
      upper = omega (arith, f.upper);
      passes = f.passes;
      fails = λ k h u. f.fails k (omega arith) u;
    }

First-now : {s : Sched} {i n j : ℕ} → First s i n j → eligible s i ≡ true → j ≡ i
First-now {s} {i} {n} {j} f now = elim (Bool-cases (ltb i j)) [
  | inl h ↦ absurd (false≢true (sym (f.fails i (omega arith) (ltb→lt i j h)) ∙ now))
  | inr h ↦ let not_lt : ¬ (i < j) = ground arith in omega (arith, f.lower, not_lt)
]

pub has_slot_from-First : (n i : ℕ) (s : Sched) (j : ℕ) → First s i n j → has_slot_from n i s ≡ true
unfolding has_slot_from
has_slot_from-First zero i s j f = absurd (omega (arith, f.lower, f.upper))
has_slot_from-First (suc n) i s j f = elim (Bool-cases (eligible s i)) [
  | inl now ↦ rw now
  | inr now ↦ rw now (has_slot_from-First n (i + 1) s j (First-later f now))
]

pub has_slot_from-none : (n i : ℕ) (s : Sched) → NoneFrom s i n → has_slot_from n i s ≡ false
unfolding has_slot_from
has_slot_from-none zero i s f = refl
has_slot_from-none (suc n) i s f =
    rw (f i (omega arith) (omega arith))
      (has_slot_from-none n (i + 1) s (λ k h u. f k (omega arith) (omega arith)))

module _ (priority : Ptr → ℕ) where
  pub pick_from-First :
      (n i : ℕ) (s : Sched) (j : ℕ)
      → First s i n j
      → pick_from priority n i s ≡ take_from priority j s
  unfolding pick_from
  pick_from-First zero i s j f = absurd (omega (arith, f.lower, f.upper))
  pick_from-First (suc n) i s j f = elim (Bool-cases (eligible s i)) [
    | inl now ↦ rw (now, First-now f now)
    | inr now ↦ rw now (pick_from-First n (i + 1) s j (First-later f now))
  ]

  pub pick_from-none : (n i : ℕ) (s : Sched) → NoneFrom s i n → pick_from priority n i s ≡ (none, s)
  unfolding pick_from
  pick_from-none zero i s f = refl
  pick_from-none (suc n) i s f =
      rw (f i (omega arith) (omega arith))
        (pick_from-none n (i + 1) s (λ k h u. f k (omega arith) (omega arith)))
