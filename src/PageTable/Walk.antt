-- ===== src/PageTable/Walk.antt =====
-- src/mm64.c: an entry is read back as it was written, and no other entry changes.
use hdh.Base.{
  ℕ, ◌≡◌, ◌≢◌, refl, ap, ◌∙◌, inl, inr, ◌⊎◌, ◌==◌, ==_self, Bool, true, false, ◌&&◌, Bool-cases,
  none, arith, update,
}
use hdh.Mm.{Pmd, Pud, P4d, Pgd}
use hdh.PageTable.{
  Indices, child, write_pmd, write_pud, write_p4d, write_entry, read_pmd, read_pud, read_p4d,
  read_entry,
}

-- Reading through the table that a walk makes is reading 0.
child-read_pmd : (t : Pmd) (i j : ℕ) → child 0 t i j ≡ read_pmd t i j
unfolding read_pmd
child-read_pmd t i j = ground arith

child-read_pud : (t : Pud) (i j k : ℕ) → read_pmd (child none t i) j k ≡ read_pud t i j k
unfolding read_pud read_pmd
child-read_pud t i j k = ground arith

child-read_p4d : (t : P4d) (i j k l : ℕ) → read_pud (child none t i) j k l ≡ read_p4d t i j k l
unfolding read_p4d read_pud
child-read_p4d t i j k l = ground arith

child-read_entry :
    (t : Pgd) (i : Indices) → read_p4d (child none t i.pgd) i.p4d i.pud i.pmd i.pt ≡ read_entry t i
unfolding read_entry read_p4d
child-read_entry t i = ground arith

-- One level: what is read behind the slot that was written, and behind any other.
at_pmd :
    (t : Pmd) (i j j' : ℕ) (f : ℕ → ℕ)
    → read_pmd (write_pmd t i j f) i j' ≡ update (child 0 t i) j (f (child 0 t i j)) j'
unfolding read_pmd write_pmd
at_pmd t i j j' f = rw (==_self i, read_pmd)

at_pud :
    (t : Pud) (i j k j' k' : ℕ) (f : ℕ → ℕ)
    → read_pud (write_pud t i j k f) i j' k' ≡ read_pmd (write_pmd (child none t i) j k f) j' k'
unfolding read_pud write_pud
at_pud t i j k j' k' f = rw (==_self i, read_pud)

at_p4d :
    (t : P4d) (i j k l j' k' l' : ℕ) (f : ℕ → ℕ)
    → read_p4d (write_p4d t i j k l f) i j' k' l'
      ≡ read_pud (write_pud (child none t i) j k l f) j' k' l'
unfolding read_p4d write_p4d
at_p4d t i j k l j' k' l' f = rw (==_self i, read_p4d)

at_entry :
    (t : Pgd) (i i' : Indices) (f : ℕ → ℕ)
    → i.pgd ≡ i'.pgd
    → read_entry (write_entry t i f) i'
      ≡ read_p4d
          (write_p4d (child none t i'.pgd) i.p4d i.pud i.pmd i.pt f)
          i'.p4d
          i'.pud
          i'.pmd
          i'.pt
unfolding read_entry write_entry
at_entry t i i' f e = rw (e, ==_self i'.pgd, read_entry)

read_pmd-write_pmd :
    (t : Pmd) (i j : ℕ) (f : ℕ → ℕ) → read_pmd (write_pmd t i j f) i j ≡ f (read_pmd t i j)
read_pmd-write_pmd t i j f = at_pmd t i j j f ∙ rw (==_self j) (ap f (child-read_pmd t i j))

read_pud-write_pud :
    (t : Pud) (i j k : ℕ) (f : ℕ → ℕ) → read_pud (write_pud t i j k f) i j k ≡ f (read_pud t i j k)
read_pud-write_pud t i j k f =
    at_pud t i j k j k f ∙ read_pmd-write_pmd (child none t i) j k f ∙ ap f (child-read_pud t i j k)

read_p4d-write_p4d :
    (t : P4d) (i j k l : ℕ) (f : ℕ → ℕ)
    → read_p4d (write_p4d t i j k l f) i j k l ≡ f (read_p4d t i j k l)
read_p4d-write_p4d t i j k l f =
    at_p4d t i j k l j k l f
    ∙ read_pud-write_pud (child none t i) j k l f
    ∙ ap f (child-read_p4d t i j k l)

-- The entry that was written reads as the function of what it read before.
pub read_entry-write_entry :
    (t : Pgd) (i : Indices) (f : ℕ → ℕ) → read_entry (write_entry t i f) i ≡ f (read_entry t i)
read_entry-write_entry t i f =
    at_entry t i i f refl
    ∙ read_p4d-write_p4d (child none t i.pgd) i.p4d i.pud i.pmd i.pt f
    ∙ ap f (child-read_entry t i)

-- Behind another slot of the same table nothing changes.
beside_pmd :
    (t : Pmd) (i j i' j' : ℕ) (f : ℕ → ℕ)
    → (i == i') ≡ false
    → read_pmd (write_pmd t i j f) i' j' ≡ read_pmd t i' j'
unfolding read_pmd write_pmd
beside_pmd t i j i' j' f e = rw (e, read_pmd)

beside_pud :
    (t : Pud) (i j k i' j' k' : ℕ) (f : ℕ → ℕ)
    → (i == i') ≡ false
    → read_pud (write_pud t i j k f) i' j' k' ≡ read_pud t i' j' k'
unfolding read_pud write_pud
beside_pud t i j k i' j' k' f e = rw (e, read_pud)

beside_p4d :
    (t : P4d) (i j k l i' j' k' l' : ℕ) (f : ℕ → ℕ)
    → (i == i') ≡ false
    → read_p4d (write_p4d t i j k l f) i' j' k' l' ≡ read_p4d t i' j' k' l'
unfolding read_p4d write_p4d
beside_p4d t i j k l i' j' k' l' f e = rw (e, read_p4d)

beside_entry :
    (t : Pgd) (i i' : Indices) (f : ℕ → ℕ)
    → (i.pgd == i'.pgd) ≡ false
    → read_entry (write_entry t i f) i' ≡ read_entry t i'
unfolding read_entry write_entry
beside_entry t i i' f e = rw (e, read_entry)

-- A test of two keys fails: at the first, or at the second with the first the same.
and_fails :
    (i i' : ℕ) (b : Bool)
    → ((i == i') && b) ≡ false
    → ((i == i') ≡ false) ⊎ ((i ≡ i') × (b ≡ false))
and_fails i i' b h = ground arith

-- At other indices: `h` says that they differ somewhere from this level down.
read_pmd-other :
    (t : Pmd) (i j i' j' : ℕ) (f : ℕ → ℕ)
    → ((i == i') && (j == j')) ≡ false
    → read_pmd (write_pmd t i j f) i' j' ≡ read_pmd t i' j'
read_pmd-other t i j i' j' f h = elim (and_fails i i' (j == j') h) [
  | inl e ↦ beside_pmd t i j i' j' f e
  | inr (same, d) ↦ rw same (at_pmd t i' j j' f ∙ rw d (child-read_pmd t i' j'))
]

read_pud-other :
    (t : Pud) (i j k i' j' k' : ℕ) (f : ℕ → ℕ)
    → ((i == i') && ((j == j') && (k == k'))) ≡ false
    → read_pud (write_pud t i j k f) i' j' k' ≡ read_pud t i' j' k'
read_pud-other t i j k i' j' k' f h = elim (and_fails i i' ((j == j') && (k == k')) h) [
  | inl e ↦ beside_pud t i j k i' j' k' f e
  | inr (same, d) ↦ rw same (
      at_pud t i' j k j' k' f
      ∙ read_pmd-other (child none t i') j k j' k' f d
      ∙ child-read_pud t i' j' k')
]

read_p4d-other :
    (t : P4d) (i j k l i' j' k' l' : ℕ) (f : ℕ → ℕ)
    → ((i == i') && ((j == j') && ((k == k') && (l == l')))) ≡ false
    → read_p4d (write_p4d t i j k l f) i' j' k' l' ≡ read_p4d t i' j' k' l'
read_p4d-other t i j k l i' j' k' l' f h =
    elim (and_fails i i' ((j == j') && ((k == k') && (l == l'))) h) [
      | inl e ↦ beside_p4d t i j k l i' j' k' l' f e
      | inr (same, d) ↦ rw same (
          at_p4d t i' j k l j' k' l' f
          ∙ read_pud-other (child none t i') j k l j' k' l' f d
          ∙ child-read_p4d t i' j' k' l')
    ]

abbrev rest_same : Indices → Indices → Bool
rest_same i i' = (i.p4d == i'.p4d) && ((i.pud == i'.pud) && ((i.pmd == i'.pmd) && (i.pt == i'.pt)))

rest_same_sound : (i i' : Indices) → ((i.pgd == i'.pgd) && rest_same i i') ≡ true → i ≡ i'
rest_same_sound i i' h = ground arith

-- Writing the entry behind five indices leaves the entry behind any other five indices as it was.
pub read_entry-other :
    (t : Pgd) (i i' : Indices) (f : ℕ → ℕ)
    → i ≢ i'
    → read_entry (write_entry t i f) i' ≡ read_entry t i'
read_entry-other t i i' f ne = elim (Bool-cases ((i.pgd == i'.pgd) && rest_same i i')) [
  | inl all ↦ absurd (ne (rest_same_sound i i' all))
  | inr h ↦ elim (and_fails i.pgd i'.pgd (rest_same i i') h) [
    | inl e ↦ beside_entry t i i' f e
    | inr (same, d) ↦
        at_entry t i i' f same
        ∙ read_p4d-other (child none t i'.pgd) i.p4d i.pud i.pmd i.pt i'.p4d i'.pud i'.pmd i'.pt f d
        ∙ child-read_entry t i'
  ]
]
