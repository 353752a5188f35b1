-- ===== src/Legacy/Access.antt =====
-- src/mem.c and src/cpu.c: what a program of the segmented mode gets.
use mathlib.Core.Option.{some_inj}
use hdh.Base.{
  ℕ, ◌≡◌, ◌⊎◌, inl, inr, refl, sym, none, some, >>=-eq-some, Bool-cases, ltb, List, get_elem?, set,
  arith, ◌+◌,
}
use hdh.Base.Word.{u64}
use hdh.Legacy.{Row, Segments, translate, read_mem, write_mem, read, write}

module _ (behind : ℕ → List Row) (proc : Segments) where
  read_mem-cases :
      (address : ℕ)
      → (read_mem behind address proc ≡ none) ⊎ (read_mem behind address proc ≡ some (1, none))
  unfolding read_mem
  read_mem-cases address = elim (Bool-cases (translate behind address proc)) [
    | inl found ↦ inl (rw found refl)
    | inr missing ↦ inr (rw missing refl)
  ]

  -- `read` takes a failure for success, and stores a byte that nobody has read.
  read-unset :
      (unset source offset destination : ℕ) (r : ℕ × Segments)
      → read behind unset proc source offset destination ≡ some r
      → r ≡ (0, record proc { regs = set proc.regs destination unset })
  unfolding read
  read-unset unset source offset destination r e =
      let (base, at, e1) = >>=-eq-some (get_elem? proc.regs source) _ e in
      elim (read_mem-cases (u64 (base + offset))) [
        | inl fault ↦ absurd (ground (arith, rw fault at e1))
        | inr refused ↦ elim (Bool-cases (ltb destination 10)) [
          | inl is_reg ↦ sym (some_inj.0 (rw (refused, is_reg) at e1))
          | inr other ↦ absurd (ground (arith, rw (refused, other) at e1))
        ]
      ]

  write-refused :
      (byte destination offset status : ℕ)
      → write behind proc byte destination offset ≡ some status
      → status ≡ 1
  unfolding write write_mem
  write-refused byte destination offset status e = ground arith

  -- Whatever stands behind the rows of the first table, in the segmented mode no access reaches the
  -- memory: a `read` that returns reports success and stores in the register the byte that its
  -- variable held before, and a `write` that returns reports an error.
  pub segments_unusable :
      ((unset source offset destination : ℕ) (r : ℕ × Segments)
        → read behind unset proc source offset destination ≡ some r
        → r ≡ (0, record proc { regs = set proc.regs destination unset }))
      × ((byte destination offset status : ℕ)
          → write behind proc byte destination offset ≡ some status
          → status ≡ 1)
  segments_unusable = (read-unset, write-refused)
