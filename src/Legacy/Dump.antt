-- ===== src/Legacy/Dump.antt =====
-- src/mem.c: which bytes dump prints.
use hdh.Base.{
  ℕ, zero, suc, ◌+◌, ◌-◌, ◌*◌, ◌/◌, ◌%◌, ◌^◌, ◌<◌, ◌≡◌, refl, ap, ◌∙◌, inl, inr, ◌==◌, leb, ltb,
  if◌then◌else◌, Bool, Bool-cases, true, false, ◌&&◌, not, List, [], ◌∷◌, arith,
}
use hdh.Legacy.{Mem, Line, page_size, num_pages, dump_bytes, dump_page, dump_pages, dump}

-- There is a line with this address and this byte.
unfoldable pub prints : ℕ → ℕ → List Line → Bool
prints a v [] = false
prints a v (Line.page i s ∷ lines) = prints a v lines
prints a v (Line.byte j x ∷ lines) =
    let rest = prints a v lines in if (j == a) && (x == v) then true else rest

-- The memory holds this byte at the address, and it is not 0.
abbrev pub holds : Mem → ℕ → ℕ → Bool
holds m a v = (m.ram a == v) && not (m.ram a == 0)

prints-dump_bytes :
    (a v n j : ℕ) (m : Mem) (rest : List Line)
    → prints a v (dump_bytes n j m rest)
      ≡ (if leb j a && ltb a (j + n) && holds m a v then true else prints a v rest)
unfolding prints dump_bytes
prints-dump_bytes a v zero j m rest = ground arith
prints-dump_bytes a v (suc n) j m rest =
    let later = prints-dump_bytes a v n (j + 1) m rest in
    elim (Bool-cases (j == a)) [
      | inl here ↦ let same : j ≡ a = ground arith in let stored = ap m.ram same in ground arith
      | inr elsewhere ↦ ground arith
    ]

-- The bytes of page `i` that dump looks at.
looked_at :
    (a i : ℕ)
    → (leb (i * page_size) a && ltb a (i * page_size + ((i + 1) * page_size - 1 - i * page_size)))
      ≡ ((i == a / 1024) && not (a % 1024 == 1023))
looked_at a i = ground arith

prints-page :
    (a v i : ℕ) (m : Mem) (more : List Line)
    → prints a v (dump_bytes ((i + 1) * page_size - 1 - i * page_size) (i * page_size) m more) ≡ (
        if ((i == a / 1024) && not (a % 1024 == 1023)) && holds m a v
        then true
        else prints a v more)
prints-page a v i m more =
    prints-dump_bytes a v ((i + 1) * page_size - 1 - i * page_size) (i * page_size) m more
    ∙ ap (λ b. if b && holds m a v then true else prints a v more) (looked_at a i)

never : (b c x : Bool) → x ≡ (if b && (c && false) then true else x)
never true true x = refl
never true false x = refl
never false c x = refl

always : (b c x : Bool) → (if b && c then true else x) ≡ (if b && (c && true) then true else x)
always true true x = refl
always true false x = refl
always false c x = refl

prints-dump_page :
    (a v i : ℕ) (m : Mem) (more : List Line)
    → prints a v (dump_page i m more) ≡ (
        if ((i == a / 1024) && not (a % 1024 == 1023))
          && (holds m a v && not ((m.stat i).proc == 0))
        then true
        else prints a v more)
unfolding dump_page prints
prints-dump_page a v i m more = elim (Bool-cases ((m.stat i).proc == 0)) [
  | inl unused ↦ rw unused (never _ _ (prints a v more))
  | inr used ↦ rw used (prints-page a v i m more ∙ always _ _ (prints a v more))
]

-- What the loop over the pages from `i` up to `i + n` prints.
prints-dump_pages :
    (a v n i : ℕ) (m : Mem)
    → prints a v (dump_pages n i m) ≡ (
        leb i (a / 1024)
        && ltb (a / 1024) (i + n)
        && not ((m.stat (a / 1024)).proc == 0)
        && holds m a v
        && not (a % 1024 == 1023))
unfolding prints dump_pages
prints-dump_pages a v zero i m = ground arith
prints-dump_pages a v (suc n) i m =
    let later = prints-dump_pages a v n (i + 1) m in
    let at_page = prints-dump_page a v i m (dump_pages n (i + 1) m) in
    elim (Bool-cases (i == a / 1024)) [
      | inl here ↦
          let same : i ≡ a / 1024 = ground arith in
          let used = ap (λ x. (m.stat x).proc) same in ground arith
      | inr elsewhere ↦ ground arith
    ]

-- For an address of the memory: dump prints a line with this address and the byte `v` exactly when
-- its page belongs to a process, `v` is the byte of the memory there and not 0, and the address is
-- not the last of its page.
pub prints-dump :
    (a v : ℕ) (m : Mem)
    → a < 2 ^ 20
    → prints a v (dump m)
      ≡ (not ((m.stat (a / 1024)).proc == 0) && holds m a v && not (a % 1024 == 1023))
unfolding dump
prints-dump a v m h =
    let pages = prints-dump_pages a v num_pages 0 m in
    let low : a / 1024 < 1024 = omega arith in ground arith
