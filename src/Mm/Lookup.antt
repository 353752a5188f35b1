-- ===== src/Mm/Lookup.antt =====
-- Which page is the victim, which area and which region are found.
use hdh.Base.{ℕ, ◌<◌, ◌≡◌, refl, sym, ◌∙◌, some, List, [], ◌∷◌, ◌++◌, arith, ◌^◌, ltb, false}
use hdh.Base.Word.{through_int-small}
use hdh.Mm.{Mm, int_ltb, max_symtbl_sz, last_page, find_victim_page, get_symrg_byid}

not-nil-append : (xs : List ℕ) (y : ℕ) → [] ≡ xs ++ (y ∷ []) → ⊥
not-nil-append [] y e = cc
not-nil-append (x ∷ xs) y e = cc

last_page_lem :
    (pg : ℕ) (rest pages : List ℕ) (oldest : ℕ)
    → pg ∷ rest ≡ pages ++ (oldest ∷ [])
    → last_page pg rest ≡ (oldest, pages)
unfolding last_page
last_page_lem pg [] [] oldest e = ground (arith, e)
last_page_lem pg [] (x ∷ pages) oldest e = absurd (not-nil-append pages oldest (ground (arith, e)))
last_page_lem pg (next ∷ rest) [] oldest e = absurd (not-nil-append [] oldest (ground (arith, e)))
last_page_lem pg (next ∷ rest) (x ∷ pages) oldest e =
    ground (arith, e, last_page_lem next rest pages oldest)

-- find_victim_page takes the last page off the list, which is the one enlisted first, and leaves
-- the others in their order.
pub find_victim_page-fifo :
    (mm : Mm) (pages : List ℕ) (oldest : ℕ)
    → mm.fifo_pgn ≡ pages ++ (oldest ∷ [])
    → find_victim_page mm ≡ (some oldest, record mm { fifo_pgn = pages })
unfolding find_victim_page
find_victim_page-fifo mm pages oldest e = split mm.fifo_pgn refl
  where
    split :
        (l : List ℕ)
        → mm.fifo_pgn ≡ l
        → find_victim_page mm ≡ (some oldest, record mm { fifo_pgn = pages })
    split [] d = absurd (not-nil-append pages oldest (sym d ∙ e))
    split (pg ∷ rest) d = ground (arith, d, last_page_lem pg rest pages oldest (sym d ∙ e))

-- A comparison of `int`s that are not negative.
pub int_ltb-small : (a b : ℕ) → a < 2 ^ 31 → b < 2 ^ 31 → int_ltb a b ≡ ltb a b
int_ltb-small a b h g = rw (through_int-small a h, through_int-small b g) (ground arith)

pub get_symrg_byid-small :
    (mm : Mm) (rgid : ℕ) → rgid < max_symtbl_sz → get_symrg_byid mm rgid ≡ some rgid
unfolding get_symrg_byid
get_symrg_byid-small mm rgid h =
    let above : int_ltb rgid 0 ≡ false =
      int_ltb-small rgid 0 (omega arith) (omega arith) ∙ ground arith in
    let below : int_ltb max_symtbl_sz rgid ≡ false =
      int_ltb-small max_symtbl_sz rgid (omega arith) (omega arith) ∙ ground arith in
    rw (above, below, through_int-small rgid (omega arith)) refl
