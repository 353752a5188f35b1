-- ===== src/Alloc/Regions.antt =====
-- src/libmem.c: how the loop of get_free_vmrg_area divides the free addresses.
use hdh.Base.{
  ℕ, ◌+◌, ◌^◌, ◌≤◌, ◌<◌, ◌≡◌, ◌⊎◌, inl, inr, refl, ap, ltb, leb, ◌&&◌, Bool-cases, if◌then◌else◌,
  List, [], ◌∷◌, All, arith,
}
use hdh.Base.Word.{u64}
use hdh.Mm.{Region}
use hdh.Alloc.{no_region, shrink, carve}

-- 1 for an address of the region, else 0.
unfoldable pub inside : Region → ℕ → ℕ
inside r a = if leb r.rg_start a && ltb a r.rg_end then 1 else 0

-- How many regions of the list contain the address.
unfoldable pub covers : List Region → ℕ → ℕ
covers [] a = 0
covers (r ∷ rs) a = inside r a + covers rs a

-- Regions end below 2 ^ 63, so that adding an `int` to a start does not wrap.
abbrev pub IsLow : Region → Type 0
IsLow r = (r.rg_start ≤ r.rg_end) × (r.rg_end < 2 ^ 63)

shrink-covers :
    (r : Region) (size : ℕ) (rs : List Region) (a : ℕ)
    → IsLow r
    → size < 2 ^ 31
    → r.rg_start + size ≤ r.rg_end
    → covers (shrink r size rs) a
        + inside (record { rg_start = r.rg_start; rg_end = u64 (r.rg_start + size) }) a
      ≡ inside r a + covers rs a
unfolding shrink covers inside
shrink-covers r size [] a low small fits = ground (arith, low.0, low.1)
shrink-covers r size (n ∷ ns) a low small fits = ground (arith, low.0, low.1)

shrink-IsLow :
    (r : Region) (size : ℕ) (rs : List Region)
    → IsLow r
    → size < 2 ^ 31
    → r.rg_start + size ≤ r.rg_end
    → All IsLow rs
    → All IsLow (shrink r size rs)
unfolding shrink
shrink-IsLow r size [] low small fits lows = ground (arith, low.0, low.1)
shrink-IsLow r size (n ∷ ns) low small fits lows = ground (arith, low.0, low.1, lows.0, lows.1)

-- What a successful search gives.
pub record Carved (rs : List Region) (size : ℕ) (new : Region) (left : List Region) : Type 0 where
  pub sized : new.rg_end ≡ new.rg_start + size
  pub divided : (a : ℕ) → covers left a + inside new a ≡ covers rs a
  pub end_low : new.rg_end < 2 ^ 63
  pub left_low : All IsLow left

carve-skip :
    (r : Region) (rs : List Region) (size : ℕ)
    → IsLow r
    → (carve rs size ≡ (no_region, rs)) ⊎ Carved rs size (carve rs size).0 (carve rs size).1
    → ◌≡◌ {A = Region × List Region} ((carve rs size).0, r ∷ (carve rs size).1) (no_region, r ∷ rs)
      ⊎ Carved (r ∷ rs) size (carve rs size).0 (r ∷ (carve rs size).1)
unfolding covers
carve-skip r rs size low (inl e) = inl (ap {B = Region × List Region} (λ p. (p.0, r ∷ p.1)) e)
carve-skip r rs size low (inr c) = inr (record {
  sized = c.sized;
  divided = λ a. omega (arith, c.divided a);
  end_low = c.end_low;
  left_low = (low, c.left_low);
})

-- The search finds nothing and leaves the list alone, or it cuts a region of exactly the size out
-- of the free ones.
pub carve-cases :
    (rs : List Region) (size : ℕ)
    → All IsLow rs
    → size < 2 ^ 31
    → (carve rs size ≡ (no_region, rs)) ⊎ Carved rs size (carve rs size).0 (carve rs size).1
unfolding carve covers inside
carve-cases [] size lows small = inl refl
carve-cases (r ∷ rs) size (low, lows) small =
    let nowrap : u64 (r.rg_start + size) ≡ r.rg_start + size = omega (arith, low.0, low.1) in
    elim (Bool-cases (leb (u64 (r.rg_start + size)) r.rg_end)) [
      | inl fits ↦
          let room : r.rg_start + size ≤ r.rg_end = ground (arith, fits, nowrap) in
          rw fits (
            inr (record {
              sized = nowrap;
              divided = λ a. shrink-covers r size rs a low small room;
              end_low = omega (arith, low.1, room, nowrap);
              left_low = shrink-IsLow r size rs low small room lows;
            }))
      | inr short ↦ rw short (carve-skip r rs size low (carve-cases rs size lows small))
    ]
