-- ===== src/Memphy/Frames.antt =====
-- src/mm-memphy.c: the list of free frames.
use hdh.Base.{
  ℕ, ◌+◌, ◌*◌, ◌≤◌, ◌≡◌, ◌≢◌, ◌⊎◌, inl, inr, refl, none, some, List, [], ◌∷◌, All, arith,
}
use hdh.Memphy.{Memphy, paging_pagesz, get_freefp}

abbrev pub Absent : ℕ → List ℕ → Type 0
Absent f fs = All (λ g. f ≢ g) fs

abbrev Distinct : List ℕ → Type 0
Distinct [] = Unit
Distinct (f ∷ fs) = Absent f fs × Distinct fs

-- The frame's cells all lie in the storage.
abbrev pub Fits : Memphy → ℕ → Type 0
Fits mp f = (f + 1) * paging_pagesz ≤ mp.maxsz

-- The free frames are distinct and lie in the storage.
pub record HasFrames (mp : Memphy) : Type 0 where
  pub distinct : Distinct mp.free_fp_list
  pub fit : All (Fits mp) mp.free_fp_list

-- If the free frames are distinct and lie in the storage, MEMPHY_get_freefp either returns -1,
-- changes nothing, and no frame is free; or it hands out the first free frame, which lies in the
-- storage and is no longer free, and the rest are distinct and lie in the storage.
pub get_freefp-HasFrames :
    (mp : Memphy)
    → HasFrames mp
    → ((get_freefp mp ≡ (none, mp)) × (mp.free_fp_list ≡ []))
      ⊎ ((f : ℕ) × (mp' : Memphy) × (get_freefp mp ≡ (some f, mp'))
          × (mp.free_fp_list ≡ f ∷ mp'.free_fp_list)
          × Fits mp f
          × Absent f mp'.free_fp_list
          × HasFrames mp')
unfolding get_freefp
get_freefp-HasFrames mp h = split mp.free_fp_list refl
  where
    split :
        (l : List ℕ)
        → mp.free_fp_list ≡ l
        → ((get_freefp mp ≡ (none, mp)) × (mp.free_fp_list ≡ []))
          ⊎ ((f : ℕ) × (mp' : Memphy) × (get_freefp mp ≡ (some f, mp'))
              × (mp.free_fp_list ≡ f ∷ mp'.free_fp_list)
              × Fits mp f
              × Absent f mp'.free_fp_list
              × HasFrames mp')
    split [] e = inl (ground (arith, e), e)
    split (f ∷ rest) e =
        let d : Distinct (f ∷ rest) = rw e at h.distinct in
        let i : All (Fits mp) (f ∷ rest) = rw e at h.fit in
        inr (
          f,
          record mp { free_fp_list = rest },
          ground (arith, e),
          e,
          i.0,
          d.0,
          record { distinct = d.1; fit = i.1 },
        )
