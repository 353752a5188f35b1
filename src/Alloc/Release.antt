-- ===== src/Alloc/Release.antt =====
-- src/libmem.c: __free gives addresses back.
use mathlib.Core.Option.{some_inj}
use hdh.Base.{
  ℕ, All, zero, suc, ◌+◌, ◌<◌, ◌≡◌, refl, sym, ap, ◌∙◌, leb, false, some, ok, List, [], ◌∷◌,
  get_elem?, set, length-set, get_elem?-set_self, lt-get_elem?, arith,
}
use hdh.Base.Word.{through_int-small}
use hdh.Mm.{Mm, Vma, Region, max_symtbl_sz, int_ltb, get_symrg_byid, enlist_vm_freerg_list}
use hdh.Mm.Lookup.{int_ltb-small}
use hdh.Kernel.{Kernel}
use hdh.Alloc.{free}
use hdh.Alloc.Regions.{inside, covers, IsLow}
use hdh.Alloc.Separate.{IsSeparate, covers-set, All-set}

covers-cons : (r : Region) (rs : List Region) (a : ℕ) → covers (r ∷ rs) a ≡ inside r a + covers rs a
unfolding covers
covers-cons r rs a = refl

nothing_inside : (a : ℕ) → inside (record { rg_start = 0; rg_end = 0 }) a ≡ 0
unfolding inside
nothing_inside a = ground arith

All-get_elem? :
    (l : List Region) (i : ℕ) (r : Region) → All IsLow l → get_elem? l i ≡ some r → IsLow r
All-get_elem? [] i r lows e = absurd (cc)
All-get_elem? (x ∷ l) zero r lows e = rw (sym (some_inj.0 e)) lows.0
All-get_elem? (x ∷ l) (suc i) r lows e = All-get_elem? l i r lows.1 e

free_explicit :
    (k : Kernel) (v : Vma) (rgid : ℕ) (rg : Region)
    → rgid < max_symtbl_sz
    → get_elem? k.mm.symrgtbl rgid ≡ some rg
    → rg.rg_start < rg.rg_end
    → free (record k { mm = record k.mm { mmap = v ∷ [] } }) 0 rgid
      ≡ some (
        ok,
        record k {
          mm = record k.mm {
            mmap = record v { vm_freerg_list = rg ∷ v.vm_freerg_list } ∷ [];
            symrgtbl = set k.mm.symrgtbl rgid (record { rg_start = 0; rg_end = 0 });
          };
        },
      )
unfolding free get_symrg_byid enlist_vm_freerg_list
free_explicit k v rgid rg h e wide =
    let above : int_ltb rgid 0 ≡ false =
      int_ltb-small rgid 0 (omega arith) (omega arith) ∙ ground arith in
    let below : int_ltb max_symtbl_sz rgid ≡ false =
      int_ltb-small max_symtbl_sz rgid (omega arith) (omega arith) ∙ ground arith in
    let filled : leb rg.rg_end rg.rg_start ≡ false = ground arith in
    rw (above, below, through_int-small rgid (omega arith), e, filled) refl

-- Moving the region of an entry to the free list keeps the area separate.
pub give_back :
    (mm : Mm) (v : Vma) (i : ℕ) (rg : Region)
    → IsSeparate mm v
    → get_elem? mm.symrgtbl i ≡ some rg
    → let v' : Vma = record v { vm_freerg_list = rg ∷ v.vm_freerg_list } in
      let none_left : Region = record { rg_start = 0; rg_end = 0 } in
      IsSeparate (record mm { mmap = v' ∷ []; symrgtbl = set mm.symrgtbl i none_left }) v'
give_back mm v i rg sep e =
    let none_left : Region = record { rg_start = 0; rg_end = 0 } in
    record {
      one = record { only = refl; numbered = sep.one.numbered };
      apart = λ a. omega (
        arith,
        sep.apart a,
        covers-set mm.symrgtbl i rg none_left a e,
        covers-cons rg v.vm_freerg_list a,
        nothing_inside a,
      );
      entries = length-set mm.symrgtbl i none_left ∙ sep.entries;
      live_low = All-set mm.symrgtbl i none_left sep.live_low (omega arith, omega arith);
      free_low = (All-get_elem? mm.symrgtbl i rg sep.live_low e, sep.free_low);
      brk_low = sep.brk_low;
    }

-- In a separate area __free of an entry that has a region returns 0, empties the entry, puts the
-- region in front of the free list, and leaves the area separate.
pub free-IsSeparate :
    (k : Kernel) (v : Vma) (rgid : ℕ) (rg : Region)
    → IsSeparate k.mm v
    → get_elem? k.mm.symrgtbl rgid ≡ some rg
    → rg.rg_start < rg.rg_end
    → (k' : Kernel) × (v' : Vma) × (free k 0 rgid ≡ some (ok, k'))
      × IsSeparate k'.mm v'
      × (v'.vm_freerg_list ≡ rg ∷ v.vm_freerg_list)
      × (get_elem? k'.mm.symrgtbl rgid ≡ some (record { rg_start = 0; rg_end = 0 }))
free-IsSeparate k v rgid rg sep e wide =
    let h : rgid < max_symtbl_sz = omega (arith, lt-get_elem? k.mm.symrgtbl rgid e, sep.entries) in
    let none_left : Region = record { rg_start = 0; rg_end = 0 } in
    (
      _,
      record v { vm_freerg_list = rg ∷ v.vm_freerg_list },
      ap (λ l. free (record k { mm = record k.mm { mmap = l } }) 0 rgid) sep.one.only
          ∙ free_explicit k v rgid rg h e wide,
      give_back k.mm v rgid rg sep e,
      refl,
      get_elem?-set_self k.mm.symrgtbl rgid none_left (omega (arith, sep.entries)),
    )
