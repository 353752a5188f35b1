-- ===== src/Alloc/Separate.antt =====
-- src/libmem.c: live regions and free regions never share an address, whatever is allocated and
-- released.
use mathlib.Core.Option.{some_inj}
use hdh.Base.{
  ℕ, zero, suc, ◌+◌, ◌^◌, ◌≤◌, ◌<◌, ◌≡◌, inl, inr, refl, ap, ◌∙◌, ◌==◌, ==_ne, ltb, lt→ltb, true,
  false, if◌then◌else◌, Option, none, some, List, [], ◌∷◌, All, length, get_elem?, set, length-set,
  get_elem?-set_self, get_elem?-lt, arith,
}
use hdh.Base.Word.{through_int-small}
use hdh.Mm.{Mm, Vma, Region, max_symtbl_sz}
use hdh.Vm.{minus_one}
use hdh.Vm.Growth.{OneArea, get_vma_by_num-OneArea}
use hdh.Alloc.{carve, get_free_vmrg_area, set_symrg}
use hdh.Alloc.Regions.{inside, covers, IsLow, Carved, carve-cases}

-- The state of the one area: no address belongs to two regions, live or free, and none to a
-- region above the break.
pub record IsSeparate (mm : Mm) (v : Vma) : Type 0 where
  pub one : OneArea mm v
  pub apart :
      (a : ℕ) → covers mm.symrgtbl a + covers v.vm_freerg_list a ≤ (if ltb a v.sbrk then 1 else 0)
  pub entries : length mm.symrgtbl ≡ max_symtbl_sz
  pub live_low : All IsLow mm.symrgtbl
  pub free_low : All IsLow v.vm_freerg_list
  pub brk_low : v.sbrk < 2 ^ 31

pub covers-set :
    (l : List Region) (i : ℕ) (old new : Region) (a : ℕ)
    → get_elem? l i ≡ some old
    → covers (set l i new) a + inside old a ≡ covers l a + inside new a
unfolding covers
covers-set [] i old new a e = absurd (cc)
covers-set (r ∷ rs) zero old new a e = rw (some_inj.0 e) (omega arith)
covers-set (r ∷ rs) (suc i) old new a e = omega (arith, covers-set rs i old new a e)

pub All-set :
    (l : List Region) (i : ℕ) (new : Region) → All IsLow l → IsLow new → All IsLow (set l i new)
All-set [] i new h low = tt
All-set (r ∷ rs) zero new h low = (low, h.1)
All-set (r ∷ rs) (suc i) new h low = (h.0, All-set rs i new h.1 low)

covers-one :
    (l : List Region) (j : ℕ) (s : Region) (a : ℕ)
    → get_elem? l j ≡ some s
    → inside s a ≤ covers l a
unfolding covers
covers-one [] j s a f = absurd (cc)
covers-one (x ∷ l) zero s a f = rw (some_inj.0 f) (omega arith)
covers-one (x ∷ l) (suc j) s a f = omega (arith, covers-one l j s a f)

-- Two entries of the table share no address.
pub covers-two :
    (l : List Region) (i j : ℕ) (r s : Region) (a : ℕ)
    → i < j
    → get_elem? l i ≡ some r
    → get_elem? l j ≡ some s
    → inside r a + inside s a ≤ covers l a
unfolding covers
covers-two [] i j r s a lt e f = absurd (cc)
covers-two (x ∷ l) i zero r s a lt e f = absurd (omega arith)
covers-two (x ∷ l) zero (suc j) r s a lt e f =
    rw (some_inj.0 e) (omega (arith, covers-one l j s a f))
covers-two (x ∷ l) (suc i) (suc j) r s a lt e f =
    omega (arith, covers-two l i j r s a (omega arith) e f)

-- What the search of the free list does to the state.
pub data Searched (mm : Mm) (v : Vma) (size : ℕ) : Option Region × Mm → Type 0 where
  nothing : Searched mm v size (none, record mm { mmap = v ∷ [] })
  found :
      (new : Region) (left : List Region)
      → Carved v.vm_freerg_list size new left
      → Searched mm v size (some new, record mm { mmap = record v { vm_freerg_list = left } ∷ [] })

search_list :
    (mm : Mm) (v : Vma) (l : List Region) (size : ℕ)
    → v.vm_id ≡ 0
    → All IsLow l
    → size < 2 ^ 31
    → let listed = record v { vm_freerg_list = l } in
      (r : Option Region × Mm) × (get_free_vmrg_area (record mm { mmap = listed ∷ [] }) 0 size
        ≡ some r)
      × Searched mm listed size r
unfolding get_free_vmrg_area
search_list mm v [] size numbered lows small =
    let at =
      get_vma_by_num-OneArea (record mm { mmap = record v { vm_freerg_list = [] } ∷ [] })
        (record v { vm_freerg_list = [] }) (record { only = refl; numbered = numbered }) in
    (_, rw at refl, nothing)
search_list mm v (rg ∷ rgs) size numbered lows small =
    let listed : Vma = record v { vm_freerg_list = rg ∷ rgs } in
    let at =
      get_vma_by_num-OneArea (record mm { mmap = listed ∷ [] }) listed
        (record { only = refl; numbered = numbered }) in
    elim (carve-cases (rg ∷ rgs) size lows small) [
      | inl e ↦ (_, rw (at, through_int-small size small, e) refl, nothing)
      | inr c ↦
          let low : ((carve (rg ∷ rgs) size).0.rg_start == minus_one) ≡ false =
            ==_ne _ _ (λ h. omega (arith, c.sized, c.end_low, h)) in
          (_, rw (at, through_int-small size small, low) refl, found _ _ c)
    ]

pub get_free_vmrg_area-Searched :
    (mm : Mm) (v : Vma) (size : ℕ)
    → IsSeparate mm v
    → size < 2 ^ 31
    → (r : Option Region × Mm) × (get_free_vmrg_area mm 0 size ≡ some r) × Searched mm v size r
get_free_vmrg_area-Searched mm v size sep small =
    let (r, e, s) = search_list mm v v.vm_freerg_list size sep.one.numbered sep.free_low small in
    (r, ap (λ l. get_free_vmrg_area (record mm { mmap = l }) 0 size) sep.one.only ∙ e, s)

pub set_symrg_lem :
    (mm : Mm) (rgid : ℕ) (rg : Region)
    → rgid < max_symtbl_sz
    → set_symrg mm rgid rg ≡ some (record mm { symrgtbl = set mm.symrgtbl rgid rg })
unfolding set_symrg
set_symrg_lem mm rgid rg h =
    let inside_table : ltb rgid max_symtbl_sz ≡ true = lt→ltb rgid max_symtbl_sz h in
    rw (through_int-small rgid (omega arith), inside_table) refl

-- What an allocation leaves: the entry has a region of the size asked for at the address returned.
pub record Allocated (rgid size addr : ℕ) (mm : Mm) : Type 0 where
  pub area : Vma
  pub separate : IsSeparate mm area
  pub entry : get_elem? mm.symrgtbl rgid ≡ some (record { rg_start = addr; rg_end = addr + size })

-- The region comes from the free list.
pub from_list :
    (mm : Mm) (v : Vma) (rgid size : ℕ) (new : Region) (left : List Region)
    → IsSeparate mm v
    → rgid < max_symtbl_sz
    → size < 2 ^ 31
    → Carved v.vm_freerg_list size new left
    → Allocated rgid size new.rg_start (record mm {
      mmap = record v { vm_freerg_list = left } ∷ [];
      symrgtbl = set mm.symrgtbl rgid new;
    })
from_list mm v rgid size new left sep h small c =
    let (old, e) = get_elem?-lt mm.symrgtbl rgid (omega (arith, sep.entries)) in
    record {
      area = record v { vm_freerg_list = left };
      separate = record {
        one = record { only = refl; numbered = sep.one.numbered };
        apart =
            λ a. omega (arith, sep.apart a, c.divided a, covers-set mm.symrgtbl rgid old new a e);
        entries = length-set mm.symrgtbl rgid new ∙ sep.entries;
        live_low = All-set mm.symrgtbl rgid new sep.live_low (omega (arith, c.sized), c.end_low);
        free_low = c.left_low;
        brk_low = sep.brk_low;
      };
      entry =
          get_elem?-set_self mm.symrgtbl rgid new (omega (arith, sep.entries))
          ∙ ap (λ b. some (record { rg_start = new.rg_start; rg_end = b })) c.sized;
    }

-- The region is the one above the break, whatever became of the system call.
pub from_top :
    (mm mm' : Mm) (v : Vma) (end rgid size : ℕ)
    → IsSeparate mm v
    → rgid < max_symtbl_sz
    → v.sbrk + size < 2 ^ 31
    → mm'.symrgtbl ≡ mm.symrgtbl
    → Allocated rgid size v.sbrk (record mm' {
      mmap = record v { vm_end = end; sbrk = v.sbrk + size } ∷ [];
      symrgtbl = set mm.symrgtbl rgid (record { rg_start = v.sbrk; rg_end = v.sbrk + size });
    })
unfolding inside
from_top mm mm' v end rgid size sep h small same =
    let new : Region = record { rg_start = v.sbrk; rg_end = v.sbrk + size } in
    let (old, e) = get_elem?-lt mm.symrgtbl rgid (omega (arith, sep.entries)) in
    record {
      area = record v { vm_end = end; sbrk = v.sbrk + size };
      separate = record {
        one = record { only = refl; numbered = sep.one.numbered };
        apart = λ a. ground (arith, sep.apart a, covers-set mm.symrgtbl rgid old new a e);
        entries = length-set mm.symrgtbl rgid new ∙ sep.entries;
        live_low = All-set mm.symrgtbl rgid new sep.live_low (omega arith, omega arith);
        free_low = sep.free_low;
        brk_low = small;
      };
      entry = get_elem?-set_self mm.symrgtbl rgid new (omega (arith, sep.entries));
    }
