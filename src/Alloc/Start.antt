-- ===== src/Alloc/Start.antt =====
-- src/mm64.c, init_mm, and what it means that an area is separate.
use hdh.Base.{
  ℕ, All, replicate, zero, suc, ◌+◌, ◌≤◌, ◌<◌, ◌≡◌, refl, some, [], ◌∷◌, get_elem?, arith,
}
use hdh.Mm.{init_mm, init_vm_rg, enlist_vm_rg_node, Mm, Vma, Region, max_symtbl_sz}
use hdh.Alloc.Regions.{inside, covers, IsLow}
use hdh.Alloc.Separate.{IsSeparate, covers-two}

-- In a separate area no address belongs to the regions of two entries of the table.
pub IsSeparate-disjoint :
    (mm : Mm) (v : Vma) (i j : ℕ) (r s : Region) (a : ℕ)
    → IsSeparate mm v
    → i < j
    → get_elem? mm.symrgtbl i ≡ some r
    → get_elem? mm.symrgtbl j ≡ some s
    → inside r a + inside s a ≤ 1
IsSeparate-disjoint mm v i j r s a sep lt e f =
    ground (arith, sep.apart a, covers-two mm.symrgtbl i j r s a lt e f)

pub covers-replicate : (n a : ℕ) → covers (replicate n (record { rg_start = 0; rg_end = 0 })) a ≡ 0
unfolding covers inside
covers-replicate zero a = refl
covers-replicate (suc n) a = ground (arith, covers-replicate n a)

pub All-replicate : (n : ℕ) → All IsLow (replicate n (record { rg_start = 0; rg_end = 0 }))
All-replicate zero = tt
All-replicate (suc n) = ((omega arith, omega arith), All-replicate n)

-- The state that init_mm makes is separate, if the uninitialised pointer of the area is the empty
-- list.
pub init_mm-IsSeparate : IsSeparate (init_mm []) (record {
  vm_id = 0;
  vm_start = 0;
  vm_end = 0;
  sbrk = 0;
  vm_freerg_list = record { rg_start = 0; rg_end = 0 } ∷ [];
})
unfolding init_mm init_vm_rg enlist_vm_rg_node covers inside
init_mm-IsSeparate = record {
  one = record { only = refl; numbered = refl };
  apart = λ a. ground (arith, covers-replicate max_symtbl_sz a);
  entries = refl;
  live_low = All-replicate max_symtbl_sz;
  free_low = ((omega arith, omega arith), tt);
  brk_low = omega arith;
}
