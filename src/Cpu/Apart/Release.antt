-- ===== src/Cpu/Apart/Release.antt =====
-- src/libmem.c: libfree, on every branch, keeps the regions apart.
use mathlib.Core.Option.{some_inj}
use mathlib.Core.Path.{subst}
use hdh.Base.{
  arith, ℕ, ◌≡◌, inl, inr, refl, leb, Bool-cases, if◌then◌else◌, false, Option-cases, none, some,
  ◌>>=◌, >>=-eq-some, Status, ok, failed, [], ◌∷◌, get_elem?, set,
}
use hdh.Base.Word.{through_int}
use hdh.Queue.{Ptr}
use hdh.Mm.{Mm, Vma, Region, int_ltb, max_symtbl_sz, get_symrg_byid, enlist_vm_freerg_list}
use hdh.Kernel.{Kernel}
use hdh.Alloc.{free, set_reg, libfree}
use hdh.Alloc.Separate.{IsSeparate}
use hdh.Alloc.Release.{give_back}
use hdh.Cpu.Apart.Area.{Separates, set_reg-Separates}

enlist_one :
    (mm : Mm) (v : Vma) (rg : Region)
    → mm.mmap ≡ v ∷ []
    → leb rg.rg_end rg.rg_start ≡ false
    → enlist_vm_freerg_list mm rg
      ≡ some (ok, record mm { mmap = record v { vm_freerg_list = rg ∷ v.vm_freerg_list } ∷ [] })
unfolding enlist_vm_freerg_list
enlist_one mm v rg only region = rw (only, region) refl

free_moves :
    (k : Kernel) (v : Vma) (i : ℕ) (rg : Region) (r : Status × Kernel)
    → IsSeparate k.mm v
    → get_elem? k.mm.symrgtbl i ≡ some rg
    → (if leb rg.rg_end rg.rg_start
        then some (failed, k)
        else (enlist_vm_freerg_list
              (record k.mm { symrgtbl = set k.mm.symrgtbl i (record { rg_start = 0; rg_end = 0 }) })
              rg
            >>= λ listed. some (ok, record k { mm = listed.1 })))
      ≡ some r
    → Separates v.sbrk r.1
free_moves k v i rg r sep at_i e = elim (Bool-cases (leb rg.rg_end rg.rg_start)) [
  | inl no_region ↦
      subst (λ (x : Status × Kernel). Separates v.sbrk x.1) (some_inj.0 (rw no_region at e))
        (v, sep, omega arith)
  | inr region ↦
      let none_left : Region = record { rg_start = 0; rg_end = 0 } in
      let cleared : Mm = record k.mm { symrgtbl = set k.mm.symrgtbl i none_left } in
      subst (λ (x : Status × Kernel). Separates v.sbrk x.1)
        (some_inj.0 (rw (region, enlist_one cleared v rg sep.one.only region) at e))
        (
          record v { vm_freerg_list = rg ∷ v.vm_freerg_list },
          give_back k.mm v i rg sep at_i,
          omega arith,
        )
]

free-Separates :
    (k : Kernel) (v : Vma) (rgid : ℕ) (r : Status × Kernel)
    → IsSeparate k.mm v
    → free k 0 rgid ≡ some r
    → Separates v.sbrk r.1
unfolding free get_symrg_byid
free-Separates k v rgid r sep e = elim (Bool-cases (int_ltb rgid 0)) [
  | inl below ↦
      subst (λ (x : Status × Kernel). Separates v.sbrk x.1) (some_inj.0 (rw below at e))
        (v, sep, omega arith)
  | inr not_below ↦ elim (Bool-cases (int_ltb max_symtbl_sz rgid)) [
    | inl above ↦
        subst (λ (x : Status × Kernel). Separates v.sbrk x.1)
          (some_inj.0 (rw (not_below, above) at e)) (v, sep, omega arith)
    | inr not_above ↦
        let (rg, at_i, e1) =
          >>=-eq-some (get_elem? k.mm.symrgtbl (through_int rgid)) _
            (rw (not_below, not_above) at e) in
        free_moves k v (through_int rgid) rg r sep at_i e1
  ]
]

pub libfree-Separates :
    (k : Kernel) (v : Vma) (p : Ptr) (reg : ℕ) (r : Status × Kernel)
    → IsSeparate k.mm v
    → libfree k p reg ≡ some r
    → Separates v.sbrk r.1
unfolding libfree
libfree-Separates k v p reg r sep e = elim (Option-cases (free k 0 reg)) [
  | inl fault ↦ let no_r : none ≡ some r = rw fault at e in absurd (cc)
  | inr ((failed, k1), frees) ↦
      subst (λ (x : Status × Kernel). Separates v.sbrk x.1) (some_inj.0 (rw frees at e))
        (free-Separates k v reg (failed, k1) sep frees)
  | inr ((ok, k1), frees) ↦
      let (k2, sets, is) = >>=-eq-some (set_reg k1 p reg 0) _ (rw frees at e) in
      subst (λ (x : Status × Kernel). Separates v.sbrk x.1) (some_inj.0 is)
        (set_reg-Separates k1 k2 p reg 0 v.sbrk (free-Separates k v reg (ok, k1) sep frees) sets)
]
