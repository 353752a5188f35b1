-- ===== src/Cpu/Apart/Acquire.antt =====
-- src/libmem.c: liballoc, wherever it returns, keeps the regions apart.
use mathlib.Core.Option.{some_inj}
use mathlib.Core.Path.{subst}
use hdh.Base.{
  ℕ, ◌+◌, ◌/◌, ◌^◌, ◌<◌, ◌≡◌, refl, sym, ap, ◌∙◌, Option, none, some, ◌>>=◌, >>=-eq-some, Status,
  List, [], ◌∷◌, get_elem?, set, arith,
}
use hdh.Base.Word.{u32, u64, through_int, through_int-small}
use hdh.Queue.{Ptr}
use hdh.Mm.{Mm, Vma, Region, max_symtbl_sz}
use hdh.PageTable.{paging64_pagesz}
use hdh.Kernel.{Kernel}
use hdh.Vm.Growth.{get_vma_by_num-OneArea}
use hdh.Syscall.{Regs, syscall}
use hdh.Alloc.{set_symrg, alloc_at_top, alloc, set_reg, liballoc}
use hdh.Alloc.Regions.{Carved}
use hdh.Alloc.Separate.{IsSeparate, Searched, get_free_vmrg_area-Searched, from_list, from_top}
use hdh.Cpu.Areas.{SameRegions, syscall-SameRegions}
use hdh.Cpu.Apart.Area.{Separates, SameRegions-area, set_reg-Separates}

set_symrg-inside :
    (mm mm' : Mm) (rgid : ℕ) (rg : Region)
    → set_symrg mm rgid rg ≡ some mm'
    → (through_int rgid < max_symtbl_sz)
      × (mm' ≡ record mm { symrgtbl = set mm.symrgtbl (through_int rgid) rg })
unfolding set_symrg
set_symrg-inside mm mm' rgid rg e = ground arith

top_state :
    (mm mm' : Mm) (w grown : Vma) (t : List Region) (brk : ℕ)
    → mm.mmap ≡ w ∷ []
    → mm' ≡ record mm { symrgtbl = t }
    → get_elem? mm'.mmap 0 ≡ some grown
    → record mm' { mmap = set mm'.mmap 0 (record grown { sbrk = brk }) }
      ≡ record mm { mmap = record w { sbrk = brk } ∷ []; symrgtbl = t }
top_state mm mm' w grown t brk only sets again =
    let areas : mm'.mmap ≡ w ∷ [] = ap (λ (m : Mm). m.mmap) sets ∙ only in
    let same : w ≡ grown = some_inj.0 (rw areas at again) in rw (areas, sets, sym same) refl

abbrev first_break : List Vma → ℕ
first_break [] = 0
first_break (v ∷ vs) = v.sbrk

top_moves :
    (k k' : Kernel) (v grown : Vma) (mm' : Mm) (rgid size : ℕ) (r : ℕ × Kernel)
    → IsSeparate k.mm v
    → v.sbrk + size < 2 ^ 31
    → SameRegions k k'
    → set_symrg k'.mm rgid (record { rg_start = v.sbrk; rg_end = v.sbrk + size }) ≡ some mm'
    → get_elem? mm'.mmap 0 ≡ some grown
    → some (
      v.sbrk,
      record k' {
        mm = record mm' { mmap = set mm'.mmap 0 (record grown { sbrk = v.sbrk + size }) };
      },
    )
      ≡ some r
    → Separates (v.sbrk + size) r.1
top_moves k k' v grown mm' rgid size r sep small same sets again is =
    let (end, only) = SameRegions-area k k' v sep.one.only same in
    let (in_table, stored) = set_symrg-inside k'.mm mm' rgid _ sets in
    let allocated = from_top k.mm k'.mm v end (through_int rgid) size sep in_table small same.1 in
    let state =
      top_state k'.mm mm' (record v { vm_end = end }) grown _ (v.sbrk + size) only stored again in
    let symbols =
      ap (λ t. set t (through_int rgid) (record { rg_start = v.sbrk; rg_end = v.sbrk + size }))
        same.1 in
    subst (λ (x : ℕ × Kernel). Separates (v.sbrk + size) x.1) (some_inj.0 is)
      (
        allocated.area,
        subst (λ m. IsSeparate m allocated.area) (sym (state ∙ rw symbols refl)) allocated.separate,
        omega (arith, ap first_break allocated.separate.one.only),
      )

at_top-Separates :
    (k : Kernel) (v : Vma) (caller : Ptr) (rgid size : ℕ) (r : ℕ × Kernel)
    → IsSeparate k.mm v
    → v.sbrk + size < 2 ^ 31
    → alloc_at_top k caller 0 0 rgid size ≡ some r
    → Separates (v.sbrk + size) r.1
unfolding alloc_at_top
at_top-Separates k v caller rgid size r sep small e =
    let top : u64 (v.sbrk + size) ≡ v.sbrk + size = omega arith in
    let pages : Regs = record {
      a1 = 2;
      a2 = 0;
      a3 = through_int (u32 (size / paging64_pagesz) + 1);
    } in
    let (pcb, _, e1) =
      >>=-eq-some (k.procs caller) _ (
        rw (ap (λ l. get_elem? l 0) sep.one.only, through_int-small v.sbrk sep.brk_low, top) at
          e) in
    let (called, calls, e2) = >>=-eq-some (syscall k pcb.pid 17 pages) _ e1 in
    let (mm', sets, e3) = >>=-eq-some (set_symrg called.2.mm rgid _) _ e2 in
    let (grown, again, is) = >>=-eq-some (get_elem? mm'.mmap 0) _ e3 in
    top_moves k called.2 v grown mm' rgid size r sep small
      (syscall-SameRegions k pcb.pid 17 pages called calls) sets again is

found_moves :
    (k : Kernel) (v : Vma) (rgid size : ℕ) (new : Region) (left : List Region) (mm' : Mm)
    → IsSeparate k.mm v
    → size < 2 ^ 31
    → Carved v.vm_freerg_list size new left
    → set_symrg (record k.mm { mmap = record v { vm_freerg_list = left } ∷ [] }) rgid new ≡ some mm'
    → Separates (v.sbrk + size) (record k { mm = mm' })
found_moves k v rgid size new left mm' sep small c sets =
    let (in_table, stored) = set_symrg-inside _ mm' rgid new sets in
    let allocated = from_list k.mm v (through_int rgid) size new left sep in_table small c in
    (
      allocated.area,
      subst (λ m. IsSeparate m allocated.area) (sym stored) allocated.separate,
      omega (arith, ap first_break allocated.separate.one.only),
    )

Searched-Separates :
    (k : Kernel) (v : Vma) (p : Ptr) (rgid size : ℕ) (area : Option Region × Mm) (r : ℕ × Kernel)
    → IsSeparate k.mm v
    → v.sbrk + size < 2 ^ 31
    → Searched k.mm v size area
    → elim area.0 [
      | some rgnode ↦
          set_symrg area.1 rgid rgnode >>= λ mm'. some (rgnode.rg_start, record k { mm = mm' })
      | none ↦ alloc_at_top (record k { mm = area.1 }) p 0 0 rgid size
    ]
      ≡ some r
    → Separates (v.sbrk + size) r.1
Searched-Separates k v p rgid size _ r sep small Searched.nothing e =
    at_top-Separates (record k { mm = record k.mm { mmap = v ∷ [] } }) v p rgid size r
      (subst (λ l. IsSeparate (record k.mm { mmap = l }) v) sep.one.only sep) small e
Searched-Separates k v p rgid size _ r sep small (Searched.found new left c) e =
    let (mm', sets, is) = >>=-eq-some (set_symrg _ rgid new) _ e in
    subst (λ (x : ℕ × Kernel). Separates (v.sbrk + size) x.1) (some_inj.0 is)
      (found_moves k v rgid size new left mm' sep (omega arith) c sets)

alloc-Separates :
    (k : Kernel) (v : Vma) (p : Ptr) (rgid size : ℕ) (r : ℕ × Kernel)
    → IsSeparate k.mm v
    → v.sbrk + size < 2 ^ 31
    → alloc k p 0 rgid size ≡ some r
    → Separates (v.sbrk + size) r.1
unfolding alloc
alloc-Separates k v p rgid size r sep small e =
    let (area, searched, s) = get_free_vmrg_area-Searched k.mm v size sep (omega arith) in
    Searched-Separates k v p rgid size area r sep small s
      (rw (get_vma_by_num-OneArea k.mm v sep.one, searched) at e)

pub liballoc-Separates :
    (k : Kernel) (v : Vma) (p : Ptr) (size reg : ℕ) (r : Status × Kernel)
    → IsSeparate k.mm v
    → v.sbrk + size < 2 ^ 31
    → liballoc k p size reg ≡ some r
    → Separates (v.sbrk + size) r.1
unfolding liballoc
liballoc-Separates k v p size reg r sep small e =
    let (a, allocs, more) = >>=-eq-some (alloc k p 0 reg size) _ e in
    let (k2, sets, is) = >>=-eq-some (set_reg a.1 p reg a.0) _ more in
    subst (λ (x : Status × Kernel). Separates (v.sbrk + size) x.1) (some_inj.0 is)
      (set_reg-Separates a.1 k2 p reg a.0 (v.sbrk + size)
        (alloc-Separates k v p reg size a sep small allocs) sets)
