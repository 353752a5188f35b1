-- ===== src/Alloc.antt =====
-- src/libmem.c: allocation and release of regions. A region belongs to an entry of the table of
-- symbols, and free regions are on the list of their area. Each operation runs under `mmvm_lock`
-- and is one step. `none` is undefined behaviour: no such area, or an entry outside the table.
pub mod Regions
pub mod Separate
pub mod Start
pub mod Acquire
pub mod Release
pub mod Collect
use hdh.Base.{
  ℕ, ◌+◌, ◌-◌, ◌/◌, ◌^◌, ◌==◌, ltb, leb, if◌then◌else◌, ◌||◌, Option, none, some, ◌>>=◌, ◌>>◌,
  check, Status, ok, failed, List, [], ◌∷◌, get_elem?, set, update,
}
use hdh.Base.Word.{u32, u64, through_int}
use hdh.Queue.{Ptr}
use hdh.Mm.{
  Mm, Region, max_symtbl_sz, int_ltb, get_vma_by_num, get_symrg_byid, enlist_vm_freerg_list,
}
use hdh.PageTable.{paging64_pagesz}
use hdh.Kernel.{Kernel}
use hdh.Vm.{minus_one}
use hdh.Syscall.{syscall}

-- `newrg` before the loop of get_free_vmrg_area.
abbrev pub no_region : Region
no_region = record { rg_start = minus_one; rg_end = minus_one }

-- What is left of a region that has room for `size`, in front of the regions behind it.
unfoldable pub shrink : Region → ℕ → List Region → List Region
shrink rgit size rest =
    if ltb (u64 (rgit.rg_start + size)) rgit.rg_end
    then record rgit { rg_start = u64 (rgit.rg_start + size) } ∷ rest
    else elim rest [
      | [] ↦ record rgit { rg_start = rgit.rg_end } ∷ []
      | next ∷ others ↦ next ∷ others
    ]

-- The loop of get_free_vmrg_area: `newrg`, and the list.
unfoldable pub carve : List Region → ℕ → Region × List Region
unfolding shrink
carve [] size = (no_region, [])
carve (rgit ∷ rest) size =
    let (newrg, others) = carve rest size in
    if leb (u64 (rgit.rg_start + size)) rgit.rg_end
    then (
      record { rg_start = rgit.rg_start; rg_end = u64 (rgit.rg_start + size) },
      shrink rgit size rest,
    )
    else (newrg, rgit ∷ others)

-- The inner `none` is the result -1. `size` is an `int`.
unfoldable pub get_free_vmrg_area : Mm → ℕ → ℕ → Option (Option Region × Mm)
unfolding carve
get_free_vmrg_area mm vmaid size = get_vma_by_num mm vmaid >>= λ found. elim found [
  | none ↦ none
  | some at ↦ get_elem? mm.mmap at >>= λ v. elim v.vm_freerg_list [
    | [] ↦ some (none, mm)
    | rg ∷ rgs ↦
        let (newrg, left) = carve (rg ∷ rgs) (through_int size) in
        let mm' = record mm { mmap = set mm.mmap at (record v { vm_freerg_list = left }) } in
        some (if newrg.rg_start == minus_one then none else some newrg, mm')
  ]
]

-- An assignment to `symrgtbl[rgid]`.
unfoldable pub set_symrg : Mm → ℕ → Region → Option Mm
set_symrg mm rgid rg = do
  check (ltb (through_int rgid) max_symtbl_sz)
  some (record mm { symrgtbl = set mm.symrgtbl (through_int rgid) rg })

-- The part of __alloc that asks for more memory; `at` is the place of `cur_vma`. The result of the
-- system call is dropped.
unfoldable pub alloc_at_top : Kernel → Ptr → ℕ → ℕ → ℕ → ℕ → Option (ℕ × Kernel)
unfolding set_symrg
alloc_at_top k caller vmaid at rgid size = do
  v ← get_elem? k.mm.mmap at
  let old_sbrk = through_int v.sbrk
  pcb ← k.procs caller
  called ← syscall k pcb.pid 17 (record {
    a1 = 2;
    a2 = through_int vmaid;
    a3 = through_int (u32 (size / paging64_pagesz) + 1);
  })
  let k' = called.2
  mm' ← set_symrg k'.mm rgid (record { rg_start = old_sbrk; rg_end = u64 (old_sbrk + size) })
  grown ← get_elem? mm'.mmap at
  some (
    old_sbrk,
    record k' {
      mm = record mm' { mmap = set mm'.mmap at (record grown { sbrk = u64 (old_sbrk + size) }) };
    },
  )

-- __alloc, which returns 0 wherever it returns: the address and the state.
unfoldable pub alloc : Kernel → Ptr → ℕ → ℕ → ℕ → Option (ℕ × Kernel)
unfolding set_symrg
alloc k caller vmaid rgid size = do
  found ← get_vma_by_num k.mm vmaid
  at ← found
  area ← get_free_vmrg_area k.mm vmaid size
  elim area.0 [
    | some rgnode ↦
        set_symrg area.1 rgid rgnode >>= λ mm'. some (rgnode.rg_start, record k { mm = mm' })
    | none ↦ alloc_at_top (record k { mm = area.1 }) caller vmaid at rgid size
  ]

-- __free.
unfoldable pub free : Kernel → ℕ → ℕ → Option (Status × Kernel)
free k vmaid rgid = if (int_ltb rgid 0 || int_ltb max_symtbl_sz rgid) then some (failed, k) else (do
  i ← get_symrg_byid k.mm rgid
  rgnode ← get_elem? k.mm.symrgtbl i
  let cleared = set k.mm.symrgtbl i (record { rg_start = 0; rg_end = 0 })
  (if leb rgnode.rg_end rgnode.rg_start then some (failed, k) else (do
    listed ← enlist_vm_freerg_list (record k.mm { symrgtbl = cleared }) rgnode
    some (ok, record k { mm = listed.1 }))))

-- `proc->regs[reg_index] = value`, guarded by the number of registers.
unfoldable pub set_reg : Kernel → Ptr → ℕ → ℕ → Option Kernel
set_reg k proc reg_index value = k.procs proc >>= λ pcb. some (
    if ltb reg_index 10
    then record k {
      procs = update k.procs proc (some (record pcb { regs = set pcb.regs reg_index value }));
    }
    else k)

unfoldable pub liballoc : Kernel → Ptr → ℕ → ℕ → Option (Status × Kernel)
unfolding set_reg alloc
liballoc k proc size reg_index = do
  r ← alloc k proc 0 reg_index size
  k' ← set_reg r.1 proc reg_index r.0
  some (ok, k')

unfoldable pub libfree : Kernel → Ptr → ℕ → Option (Status × Kernel)
unfolding set_reg free
libfree k proc reg_index = do
  r ← free k 0 reg_index
  elim r.0 [
    | failed ↦ some (failed, r.1)
    | ok ↦ set_reg r.1 proc reg_index 0 >>= λ k'. some (ok, k')
  ]
