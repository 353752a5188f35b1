-- ===== src/Mm.antt =====
-- include/os-mm.h, and the parts of src/mm64.c, src/mm-vm.c and src/libmem.c that build and search
-- its lists: memory areas, their regions, and the list of pages in use. A linked list is a list;
-- what an uninitialised pointer denotes is an argument.
pub mod Lookup
use hdh.Base.{
  ℕ, zero, suc, ◌+◌, ◌^◌, ◌==◌, ltb, leb, if◌then◌else◌, Bool, Option, none, some, Status, ok,
  failed, List, [], ◌∷◌, replicate, get_elem?,
}
use hdh.Base.Word.{u64, through_int}

-- The slots of a page-table page: 512 of them, a NULL pointer being `none`.
abbrev pub Pt : Type 0
Pt = ℕ → ℕ

abbrev pub Pmd : Type 0
Pmd = ℕ → Option Pt

abbrev pub Pud : Type 0
Pud = ℕ → Option Pmd

abbrev pub P4d : Type 0
P4d = ℕ → Option Pud

abbrev pub Pgd : Type 0
Pgd = ℕ → Option P4d

-- `struct vm_rg_struct`: the addresses from `rg_start` up to `rg_end`, which is exclusive.
pub record Region : Type 0 where
  pub rg_start : ℕ
  pub rg_end : ℕ

-- `struct vm_area_struct`.
pub record Vma : Type 0 where
  pub vm_id : ℕ
  pub vm_start : ℕ
  pub vm_end : ℕ
  pub sbrk : ℕ
  pub vm_freerg_list : List Region

-- `struct mm_struct`; its `p4d`, `pud`, `pmd` and `pt` stay NULL and are not read.
pub record Mm : Type 0 where
  pub pgd : Pgd
  pub mmap : List Vma
  pub symrgtbl : List Region
  pub fifo_pgn : List ℕ

abbrev pub max_symtbl_sz : ℕ
max_symtbl_sz = 30

unfoldable pub init_vm_rg : ℕ → ℕ → Region
init_vm_rg rg_start rg_end = record { rg_start = rg_start; rg_end = rg_end }

unfoldable pub enlist_vm_rg_node : List Region → Region → List Region
enlist_vm_rg_node rglist rgnode = rgnode ∷ rglist

unfoldable pub enlist_pgn_node : List ℕ → ℕ → List ℕ
enlist_pgn_node plist pgn = pgn ∷ plist

-- `junk` is what the `vm_freerg_list` of the freshly allocated area points to: nobody sets it
-- before the first region is put in front of it.
unfoldable pub init_mm : List Region → Mm
unfolding init_vm_rg enlist_vm_rg_node
init_mm junk = record {
  pgd = λ _. none;
  mmap =
      record {
        vm_id = 0;
        vm_start = 0;
        vm_end = 0;
        sbrk = 0;
        vm_freerg_list = enlist_vm_rg_node junk (init_vm_rg 0 0);
      }
      ∷ [];
  symrgtbl = replicate max_symtbl_sz (record { rg_start = 0; rg_end = 0 });
  fifo_pgn = [];
}

-- `a < b` of two `int`s, given as numbers whose low 32 bits they are.
abbrev pub int_ltb : ℕ → ℕ → Bool
int_ltb a b = ltb (u64 (through_int a + 2 ^ 63)) (u64 (through_int b + 2 ^ 63))

-- The `while` of get_vma_by_num, `at` areas into the list. It reads `pvma->vm_id` of the next area
-- before it looks whether there is one: the outer `none`. The result is the area's place.
unfoldable pub vma_from : List Vma → ℕ → ℕ → Option (Option ℕ)
vma_from [] at vmaid = none
vma_from (v ∷ vs) at vmaid =
    let rest = vma_from vs (at + 1) vmaid in if int_ltb v.vm_id vmaid then rest else some (some at)

unfoldable pub get_vma_by_num : Mm → ℕ → Option (Option ℕ)
unfolding vma_from
get_vma_by_num mm vmaid = elim mm.mmap [ [] ↦ some none | v ∷ vs ↦ vma_from (v ∷ vs) 0 vmaid ]

-- The inner `none` is NULL. `rgid` is an `int`; for `rgid` = PAGING_MAX_SYMTBL_SZ the code returns
-- the address behind the table, and reading there is the fault.
unfoldable pub get_symrg_byid : Mm → ℕ → Option ℕ
get_symrg_byid mm rgid =
    if int_ltb rgid 0
    then none
    else if int_ltb max_symtbl_sz rgid
    then none
    else some (through_int rgid)

-- A region of positive length is put in front of the free list of the first area.
unfoldable pub enlist_vm_freerg_list : Mm → Region → Option (Status × Mm)
enlist_vm_freerg_list mm rg_elmt = elim mm.mmap [
  | [] ↦ none
  | v ∷ vs ↦
      if leb rg_elmt.rg_end rg_elmt.rg_start
      then some (failed, mm)
      else some
          (ok, record mm { mmap = record v { vm_freerg_list = rg_elmt ∷ v.vm_freerg_list } ∷ vs })
]

-- find_victim_page takes the last node of the list: the page enlisted first.
unfoldable pub last_page : ℕ → List ℕ → ℕ × List ℕ
last_page pg [] = (pg, [])
last_page pg (next ∷ rest) = let (victim, others) = last_page next rest in (victim, pg ∷ others)

unfoldable pub find_victim_page : Mm → Option ℕ × Mm
unfolding last_page
find_victim_page mm = elim mm.fifo_pgn [
  | [] ↦ (none, mm)
  | pg ∷ rest ↦ (some (last_page pg rest).0, record mm { fifo_pgn = (last_page pg rest).1 })
]
