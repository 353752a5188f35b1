-- ===== src/Cpu/Disjoint.antt =====
-- src/cpu.c and src/libmem.c: the regions of all processes, over a whole run.
use mathlib.Core.Path.{subst}
use hdh.Base.{ℕ, ◌+◌, ◌^◌, ◌≤◌, ◌<◌, ◌≡◌, sym, some, get_elem?, Status, [], ◌∷◌, arith}
use hdh.Queue.{Ptr}
use hdh.Mm.{Vma, Region, init_mm}
use hdh.Kernel.{Kernel, Pcb, Inst}
use hdh.Alloc.Regions.{inside}
use hdh.Alloc.Separate.{IsSeparate}
use hdh.Alloc.Start.{IsSeparate-disjoint, init_mm-IsSeparate}
use hdh.Cpu.{run}
use hdh.Cpu.Apart.{asked, run-IsSeparate}

-- Instructions of any processes, in any order, that ask for `n` bytes in all. In between anything
-- may happen that leaves the memory description: the scheduler moves processes, the loader brings
-- new ones and finished ones are freed.
pub data Executes : Kernel → ℕ → Kernel → Type 0 where
  stops : {k : Kernel} → Executes k 0 k
  runs :
      {k k' : Kernel} {n : ℕ} (p : Ptr) (pcb : Pcb) (ins : Inst) (r : Status × Kernel)
      → k.procs p ≡ some pcb
      → get_elem? pcb.code pcb.pc ≡ some ins
      → run k p ≡ some r
      → Executes r.1 n k'
      → Executes k (asked ins.opcode ins.arg_0 + n) k'
  elsewhere : {k k1 k' : Kernel} {n : ℕ} → k1.mm ≡ k.mm → Executes k1 n k' → Executes k n k'

pub Executes-append :
    {k k1 k' : Kernel} {n m : ℕ} → Executes k n k1 → Executes k1 m k' → Executes k (n + m) k'
Executes-append {k} {k1} {k'} {n} {m} stops rest = subst (λ x. Executes k x k') (omega arith) rest
Executes-append {k} {k1} {k'} {n} {m} (runs p pcb ins r live at_pc e others) rest =
    subst (λ x. Executes k x k') (omega arith)
      (runs p pcb ins r live at_pc e (Executes-append others rest))
Executes-append (elsewhere same others) rest = elsewhere same (Executes-append others rest)

Executes-IsSeparate :
    {k k' : Kernel} {n : ℕ} (v : Vma)
    → Executes k n k'
    → IsSeparate k.mm v
    → v.sbrk + n < 2 ^ 31
    → (v' : Vma) × IsSeparate k'.mm v'
Executes-IsSeparate v stops sep small = (v, sep)
Executes-IsSeparate v (runs {k} {k'} {n} p pcb ins r live at_pc e rest) sep small =
    let (w, sep', low) = run-IsSeparate k v p pcb ins r sep live at_pc (omega arith) e in
    Executes-IsSeparate w rest sep' (omega arith)
Executes-IsSeparate v (elsewhere same rest) sep small =
    Executes-IsSeparate v rest (subst (λ m. IsSeparate m v) (sym same) sep) small

-- The area that init_mm makes.
abbrev first_area : Vma
first_area = record {
  vm_id = 0;
  vm_start = 0;
  vm_end = 0;
  sbrk = 0;
  vm_freerg_list = record { rg_start = 0; rg_end = 0 } ∷ [];
}

-- Let the program start with the memory that init_mm makes, where the uninitialised pointer of the
-- area is the empty list, and let its instructions ask for less than 2 ^ 31 bytes in all. As long as
-- no instruction faults, no address ever belongs to the regions of two entries of the table.
pub Executes-disjoint :
    (k k' : Kernel) (n i j : ℕ) (r s : Region) (a : ℕ)
    → k.mm ≡ init_mm []
    → Executes k n k'
    → n < 2 ^ 31
    → i < j
    → get_elem? k'.mm.symrgtbl i ≡ some r
    → get_elem? k'.mm.symrgtbl j ≡ some s
    → inside r a + inside s a ≤ 1
Executes-disjoint k k' n i j r s a start steps small lt e f =
    let (v, sep) =
      Executes-IsSeparate first_area steps
        (subst (λ m. IsSeparate m first_area) (sym start) init_mm-IsSeparate) (omega arith) in
    IsSeparate-disjoint k'.mm v i j r s a sep lt e f
