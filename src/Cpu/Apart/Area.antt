-- ===== src/Cpu/Apart/Area.antt =====
-- src/cpu.c: a step that keeps the break, the free regions and the table keeps the regions apart.
use mathlib.Core.Path.{subst}
use hdh.Base.{arith, ◌≤◌, ℕ, ◌≡◌, sym, ap, ◌∙◌, some, List, [], ◌∷◌, arith}
use hdh.Queue.{Ptr}
use hdh.Mm.{Vma}
use hdh.Kernel.{Kernel}
use hdh.Alloc.{set_reg}
use hdh.Alloc.Separate.{IsSeparate}
use hdh.Cpu.Areas.{open_ended, SameRegions}

-- The memory has a separate area, whose break is at most `brk`.
abbrev pub Separates : ℕ → Kernel → Type 0
Separates brk k = (v : Vma) × IsSeparate k.mm v × (v.sbrk ≤ brk)

open_ended-one :
    (l : List Vma) (v : Vma)
    → open_ended l ≡ record v { vm_end = 0 } ∷ []
    → (end : ℕ) × (l ≡ record v { vm_end = end } ∷ [])
unfolding open_ended
open_ended-one [] v e = absurd (cc)
open_ended-one (w ∷ []) v e =
    let same : record w { vm_end = 0 } ≡ record v { vm_end = 0 } = cc in
    (w.vm_end, ap (λ (x : Vma). record x { vm_end = w.vm_end } ∷ []) same)
open_ended-one (w ∷ x ∷ l) v e = absurd (cc)

pub SameRegions-area :
    (k k' : Kernel) (v : Vma)
    → k.mm.mmap ≡ v ∷ []
    → SameRegions k k'
    → (end : ℕ) × (k'.mm.mmap ≡ record v { vm_end = end } ∷ [])
unfolding open_ended
SameRegions-area k k' v only same = open_ended-one k'.mm.mmap v (same.0 ∙ ap open_ended only)

pub SameRegions-Separates :
    (k k' : Kernel) (v : Vma) → IsSeparate k.mm v → SameRegions k k' → Separates v.sbrk k'
SameRegions-Separates k k' v sep same =
    let (end, only) = SameRegions-area k k' v sep.one.only same in
    (
      record v { vm_end = end },
      record {
        one = record { only = only; numbered = sep.one.numbered };
        apart = λ a. rw same.1 (sep.apart a);
        entries = rw same.1 sep.entries;
        live_low = rw same.1 sep.live_low;
        free_low = sep.free_low;
        brk_low = sep.brk_low;
      },
      omega arith,
    )

set_reg-mm :
    (k k' : Kernel) (p : Ptr) (reg value : ℕ) → set_reg k p reg value ≡ some k' → k'.mm ≡ k.mm
unfolding set_reg
set_reg-mm k k' p reg value e = ground arith

pub set_reg-Separates :
    (k k' : Kernel) (p : Ptr) (reg value brk : ℕ)
    → Separates brk k
    → set_reg k p reg value ≡ some k'
    → Separates brk k'
set_reg-Separates k k' p reg value brk (v, sep, low) e =
    (v, subst (λ m. IsSeparate m v) (sym (set_reg-mm k k' p reg value e)) sep, low)
