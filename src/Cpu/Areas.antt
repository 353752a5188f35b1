-- ===== src/Cpu/Areas.antt =====
-- src/cpu.c and what it calls: system calls and accesses move at most the end of an area. Its
-- break, its free regions and the table of symbols stay as they are.
use mathlib.Core.Option.{some_inj}
use hdh.Base.{
  ℕ, zero, suc, ◌+◌, ◌≡◌, refl, sym, ap, Option, some, Status, List, [], ◌∷◌, get_elem?, set, arith,
}
use hdh.Queue.{Ptr}
use hdh.Memphy.{get_freefp}
use hdh.Mm.{Mm, Vma}
use hdh.Kernel.{Kernel}
use hdh.PageTable.{memset_from, vmap_pgd_memset, vmap_page_range, pte_set_fpn, pte_set_swap}
use hdh.Vm.{int_rounds, vm_map_ram, extend_area, inc_vma_limit, mm_swap_page}
use hdh.Vm.Growth.{map_from-KeepsAreas}
use hdh.Syscall.{Regs, syscall}
use hdh.Access.{frame_of, evict, pg_getpage, pg_getval, pg_setval, read, write, libread, libwrite}
use hdh.Cpu.Calls.{syscall-each}
use hdh.Mm.{find_victim_page}

-- The areas without their ends.
unfoldable pub open_ended : List Vma → List Vma
open_ended [] = []
open_ended (v ∷ vs) = record v { vm_end = 0 } ∷ open_ended vs

abbrev pub SameRegions : Kernel → Kernel → Type 0
SameRegions k k' = (open_ended k'.mm.mmap ≡ open_ended k.mm.mmap) × (k'.mm.symrgtbl ≡ k.mm.symrgtbl)

open_ended-set :
    (l : List Vma) (i : ℕ) (v : Vma) (end : ℕ)
    → get_elem? l i ≡ some v
    → open_ended (set l i (record v { vm_end = end })) ≡ open_ended l
unfolding open_ended
open_ended-set [] i v end e = refl
open_ended-set (x ∷ l) zero v end e =
    ap (λ (y : Vma). record y { vm_end = 0 } ∷ open_ended l) (sym (some_inj.0 e))
open_ended-set (x ∷ l) (suc i) v end e =
    ap (◌∷◌ (record x { vm_end = 0 })) (open_ended-set l i v end e)

vmap_page_range-SameRegions :
    (mm : Mm) (a n : ℕ) (frames : List ℕ)
    → ((vmap_page_range mm a n frames).1.mmap ≡ mm.mmap)
      × ((vmap_page_range mm a n frames).1.symrgtbl ≡ mm.symrgtbl)
unfolding vmap_page_range
vmap_page_range-SameRegions mm a n frames =
    let kept = map_from-KeepsAreas n 0 a mm frames in (kept.same_areas, kept.same_symbols)

vm_map_ram-SameRegions :
    (k : Kernel) (a n : ℕ)
    → ((vm_map_ram k a n).1.mm.mmap ≡ k.mm.mmap)
      × ((vm_map_ram k a n).1.mm.symrgtbl ≡ k.mm.symrgtbl)
unfolding vm_map_ram
vm_map_ram-SameRegions k a n = grind (arith, vmap_page_range-SameRegions)

extend_area-SameRegions :
    (k : Kernel) (at : ℕ) (v : Vma) (id sz : ℕ)
    → get_elem? k.mm.mmap at ≡ some v
    → SameRegions k (extend_area k at v id sz).1
unfolding extend_area
extend_area-SameRegions k at v id sz e = grind (arith, vm_map_ram-SameRegions, open_ended-set)

inc_vma_limit-SameRegions :
    (k : Kernel) (id sz : ℕ) (r : Status × Kernel)
    → inc_vma_limit k id sz ≡ some r
    → SameRegions k r.1
unfolding inc_vma_limit
inc_vma_limit-SameRegions k id sz r e = grind (arith, extend_area-SameRegions)

memset-SameRegions :
    (n it addr : ℕ) (mm : Mm)
    → ((memset_from mm addr n it).mmap ≡ mm.mmap)
      × ((memset_from mm addr n it).symrgtbl ≡ mm.symrgtbl)
unfolding memset_from
memset-SameRegions zero it addr mm = (refl, refl)
memset-SameRegions (suc n) it addr mm = memset-SameRegions n (it + 1) addr _

mm_swap_page-SameRegions :
    (k : Kernel) (a b : ℕ) (r : Status × Kernel) → mm_swap_page k a b ≡ some r → SameRegions k r.1
unfolding mm_swap_page
mm_swap_page-SameRegions k a b r e = ground arith

evict-SameRegions :
    (k k' : Kernel) (a b c : ℕ) (r : Option ℕ) → evict k a b c ≡ some (r, k') → SameRegions k k'
unfolding evict frame_of pte_set_swap pte_set_fpn
evict-SameRegions k k' a b c r e = ground arith

find_victim_page-SameRegions :
    (mm : Mm)
    → ((find_victim_page mm).1.mmap ≡ mm.mmap) × ((find_victim_page mm).1.symrgtbl ≡ mm.symrgtbl)
unfolding find_victim_page
find_victim_page-SameRegions mm = ground arith

vmap_pgd_memset-SameRegions :
    (k : Kernel) (a n : ℕ) → SameRegions k (record k { mm = vmap_pgd_memset k.mm a n })
unfolding vmap_pgd_memset
vmap_pgd_memset-SameRegions k a n =
    let (areas, symbols) = memset-SameRegions n 0 a k.mm in (ap open_ended areas, symbols)

pub syscall-SameRegions :
    (k : Kernel) (pid nr : ℕ) (r : Regs) (m : Status × Regs × Kernel)
    → syscall k pid nr r ≡ some m
    → SameRegions k m.2
syscall-SameRegions k pid nr r m e =
    syscall-each (SameRegions k) k r pid nr m (λ m. (refl, refl))
      (vmap_pgd_memset-SameRegions k r.a2 (int_rounds r.a3)) (inc_vma_limit-SameRegions k r.a2 r.a3)
      (mm_swap_page-SameRegions k r.a2 r.a3) e

pg_getpage-SameRegions :
    (k k' : Kernel) (pgn : ℕ) (r : Option ℕ) → pg_getpage k pgn ≡ some (r, k') → SameRegions k k'
unfolding pg_getpage frame_of
pg_getpage-SameRegions k k' pgn r e =
    let found = find_victim_page-SameRegions k.mm in
    let after : Kernel = record k {
      mm = (find_victim_page k.mm).1;
      active_mswp = (get_freefp k.active_mswp).1;
    } in
    let evicts = λ (v f : ℕ). evict-SameRegions after k' pgn v f r in
    let areas = ap open_ended found.0 in grind (arith, evicts)

pg_getval-SameRegions :
    (k k' : Kernel) (a : ℕ) (r : Option ℕ) → pg_getval k a ≡ some (r, k') → SameRegions k k'
unfolding pg_getval
pg_getval-SameRegions k k' a r e = grind (arith, pg_getpage-SameRegions)

pg_setval-SameRegions :
    (k k' : Kernel) (a b : ℕ) (s : Status) → pg_setval k a b ≡ some (s, k') → SameRegions k k'
unfolding pg_setval
pg_setval-SameRegions k k' a b s e = grind (arith, pg_getpage-SameRegions)

pub read-SameRegions :
    (k k' : Kernel) (p : Ptr) (a b : ℕ) (r : Option ℕ)
    → libread k p a b ≡ some (r, k')
    → SameRegions k k'
unfolding libread read
read-SameRegions k k' p a b r e = grind (arith, pg_getval-SameRegions)

pub write-SameRegions :
    (k k' : Kernel) (p : Ptr) (a b c : ℕ) (s : Status)
    → libwrite k p a b c ≡ some (s, k')
    → SameRegions k k'
unfolding libwrite write
write-SameRegions k k' p a b c s e = grind (arith, pg_setval-SameRegions)
