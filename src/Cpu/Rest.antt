-- ===== src/Cpu/Rest.antt =====
-- src/cpu.c and what it calls: an instruction leaves the queues of the scheduler and the heap of
-- processes as they are, but for the process that runs it.
use hdh.Base.{ℕ, ◌≡◌, refl, Option, some, Status, arith}
use hdh.Queue.{Ptr}
use hdh.Mm.{Vma}
use hdh.Kernel.{Kernel}
use hdh.Vm.{vm_map_ram, extend_area, inc_vma_limit, mm_swap_page}
use hdh.Syscall.{Regs, syscall}
use hdh.Cpu.Calls.{syscall-each}
use hdh.Alloc.{alloc_at_top, alloc, free}
use hdh.Access.{frame_of, evict, pg_getpage, pg_getval, pg_setval, read, write, libread, libwrite}

-- The queues and the heap of processes are the same.
abbrev pub SameRest : Kernel → Kernel → Type 0
SameRest k k' = (k'.sched ≡ k.sched) × (k'.procs ≡ k.procs)

vm_map_ram-SameRest : (k : Kernel) (a n : ℕ) → SameRest k (vm_map_ram k a n).1
unfolding vm_map_ram
vm_map_ram-SameRest k a n = ground arith

extend_area-SameRest :
    (k : Kernel) (at : ℕ) (v : Vma) (id sz : ℕ) → SameRest k (extend_area k at v id sz).1
unfolding extend_area
extend_area-SameRest k at v id sz = grind (arith, vm_map_ram-SameRest)

inc_vma_limit-SameRest :
    (k : Kernel) (id sz : ℕ) (r : Status × Kernel) → inc_vma_limit k id sz ≡ some r → SameRest k r.1
unfolding inc_vma_limit
inc_vma_limit-SameRest k id sz r e = grind (arith, extend_area-SameRest)

mm_swap_page-SameRest :
    (k : Kernel) (a b : ℕ) (r : Status × Kernel) → mm_swap_page k a b ≡ some r → SameRest k r.1
unfolding mm_swap_page
mm_swap_page-SameRest k a b r e = ground arith

pub syscall-SameRest :
    (k : Kernel) (pid nr : ℕ) (r : Regs) (m : Status × Regs × Kernel)
    → syscall k pid nr r ≡ some m
    → SameRest k m.2
syscall-SameRest k pid nr r m e =
    syscall-each (SameRest k) k r pid nr m (λ m. (refl, refl)) (refl, refl)
      (inc_vma_limit-SameRest k r.a2 r.a3) (mm_swap_page-SameRest k r.a2 r.a3) e

alloc_at_top-SameRest :
    (k k' : Kernel) (p : Ptr) (id at rg size a : ℕ)
    → alloc_at_top k p id at rg size ≡ some (a, k')
    → SameRest k k'
unfolding alloc_at_top
alloc_at_top-SameRest k k' p id at rg size a e = grind (arith, syscall-SameRest)

pub alloc-SameRest :
    (k k' : Kernel) (p : Ptr) (id rg size a : ℕ)
    → alloc k p id rg size ≡ some (a, k')
    → SameRest k k'
unfolding alloc
alloc-SameRest k k' p id rg size a e = grind (arith, alloc_at_top-SameRest)

pub free-SameRest :
    (k k' : Kernel) (id rg : ℕ) (s : Status) → free k id rg ≡ some (s, k') → SameRest k k'
unfolding free
free-SameRest k k' id rg s e = ground arith

evict-SameRest :
    (k k' : Kernel) (a b c : ℕ) (r : Option ℕ) → evict k a b c ≡ some (r, k') → SameRest k k'
unfolding evict frame_of
evict-SameRest k k' a b c r e = ground arith

pg_getpage-SameRest :
    (k k' : Kernel) (pgn : ℕ) (r : Option ℕ) → pg_getpage k pgn ≡ some (r, k') → SameRest k k'
unfolding pg_getpage frame_of
pg_getpage-SameRest k k' pgn r e = grind (arith, evict-SameRest)

pg_getval-SameRest :
    (k k' : Kernel) (a : ℕ) (r : Option ℕ) → pg_getval k a ≡ some (r, k') → SameRest k k'
unfolding pg_getval
pg_getval-SameRest k k' a r e = grind (arith, pg_getpage-SameRest)

pg_setval-SameRest :
    (k k' : Kernel) (a b : ℕ) (s : Status) → pg_setval k a b ≡ some (s, k') → SameRest k k'
unfolding pg_setval
pg_setval-SameRest k k' a b s e = grind (arith, pg_getpage-SameRest)

pub read-SameRest :
    (k k' : Kernel) (p : Ptr) (a b : ℕ) (r : Option ℕ)
    → libread k p a b ≡ some (r, k')
    → SameRest k k'
unfolding libread read
read-SameRest k k' p a b r e = grind (arith, pg_getval-SameRest)

pub write-SameRest :
    (k k' : Kernel) (p : Ptr) (a b c : ℕ) (s : Status)
    → libwrite k p a b c ≡ some (s, k')
    → SameRest k k'
unfolding libwrite write
write-SameRest k k' p a b c s e = grind (arith, pg_setval-SameRest)
