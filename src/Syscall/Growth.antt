-- ===== src/Syscall/Growth.antt =====
-- src/syscall.c and src/sys_mem.c: the call by which __alloc asks for more memory.
use hdh.Base.{ℕ, ◌<◌, ◌≡◌, refl, Option, none, some, Status, ok, failed}
use hdh.Queue.{Ptr}
use hdh.Mm.{Vma}
use hdh.Kernel.{Kernel}
use hdh.Vm.{inc_vma_limit}
use hdh.Vm.Growth.{OneArea}
use hdh.Vm.Keeps.{Kept, inc_vma_limit-Kept}
use hdh.Syscall.{Regs, find_caller, memop, sys_memmap, syscall}
use hdh.Syscall.Caller.{IsQueued, IsLive, find_caller-Answer}

abbrev pub inc_call : ℕ → Regs
inc_call inc_sz = record { a1 = 2; a2 = 0; a3 = inc_sz }

after_search :
    (k : Kernel) (v : Vma) (pid inc_sz : ℕ) (k' : Kernel) (r : Option Ptr)
    → find_caller k pid ≡ some r
    → inc_vma_limit k 0 inc_sz ≡ some (ok, k')
    → Kept k v k'
    → OneArea k.mm v
    → (k'' : Kernel) × (st : Status) × (syscall k pid 17 (inc_call inc_sz)
        ≡ some (st, inc_call inc_sz, k''))
      × Kept k v k''
unfolding syscall sys_memmap memop
after_search k v pid inc_sz k' none found grown kept one = (
  k,
  failed,
  rw (found, sys_memmap) refl,
  record { end = v.vm_end; areas = one.only; symbols = refl; heap = refl; queues = refl },
)
after_search k v pid inc_sz k' (some p) found grown kept one =
    (k', ok, rw (found, grown) refl, kept)

-- The system call never faults when no queued process has been freed: it moves the end of the
-- area, or it finds no caller and does nothing.
pub syscall-Kept :
    (k : Kernel) (v : Vma) (pid inc_sz : ℕ)
    → OneArea k.mm v
    → ((p : Ptr) → IsQueued k.sched p → IsLive k.procs p)
    → 0 < inc_sz
    → (k' : Kernel) × (st : Status) × (syscall k pid 17 (inc_call inc_sz)
        ≡ some (st, inc_call inc_sz, k'))
      × Kept k v k'
syscall-Kept k v pid inc_sz one live wanted =
    let (r, found, _) = find_caller-Answer k pid live in
    let (k', grown, kept) = inc_vma_limit-Kept k v inc_sz one wanted in
    after_search k v pid inc_sz k' r found grown kept one
