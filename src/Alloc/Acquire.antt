-- ===== src/Alloc/Acquire.antt =====
-- src/libmem.c: __alloc takes addresses that nobody has.
use hdh.Base.{ℕ, ◌+◌, ◌/◌, ◌^◌, ◌<◌, ◌≡◌, refl, ap, Option, some, [], ◌∷◌, get_elem?, set, arith}
use hdh.Base.Word.{u64, u32, through_int, through_int-small}
use hdh.Queue.{Ptr}
use hdh.Mm.{Mm, Vma, Region, max_symtbl_sz}
use hdh.PageTable.{paging64_pagesz}
use hdh.Kernel.{Kernel, Pcb}
use hdh.Vm.Growth.{get_vma_by_num-OneArea}
use hdh.Syscall.Caller.{IsQueued, IsLive}
use hdh.Syscall.Growth.{syscall-Kept}
use hdh.Alloc.{get_free_vmrg_area, alloc_at_top, alloc}
use hdh.Alloc.Separate.{
  IsSeparate, Searched, Allocated, get_free_vmrg_area-Searched, set_symrg_lem, from_list, from_top,
}

at_top :
    (k : Kernel) (v : Vma) (caller : Ptr) (pcb : Pcb) (rgid size : ℕ)
    → IsSeparate k.mm v
    → ((p : Ptr) → IsQueued k.sched p → IsLive k.procs p)
    → k.procs caller ≡ some pcb
    → rgid < max_symtbl_sz
    → v.sbrk + size < 2 ^ 31
    → (k' : Kernel) × (alloc_at_top k caller 0 0 rgid size ≡ some (v.sbrk, k'))
      × Allocated rgid size v.sbrk k'.mm
      × (k'.procs ≡ k.procs)
unfolding alloc_at_top
at_top k v caller pcb rgid size sep live e h small =
    let pages = through_int (u32 (size / paging64_pagesz) + 1) in
    let positive : 0 < pages = ground arith in
    let (k', st, called, kept) = syscall-Kept k v pcb.pid pages sep.one live positive in
    let top : u64 (v.sbrk + size) ≡ v.sbrk + size = omega arith in
    let new : Region = record { rg_start = v.sbrk; rg_end = v.sbrk + size } in
    let grown : Vma = record v { vm_end = kept.end; sbrk = v.sbrk + size } in
    (
      record k' { mm = record k'.mm { mmap = grown ∷ []; symrgtbl = set k.mm.symrgtbl rgid new } },
      rw
          (
            ap (λ l. get_elem? l 0) sep.one.only,
            through_int-small v.sbrk sep.brk_low,
            e,
            called,
            top,
            set_symrg_lem k'.mm rgid new h,
            ap (λ l. get_elem? l 0) kept.areas,
            ap (λ l. set l 0 grown) kept.areas,
          )
          (ap
            (λ t. some (
              v.sbrk,
              record k' { mm = record k'.mm { mmap = grown ∷ []; symrgtbl = set t rgid new } },
            ))
            kept.symbols),
      from_top k.mm k'.mm v kept.end rgid size sep h small kept.symbols,
      kept.heap,
    )

after_search :
    (k : Kernel) (v : Vma) (caller : Ptr) (pcb : Pcb) (rgid size : ℕ) (r : Option Region × Mm)
    → IsSeparate k.mm v
    → ((p : Ptr) → IsQueued k.sched p → IsLive k.procs p)
    → k.procs caller ≡ some pcb
    → rgid < max_symtbl_sz
    → v.sbrk + size < 2 ^ 31
    → get_free_vmrg_area k.mm 0 size ≡ some r
    → Searched k.mm v size r
    → (addr : ℕ) × (k' : Kernel) × (alloc k caller 0 rgid size ≡ some (addr, k'))
      × Allocated rgid size addr k'.mm
      × (k'.procs ≡ k.procs)
unfolding alloc
after_search k v caller pcb rgid size _ sep live e h small searched Searched.nothing =
    let sep' : IsSeparate (record k.mm { mmap = v ∷ [] }) v = record {
      one = record { only = refl; numbered = sep.one.numbered };
      apart = sep.apart;
      entries = sep.entries;
      live_low = sep.live_low;
      free_low = sep.free_low;
      brk_low = sep.brk_low;
    } in
    let (k', run, allocated, heap) =
      at_top (record k { mm = record k.mm { mmap = v ∷ [] } }) v caller pcb rgid size sep' live e h
        small in
    (v.sbrk, k', rw (get_vma_by_num-OneArea k.mm v sep.one, searched) run, allocated, heap)
after_search k v caller pcb rgid size _ sep live e h small searched (Searched.found new left c) = (
  new.rg_start,
  record k {
    mm = record k.mm {
      mmap = record v { vm_freerg_list = left } ∷ [];
      symrgtbl = set k.mm.symrgtbl rgid new;
    };
  },
  rw (get_vma_by_num-OneArea k.mm v sep.one, searched, set_symrg_lem _ rgid new h) refl,
  from_list k.mm v rgid size new left sep h (omega arith) c,
  refl,
)

-- Let the one area be separate, no queued process be freed, the caller be live, the entry be one
-- of the table, and the break plus the size stay below 2 ^ 31 (`old_sbrk` is an `int`). Then
-- __alloc returns, the entry has a region of exactly `size` addresses that starts at the address
-- returned, the area is separate again, and no process changes.
pub alloc-Allocated :
    (k : Kernel) (v : Vma) (caller : Ptr) (pcb : Pcb) (rgid size : ℕ)
    → IsSeparate k.mm v
    → ((p : Ptr) → IsQueued k.sched p → IsLive k.procs p)
    → k.procs caller ≡ some pcb
    → rgid < max_symtbl_sz
    → v.sbrk + size < 2 ^ 31
    → (addr : ℕ) × (k' : Kernel) × (alloc k caller 0 rgid size ≡ some (addr, k'))
      × Allocated rgid size addr k'.mm
      × (k'.procs ≡ k.procs)
alloc-Allocated k v caller pcb rgid size sep live e h small =
    let (r, searched, s) = get_free_vmrg_area-Searched k.mm v size sep (omega arith) in
    after_search k v caller pcb rgid size r sep live e h small searched s
