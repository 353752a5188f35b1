-- ===== src/Access.antt =====
-- src/libmem.c: paging on demand, and the bytes that a program reads and writes. Each operation
-- runs under `mmvm_lock` and is one step. The outer `none` is undefined behaviour, the inner one
-- the result -1.
pub mod Paging
pub mod Bytes
use hdh.Base.{
  ℕ, ◌+◌, ◌-◌, ◌*◌, ◌^◌, ltb, leb, if◌then◌else◌, Option, none, some, ◌>>=◌, Status, ok, failed,
  get_elem?,
}
use hdh.Base.Word.{u64}
use hdh.Queue.{Ptr}
use hdh.Pte.{page_present, paging_fpn, paging_pgn, paging_offst}
use hdh.Memphy.{memphy_read, memphy_write, get_freefp, put_freefp}
use hdh.Mm.{Mm, Region, enlist_pgn_node, find_victim_page, get_vma_by_num, get_symrg_byid}
use hdh.PageTable.{pte_get_entry, pte_set_fpn, pte_set_swap}
use hdh.Kernel.{Kernel}
use hdh.Vm.{swap_cp_page}

-- The end of pg_getpage.
unfoldable pub frame_of : Kernel → ℕ → Option ℕ × Kernel
frame_of k pgn = (
  if page_present (pte_get_entry k.mm pgn)
      then some (paging_fpn (pte_get_entry k.mm pgn))
      else none,
  k,
)

-- The part of pg_getpage that takes the frame of the page `vicpgn`, with the swap frame `swpfpn`
-- already taken. __swap_cp_page and pte_set_fpn return 0 always.
unfoldable pub evict : Kernel → ℕ → ℕ → ℕ → Option (Option ℕ × Kernel)
unfolding frame_of
evict k pgn vicpgn swpfpn =
    let vicfpn = paging_fpn (pte_get_entry k.mm vicpgn) in
    if page_present (pte_get_entry k.mm vicpgn)
    then (swap_cp_page k.mram vicfpn k.active_mswp swpfpn >>= λ d.
        let mapped = pte_set_fpn (pte_set_swap k.mm vicpgn 0 swpfpn) pgn vicfpn in
        some (
          frame_of
            (record k {
              mm = record mapped { fifo_pgn = enlist_pgn_node mapped.fifo_pgn pgn };
              mram = d.0;
              active_mswp = d.1;
            })
            pgn))
    else some (none, record k { active_mswp = put_freefp k.active_mswp swpfpn })

unfoldable pub pg_getpage : Kernel → ℕ → Option (Option ℕ × Kernel)
unfolding frame_of evict
pg_getpage k pgn =
    if page_present (pte_get_entry k.mm pgn)
    then some (frame_of k pgn)
    else elim (find_victim_page k.mm).0 [
      | none ↦ some (none, record k { mm = (find_victim_page k.mm).1 })
      | some vicpgn ↦
          let k' = record k {
            mm = (find_victim_page k.mm).1;
            active_mswp = (get_freefp k.active_mswp).1;
          } in
          elim (get_freefp k.active_mswp).0 [
            | none ↦ some (none, k')
            | some swpfpn ↦ evict k' pgn vicpgn swpfpn
          ]
    ]

-- The physical address of an offset in a frame.
abbrev pub phyaddr : ℕ → ℕ → ℕ
phyaddr fpn off = u64 (fpn * 2 ^ 8 + off)

-- `addr` is an `int`, whose bits PAGING_PGN and PAGING_OFFST take apart.
unfoldable pub pg_getval : Kernel → ℕ → Option (Option ℕ × Kernel)
unfolding pg_getpage
pg_getval k addr = pg_getpage k (paging_pgn addr) >>= λ r. elim r.0 [
  | none ↦ some (none, r.1)
  | some fpn ↦ memphy_read r.1.mram (phyaddr fpn (paging_offst addr)) >>= λ d.
      some (d.0, record r.1 { mram = d.1 })
]

unfoldable pub pg_setval : Kernel → ℕ → ℕ → Option (Status × Kernel)
unfolding pg_getpage
pg_setval k addr value = pg_getpage k (paging_pgn addr) >>= λ r. elim r.0 [
  | none ↦ some (failed, r.1)
  | some fpn ↦ memphy_write r.1.mram (phyaddr fpn (paging_offst addr)) value >>= λ d.
      some (d.0, record r.1 { mram = d.1 })
]

-- The checks that __read and __write share: the virtual address of an offset in a region.
unfoldable pub locate : Mm → ℕ → ℕ → ℕ → Option (Option ℕ)
locate mm vmaid rgid offset = get_vma_by_num mm vmaid >>= λ cur_vma. elim (get_symrg_byid mm rgid) [
  | none ↦ some none
  | some i ↦ elim cur_vma [
    | none ↦ some none
    | some _ ↦ get_elem? mm.symrgtbl i >>= λ currg. some (
        if leb currg.rg_end currg.rg_start
        then none
        else if leb (currg.rg_end - currg.rg_start) offset
        then none
        else some (u64 (currg.rg_start + offset)))
  ]
]

-- __read and __write.
unfoldable pub read : Kernel → ℕ → ℕ → ℕ → Option (Option ℕ × Kernel)
unfolding locate pg_getval
read k vmaid rgid offset = locate k.mm vmaid rgid offset >>= λ l. elim l [
  | none ↦ some (none, k)
  | some vaddr ↦ pg_getval k vaddr
]

unfoldable pub write : Kernel → ℕ → ℕ → ℕ → ℕ → Option (Status × Kernel)
unfolding locate pg_setval
write k vmaid rgid offset value = locate k.mm vmaid rgid offset >>= λ l. elim l [
  | none ↦ some (failed, k)
  | some vaddr ↦ pg_setval k vaddr value
]

-- libread: the byte goes to the caller's `destination`.
unfoldable pub libread : Kernel → Ptr → ℕ → ℕ → Option (Option ℕ × Kernel)
unfolding read
libread k proc source offset = read k 0 source offset

unfoldable pub libwrite : Kernel → Ptr → ℕ → ℕ → ℕ → Option (Status × Kernel)
unfolding write
libwrite k proc byte destination offset = write k 0 destination offset byte
