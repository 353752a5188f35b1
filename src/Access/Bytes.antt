-- ===== src/Access/Bytes.antt =====
-- src/libmem.c: reading and writing bytes of a region whose page is present.
use hdh.Base.{
  ℕ, ◌+◌, ◌-◌, ◌≤◌, ◌<◌, ◌≡◌, ◌≢◌, refl, ap, leb, if◌then◌else◌, true, false, Option, none, some,
  ok, failed, get_elem?, arith,
}
use hdh.Base.Word.{u64}
use hdh.Queue.{Ptr}
use hdh.Pte.{page_present, paging_fpn, paging_pgn, paging_offst}
use hdh.Memphy.{Memphy}
use hdh.Memphy.Cells.{memphy_read-memphy_write}
use hdh.Mm.{Mm, Vma, Region, max_symtbl_sz}
use hdh.Mm.Lookup.{get_symrg_byid-small}
use hdh.PageTable.{pte_get_entry}
use hdh.Kernel.{Kernel}
use hdh.Vm.Growth.{OneArea, get_vma_by_num-OneArea}
use hdh.Access.{
  phyaddr, frame_of, pg_getpage, pg_getval, pg_setval, locate, read, write, libread, libwrite,
}

locate_lem :
    (mm : Mm) (v : Vma) (rgid offset : ℕ) (rg : Region)
    → OneArea mm v
    → rgid < max_symtbl_sz
    → get_elem? mm.symrgtbl rgid ≡ some rg
    → offset < rg.rg_end - rg.rg_start
    → locate mm 0 rgid offset ≡ some (some (u64 (rg.rg_start + offset)))
unfolding locate
locate_lem mm v rgid offset rg one h e inside =
    let wide : leb rg.rg_end rg.rg_start ≡ false = ground arith in
    let within : leb (rg.rg_end - rg.rg_start) offset ≡ false = ground arith in
    rw (get_vma_by_num-OneArea mm v one, get_symrg_byid-small mm rgid h, e, wide, within) refl

nowhere_in :
    (rg : Region) (offset : ℕ)
    → rg.rg_end ≤ rg.rg_start + offset
    → ◌≡◌ {A = Option ℕ}
        (if leb rg.rg_end rg.rg_start
          then none
          else if leb (rg.rg_end - rg.rg_start) offset
          then none
          else some (u64 (rg.rg_start + offset)))
        none
nowhere_in rg offset outside = ground arith

locate_outside :
    (mm : Mm) (v : Vma) (rgid offset : ℕ) (rg : Region)
    → OneArea mm v
    → rgid < max_symtbl_sz
    → get_elem? mm.symrgtbl rgid ≡ some rg
    → rg.rg_end ≤ rg.rg_start + offset
    → locate mm 0 rgid offset ≡ some none
unfolding locate
locate_outside mm v rgid offset rg one h e outside =
    rw (get_vma_by_num-OneArea mm v one, get_symrg_byid-small mm rgid h, e)
      (ap some (nowhere_in rg offset outside))

-- On the one area, reading or writing an entry of the table at an offset at or behind the end of
-- its region is refused and changes nothing.
pub outside_refused :
    (k : Kernel) (proc : Ptr) (v : Vma) (rgid offset value : ℕ) (rg : Region)
    → OneArea k.mm v
    → rgid < max_symtbl_sz
    → get_elem? k.mm.symrgtbl rgid ≡ some rg
    → rg.rg_end ≤ rg.rg_start + offset
    → (libread k proc rgid offset ≡ some (none, k))
      × (libwrite k proc value rgid offset ≡ some (failed, k))
unfolding libread libwrite read write
outside_refused k proc v rgid offset value rg one h e outside =
    let nowhere : locate k.mm 0 rgid offset ≡ some none =
      locate_outside k.mm v rgid offset rg one h e outside in
    (rw nowhere refl, rw nowhere refl)

pg_getpage-present :
    (k : Kernel) (pgn : ℕ)
    → page_present (pte_get_entry k.mm pgn) ≡ true
    → pg_getpage k pgn ≡ some (some (paging_fpn (pte_get_entry k.mm pgn)), k)
unfolding pg_getpage frame_of
pg_getpage-present k pgn e = rw e refl

-- For an offset inside the region of an entry, on the one area, whose page is present and whose
-- cell lies in a random access memory: libwrite returns 0, libread from the same offset then
-- returns the byte, and no other cell of the memory has changed.
pub libread-libwrite :
    (k : Kernel) (proc : Ptr) (v : Vma) (rgid offset value : ℕ) (rg : Region)
    → OneArea k.mm v
    → rgid < max_symtbl_sz
    → get_elem? k.mm.symrgtbl rgid ≡ some rg
    → offset < rg.rg_end - rg.rg_start
    → let vaddr = u64 (rg.rg_start + offset) in
      let pte = pte_get_entry k.mm (paging_pgn vaddr) in
      let cell = phyaddr (paging_fpn pte) (paging_offst vaddr) in
      page_present pte ≡ true
      → k.mram.rdmflg ≡ true
      → cell < k.mram.maxsz
      → (mram' : Memphy) × (libwrite k proc value rgid offset
          ≡ some (ok, record k { mram = mram' }))
        × (libread (record k { mram = mram' }) proc rgid offset
            ≡ some (some value, record k { mram = mram' }))
        × ((b : ℕ) → b ≢ cell → mram'.storage b ≡ k.mram.storage b)
unfolding libread libwrite read write pg_getval pg_setval
libread-libwrite k proc v rgid offset value rg one h e within present random fits =
    let vaddr = u64 (rg.rg_start + offset) in
    let pte = pte_get_entry k.mm (paging_pgn vaddr) in
    let cell = phyaddr (paging_fpn pte) (paging_offst vaddr) in
    let (mram', written, back, others, _) =
      memphy_read-memphy_write k.mram cell value random fits in
    let at = locate_lem k.mm v rgid offset rg one h e within in
    (
      mram',
      rw (at, pg_getpage-present k (paging_pgn vaddr) present, written) refl,
      rw (at, pg_getpage-present (record k { mram = mram' }) (paging_pgn vaddr) present, back) refl,
      others,
    )
