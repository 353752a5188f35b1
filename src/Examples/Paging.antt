-- ===== src/Examples/Paging.antt =====
-- The theorems on release, on access to bytes and on paging, at the small machine after the process
-- has got the region of the addresses 0 to 99 in entry 2, and page 0 the frame 1.
use hdh.Base.{
  ℕ, ◌+◌, ◌≡◌, ◌≢◌, refl, ap, ◌∙◌, false, none, some, ok, [], ◌∷◌, get_elem?, set, replicate, arith,
}
use hdh.Base.Word.{u64}
use hdh.Pte.{page_present, paging_fpn, paging_pgn, paging_offst}
use hdh.Memphy.{Memphy}
use hdh.Mm.{Mm, Vma, Region, max_symtbl_sz}
use hdh.Kernel.{Kernel}
use hdh.PageTable.{pte_set_fpn, pte_get_entry, read_entry}
use hdh.PageTable.Entries.{pte_set_fpn-MapsTo}
use hdh.Alloc.{free}
use hdh.Alloc.Regions.{inside, covers}
use hdh.Alloc.Separate.{IsSeparate, covers-set, All-set}
use hdh.Alloc.Start.{covers-replicate, All-replicate}
use hdh.Alloc.Release.{free-IsSeparate}
use hdh.Access.{phyaddr, pg_getpage, libread, libwrite}
use hdh.Access.Bytes.{libread-libwrite}
use hdh.Access.Paging.{Swapped, pg_getpage-Swapped}
use hdh.Examples.{machine}

abbrev no_addresses : Region
no_addresses = record { rg_start = 0; rg_end = 0 }

abbrev hundred : Region
hundred = record { rg_start = 0; rg_end = 100 }

abbrev area : Vma
area = record { vm_id = 0; vm_start = 0; vm_end = 4096; sbrk = 100; vm_freerg_list = [] }

abbrev blank : Mm
blank = record {
  pgd = λ _. none;
  mmap = area ∷ [];
  symrgtbl = set (replicate max_symtbl_sz no_addresses) 2 hundred;
  fifo_pgn = 0 ∷ [];
}

abbrev used : Kernel
used = record machine { mm = pte_set_fpn blank 0 1 }

blank-IsSeparate : IsSeparate blank area
unfolding inside covers
blank-IsSeparate = record {
  one = record { only = refl; numbered = refl };
  apart = λ a. ground (
    arith,
    covers-set (replicate max_symtbl_sz no_addresses) 2 no_addresses hundred a refl,
    covers-replicate max_symtbl_sz a,
  );
  entries = refl;
  live_low =
      All-set (replicate max_symtbl_sz no_addresses) 2 hundred (All-replicate max_symtbl_sz)
        (omega arith, omega arith);
  free_low = tt;
  brk_low = omega arith;
}

free-IsSeparate_example :
    (k' : Kernel) × (v' : Vma) × (free (record machine { mm = blank }) 0 2 ≡ some (ok, k'))
    × IsSeparate k'.mm v'
    × (v'.vm_freerg_list ≡ hundred ∷ [])
    × (get_elem? k'.mm.symrgtbl 2 ≡ some no_addresses)
free-IsSeparate_example =
    free-IsSeparate (record machine { mm = blank }) area 2 hundred blank-IsSeparate refl
      (omega arith)

-- The cell of offset 5 of the region.
abbrev cell : ℕ
cell =
    phyaddr (paging_fpn (pte_get_entry used.mm (paging_pgn (u64 (0 + 5)))))
      (paging_offst (u64 (0 + 5)))

page_zero : paging_pgn 5 ≡ 0
unfolding paging_pgn
page_zero = refl

offset_five : paging_offst 5 ≡ 5
unfolding paging_offst
offset_five = refl

libread-libwrite_example :
    (mram' : Memphy) × (libwrite used 1 65 2 5 ≡ some (ok, record used { mram = mram' }))
    × (libread (record used { mram = mram' }) 1 2 5 ≡ some (some 65, record used { mram = mram' }))
    × ((b : ℕ) → b ≢ cell → mram'.storage b ≡ used.mram.storage b)
unfolding pte_set_fpn
libread-libwrite_example =
    libread-libwrite used 1 area 2 5 65 hundred (record { only = refl; numbered = refl })
      (omega arith) refl (omega arith)
      (rw page_zero (pte_set_fpn-MapsTo blank 0 1 (omega arith) (omega arith)).0.present) refl
      (rw
        (page_zero, (pte_set_fpn-MapsTo blank 0 1 (omega arith) (omega arith)).0.frame, offset_five)
        (omega arith))

blank_three : page_present (pte_get_entry blank 3) ≡ false
unfolding page_present pte_get_entry read_entry
blank_three = refl

absent_three : page_present (pte_get_entry used.mm 3) ≡ false
absent_three =
    ap page_present
      ((pte_set_fpn-MapsTo blank 0 1 (omega arith) (omega arith)).1 3 (omega arith) (omega arith))
    ∙ blank_three

pg_getpage-Swapped_example :
    (k' : Kernel) × (pg_getpage used 3 ≡ some (some (paging_fpn (pte_get_entry used.mm 0)), k'))
    × Swapped used k' 3 0 3 [] (2 ∷ [])
unfolding pte_set_fpn
pg_getpage-Swapped_example =
    pg_getpage-Swapped used 3 0 3 [] (2 ∷ []) (absent_three) refl
      (pte_set_fpn-MapsTo blank 0 1 (omega arith) (omega arith)).0.present refl (omega arith)
      (omega arith) (omega arith) refl refl
      (rw ((pte_set_fpn-MapsTo blank 0 1 (omega arith) (omega arith)).0.frame) (omega arith))
      (omega arith) (omega arith) (omega arith)
