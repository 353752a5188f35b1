-- ===== src/Vm/Growth.antt =====
-- src/mm-vm.c: inc_vma_limit on the one memory area that init_mm makes.
use hdh.Base.{
  ℕ, zero, suc, ◌+◌, ◌-◌, ◌*◌, ◌/◌, ◌^◌, ◌≤◌, ◌<◌, ◌≡◌, ◌≢◌, refl, ap, ◌∙◌, ◌==◌, ==_ne, ltb, true,
  false, some, ok, List, [], ◌∷◌, ◌++◌, length, All, get_elem?, set, arith,
}
use hdh.Base.Word.{u32, u64}
use hdh.Memphy.{Memphy}
use hdh.Mm.{Mm, Vma, get_vma_by_num}
use hdh.PageTable.{paging64_pagesz, vmap_page_range, map_from, pte_set_fpn, pte_get_entry}
use hdh.PageTable.Entries.{MapsTo, max_pgn}
use hdh.PageTable.Range.{vmap_page_range-MapsTo}
use hdh.Kernel.{Kernel}
use hdh.Vm.{
  minus_one, alloc_pages_range, int_rounds, vm_map_ram, validate_overlap_vm_area, page_align,
  extend_area, inc_vma_limit,
}
use hdh.Vm.Frames.{rev_append, alloc_pages_range-success, alloc_pages_range-failure}

-- The memory has one area, numbered 0, as init_mm leaves it and every operation keeps it.
pub record OneArea (mm : Mm) (v : Vma) : Type 0 where
  pub only : mm.mmap ≡ v ∷ []
  pub numbered : v.vm_id ≡ 0

pub get_vma_by_num-OneArea :
    (mm : Mm) (v : Vma) → OneArea mm v → get_vma_by_num mm 0 ≡ some (some 0)
unfolding get_vma_by_num
get_vma_by_num-OneArea mm v o = rw (o.only, get_vma_by_num, o.numbered)

validate-OneArea :
    (mm : Mm) (v : Vma) (s e : ℕ) → OneArea mm v → validate_overlap_vm_area mm.mmap 0 s e ≡ ok
unfolding validate_overlap_vm_area
validate-OneArea mm v s e o = rw (o.only, o.numbered)

vm_map_ram_lem :
    (k : Kernel) (mapstart n ret : ℕ) (frm_lst : List ℕ) (mram' : Memphy)
    → alloc_pages_range (int_rounds n) k.mram [] ≡ (ret, frm_lst, mram')
    → ret ≢ 2 ^ 64 - 3000
    → vm_map_ram k mapstart n ≡ (
      0,
      record k { mram = mram'; mm = (vmap_page_range k.mm mapstart (int_rounds n) frm_lst).1 },
    )
unfolding vm_map_ram
vm_map_ram_lem k mapstart n ret frm_lst mram' e ne =
    let never : ltb ret 0 ≡ false = ground arith in
    let other : (ret == 2 ^ 64 - 3000) ≡ false = ==_ne ret (2 ^ 64 - 3000) ne in
    rw e (rw (never, other))

-- The area with its end moved.
abbrev pub with_end : Mm → Vma → ℕ → Mm
with_end mm v end = record mm { mmap = record v { vm_end = end } ∷ [] }

inc_found :
    (k : Kernel) (v : Vma) (inc_sz : ℕ)
    → OneArea k.mm v
    → 0 < inc_sz
    → inc_vma_limit k 0 inc_sz ≡ some (extend_area k 0 v 0 (page_align paging64_pagesz inc_sz))
unfolding inc_vma_limit
inc_found k v inc_sz one wanted = rw (
  ==_ne inc_sz 0 (omega arith),
  get_vma_by_num-OneArea k.mm v one,
  ap (λ l. get_elem? l 0) one.only,
)

extend_area_lem :
    (k : Kernel) (v : Vma) (aligned_sz : ℕ) (mapped : Kernel)
    → OneArea k.mm v
    → vm_map_ram
        (record k { mm = with_end k.mm v (u64 (v.vm_end + aligned_sz)) })
        v.vm_end
        (aligned_sz / paging64_pagesz)
      ≡ (0, mapped)
    → extend_area k 0 v 0 aligned_sz ≡ (ok, mapped)
unfolding extend_area
extend_area_lem k v aligned_sz mapped one e =
    let mmap' : set k.mm.mmap 0 (record v { vm_end = u64 (v.vm_end + aligned_sz) })
        ≡ record v { vm_end = u64 (v.vm_end + aligned_sz) } ∷ [] =
      ap (λ l. set l 0 (record v { vm_end = u64 (v.vm_end + aligned_sz) })) one.only in
    rw (validate-OneArea k.mm v v.vm_end (u64 (v.vm_end + aligned_sz)) one, mmap', e, extend_area)

abbrev pub pages : ℕ → ℕ
pages inc_sz = page_align paging64_pagesz inc_sz / paging64_pagesz

abbrev pub new_end : Vma → ℕ → ℕ
new_end v inc_sz = u64 (v.vm_end + page_align paging64_pagesz inc_sz)

-- Whatever alloc_pages_range answers (it never answers -3000), the limit moves and the frames that
-- it handed out are mapped.
pub inc_vma_limit_lem :
    (k : Kernel) (v : Vma) (inc_sz ret : ℕ) (frm_lst : List ℕ) (mram' : Memphy)
    → OneArea k.mm v
    → 0 < inc_sz
    → alloc_pages_range (int_rounds (pages inc_sz)) k.mram [] ≡ (ret, frm_lst, mram')
    → ret ≢ 2 ^ 64 - 3000
    → inc_vma_limit k 0 inc_sz
      ≡ some (
        ok,
        record k {
          mram = mram';
          mm =
              (vmap_page_range
                (with_end k.mm v (new_end v inc_sz))
                v.vm_end
                (int_rounds (pages inc_sz))
                frm_lst).1;
        },
      )
inc_vma_limit_lem k v inc_sz ret frm_lst mram' one wanted e ne =
    inc_found k v inc_sz one wanted
    ∙ ap some (
        extend_area_lem k v (page_align paging64_pagesz inc_sz) _ one (
          vm_map_ram_lem (record k { mm = with_end k.mm v (new_end v inc_sz) }) v.vm_end
            (pages inc_sz) ret frm_lst mram' e ne))

-- What mapping keeps.
pub record KeepsAreas (mm mm' : Mm) : Type 0 where
  pub same_areas : mm'.mmap ≡ mm.mmap
  pub same_symbols : mm'.symrgtbl ≡ mm.symrgtbl

pub map_from-KeepsAreas :
    (pgnum pgit addr : ℕ) (mm : Mm) (frames : List ℕ)
    → KeepsAreas mm (map_from mm addr pgnum pgit frames)
unfolding map_from pte_set_fpn
map_from-KeepsAreas zero pgit addr mm frames = record { same_areas = refl; same_symbols = refl }
map_from-KeepsAreas (suc pgnum) pgit addr mm [] = record { same_areas = refl; same_symbols = refl }
map_from-KeepsAreas (suc pgnum) pgit addr mm (f ∷ frames) =
    let ih = map_from-KeepsAreas pgnum (pgit + 1) addr _ frames in
    record { same_areas = ih.same_areas; same_symbols = ih.same_symbols }

int_rounds-pages :
    (inc_sz : ℕ) → inc_sz < 2 ^ 31 → int_rounds (pages inc_sz) ≡ (inc_sz + 4095) / 4096
int_rounds-pages inc_sz small =
    let low : u32 (pages inc_sz) ≡ (inc_sz + 4095) / 4096 = omega arith in
    let positive : ltb ((inc_sz + 4095) / 4096) (2 ^ 31) ≡ true = ground arith in rw (low, positive)

-- What a growth that found its frames leaves.
pub record Grown (k : Kernel) (v : Vma) (base n : ℕ) (first rest : List ℕ) (k' : Kernel)
    : Type 0 where
  pub areas : k'.mm.mmap ≡ record v { vm_end = (base + n) * paging64_pagesz } ∷ []
  pub symbols : k'.mm.symrgtbl ≡ k.mm.symrgtbl
  pub mapped :
      (i f : ℕ) → i < n → get_elem? (rev_append first []) i ≡ some f → MapsTo k'.mm (base + i) f
  pub below : (q : ℕ) → q < base → pte_get_entry k'.mm q ≡ pte_get_entry k.mm q
  pub frames : k'.mram ≡ record k.mram { free_fp_list = rest }
  pub others : (k'.sched ≡ k.sched) × (k'.active_mswp ≡ k.active_mswp)

All-rev_append :
    (xs ys : List ℕ)
    → All (λ f. f < 2 ^ 13) xs
    → All (λ f. f < 2 ^ 13) ys
    → All (λ f. f < 2 ^ 13) (rev_append xs ys)
All-rev_append [] ys hx hy = hy
All-rev_append (x ∷ xs) ys hx hy = All-rev_append xs (x ∷ ys) hx.1 (hx.0, hy)

entry-areas :
    (mm : Mm) (vs : List Vma) (q : ℕ)
    → pte_get_entry (record mm { mmap = vs }) q ≡ pte_get_entry mm q
unfolding pte_get_entry
entry-areas mm vs q = refl

-- For the one area, whose end is on a page boundary, and a positive size below 2 ^ 31, let `n` be
-- the size in pages of 4096 bytes, rounded up. If `n` frames are free (whose numbers fit their
-- field) and the new pages lie in the 57-bit space, inc_vma_limit returns 0, moves the end by `n`
-- pages, takes the first `n` frames off the free list, maps the new pages in order to these frames
-- from the last to the first, one page to each place of the list, and changes no page below.
pub inc_vma_limit-Grown :
    (k : Kernel) (v : Vma) (base inc_sz : ℕ) (first rest : List ℕ)
    → OneArea k.mm v
    → v.vm_end ≡ base * paging64_pagesz
    → 0 < inc_sz
    → inc_sz < 2 ^ 31
    → base + (inc_sz + 4095) / 4096 ≤ max_pgn
    → k.mram.free_fp_list ≡ first ++ rest
    → length first ≡ (inc_sz + 4095) / 4096
    → All (λ f. f < 2 ^ 13) first
    → (k' : Kernel) × (inc_vma_limit k 0 inc_sz ≡ some (ok, k'))
      × Grown k v base ((inc_sz + 4095) / 4096) first rest k'
unfolding vmap_page_range
inc_vma_limit-Grown k v base inc_sz first rest one aligned wanted small high free enough fit =
    let n : ℕ = (inc_sz + 4095) / 4096 in
    let rounds : int_rounds (pages inc_sz) ≡ n = int_rounds-pages inc_sz small in
    let end : new_end v inc_sz ≡ (base + n) * paging64_pagesz = omega arith in
    let grown = with_end k.mm v (new_end v inc_sz) in
    let got : alloc_pages_range (int_rounds (pages inc_sz)) k.mram []
        ≡ (0, rev_append first [], record k.mram { free_fp_list = rest }) =
      rw (rounds, ← enough) (alloc_pages_range-success k.mram first rest free) in
    let range =
      vmap_page_range-MapsTo grown v.vm_end base n (rev_append first []) aligned high (omega arith)
        (All-rev_append first [] fit tt) in
    let kept = map_from-KeepsAreas n 0 v.vm_end grown (rev_append first []) in
    (
      _,
      inc_vma_limit_lem k v inc_sz 0 (rev_append first []) (record k.mram { free_fp_list = rest })
            one wanted got (omega arith)
          ∙ ap
              (λ r. some (
                ok,
                record k {
                  mram = record k.mram { free_fp_list = rest };
                  mm = (vmap_page_range grown v.vm_end r (rev_append first [])).1;
                },
              ))
              rounds,
      record {
        areas = kept.same_areas ∙ ap (λ e. record v { vm_end = e } ∷ []) end;
        symbols = kept.same_symbols;
        mapped = range.0;
        below = λ q h. range.1 q h ∙ entry-areas k.mm _ q;
        frames = refl;
        others = (refl, refl);
      },
    )

map_from-[] : (pgnum addr : ℕ) (mm : Mm) → map_from mm addr pgnum 0 [] ≡ mm
unfolding map_from
map_from-[] zero addr mm = refl
map_from-[] (suc pgnum) addr mm = refl

-- On the one area and for a positive size, with fewer free frames than pages asked for,
-- inc_vma_limit returns 0 all the same: the end of the area has moved, and nothing else has
-- changed.
pub inc_vma_limit-unmapped :
    (k : Kernel) (v : Vma) (inc_sz : ℕ)
    → OneArea k.mm v
    → 0 < inc_sz
    → length k.mram.free_fp_list < int_rounds (pages inc_sz)
    → inc_vma_limit k 0 inc_sz ≡ some (ok, record k { mm = with_end k.mm v (new_end v inc_sz) })
unfolding vmap_page_range
inc_vma_limit-unmapped k v inc_sz one wanted few =
    inc_vma_limit_lem k v inc_sz minus_one [] k.mram one wanted
      (alloc_pages_range-failure (int_rounds (pages inc_sz)) k.mram few) (omega arith)
    ∙ ap (λ m. some (ok, record k { mm = m }))
        (map_from-[] (int_rounds (pages inc_sz)) v.vm_end (with_end k.mm v (new_end v inc_sz)))
