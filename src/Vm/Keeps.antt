-- ===== src/Vm/Keeps.antt =====
-- src/mm-vm.c: what inc_vma_limit leaves as it is, whether or not it finds frames.
use hdh.Base.{
  ℕ, zero, suc, ◌-◌, ◌<◌, ◌^◌, ◌≡◌, ◌≢◌, ◌⊎◌, inl, inr, refl, some, Option-cases, ok, List, [], ◌∷◌,
  arith,
}
use hdh.Memphy.{Memphy, get_freefp}
use hdh.Mm.{Vma}
use hdh.Kernel.{Kernel}
use hdh.PageTable.{vmap_page_range}
use hdh.Vm.{minus_one, int_rounds, alloc_pages_range, inc_vma_limit}
use hdh.Vm.Growth.{OneArea, with_end, pages, new_end, map_from-KeepsAreas, inc_vma_limit_lem}

-- Nothing but page tables, frames and the end of the area has changed.
pub record Kept (k : Kernel) (v : Vma) (k' : Kernel) : Type 0 where
  pub end : ℕ
  pub areas : k'.mm.mmap ≡ record v { vm_end = end } ∷ []
  pub symbols : k'.mm.symrgtbl ≡ k.mm.symrgtbl
  pub heap : k'.procs ≡ k.procs
  pub queues : k'.sched ≡ k.sched

alloc_pages_range-result :
    (n : ℕ) (mp : Memphy) (frm_lst : List ℕ)
    → ((alloc_pages_range n mp frm_lst).0 ≡ 0) ⊎ ((alloc_pages_range n mp frm_lst).0 ≡ minus_one)
unfolding alloc_pages_range
alloc_pages_range-result zero mp frm_lst = inl refl
alloc_pages_range-result (suc n) mp frm_lst = elim (Option-cases (get_freefp mp).0) [
  | inl e ↦ rw (e, alloc_pages_range) (inr refl)
  | inr (f, e) ↦
      rw (e, alloc_pages_range) (alloc_pages_range-result n (get_freefp mp).1 (f ∷ frm_lst))
]

-- On the one area, and for a positive size, inc_vma_limit always returns 0.
pub inc_vma_limit-Kept :
    (k : Kernel) (v : Vma) (inc_sz : ℕ)
    → OneArea k.mm v
    → 0 < inc_sz
    → (k' : Kernel) × (inc_vma_limit k 0 inc_sz ≡ some (ok, k')) × Kept k v k'
unfolding vmap_page_range
inc_vma_limit-Kept k v inc_sz one wanted =
    let a = alloc_pages_range (int_rounds (pages inc_sz)) k.mram [] in
    let ne : a.0 ≢ 2 ^ 64 - 3000 = λ h.
      elim (alloc_pages_range-result (int_rounds (pages inc_sz)) k.mram []) [
        | inl e ↦ omega (arith, e, h)
        | inr e ↦ omega (arith, e, h)
      ] in
    let grown = with_end k.mm v (new_end v inc_sz) in
    let kept = map_from-KeepsAreas (int_rounds (pages inc_sz)) 0 v.vm_end grown a.1 in
    (
      _,
      inc_vma_limit_lem k v inc_sz a.0 a.1 a.2 one wanted refl ne,
      record {
        end = new_end v inc_sz;
        areas = kept.same_areas;
        symbols = kept.same_symbols;
        heap = refl;
        queues = refl;
      },
    )
