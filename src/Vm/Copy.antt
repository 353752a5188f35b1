-- ===== src/Vm/Copy.antt =====
-- src/mm64.c: __swap_cp_page copies one frame.
use hdh.Base.{
  ℕ, zero, suc, ◌+◌, ◌*◌, ◌≤◌, ◌<◌, ◌^◌, ◌≡◌, ◌≢◌, refl, sym, ◌∙◌, inl, inr, ◌==◌, ==_self, ==_ne,
  true, Bool-cases, some, arith,
}
use hdh.Base.Word.{u64}
use hdh.Memphy.{Memphy, paging_pagesz, store}
use hdh.Memphy.Cells.{memphy_read-random, memphy_write-random}
use hdh.Vm.{copy_cells, swap_cp_page}

-- The device with the cells `from`, … , `from + n` (exclusive) of a frame copied.
pub record Copied (src dst dst' : Memphy) (s d from n : ℕ) : Type 0 where
  pub copied : (i : ℕ) → from ≤ i → i < from + n → dst'.storage (d + i) ≡ src.storage (s + i)
  pub kept :
      (b : ℕ) → ((i : ℕ) → from ≤ i → i < from + n → b ≢ d + i) → dst'.storage b ≡ dst.storage b
  pub same_size : dst'.maxsz ≡ dst.maxsz
  pub same_mode : dst'.rdmflg ≡ dst.rdmflg
  pub same_free : dst'.free_fp_list ≡ dst.free_fp_list

module _ (src : Memphy) (s d : ℕ) (src_random : src.rdmflg ≡ true)
    (src_fits : s * paging_pagesz + paging_pagesz ≤ src.maxsz)
    (src_small : src.maxsz < 2 ^ 63) where
  copy_cells-Copied :
      (n from : ℕ) (dst : Memphy)
      → from + n ≤ paging_pagesz
      → dst.rdmflg ≡ true
      → d * paging_pagesz + paging_pagesz ≤ dst.maxsz
      → dst.maxsz < 2 ^ 63
      → (dst' : Memphy) × (copy_cells n from src s dst d ≡ some (src, dst'))
        × Copied src dst dst' (s * paging_pagesz) (d * paging_pagesz) from n
  unfolding copy_cells
  copy_cells-Copied zero from dst h random fits small = (
    dst,
    refl,
    record {
      copied = λ i l u. absurd (omega arith);
      kept = λ b out. refl;
      same_size = refl;
      same_mode = refl;
      same_free = refl;
    },
  )
  copy_cells-Copied (suc n) from dst h random fits small =
      let next : Memphy = record dst {
        storage =
            store dst.storage (d * paging_pagesz + from) (src.storage (s * paging_pagesz + from));
      } in
      let (dst', e, c) = copy_cells-Copied n (from + 1) next (omega arith) random fits small in
      let no_wrap_s : u64 (s * paging_pagesz + from) ≡ s * paging_pagesz + from = omega arith in
      let no_wrap_d : u64 (d * paging_pagesz + from) ≡ d * paging_pagesz + from = omega arith in
      (
        dst',
        rw
            (
              no_wrap_s,
              no_wrap_d,
              memphy_read-random src (s * paging_pagesz + from) src_random (omega arith),
              memphy_write-random dst (d * paging_pagesz + from)
                  (src.storage (s * paging_pagesz + from)) random (omega arith),
            )
            e,
        record {
          copied = λ i l u. elim (Bool-cases (from == i)) [
            | inl same ↦
                let at : from ≡ i = ground arith in
                c.kept (d * paging_pagesz + i) (λ j m w. omega arith)
                ∙ rw (← at, ==_self (d * paging_pagesz + from))
            | inr later ↦ c.copied i (ground arith) (omega arith)
          ];
          kept = λ b out.
              c.kept b (λ i l u. out i (omega arith) (omega arith))
              ∙ rw (
                  ==_ne (d * paging_pagesz + from) b
                    (λ e. out from (omega arith) (omega arith) (sym e)));
          same_size = c.same_size;
          same_mode = c.same_mode;
          same_free = c.same_free;
        },
      )

-- On two random access devices whose frames lie in their storage (of less than 2 ^ 63 bytes),
-- __swap_cp_page makes the destination frame a copy of the source frame, and changes no other
-- cell of the destination, not its free list, and nothing of the source.
pub swap_cp_page-Copied :
    (src dst : Memphy) (s d : ℕ)
    → src.rdmflg ≡ true
    → dst.rdmflg ≡ true
    → s * paging_pagesz + paging_pagesz ≤ src.maxsz
    → d * paging_pagesz + paging_pagesz ≤ dst.maxsz
    → src.maxsz < 2 ^ 63
    → dst.maxsz < 2 ^ 63
    → (dst' : Memphy) × (swap_cp_page src s dst d ≡ some (src, dst'))
      × Copied src dst dst' (s * paging_pagesz) (d * paging_pagesz) 0 paging_pagesz
unfolding swap_cp_page
swap_cp_page-Copied src dst s d rs rd fs fd ss sd =
    copy_cells-Copied src s d rs fs ss paging_pagesz 0 dst (omega arith) rd fd sd
