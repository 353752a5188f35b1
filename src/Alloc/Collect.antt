-- ===== src/Alloc/Collect.antt =====
-- src/libmem.c: free_pcb_memph, which nothing calls. It takes the words of the top directory for
-- entries of pages.
use hdh.Base.{
  ℕ, zero, suc, ◌+◌, ◌-◌, ◌/◌, ◌^◌, ◌≤◌, ◌<◌, ◌≡◌, refl, inl, inr, ltb, ltb→lt, if◌then◌else◌,
  Bool-cases, Option, none, some, ◌>>=◌, check, Status, ok, arith,
}
use hdh.Base.Word.{u32}
use hdh.Pte.{page_present, paging_fpn, paging_swp}
use hdh.Memphy.{put_freefp}
use hdh.Kernel.{Kernel}

-- The slots of a directory page of 4096 bytes.
abbrev pub directory_slots : ℕ
directory_slots = 512

-- PAGING_MAX_PGN.
abbrev pub paging_max_pgn : ℕ
paging_max_pgn = (2 ^ 22 + 256 - 1) / 256

-- `word i` is the word in slot `i` of `pgd`, a pointer in this mode.
module _ (word : ℕ → ℕ) where
  unfoldable pub collect_page : Kernel → ℕ → Kernel
  collect_page k pte =
      if page_present pte
      then record k { mram = put_freefp k.mram (paging_fpn pte) }
      else record k { active_mswp = put_freefp k.active_mswp (paging_swp pte) }

  -- The loop, with `n` rounds left from `pagenum` on.
  unfoldable pub collect_from : ℕ → ℕ → Kernel → Option (Status × Kernel)
  collect_from zero pagenum k = some (ok, k)
  collect_from (suc n) pagenum k = check (ltb pagenum directory_slots) >>= λ _.
      collect_from n (pagenum + 1) (collect_page k (u32 (word pagenum)))

  unfoldable pub free_pcb_memph : Kernel → Option (Status × Kernel)
  free_pcb_memph k = collect_from paging_max_pgn 0 k

  collect_beyond :
      (n pagenum : ℕ) (k : Kernel)
      → pagenum ≤ directory_slots
      → directory_slots < pagenum + n
      → collect_from n pagenum k ≡ none
  unfolding collect_from
  collect_beyond zero pagenum k low h = absurd (omega arith)
  collect_beyond (suc n) pagenum k low h = elim (Bool-cases (ltb pagenum directory_slots)) [
    | inl within ↦
        rw within
          (collect_beyond n (pagenum + 1) _ (omega (arith, ltb→lt _ _ within)) (omega arith))
    | inr beyond ↦ rw beyond refl
  ]

  -- Whatever the directory holds, the loop runs past its end.
  pub free_pcb_memph-faults : (k : Kernel) → free_pcb_memph k ≡ none
  unfolding free_pcb_memph
  free_pcb_memph-faults k = collect_beyond paging_max_pgn 0 k (omega arith) (omega arith)
