-- ===== src/Access/Paging.antt =====
-- src/libmem.c: pg_getpage gives the frame of the oldest page to the page that is asked for.
use mathlib.Core.Path.{subst}
use hdh.Base.{
  ℕ, ◌+◌, ◌*◌, ◌^◌, ◌≤◌, ◌<◌, ◌≡◌, ◌≢◌, refl, sym, ap, ◌∙◌, true, false, Option, none, some, List,
  [], ◌∷◌, ◌++◌, arith,
}
use hdh.Pte.{page_present, page_swapped, paging_fpn, paging_swp}
use hdh.Memphy.{Memphy, paging_pagesz, get_freefp}
use hdh.Mm.{Mm, find_victim_page, enlist_pgn_node}
use hdh.Mm.Lookup.{find_victim_page-fifo}
use hdh.PageTable.{pte_get_entry, pte_set_fpn, pte_set_swap}
use hdh.PageTable.Entries.{MapsTo, max_pgn, pte_set_fpn-MapsTo, pte_set_swap-present}
use hdh.Kernel.{Kernel}
use hdh.Vm.Copy.{swap_cp_page-Copied}
use hdh.Access.{frame_of, evict, pg_getpage}

-- The state after the page `pgn` has taken the frame of `victim`, whose bytes went to `swpfpn`.
pub record Swapped (k k' : Kernel) (pgn victim swpfpn : ℕ) (pages free_swp : List ℕ) : Type 0 where
  pub mapped : MapsTo k'.mm pgn (paging_fpn (pte_get_entry k.mm victim))
  pub victim_out : page_swapped (pte_get_entry k'.mm victim) ≡ true
  pub victim_at : paging_swp (pte_get_entry k'.mm victim) ≡ swpfpn
  pub others :
      (q : ℕ) → q < max_pgn → q ≢ pgn → q ≢ victim → pte_get_entry k'.mm q ≡ pte_get_entry k.mm q
  pub order : k'.mm.fifo_pgn ≡ pgn ∷ pages
  pub saved :
      (i : ℕ)
      → i < paging_pagesz
      → k'.active_mswp.storage (swpfpn * paging_pagesz + i)
        ≡ k.mram.storage (paging_fpn (pte_get_entry k.mm victim) * paging_pagesz + i)
  pub swap_frames : k'.active_mswp.free_fp_list ≡ free_swp
  pub ram : k'.mram ≡ k.mram

-- An entry does not depend on the queue of pages.
entry-fifo :
    (mm : Mm) (pages : List ℕ) (q : ℕ)
    → pte_get_entry (record mm { fifo_pgn = pages }) q ≡ pte_get_entry mm q
unfolding pte_get_entry
entry-fifo mm pages q = refl

frame_of-MapsTo : (k : Kernel) (pgn fpn : ℕ) → MapsTo k.mm pgn fpn → frame_of k pgn ≡ (some fpn, k)
unfolding frame_of
frame_of-MapsTo k pgn fpn m = rw (m.present, m.frame) refl

-- The tables after the page has taken the frame `fpn` of `victim`.
abbrev remapped : Mm → ℕ → ℕ → ℕ → ℕ → Mm
remapped mm pgn victim swpfpn fpn =
    let mapped = pte_set_fpn (pte_set_swap mm victim 0 swpfpn) pgn fpn in
    record mapped { fifo_pgn = enlist_pgn_node mapped.fifo_pgn pgn }

-- What the entries are then.
record Remapped (mm : Mm) (pgn victim swpfpn fpn : ℕ) (mm' : Mm) : Type 0 where
  mapped : MapsTo mm' pgn fpn
  victim_out : page_swapped (pte_get_entry mm' victim) ≡ true
  victim_at : paging_swp (pte_get_entry mm' victim) ≡ swpfpn
  others : (q : ℕ) → q < max_pgn → q ≢ pgn → q ≢ victim → pte_get_entry mm' q ≡ pte_get_entry mm q
  order : mm'.fifo_pgn ≡ pgn ∷ mm.fifo_pgn

remapped-Remapped :
    (mm : Mm) (pgn victim swpfpn fpn : ℕ)
    → pgn < max_pgn
    → victim < max_pgn
    → victim ≢ pgn
    → swpfpn < 2 ^ 21
    → fpn < 2 ^ 13
    → Remapped mm pgn victim swpfpn fpn (remapped mm pgn victim swpfpn fpn)
unfolding pte_set_fpn pte_set_swap enlist_pgn_node
remapped-Remapped mm pgn victim swpfpn fpn hp hv ne hs hf =
    let (out, at, _, _, elsewhere) = pte_set_swap-present mm victim swpfpn hv hs in
    let (m, kept) = pte_set_fpn-MapsTo (pte_set_swap mm victim 0 swpfpn) pgn fpn hp hf in
    let same : (q : ℕ)
        → pte_get_entry (remapped mm pgn victim swpfpn fpn) q
          ≡ pte_get_entry (pte_set_fpn (pte_set_swap mm victim 0 swpfpn) pgn fpn) q =
      λ q. entry-fifo (pte_set_fpn (pte_set_swap mm victim 0 swpfpn) pgn fpn) _ q in
    record {
      mapped = record {
        present = ap page_present (same pgn) ∙ m.present;
        in_ram = ap page_swapped (same pgn) ∙ m.in_ram;
        frame = ap paging_fpn (same pgn) ∙ m.frame;
      };
      victim_out = ap page_swapped (same victim ∙ kept victim hv ne) ∙ out;
      victim_at = ap paging_swp (same victim ∙ kept victim hv ne) ∙ at;
      others = λ q hq np nv. same q ∙ kept q hq np ∙ elsewhere q hq nv;
      order = refl;
    }

get_freefp-some :
    (mp : Memphy) (fpn : ℕ) (rest : List ℕ)
    → mp.free_fp_list ≡ fpn ∷ rest
    → get_freefp mp ≡ (some fpn, record mp { free_fp_list = rest })
unfolding get_freefp
get_freefp-some mp fpn rest e =
    ap
      (λ l. elim l as (λ _. Option ℕ × Memphy) [
        | [] ↦ (none, mp)
        | f ∷ r ↦ (some f, record mp { free_fp_list = r })
      ])
      e

pg_getpage-evict :
    (k : Kernel) (pgn victim swpfpn : ℕ) (mm1 : Mm) (mswp1 : Memphy)
    → page_present (pte_get_entry k.mm pgn) ≡ false
    → find_victim_page k.mm ≡ (some victim, mm1)
    → get_freefp k.active_mswp ≡ (some swpfpn, mswp1)
    → pg_getpage k pgn ≡ evict (record k { mm = mm1; active_mswp = mswp1 }) pgn victim swpfpn
unfolding pg_getpage
pg_getpage-evict k pgn victim swpfpn mm1 mswp1 absent e f =
    rw (absent, ap (λ r. r.0) e, ap (λ r. r.0) f)
      (ap
          (λ r.
            evict (record k { mm = r.1; active_mswp = (get_freefp k.active_mswp).1 }) pgn victim
              swpfpn)
          e
        ∙ ap (λ r. evict (record k { mm = mm1; active_mswp = r.1 }) pgn victim swpfpn) f)

ne_victim :
    (mm : Mm) (pgn victim : ℕ)
    → page_present (pte_get_entry mm pgn) ≡ false
    → page_present (pte_get_entry mm victim) ≡ true
    → victim ≢ pgn
ne_victim mm pgn victim absent there e =
    absurd (ground (arith, sym there ∙ ap (λ q. page_present (pte_get_entry mm q)) e ∙ absent))

evict-Swapped :
    (k : Kernel) (pgn victim swpfpn : ℕ)
    → victim ≢ pgn
    → page_present (pte_get_entry k.mm victim) ≡ true
    → pgn < max_pgn
    → victim < max_pgn
    → swpfpn < 2 ^ 21
    → k.mram.rdmflg ≡ true
    → k.active_mswp.rdmflg ≡ true
    → paging_fpn (pte_get_entry k.mm victim) * paging_pagesz + paging_pagesz ≤ k.mram.maxsz
    → swpfpn * paging_pagesz + paging_pagesz ≤ k.active_mswp.maxsz
    → k.mram.maxsz ≤ 2 ^ 21
    → k.active_mswp.maxsz < 2 ^ 63
    → (k' : Kernel) × (evict k pgn victim swpfpn
        ≡ some (some (paging_fpn (pte_get_entry k.mm victim)), k'))
      × Swapped k k' pgn victim swpfpn k.mm.fifo_pgn k.active_mswp.free_fp_list
unfolding evict
evict-Swapped k pgn victim swpfpn ne there hp hv hs rr rs fr fs sr ss =
    let fpn = paging_fpn (pte_get_entry k.mm victim) in
    let (dst, copy, c) =
      swap_cp_page-Copied k.mram k.active_mswp fpn swpfpn rr rs fr fs (omega arith) ss in
    let r = remapped-Remapped k.mm pgn victim swpfpn fpn hp hv ne hs (omega arith) in
    let k' : Kernel = record k { mm = remapped k.mm pgn victim swpfpn fpn; active_mswp = dst } in
    (
      k',
      rw (there, copy) (ap some (frame_of-MapsTo k' pgn fpn r.mapped)),
      record {
        mapped = r.mapped;
        victim_out = r.victim_out;
        victim_at = r.victim_at;
        others = r.others;
        order = r.order;
        saved = λ i h. c.copied i (omega arith) (omega arith);
        swap_frames = c.same_free;
        ram = refl;
      },
    )

-- The page that is asked for is not present, the list of pages ends with `victim`, which is
-- present, and `swpfpn` is the first free swap frame; both pages lie in the 57-bit space, the
-- swap frame's number fits 21 bits, both devices are random access devices that hold the frames,
-- and the memory is not larger than 2 ^ 21. Then pg_getpage returns the victim's frame. The page
-- is mapped to it, the victim's entry is marked as swapped and holds `swpfpn`, the swap frame has
-- a copy of the frame's bytes and is no longer free, the page is at the front of the list and the
-- victim off it, and the other entries and the memory are as before.
pub pg_getpage-Swapped :
    (k : Kernel) (pgn victim swpfpn : ℕ) (pages free_swp : List ℕ)
    → page_present (pte_get_entry k.mm pgn) ≡ false
    → k.mm.fifo_pgn ≡ pages ++ (victim ∷ [])
    → page_present (pte_get_entry k.mm victim) ≡ true
    → k.active_mswp.free_fp_list ≡ swpfpn ∷ free_swp
    → pgn < max_pgn
    → victim < max_pgn
    → swpfpn < 2 ^ 21
    → k.mram.rdmflg ≡ true
    → k.active_mswp.rdmflg ≡ true
    → paging_fpn (pte_get_entry k.mm victim) * paging_pagesz + paging_pagesz ≤ k.mram.maxsz
    → swpfpn * paging_pagesz + paging_pagesz ≤ k.active_mswp.maxsz
    → k.mram.maxsz ≤ 2 ^ 21
    → k.active_mswp.maxsz < 2 ^ 63
    → (k' : Kernel) × (pg_getpage k pgn ≡ some (some (paging_fpn (pte_get_entry k.mm victim)), k'))
      × Swapped k k' pgn victim swpfpn pages free_swp
pg_getpage-Swapped k pgn victim swpfpn pages free_swp absent queue there free hp hv hs rr rs fr fs
      sr ss =
    let k1 = record k {
      mm = record k.mm { fifo_pgn = pages };
      active_mswp = record k.active_mswp { free_fp_list = free_swp };
    } in
    let same : (q : ℕ) → pte_get_entry k1.mm q ≡ pte_get_entry k.mm q =
      λ q. entry-fifo k.mm pages q in
    let (k', run, w) =
      evict-Swapped k1 pgn victim swpfpn (ne_victim k.mm pgn victim absent there)
        (ap page_present (same victim) ∙ there) hp hv hs rr rs
        (subst (λ e. paging_fpn e * paging_pagesz + paging_pagesz ≤ k.mram.maxsz)
          (sym (same victim)) fr)
        fs sr ss in
    (
      k',
      pg_getpage-evict k pgn victim swpfpn _ _ absent
            (find_victim_page-fifo k.mm pages victim queue)
            (get_freefp-some k.active_mswp swpfpn free_swp free)
          ∙ run
          ∙ ap (λ e. some (some (paging_fpn e), k')) (same victim),
      record {
        mapped = subst (λ e. MapsTo k'.mm pgn (paging_fpn e)) (same victim) w.mapped;
        victim_out = w.victim_out;
        victim_at = w.victim_at;
        others = λ q hq np nv. w.others q hq np nv ∙ same q;
        order = w.order;
        saved = λ i h.
            w.saved i h ∙ ap (λ e. k.mram.storage (paging_fpn e * paging_pagesz + i)) (same victim);
        swap_frames = w.swap_frames;
        ram = w.ram;
      },
    )
