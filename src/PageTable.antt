-- ===== src/PageTable.antt =====
-- src/mm64.c: the five-level page table of the 64-bit mode. `malloc` does not fail, and a table
-- that it hands out is referred to by one slot only, so a table is a function of its 512 indices
-- and a NULL slot is `none`. `caller` and `caller->krnl->mm` are never NULL here.
pub mod Digits
pub mod Walk
pub mod Entries
pub mod Range
use hdh.Base.{
  ℕ, zero, suc, ◌+◌, ◌-◌, ◌*◌, ◌/◌, ◌^◌, ◌==◌, if◌then◌else◌, Option, none, some, update, bit_and,
  List, [], ◌∷◌,
}
use hdh.Base.Word.{u32, u64, through_int}
use hdh.Mm.{Pt, Pmd, Pud, P4d, Pgd, Mm, Region, enlist_pgn_node}
use hdh.Pte.{mark_fpn, mark_swap}

-- GENMASK64 of include/mm64.h.
abbrev pub genmask64 : ℕ → ℕ → ℕ
genmask64 h l = bit_and (u64 ((2 ^ 64 - 1) * 2 ^ l)) ((2 ^ 64 - 1) / 2 ^ (64 - h - 1))

pub record Indices : Type 0 where
  pub pgd : ℕ
  pub p4d : ℕ
  pub pud : ℕ
  pub pmd : ℕ
  pub pt : ℕ

unfoldable pub get_pd_from_address : ℕ → Indices
get_pd_from_address addr = record {
  pgd = bit_and addr (genmask64 56 48) / 2 ^ 48;
  p4d = bit_and addr (genmask64 47 39) / 2 ^ 39;
  pud = bit_and addr (genmask64 38 30) / 2 ^ 30;
  pmd = bit_and addr (genmask64 29 21) / 2 ^ 21;
  pt = bit_and addr (genmask64 20 12) / 2 ^ 12;
}

unfoldable pub get_pd_from_pagenum : ℕ → Indices
unfolding get_pd_from_address
get_pd_from_pagenum pgn = get_pd_from_address (u64 (pgn * 2 ^ 12))

-- `if (table[i] == 0) table[i] = malloc(...), memset(...)`, and then the table behind slot `i`.
abbrev pub child {ℓ} : {A : Type ℓ} → A → (ℕ → Option (ℕ → A)) → ℕ → ℕ → A
child zeroed table i = elim (table i) [ none ↦ λ _. zeroed | some c ↦ c ]

-- The walk that pte_set_swap, pte_set_fpn and vmap_pgd_memset make, with what they do to the entry.
unfoldable pub write_pmd : Pmd → ℕ → ℕ → (ℕ → ℕ) → Pmd
write_pmd t pmd pt f =
    let pt_table = child 0 t pmd in update t pmd (some (update pt_table pt (f (pt_table pt))))

unfoldable pub write_pud : Pud → ℕ → ℕ → ℕ → (ℕ → ℕ) → Pud
write_pud t pud pmd pt f = update t pud (some (write_pmd (child none t pud) pmd pt f))

unfoldable pub write_p4d : P4d → ℕ → ℕ → ℕ → ℕ → (ℕ → ℕ) → P4d
write_p4d t p4d pud pmd pt f = update t p4d (some (write_pud (child none t p4d) pud pmd pt f))

unfoldable pub write_entry : Pgd → Indices → (ℕ → ℕ) → Pgd
write_entry t i f = update t i.pgd (some (write_p4d (child none t i.pgd) i.p4d i.pud i.pmd i.pt f))

-- The walk of pte_get_entry: 0 where a table is missing.
unfoldable pub read_pmd : Pmd → ℕ → ℕ → ℕ
read_pmd t pmd pt = elim (t pmd) [ none ↦ 0 | some pt_table ↦ pt_table pt ]

unfoldable pub read_pud : Pud → ℕ → ℕ → ℕ → ℕ
read_pud t pud pmd pt = elim (t pud) [ none ↦ 0 | some c ↦ read_pmd c pmd pt ]

unfoldable pub read_p4d : P4d → ℕ → ℕ → ℕ → ℕ → ℕ
read_p4d t p4d pud pmd pt = elim (t p4d) [ none ↦ 0 | some c ↦ read_pud c pud pmd pt ]

unfoldable pub read_entry : Pgd → Indices → ℕ
read_entry t i = elim (t i.pgd) [ none ↦ 0 | some c ↦ read_p4d c i.p4d i.pud i.pmd i.pt ]

-- The walk of pte_set_entry: nothing is written where a table is missing.
unfoldable pub overwrite_pmd : Pmd → ℕ → ℕ → ℕ → Pmd
overwrite_pmd t pmd pt v = elim (t pmd) [ none ↦ t | some c ↦ update t pmd (some (update c pt v)) ]

unfoldable pub overwrite_pud : Pud → ℕ → ℕ → ℕ → ℕ → Pud
overwrite_pud t pud pmd pt v = elim (t pud) [
  | none ↦ t
  | some c ↦ update t pud (some (overwrite_pmd c pmd pt v))
]

unfoldable pub overwrite_p4d : P4d → ℕ → ℕ → ℕ → ℕ → ℕ → P4d
overwrite_p4d t p4d pud pmd pt v = elim (t p4d) [
  | none ↦ t
  | some c ↦ update t p4d (some (overwrite_pud c pud pmd pt v))
]

unfoldable pub overwrite_entry : Pgd → Indices → ℕ → Pgd
overwrite_entry t i v = elim (t i.pgd) [
  | none ↦ t
  | some c ↦ update t i.pgd (some (overwrite_p4d c i.p4d i.pud i.pmd i.pt v))
]

unfoldable pub pte_set_swap : Mm → ℕ → ℕ → ℕ → Mm
pte_set_swap mm pgn swptyp swpoff = record mm {
  pgd = write_entry mm.pgd (get_pd_from_pagenum pgn) (λ pte. mark_swap pte swptyp swpoff);
}

unfoldable pub pte_set_fpn : Mm → ℕ → ℕ → Mm
pte_set_fpn mm pgn fpn = record mm {
  pgd = write_entry mm.pgd (get_pd_from_pagenum pgn) (λ pte. mark_fpn pte fpn);
}

unfoldable pub pte_get_entry : Mm → ℕ → ℕ
pte_get_entry mm pgn = u32 (read_entry mm.pgd (get_pd_from_pagenum pgn))

unfoldable pub pte_set_entry : Mm → ℕ → ℕ → Mm
pte_set_entry mm pgn pte_val = record mm {
  pgd = overwrite_entry mm.pgd (get_pd_from_pagenum pgn) (u32 pte_val);
}

abbrev pub paging64_pagesz : ℕ
paging64_pagesz = 4096

-- vmap_pgd_memset, where the product is an `int`, with `pgnum` rounds left from round `pgit` on.
unfoldable pub memset_from : Mm → ℕ → ℕ → ℕ → Mm
memset_from mm addr zero pgit = mm
memset_from mm addr (suc pgnum) pgit =
    memset_from
      (record mm {
        pgd =
            write_entry mm.pgd
              (get_pd_from_address (u64 (addr + through_int (pgit * paging64_pagesz))))
              (λ _. 0xdeadbeef);
      })
      addr pgnum (pgit + 1)

unfoldable pub vmap_pgd_memset : Mm → ℕ → ℕ → Mm
unfolding memset_from
vmap_pgd_memset mm addr pgnum = memset_from mm addr pgnum 0

-- The loop of vmap_page_range: it ends with the pages or with the frames. The tables that it makes
-- before it calls pte_set_fpn are those that the walk of pte_set_fpn would make.
unfoldable pub map_from : Mm → ℕ → ℕ → ℕ → List ℕ → Mm
map_from mm addr zero pgit frames = mm
map_from mm addr (suc pgnum) pgit [] = mm
map_from mm addr (suc pgnum) pgit (fpn ∷ frames) =
    let pgn = u64 (addr + through_int (pgit * paging64_pagesz)) / 2 ^ 12 in
    let mapped = pte_set_fpn mm pgn fpn in
    map_from (record mapped { fifo_pgn = enlist_pgn_node mapped.fifo_pgn pgn }) addr pgnum
      (pgit + 1) frames

-- The result region, `ret_rg`, beside the new state.
unfoldable pub vmap_page_range : Mm → ℕ → ℕ → List ℕ → Region × Mm
unfolding map_from
vmap_page_range mm addr pgnum frames = (
  record { rg_start = addr; rg_end = u64 (addr + through_int (pgnum * paging64_pagesz)) },
  map_from mm addr pgnum 0 frames,
)
