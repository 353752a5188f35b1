-- ===== src/Memphy.antt =====
-- src/mm-memphy.c: a physical memory device, RAM or swap, and its list of free frames. The pointer
-- `mp` is never NULL here. An access at or beyond `maxsz` is outside `storage`: a fault.
pub mod Cells
pub mod Frames
use hdh.Base.{
  ℕ, zero, suc, ◌+◌, ◌-◌, ◌/◌, ◌%◌, ◌^◌, ◌==◌, ltb, if◌then◌else◌, Bool, true, false, not, ◌&&◌,
  Option, none, some, check, ◌>>=◌, ◌>>◌, Status, ok, failed, List, [], ◌∷◌,
}
use hdh.Base.Word.{through_int}

abbrev pub paging_pagesz : ℕ
paging_pagesz = 256

-- `struct memphy_struct`. A frame list is the list of its `fpn`s.
pub record Memphy : Type 0 where
  pub storage : ℕ → ℕ
  pub maxsz : ℕ
  pub rdmflg : Bool
  pub cursor : ℕ
  pub free_fp_list : List ℕ
  pub used_fp_list : List ℕ

-- The `while` of MEMPHY_mv_csr; it stops by `numstep < maxsz` within `maxsz` rounds.
unfoldable pub csr_loop : ℕ → ℕ → ℕ → Memphy → Memphy
csr_loop zero numstep offset mp = mp
csr_loop (suc fuel) numstep offset mp =
    let rest =
      csr_loop fuel (numstep + 1) offset (record mp { cursor = (mp.cursor + 1) % mp.maxsz }) in
    if ltb numstep offset && ltb numstep mp.maxsz then rest else mp

unfoldable pub mv_csr : Memphy → ℕ → Memphy
unfolding csr_loop
mv_csr mp offset = csr_loop (mp.maxsz + 1) 0 offset (record mp { cursor = 0 })

abbrev pub store : (ℕ → ℕ) → ℕ → ℕ → ℕ → ℕ
store f a v b = if a == b then v else f b

-- A read returns the byte, or `none` for -1.
unfoldable pub seq_read : Memphy → ℕ → Option (Option ℕ × Memphy)
unfolding mv_csr
seq_read mp addr =
    if not mp.rdmflg
    then some (none, mp)
    else (do check (ltb addr mp.maxsz); some (some (mp.storage addr), mv_csr mp addr))

unfoldable pub memphy_read : Memphy → ℕ → Option (Option ℕ × Memphy)
unfolding seq_read
memphy_read mp addr =
    if mp.rdmflg
    then (do check (ltb addr mp.maxsz); some (some (mp.storage addr), mp))
    else seq_read mp addr

unfoldable pub seq_write : Memphy → ℕ → ℕ → Option (Status × Memphy)
unfolding mv_csr
seq_write mp addr value = if not mp.rdmflg then some (failed, mp) else (do
  check (ltb addr mp.maxsz)
  let moved = mv_csr mp addr
  some (ok, record moved { storage = store moved.storage addr value }))

unfoldable pub memphy_write : Memphy → ℕ → ℕ → Option (Status × Memphy)
unfolding seq_write
memphy_write mp addr value =
    if mp.rdmflg
    then (do
      check (ltb addr mp.maxsz)
      some (ok, record mp { storage = store mp.storage addr value }))
    else seq_write mp addr value

-- The nodes that the loop of MEMPHY_format links, `n` of them from `iter` on.
unfoldable pub link_frames : ℕ → ℕ → List ℕ
link_frames zero iter = []
link_frames (suc n) iter = iter ∷ link_frames n (iter + 1)

-- A negative size has no frames. With one frame the loop makes no round, and the `fp_next` of the only node keeps what `malloc`
-- left there: `junk`.
unfoldable pub format : List ℕ → Memphy → ℕ → Status × Memphy
unfolding link_frames
format junk mp pagesz =
    let numfp = if ltb mp.maxsz (2 ^ 63) then mp.maxsz / pagesz else 0 in
    if numfp == 0
    then (failed, mp)
    else (ok, record mp { free_fp_list = if numfp == 1 then 0 ∷ junk else link_frames numfp 0 })

unfoldable pub get_freefp : Memphy → Option ℕ × Memphy
get_freefp mp = elim mp.free_fp_list [
  | [] ↦ (none, mp)
  | fpn ∷ rest ↦ (some fpn, record mp { free_fp_list = rest })
]

unfoldable pub put_freefp : Memphy → ℕ → Memphy
put_freefp mp fpn = record mp { free_fp_list = fpn ∷ mp.free_fp_list }

-- `mp` as it was before the call; the status of MEMPHY_format is not looked at. `maxsz` is an `int`,
-- kept sign-extended, as a comparison with an address takes it; the storage is taken to have that
-- size, which is less than what was allocated when `max_size` does not fit.
unfoldable pub init_memphy : List ℕ → Memphy → ℕ → Bool → Memphy
unfolding format
init_memphy junk mp max_size randomflg =
    let zeroed = record mp { storage = λ _. 0; maxsz = through_int max_size } in
    let formatted = (format junk zeroed paging_pagesz).1 in
    record formatted { rdmflg = randomflg; cursor = if randomflg then formatted.cursor else 0 }
