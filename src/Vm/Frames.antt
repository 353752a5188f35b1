-- ===== src/Vm/Frames.antt =====
-- src/mm64.c: alloc_pages_range takes all the frames that were asked for, or none.
use hdh.Base.{ℕ, zero, suc, ◌<◌, ◌≡◌, refl, ap, ◌∙◌, none, some, List, [], ◌∷◌, ◌++◌, length, arith}
use hdh.Memphy.{Memphy, get_freefp, put_freefp}
use hdh.Vm.{rollback, minus_one, alloc_pages_range}

-- The entries of the first list, last one first, in front of the second.
abbrev pub rev_append : List ℕ → List ℕ → List ℕ
rev_append [] ys = ys
rev_append (x ∷ xs) ys = rev_append xs (x ∷ ys)

rollback_lem :
    (mp : Memphy) (frm_lst : List ℕ)
    → rollback mp frm_lst ≡ record mp { free_fp_list = rev_append frm_lst mp.free_fp_list }
unfolding rollback put_freefp
rollback_lem mp [] = refl
rollback_lem mp (f ∷ frm_lst) = rollback_lem (put_freefp mp f) frm_lst

get_freefp-nil : (mp : Memphy) → mp.free_fp_list ≡ [] → (get_freefp mp).0 ≡ none
unfolding get_freefp
get_freefp-nil mp e = ground (arith, e)

get_freefp-cons :
    (mp : Memphy) (f : ℕ) (rest : List ℕ)
    → mp.free_fp_list ≡ f ∷ rest
    → get_freefp mp ≡ (some f, record mp { free_fp_list = rest })
unfolding get_freefp
get_freefp-cons mp f rest e = ground (arith, e)

alloc_step :
    (n : ℕ) (mp mp' : Memphy) (taken : List ℕ) (f : ℕ)
    → get_freefp mp ≡ (some f, mp')
    → alloc_pages_range (suc n) mp taken ≡ alloc_pages_range n mp' (f ∷ taken)
unfolding alloc_pages_range
alloc_step n mp mp' taken f g =
    rw (ap (λ r. r.0) g, alloc_pages_range) (ap (λ r. alloc_pages_range n r.1 (f ∷ taken)) g)

-- `taken` is what has been handed out so far.
alloc_from-success :
    (n : ℕ) (mp : Memphy) (taken first rest : List ℕ)
    → mp.free_fp_list ≡ first ++ rest
    → length first ≡ n
    → alloc_pages_range n mp taken ≡ (0, rev_append first taken, record mp { free_fp_list = rest })
unfolding alloc_pages_range
alloc_from-success zero mp taken [] rest e l = λ i. (0, taken, record mp { free_fp_list = e i })
alloc_from-success zero mp taken (f ∷ first) rest e l = absurd (omega arith)
alloc_from-success (suc n) mp taken [] rest e l = absurd (omega arith)
alloc_from-success (suc n) mp taken (f ∷ first) rest e l =
    alloc_step n mp _ taken f (get_freefp-cons mp f (first ++ rest) e)
    ∙ alloc_from-success n (record mp { free_fp_list = first ++ rest }) (f ∷ taken) first rest refl
        (omega arith)

alloc_from-failure :
    (n : ℕ) (mp : Memphy) (taken free : List ℕ)
    → mp.free_fp_list ≡ free
    → length free < n
    → alloc_pages_range n mp taken
      ≡ (minus_one, [], record mp { free_fp_list = rev_append taken free })
unfolding alloc_pages_range
alloc_from-failure zero mp taken free e l = absurd (omega arith)
alloc_from-failure (suc n) mp taken [] e l =
    rw (get_freefp-nil mp e, alloc_pages_range)
      (ap (λ m. (minus_one, [], m)) (rollback_lem mp taken) ∙ λ i.
        (minus_one, [], record mp { free_fp_list = rev_append taken (e i) }))
alloc_from-failure (suc n) mp taken (f ∷ free) e l =
    alloc_step n mp _ taken f (get_freefp-cons mp f free e)
    ∙ alloc_from-failure n (record mp { free_fp_list = free }) (f ∷ taken) free refl (omega arith)

-- With enough free frames alloc_pages_range hands out the first `n` of them, the last one first,
-- and the rest stay free.
pub alloc_pages_range-success :
    (mp : Memphy) (first rest : List ℕ)
    → mp.free_fp_list ≡ first ++ rest
    → alloc_pages_range (length first) mp []
      ≡ (0, rev_append first [], record mp { free_fp_list = rest })
alloc_pages_range-success mp first rest e =
    alloc_from-success (length first) mp [] first rest e refl

-- With fewer free frames than it is asked for, alloc_pages_range hands out none, returns -1, and
-- leaves the device exactly as it was, the free frames in their old order.
pub alloc_pages_range-failure :
    (n : ℕ) (mp : Memphy)
    → length mp.free_fp_list < n
    → alloc_pages_range n mp [] ≡ (minus_one, [], mp)
alloc_pages_range-failure n mp h = alloc_from-failure n mp [] mp.free_fp_list refl h
