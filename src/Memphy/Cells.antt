-- ===== src/Memphy/Cells.antt =====
-- src/mm-memphy.c: reading and writing cells.
use hdh.Base.{
  ℕ, ◌<◌, ◌≡◌, ◌≢◌, refl, sym, ==_self, ==_ne, lt→ltb, true, false, none, some, ok, failed,
}
use hdh.Memphy.{Memphy, store, memphy_read, memphy_write}

pub memphy_read-random :
    (mp : Memphy) (a : ℕ)
    → mp.rdmflg ≡ true
    → a < mp.maxsz
    → memphy_read mp a ≡ some (some (mp.storage a), mp)
unfolding memphy_read
memphy_read-random mp a random inside = rw (random, lt→ltb a mp.maxsz inside)

pub memphy_write-random :
    (mp : Memphy) (a v : ℕ)
    → mp.rdmflg ≡ true
    → a < mp.maxsz
    → memphy_write mp a v ≡ some (ok, record mp { storage = store mp.storage a v })
unfolding memphy_write
memphy_write-random mp a v random inside = rw (random, lt→ltb a mp.maxsz inside)

-- On a random access device, a byte that is written to a cell of the storage is read back, and
-- the other cells and the free frames are as before.
pub memphy_read-memphy_write :
    (mp : Memphy) (a v : ℕ)
    → mp.rdmflg ≡ true
    → a < mp.maxsz
    → (mp' : Memphy) × (memphy_write mp a v ≡ some (ok, mp'))
      × (memphy_read mp' a ≡ some (some v, mp'))
      × ((b : ℕ) → b ≢ a → mp'.storage b ≡ mp.storage b)
      × (mp'.free_fp_list ≡ mp.free_fp_list)
unfolding memphy_read memphy_write
memphy_read-memphy_write mp a v random inside = (
  record mp { storage = store mp.storage a v },
  rw (random, lt→ltb a mp.maxsz inside),
  rw (random, lt→ltb a mp.maxsz inside, ==_self a),
  λ b h. rw (==_ne a b (λ e. h (sym e))),
  refl,
)

-- A device that is not a random access device refuses every read and write and stays as it is.
pub sequential_refuses :
    (mp : Memphy) (a v : ℕ)
    → mp.rdmflg ≡ false
    → (memphy_read mp a ≡ some (none, mp)) × (memphy_write mp a v ≡ some (failed, mp))
unfolding memphy_read memphy_write
sequential_refuses mp a v h = (rw h, rw h)
