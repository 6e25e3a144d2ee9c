-- ===== src/Ixgbe/Tx/Freed.antt =====
-- The buffers that step 1 of `ixgbe_tx_packet` frees go back to their pool.
use ixy.Base.{ℕ, ◌<◌, ◌≡◌, refl, List, [], ◌∷◌, map}
use ixy.Base.Outcome.{ok}
use ixy.Memory.{Heap, Mempool, put_pool}
use ixy.Memory.Stack.{NotIn}
use ixy.Memory.Pool.{IsPool, free_ids, entry_addr, pushed, pkt_buf_free_push}
use ixy.Ixgbe.Tx.Clean.{free_all}

-- Entries that are in use, in the order they come back: each is one of the pool, and is not free
-- when its turn comes.
abbrev pub AreInUse : ℕ → List ℕ → List ℕ → Type 0
AreInUse n free [] = Unit
AreInUse n free (i ∷ is) = (i < n) × NotIn i free × AreInUse n (i ∷ free) is

-- The free entries after they came back: the last one is on top.
abbrev pub pushed_all : List ℕ → List ℕ → List ℕ
pushed_all free [] = free
pushed_all free (i ∷ is) = pushed_all (i ∷ free) is

-- The buffers of entries in use of one pool can all be freed: the pool stays valid, and they are
-- its next free entries, the last one freed on top.
pub free_all-IsPool :
    {h : Heap} {p : ℕ} {m : Mempool} (v : IsPool h p m) (is : List ℕ)
    → AreInUse m.num_entries (free_ids m) is
    → (h' : Heap) × (m' : Mempool) × (free_all (map (entry_addr m) is) h ≡ ok (tt, h'))
      × IsPool h' p m'
      × (free_ids m' ≡ pushed_all (free_ids m) is)
unfolding free_all
free_all-IsPool {h} {p} {m} v [] used = (h, m, refl, v, refl)
free_all-IsPool {h} {p} {m} v (i ∷ is) (lt, fresh, used) =
    let (frees, view, valid) = pkt_buf_free_push v i lt fresh in
    let (h', m', all, valid', view') =
      free_all-IsPool {h = put_pool p (pushed m i) h} {m = pushed m i} valid is (rw view used) in
    (h', m', rw frees all, valid', rw view at view')
