-- ===== src/Memory/RoundTrip.antt =====
-- A buffer that is taken and given back.
use ixy.Base.{ℕ, ◌≡◌, ◌≢◌, refl, List, [], ◌∷◌}
use ixy.Base.Outcome.{ok, ◌>>=◌}
use ixy.Memory.{Heap, Mempool, pkt_buf_alloc, pkt_buf_free}
use ixy.Memory.Pool.{IsPool, free_ids, pkt_buf_alloc_pop, pkt_buf_free_push}

-- Allocating a buffer of a pool that is not empty and freeing it succeeds, and leaves a valid pool
-- with the same free entries in the same order.
pub pkt_buf_free-pkt_buf_alloc :
    {h : Heap} {p : ℕ} {m : Mempool} (v : IsPool h p m)
    → free_ids m ≢ []
    → (h' : Heap) × (m' : Mempool) × ((pkt_buf_alloc p >>= pkt_buf_free) h ≡ ok (tt, h'))
      × IsPool h' p m'
      × (free_ids m' ≡ free_ids m)
pkt_buf_free-pkt_buf_alloc {h} {p} {m} v some_free = by_view (free_ids m) refl
  where
    by_view :
        (ids : List ℕ)
        → free_ids m ≡ ids
        → (h' : Heap) × (m' : Mempool) × ((pkt_buf_alloc p >>= pkt_buf_free) h ≡ ok (tt, h'))
          × IsPool h' p m'
          × (free_ids m' ≡ free_ids m)
    by_view [] e = absurd (some_free e)
    by_view (i ∷ rest) e =
        let (allocs, lt, tail, valid) = pkt_buf_alloc_pop v i rest e in
        let fresh = (rw e at v.distinct).0 in
        let (frees, view, valid') = pkt_buf_free_push valid i lt (rw tail fresh) in
        (_, _, rw allocs frees, valid', rw e (rw tail at view))
