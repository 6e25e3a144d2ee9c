-- ===== src/Allocator/Fallback/Routing.antt =====
-- A block goes back to the allocator that it is from.
use ixy.Base.{ℕ, ◌≡◌, ◌≢◌, refl, true, false, ==_ne}
use ixy.Base.Outcome.{ok, ◌>>=◌}
use ixy.Allocator.{MemBlk, Allocator}
use ixy.Allocator.Fallback.{fallback_allocate, fallback_deallocate, fallback_allocator}

module _ {S T : Type 0} (primary : Allocator S) (secondary : Allocator T) (size : ℕ) (s : S)
    (t : T) where
  -- If the first allocator grants a request with a block that is not `NULL` and that it owns, the
  -- fallback allocator owns the block, and allocating and returning it through the fallback
  -- allocator ends as with the first alone; the second is not touched.
  pub fallback_primary :
      (blk done : MemBlk) (s1 s2 : S)
      → primary.allocate size s ≡ ok (blk, s1)
      → blk.ptr ≢ 0
      → primary.owns s1 blk ≡ true
      → primary.deallocate blk s1 ≡ ok (done, s2)
      → let both = fallback_allocator primary secondary in
        (both.owns (s1, t) blk ≡ true)
        × ((both.allocate size >>= both.deallocate) (s, t) ≡ ok (done, (s2, t)))
  unfolding fallback_allocate fallback_deallocate
  fallback_primary blk done s1 s2 alloc ne owned dealloc =
      (rw owned refl, rw (alloc, ==_ne _ _ ne, owned, dealloc) refl)

  -- If the first allocator refuses a request and the second grants it with a block that it owns and
  -- the first does not, the fallback allocator owns the block, and allocating and returning it
  -- through the fallback allocator ends as with the second alone.
  pub fallback_secondary :
      (null blk done : MemBlk) (s1 : S) (t1 t2 : T)
      → primary.allocate size s ≡ ok (null, s1)
      → null.ptr ≡ 0
      → secondary.allocate size t ≡ ok (blk, t1)
      → primary.owns s1 blk ≡ false
      → secondary.owns t1 blk ≡ true
      → secondary.deallocate blk t1 ≡ ok (done, t2)
      → let both = fallback_allocator primary secondary in
        (both.owns (s1, t1) blk ≡ true)
        × ((both.allocate size >>= both.deallocate) (s, t) ≡ ok (done, (s1, t2)))
  unfolding fallback_allocate fallback_deallocate
  fallback_secondary null blk done s1 t1 t2 alloc none other foreign owned dealloc =
      (rw (foreign, owned) refl, rw (alloc, none, other, foreign, dealloc) refl)
