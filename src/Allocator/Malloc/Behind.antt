-- ===== src/Allocator/Malloc/Behind.antt =====
-- What the mallocator gives it takes back, also behind the null allocator, as
-- src/app/allocator-example.c combines them.
use ixy.Base.{ℕ, ◌+◌, ◌≡◌, ◌≢◌, refl, ap, true, List, ◌∷◌, ==_ne}
use ixy.Base.Outcome.{ok, put_back}
use ixy.Base.Members.{member_self, remove_self}
use ixy.Allocator.{MemBlk}
use ixy.Allocator.Fallback.{fallback_allocate, fallback_deallocate, fallback_owns}
use ixy.Allocator.Malloc.{
  Arena, cleared, free, call_malloc, mallocator_allocate, mallocator_deallocate, mallocator,
  null_allocator,
}

pub free_live :
    (p n : ℕ) (ps : List ℕ)
    → p ≢ 0
    → free p (record { calls = n; live = p ∷ ps }) ≡ ok (tt, record { calls = n; live = ps })
unfolding free
free_live p n ps there =
    rw (==_ne p 0 there, member_self p ps)
      (ap (λ l. ok (tt, record { calls = n; live = l })) (remove_self p ps))

pub mallocator_deallocate-live :
    (p size n : ℕ) (ps : List ℕ)
    → p ≢ 0
    → mallocator_deallocate (record { ptr = p; size = size }) (record { calls = n; live = p ∷ ps })
      ≡ ok (cleared, record { calls = n; live = ps })
unfolding mallocator_deallocate
mallocator_deallocate-live p size n ps there = rw (free_live p n ps there) refl

module _ (malloc : ℕ → ℕ → ℕ) where
  -- The fallback allocator of the null allocator and the mallocator does what the mallocator does,
  -- for every request and every block returned, and it owns every block.
  pub behind_null :
      (size : ℕ) (blk : MemBlk) (a : Arena)
      → (fallback_allocate null_allocator (mallocator malloc) size (tt, a)
          ≡ put_back (λ a'. (tt, a')) (mallocator_allocate malloc size a))
        × (fallback_deallocate null_allocator (mallocator malloc) blk (tt, a)
            ≡ put_back (λ a'. (tt, a')) (mallocator_deallocate blk a))
        × (fallback_owns null_allocator (mallocator malloc) (tt, a) blk ≡ true)
  unfolding fallback_allocate fallback_deallocate
  behind_null size blk a = (refl, refl, refl)

  -- If `malloc` has memory, a block of the mallocator has the size of the request, and returning it
  -- leaves the blocks in use as they were.
  pub mallocator_deallocate-mallocator_allocate :
      (size : ℕ) (a : Arena)
      → malloc a.calls size ≢ 0
      → (blk : MemBlk) × (a' : Arena) × (a'' : Arena) × (mallocator_allocate malloc size a
          ≡ ok (blk, a'))
        × (blk.size ≡ size)
        × (mallocator_deallocate blk a' ≡ ok (cleared, a''))
        × (a''.live ≡ a.live)
  unfolding mallocator_allocate mallocator_deallocate call_malloc
  mallocator_deallocate-mallocator_allocate size a there =
      let p = malloc a.calls size in
      (
        record { ptr = p; size = size },
        record { calls = a.calls + 1; live = p ∷ a.live },
        record { calls = a.calls + 1; live = a.live },
        rw (==_ne p 0 there) refl,
        refl,
        rw (free_live p (a.calls + 1) a.live there) refl,
        refl,
      )
