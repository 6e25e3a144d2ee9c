-- ===== src/Allocator/Fallback/New.antt =====
-- src/allocator/fallback_allocator.c: making and freeing the struct of a fallback allocator.
use ixy.Base.{ℕ, ◌+◌, ◌≡◌, ◌≢◌, refl, ltb, ◌==◌, if◌then◌else◌, ==_ne}
use ixy.Base.Outcome.{Cmd, ok, ◌>>=◌, pure, undefined}
use ixy.Allocator.{Allocator}
use ixy.Allocator.Malloc.{Arena, free, call_malloc}
use ixy.Allocator.Malloc.Behind.{free_live}
use ixy.Allocator.Fallback.{fallback_allocator}

-- `struct fallback_allocator` at the address `self`. The functions hold the two allocators.
pub record FallbackAllocator (S : Type 0) : Type 0 where
  pub self : ℕ
  pub alignment : ℕ
  pub functions : Allocator S

abbrev pub min : ℕ → ℕ → ℕ
min a b = if ltb a b then a else b

module _ {S T : Type 0} (malloc : ℕ → ℕ → ℕ) where
  -- The numbers are the alignments of the two allocators. To write to `NULL` is undefined.
  unfoldable pub fallback_allocator_new :
      ℕ → Allocator S → ℕ → Allocator T → Cmd Arena (FallbackAllocator (S × T))
  fallback_allocator_new alignment1 primary alignment2 secondary = do
    fb ← call_malloc malloc 48
    if fb == 0
        then undefined
        else pure (record {
          self = fb;
          alignment = min alignment1 alignment2;
          functions = fallback_allocator primary secondary;
        })

abbrev pub fallback_allocator_free : {S : Type 0} → FallbackAllocator S → Cmd Arena (Unit {0})
fallback_allocator_free a = free a.self

-- If there is memory, making and freeing a fallback allocator leaves the blocks in use as they were.
fallback_allocator_free-fallback_allocator_new :
    {S T : Type 0} (malloc : ℕ → ℕ → ℕ) (al1 al2 : ℕ)
    → (primary : Allocator S) (secondary : Allocator T) (a : Arena) → malloc a.calls 48 ≢ 0
    → (fallback_allocator_new malloc al1 primary al2 secondary >>= fallback_allocator_free) a
      ≡ ok (tt, record a { calls = a.calls + 1 })
unfolding fallback_allocator_new call_malloc
fallback_allocator_free-fallback_allocator_new malloc al1 al2 primary secondary a there =
    let p = malloc a.calls 48 in rw (==_ne p 0 there, free_live p (a.calls + 1) a.live there) refl
