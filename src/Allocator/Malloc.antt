-- ===== src/Allocator/Malloc.antt =====
-- src/allocator/mallocator.c and src/allocator/null_allocator.c, without NDEBUG.
--
-- What `malloc` returns is a parameter. The state is the number of its calls and the blocks that
-- were not freed: `free` of anything else but `NULL` is undefined.
pub mod Behind
pub mod Tests
use ixy.Base.{ℕ, ◌+◌, Bool, true, false, List, [], ◌∷◌, ◌==◌, ◌&&◌, if◌then◌else◌}
use ixy.Base.Outcome.{Cmd, ◌>>=◌, ◌>>◌, pure, gets, modify, abort, undefined}
use ixy.Base.Members.{member, remove}
use ixy.Allocator.{MemBlk, Allocator}

pub record Arena : Type 0 where
  pub calls : ℕ
  pub live : List ℕ

-- `free(ptr)`.
unfoldable pub free : ℕ → Cmd Arena (Unit {0})
free ptr = do
  a ← gets (λ a. a)
  if ptr == 0
      then pure tt
      else if member ptr a.live
      then modify (λ a. record a { live = remove ptr a.live })
      else undefined

abbrev pub cleared : MemBlk
cleared = record { ptr = 0; size = 0 }

module _ (malloc : ℕ → ℕ → ℕ) where
  -- `malloc(size)`.
  unfoldable pub call_malloc : ℕ → Cmd Arena ℕ
  call_malloc size = do
    a ← gets (λ a. a)
    let ptr = malloc a.calls size
    modify (λ a. record { calls = a.calls + 1; live = if ptr == 0 then a.live else ptr ∷ a.live })
    pure ptr

  -- The size is that of the request also if there is no memory.
  unfoldable pub mallocator_allocate : ℕ → Cmd Arena MemBlk
  unfolding call_malloc
  mallocator_allocate size = do ptr ← call_malloc size; pure (record { ptr = ptr; size = size })

  abbrev pub mallocator_owns : Arena → MemBlk → Bool
  mallocator_owns a blk = true

unfoldable pub mallocator_deallocate : MemBlk → Cmd Arena MemBlk
unfolding free
mallocator_deallocate blk = do free blk.ptr; pure cleared

abbrev pub mallocator : (ℕ → ℕ → ℕ) → Allocator Arena
mallocator malloc = record {
  allocate = mallocator_allocate malloc;
  deallocate = mallocator_deallocate;
  owns = mallocator_owns malloc;
}

-- The null allocator has no state. It leaves the block that it is given as it is.
abbrev pub null_allocator_allocate : ℕ → Cmd (Unit {0}) MemBlk
null_allocator_allocate size = pure cleared

abbrev pub null_allocator_deallocate : MemBlk → Cmd (Unit {0}) MemBlk
null_allocator_deallocate blk = if blk.ptr == 0 && blk.size == 0 then pure blk else abort

abbrev pub null_allocator_owns : Unit {0} → MemBlk → Bool
null_allocator_owns u blk = false

abbrev pub null_allocator : Allocator (Unit {0})
null_allocator = record {
  allocate = null_allocator_allocate;
  deallocate = null_allocator_deallocate;
  owns = null_allocator_owns;
}
