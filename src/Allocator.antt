-- ===== src/Allocator.antt =====
-- src/allocator: blocks of memory, and the allocators that trade in them.
pub mod Stack
pub mod Fallback
pub mod Malloc
pub mod Dma
pub mod Spinlock
use ixy.Base.{ℕ, Bool}
use ixy.Base.Outcome.{Cmd}

-- `struct mem_blk`.
pub record MemBlk : Type 0 where
  pub ptr : ℕ
  pub size : ℕ

-- The functions of `struct allocator`, for an allocator with states `S`. The result of `deallocate`
-- is what becomes of the block that it is given.
pub record Allocator (S : Type 0) : Type 0 where
  pub allocate : ℕ → Cmd S MemBlk
  pub deallocate : MemBlk → Cmd S MemBlk
  pub owns : S → MemBlk → Bool
