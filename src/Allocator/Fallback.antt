-- ===== src/Allocator/Fallback.antt =====
-- src/allocator/fallback_allocator.c: an allocator that asks a second one when the first fails.
--
-- The state is that of the two allocators.
pub mod Routing
pub mod New
mod Tests
use ixy.Base.{ℕ, Bool, ◌==◌, ◌||◌, if◌then◌else◌}
use ixy.Base.Outcome.{Cmd, ◌>>=◌, pure, gets, zoom}
use ixy.Allocator.{MemBlk, Allocator}

module _ {S T : Type 0} (primary : Allocator S) (secondary : Allocator T) where
  abbrev on_primary : {A : Type 0} → Cmd S A → Cmd (S × T) A
  on_primary = zoom (λ st. st.0) (λ st s. (s, st.1))

  abbrev on_secondary : {A : Type 0} → Cmd T A → Cmd (S × T) A
  on_secondary = zoom (λ st. st.1) (λ st t. (st.0, t))

  unfoldable pub fallback_allocate : ℕ → Cmd (S × T) MemBlk
  fallback_allocate size = do
    blk ← on_primary (primary.allocate size)
    if blk.ptr == 0 then on_secondary (secondary.allocate size) else pure blk

  unfoldable pub fallback_deallocate : MemBlk → Cmd (S × T) MemBlk
  fallback_deallocate blk = do
    owned ← gets (λ st. primary.owns st.0 blk)
    if owned then on_primary (primary.deallocate blk) else on_secondary (secondary.deallocate blk)

  abbrev pub fallback_owns : S × T → MemBlk → Bool
  fallback_owns st blk = primary.owns st.0 blk || secondary.owns st.1 blk

  abbrev pub fallback_allocator : Allocator (S × T)
  fallback_allocator = record {
    allocate = fallback_allocate;
    deallocate = fallback_deallocate;
    owns = fallback_owns;
  }
