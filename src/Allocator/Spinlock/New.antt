-- ===== src/Allocator/Spinlock/New.antt =====
-- src/allocator/spinlock_stack_allocator.c: `spinlock_stack_allocator_new`,
-- `spinlock_stack_allocator_free` and `owns`.
pub mod Safe
use ixy.Base.{
  ℕ, ◌+◌, ◌*◌, ◌==◌, ◌&&◌, Bool, if◌then◌else◌, leb, ltb, Option, none, some, [], u32, replicate,
}
use ixy.Base.Outcome.{Cmd, hung, ◌>>=◌, ◌>>◌, pure}
use ixy.Allocator.{MemBlk, Allocator}
use ixy.Allocator.Stack.New.{default_size, number_slots}
use ixy.Allocator.Spinlock.{Spinlock, Shared, outside}

module _ {S L : Type 0} (parent : Allocator S) (spin : Spinlock L) (init : L) where
  -- The arguments are `free`, and what `malloc` returns for the struct; `init` is the lock after
  -- `rte_spinlock_init`.
  unfoldable pub spinlock_stack_allocator_new :
      (ℕ → Cmd S (Unit {0})) → ℕ → ℕ → ℕ → Cmd S (Option (Shared L))
  spinlock_stack_allocator_new free sa num_entries entry_size =
      let size = default_size entry_size in
      if sa == 0 then pure none else do
        mem ← parent.allocate (u32 (num_entries * size))
        if mem.ptr == 0
            then free sa >> pure none
            else pure (
                some (record {
                  alloc = record {
                    base_addr = mem.ptr;
                    entry_size = size;
                    num_entries = num_entries;
                    free_stack_top = num_entries;
                    free_stack = number_slots num_entries 0 (replicate (num_entries + 1) 0);
                  };
                  lock = init;
                  pc = λ t. outside;
                  held = λ t. [];
                }))

  -- It does not end while the lock is held. The lock is given back before the struct is freed.
  unfoldable pub spinlock_stack_allocator_free : Shared L → Cmd S (Unit {0})
  spinlock_stack_allocator_free s = elim (spin.acquire s.lock) [
    | none ↦ λ st. hung
    | some l ↦ do
      let size = u32 (s.alloc.num_entries * s.alloc.entry_size)
      _ ← parent.deallocate (record { ptr = s.alloc.base_addr; size = size })
      pure tt
  ]

unfoldable pub owns : {L : Type 0} → Shared L → MemBlk → Bool
owns s blk =
    leb s.alloc.base_addr blk.ptr
    && ltb blk.ptr (s.alloc.base_addr + u32 (s.alloc.num_entries * s.alloc.entry_size))
