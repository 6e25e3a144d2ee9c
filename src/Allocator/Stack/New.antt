-- ===== src/Allocator/Stack/New.antt =====
-- src/allocator/stack_allocator.c: `stack_allocator_new` and `stack_allocator_free`, for any parent.
pub mod Full
mod Tests
use ixy.Base.{
  ℕ, zero, suc, ◌+◌, ◌*◌, ◌==◌, if◌then◌else◌, Option, none, some, List, u32, set, replicate,
}
use ixy.Base.Outcome.{Cmd, ◌>>=◌, ◌>>◌, pure}
use ixy.Allocator.{Allocator}
use ixy.Allocator.Stack.{StackAllocator}

-- The size of an entry, with its default.
unfoldable pub default_size : ℕ → ℕ
default_size entry_size = if entry_size == 0 then 2048 else entry_size

-- `free_stack[i] = i`, …, with `left` rounds to go.
abbrev pub number_slots : ℕ → ℕ → List ℕ → List ℕ
number_slots zero i stack = stack
number_slots (suc left) i stack = number_slots left (i + 1) (set stack i i)

module _ {S : Type 0} (parent : Allocator S) where
  -- The arguments are `free`, and what `malloc` returns for the struct. `none` is `NULL`.
  unfoldable pub stack_allocator_new :
      (ℕ → Cmd S (Unit {0})) → ℕ → ℕ → ℕ → Cmd S (Option StackAllocator)
  stack_allocator_new free sa num_entries entry_size =
      let size = default_size entry_size in
      if sa == 0 then pure none else do
        mem ← parent.allocate (u32 (num_entries * size))
        if mem.ptr == 0
            then free sa >> pure none
            else pure (
                some (record {
                  base_addr = mem.ptr;
                  entry_size = size;
                  num_entries = num_entries;
                  free_stack_top = num_entries;
                  free_stack = number_slots num_entries 0 (replicate (num_entries + 1) 0);
                }))

  unfoldable pub stack_allocator_free : StackAllocator → Cmd S (Unit {0})
  stack_allocator_free a = do
    _ ← parent.deallocate (record { ptr = a.base_addr; size = u32 (a.num_entries * a.entry_size) })
    pure tt
