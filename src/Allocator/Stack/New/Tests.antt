-- ===== src/Allocator/Stack/New/Tests.antt =====
-- A stack allocator of four slots of 64 bytes, in memory from `malloc`.
use ixy.Base.{◌≡◌, refl, arith, some, [], ◌∷◌}
use ixy.Base.Outcome.{ok}
use ixy.Memory.New.{countdown}
use ixy.Allocator.Malloc.{
  Arena, cleared, free, call_malloc, mallocator_allocate, mallocator_deallocate, mallocator,
}
use ixy.Allocator.Malloc.Tests.{pages, fresh}
use ixy.Allocator.Stack.{StackAllocator}
use ixy.Allocator.Stack.Slots.{IsValid, free_slots}
use ixy.Allocator.Stack.New.{default_size, stack_allocator_new, stack_allocator_free}
use ixy.Allocator.Stack.New.Full.{stack_allocator_new-full}

abbrev in_use : Arena
in_use = record { calls = 1; live = 0x1000 ∷ [] }

stack_allocator_new-full_example :
    (a : StackAllocator) × (stack_allocator_new (mallocator pages) free 0x500 4 64 fresh
      ≡ ok (some a, in_use))
    × IsValid a
    × (free_slots a ≡ countdown 4)
    × (stack_allocator_free (mallocator pages) a in_use ≡ ok (tt, record { calls = 1; live = [] }))
unfolding default_size mallocator_allocate mallocator_deallocate call_malloc free
stack_allocator_new-full_example =
    stack_allocator_new-full (mallocator pages) 0x500 4 64 (record { ptr = 0x1000; size = 256 })
      fresh in_use free cleared in_use (record { calls = 1; live = [] }) (λ e. omega (arith, e))
      refl (λ e. omega (arith, e)) (omega arith) refl
