-- ===== src/Allocator/Fallback/Tests.antt =====
-- A stack allocator with one slot, which is free or not, before one with a free slot elsewhere.
use ixy.Base.{ℕ, ◌≡◌, refl, arith, true, [], ◌∷◌}
use ixy.Base.Outcome.{ok, ◌>>=◌}
use ixy.Allocator.{Allocator}
use ixy.Allocator.Stack.{StackAllocator, allocate, deallocate, owns, entry_id, push}
use ixy.Allocator.Fallback.{fallback_allocator}
use ixy.Allocator.Fallback.Routing.{fallback_primary, fallback_secondary}

abbrev stack_allocator : Allocator StackAllocator
stack_allocator = record { allocate = allocate; deallocate = deallocate; owns = owns }

abbrev one_slot : ℕ → ℕ → StackAllocator
one_slot base top = record {
  base_addr = base;
  entry_size = 2048;
  num_entries = 1;
  free_stack_top = top;
  free_stack = 0 ∷ 0 ∷ [];
}

fallback_primary_example :
    let both = fallback_allocator stack_allocator stack_allocator in
    (both.owns (one_slot 4096 0, one_slot 8192 1) (record { ptr = 4096; size = 2048 }) ≡ true)
    × ((both.allocate 60 >>= both.deallocate) (one_slot 4096 1, one_slot 8192 1)
        ≡ ok (record { ptr = 0; size = 0 }, (one_slot 4096 1, one_slot 8192 1)))
unfolding allocate deallocate owns entry_id push
fallback_primary_example =
    fallback_primary stack_allocator stack_allocator 60 (one_slot 4096 1) (one_slot 8192 1)
      (record { ptr = 4096; size = 2048 }) (record { ptr = 0; size = 0 }) (one_slot 4096 0)
      (one_slot 4096 1) refl (λ e. omega (arith, e)) refl refl

fallback_secondary_example :
    let both = fallback_allocator stack_allocator stack_allocator in
    (both.owns (one_slot 4096 0, one_slot 8192 0) (record { ptr = 8192; size = 2048 }) ≡ true)
    × ((both.allocate 60 >>= both.deallocate) (one_slot 4096 0, one_slot 8192 1)
        ≡ ok (record { ptr = 0; size = 0 }, (one_slot 4096 0, one_slot 8192 1)))
unfolding allocate deallocate owns entry_id push
fallback_secondary_example =
    fallback_secondary stack_allocator stack_allocator 60 (one_slot 4096 0) (one_slot 8192 1)
      (record { ptr = 0; size = 0 }) (record { ptr = 8192; size = 2048 })
      (record { ptr = 0; size = 0 }) (one_slot 4096 0) (one_slot 8192 0) (one_slot 8192 1) refl refl
      refl refl refl refl
