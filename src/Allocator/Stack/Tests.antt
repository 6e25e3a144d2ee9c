-- ===== src/Allocator/Stack/Tests.antt =====
-- A stack allocator with two slots, the first of them free.
use ixy.Base.{◌≡◌, refl, arith, true, false, [], ◌∷◌}
use ixy.Base.Outcome.{ok}
use ixy.Allocator.Stack.{StackAllocator, allocate, deallocate, owns}
use ixy.Allocator.Stack.Slots.{
  IsValid, IsSameBlock, slot, free_slots, allocate_lem, deallocate_lem, deallocate_end,
}

abbrev two_slots : StackAllocator
two_slots = record {
  base_addr = 0x200000;
  entry_size = 2048;
  num_entries = 2;
  free_stack_top = 1;
  free_stack = 0 ∷ 1 ∷ 0 ∷ [];
}

two_slots-IsValid : IsValid two_slots
two_slots-IsValid = record {
  room = omega arith;
  fits = omega arith;
  positive = omega arith;
  below = (omega arith, tt);
  distinct = (tt, tt);
}

allocate_lem_example :
    (a' : StackAllocator) × (allocate 60 two_slots ≡ ok (slot two_slots 0, a'))
    × (owns a' (slot two_slots 0) ≡ true)
    × IsValid a'
    × (free_slots a' ≡ [])
    × IsSameBlock two_slots a'
allocate_lem_example = allocate_lem two_slots two_slots-IsValid 0 [] 60 refl (omega arith)

deallocate_lem_example :
    (a' : StackAllocator) × (deallocate (slot two_slots 1) two_slots
      ≡ ok (record { ptr = 0; size = 0 }, a'))
    × IsValid a'
    × (free_slots a' ≡ 1 ∷ 0 ∷ [])
    × IsSameBlock two_slots a'
deallocate_lem_example =
    deallocate_lem two_slots two_slots-IsValid 1 (omega arith) ((λ e. omega (arith, e)), tt)

deallocate_end_example :
    (a' : StackAllocator) × (deallocate (slot two_slots 2) two_slots
      ≡ ok (record { ptr = 0; size = 0 }, a'))
    × (owns two_slots (slot two_slots 2) ≡ false)
    × (free_slots a' ≡ 2 ∷ 0 ∷ [])
deallocate_end_example = deallocate_end two_slots two_slots-IsValid (omega arith)
