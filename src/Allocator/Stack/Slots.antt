-- ===== src/Allocator/Stack/Slots.antt =====
-- The slots that a stack allocator hands out and takes back.
use ixy.Base.{
  [], ap, sym, ◌∙◌, ◌⊎◌, inl, inr, Bool-cases, ◌==◌, ℕ, ◌+◌, ◌-◌, ◌*◌, ◌/◌, ◌^◌, ◌≤◌, ◌<◌, ◌≡◌,
  refl, arith, true, false, List, ◌∷◌, some, length, set, length-set, ltb, lt→ltb, ==_self,
  get_elem?-eq-get_or, Distinct, u32,
}
use native.Mathlib.Nat.{mul-div_cancel}
use ixy.Base.Outcome.{ok}
use ixy.Memory.Stack.{
  stack_view, length-stack_view, stack_view-push, stack_view-cons, NotIn, Below, length-Distinct,
}
use ixy.Allocator.{MemBlk}
use ixy.Allocator.Stack.{StackAllocator, allocate, entry_id, push, deallocate, owns}

-- The ids of the free slots, the next one first.
abbrev pub free_slots : StackAllocator → List ℕ
free_slots a = stack_view a.free_stack a.free_stack_top

abbrev pub slot : StackAllocator → ℕ → MemBlk
slot a id = record { ptr = a.base_addr + id * a.entry_size; size = a.entry_size }

-- The free slots are distinct slots of the allocator, whose block does not wrap a `uint32_t`.
pub record IsValid (a : StackAllocator) : Type 0 where
  pub room : a.num_entries < length a.free_stack
  pub fits : a.num_entries * a.entry_size < 2 ^ 32
  pub positive : 0 < a.entry_size
  pub below : Below a.num_entries (free_slots a)
  pub distinct : Distinct (free_slots a)

-- The block is the same, and the slots are as large and as many.
abbrev pub IsSameBlock : StackAllocator → StackAllocator → Type 0
IsSameBlock a a' =
    (a'.base_addr ≡ a.base_addr) × (a'.entry_size ≡ a.entry_size) × (a'.num_entries ≡ a.num_entries)

abbrev popped : StackAllocator → StackAllocator
popped a = record a { free_stack_top = a.free_stack_top - 1 }

abbrev pushed : StackAllocator → ℕ → StackAllocator
pushed a id = record a {
  free_stack_top = a.free_stack_top + 1;
  free_stack = set a.free_stack a.free_stack_top id;
}

module _ (a : StackAllocator) (v : IsValid a) where
  top-le : a.free_stack_top ≤ a.num_entries
  top-le = omega (
    arith,
    length-stack_view a.free_stack a.free_stack_top,
    length-Distinct a.num_entries (free_slots a) v.below v.distinct,
  )

  in_block :
      (id : ℕ)
      → id < a.num_entries
      → id * a.entry_size + a.entry_size ≤ a.num_entries * a.entry_size
  in_block id lt = grind (arith)

  -- In a valid stack allocator whose next free slot is `id`, an allocation that a slot can hold
  -- takes that slot, which the allocator owns; the state stays valid with the others free, and the
  -- block and the size and the number of the slots stay.
  pub allocate_lem :
      (id : ℕ) (rest : List ℕ) (size : ℕ)
      → free_slots a ≡ id ∷ rest
      → size ≤ a.entry_size
      → (a' : StackAllocator) × (allocate size a ≡ ok (slot a id, a'))
        × (owns a' (slot a id) ≡ true)
        × IsValid a'
        × (free_slots a' ≡ rest)
        × IsSameBlock a a'
  unfolding allocate owns
  allocate_lem id rest size e small =
      let (pos, top, tail) = stack_view-cons a.free_stack a.free_stack_top id rest e in
      let lt : id < a.num_entries = (rw e at v.below).0 in
      let inside = in_block id lt in
      (
        popped a,
        ground (
          arith,
          top-le,
          v.room,
          v.fits,
          inside,
          get_elem?-eq-get_or a.free_stack (a.free_stack_top - 1) 0,
        ),
        ground (arith, inside, v.fits, v.positive),
        record {
          room = v.room;
          fits = v.fits;
          positive = v.positive;
          below = rw tail (rw e at v.below).1;
          distinct = rw tail (rw e at v.distinct).1;
        },
        tail,
        (refl, refl, refl),
      )

  -- A request that no slot can hold, or without a free slot, is refused.
  pub allocate_refused :
      (size : ℕ)
      → (free_slots a ≡ []) ⊎ (a.entry_size < size)
      → allocate size a ≡ ok (record { ptr = 0; size = 0 }, a)
  unfolding allocate
  allocate_refused size (inl e) =
      let empty : a.free_stack_top ≡ 0 =
        sym (length-stack_view a.free_stack a.free_stack_top) ∙ ap length e in
      rw empty refl
  allocate_refused size (inr big) = elim (Bool-cases (a.free_stack_top == 0)) [
    | inl e ↦ rw e refl
    | inr e ↦ rw (e, lt→ltb a.entry_size size big) refl
  ]

  entry_id-slot : (id : ℕ) → entry_id a (slot a id).ptr ≡ some id
  unfolding entry_id
  entry_id-slot id =
      let offset : a.base_addr + id * a.entry_size - a.base_addr ≡ id * a.entry_size =
        omega arith in
      let slots : id * a.entry_size / a.entry_size ≡ id = mul-div_cancel id v.positive in
      ground (arith, offset, slots)

  push-pushed :
      (id : ℕ)
      → id ≤ a.num_entries
      → a.free_stack_top + 1 < 2 ^ 32
      → push id a ≡ ok (tt, pushed a id)
  unfolding push
  push-pushed id le space =
      let small : a.num_entries < 2 ^ 32 = grind (arith, v.fits, v.positive) in
      let same_id : u32 id ≡ id = omega (arith, small, le) in
      let next : u32 (a.free_stack_top + 1) ≡ a.free_stack_top + 1 = omega (arith, space) in
      rw
        (
          lt→ltb a.free_stack_top (length a.free_stack) (omega (arith, top-le, v.room)),
          same_id,
          next,
        )
        refl

  -- A slot up to the one behind the last is put on top.
  deallocate-pushed :
      (id : ℕ)
      → id ≤ a.num_entries
      → a.free_stack_top + 1 < 2 ^ 32
      → (deallocate (slot a id) a ≡ ok (record { ptr = 0; size = 0 }, pushed a id))
        × (free_slots (pushed a id) ≡ id ∷ free_slots a)
  unfolding deallocate
  deallocate-pushed id le space =
      let in_range : ltb a.num_entries id ≡ false = ground arith in
      (
        rw (==_self a.entry_size, entry_id-slot id, in_range, push-pushed id le space) refl,
        stack_view-push a.free_stack a.free_stack_top id (omega (arith, top-le, v.room)),
      )

  -- In a valid stack allocator, a slot in use that is returned is the next free one; the state
  -- stays valid, with the same block, size and number of slots.
  pub deallocate_lem :
      (id : ℕ)
      → id < a.num_entries
      → NotIn id (free_slots a)
      → (a' : StackAllocator) × (deallocate (slot a id) a ≡ ok (record { ptr = 0; size = 0 }, a'))
        × IsValid a'
        × (free_slots a' ≡ id ∷ free_slots a)
        × IsSameBlock a a'
  deallocate_lem id lt fresh =
      let full =
        length-Distinct a.num_entries (id ∷ free_slots a) (lt, v.below) (fresh, v.distinct) in
      let small : a.num_entries < 2 ^ 32 = grind (arith, v.fits, v.positive) in
      let space : a.free_stack_top + 1 < 2 ^ 32 =
        omega (arith, small, full, length-stack_view a.free_stack a.free_stack_top) in
      let (returns, view) = deallocate-pushed id (omega arith) space in
      (
        pushed a id,
        returns,
        record {
          room = rw length-set v.room;
          fits = v.fits;
          positive = v.positive;
          below = rw view (lt, v.below);
          distinct = rw view (fresh, v.distinct);
        },
        view,
        (refl, refl, refl),
      )

  -- In a valid stack allocator, if the counter does not wrap, the slot behind the last one, which
  -- the allocator does not own, is taken back as well, and is then the next to be handed out.
  pub deallocate_end :
      a.free_stack_top + 1 < 2 ^ 32
      → (a' : StackAllocator) × (deallocate (slot a a.num_entries) a
          ≡ ok (record { ptr = 0; size = 0 }, a'))
        × (owns a (slot a a.num_entries) ≡ false)
        × (free_slots a' ≡ a.num_entries ∷ free_slots a)
  unfolding owns
  deallocate_end space =
      let (returns, view) = deallocate-pushed a.num_entries (omega arith) space in
      (pushed a a.num_entries, returns, ground (arith, v.fits), view)
