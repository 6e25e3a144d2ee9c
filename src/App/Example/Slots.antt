-- ===== src/App/Example/Slots.antt =====
-- The stack allocator of src/app/allocator-example.c: every slot is taken, one comes back and is taken
-- again.
use ixy.Base.{
  ℕ, zero, suc, ◌+◌, ◌*◌, ◌<◌, ◌≡◌, ◌≢◌, refl, ap, sym, ◌∙◌, arith, not, true, List, [], ◌∷◌, inl,
  inr, ==_ne, ◌==◌,
}
use ixy.Base.Outcome.{ok}
use ixy.Memory.New.{countdown}
use ixy.Allocator.{MemBlk}
use ixy.Allocator.Stack.{StackAllocator, allocate, deallocate}
use ixy.Allocator.Stack.Slots.{
  IsValid, free_slots, slot, allocate_lem, allocate_refused, deallocate_lem,
}
use ixy.App.Example.{take_slots, use_stack}

-- What the checks keep: the block and its slots of 64 bytes, at an address that is not `NULL`.
pub record IsStack (base n : ℕ) (a : StackAllocator) (ids : List ℕ) : Type 0 where
  pub valid : IsValid a
  pub base_is : a.base_addr ≡ base
  pub size_is : a.entry_size ≡ 64
  pub number_is : a.num_entries ≡ n
  pub free_is : free_slots a ≡ ids

abbrev block : ℕ → ℕ → MemBlk
block base id = record { ptr = base + id * 64; size = 64 }

module _ (base n : ℕ) (nonnull : base ≢ 0) where
  there : (id : ℕ) → not ((block base id).ptr == 0) ≡ true
  there id = rw (==_ne (base + id * 64) 0 (λ e. nonnull (omega (arith, e)))) refl

  slot-block :
      (a : StackAllocator) (ids : List ℕ) (id : ℕ)
      → IsStack base n a ids
      → slot a id ≡ block base id
  slot-block a ids id v = rw (v.base_is, v.size_is) refl

  take_slot :
      (a : StackAllocator) (id : ℕ) (ids : List ℕ)
      → IsStack base n a (id ∷ ids)
      → (a' : StackAllocator) × (allocate 64 a ≡ ok (block base id, a')) × IsStack base n a' ids
  take_slot a id ids v =
      let (a', run, own, valid, rest, (b, s, k)) =
        allocate_lem a v.valid id ids 64 v.free_is (omega (arith, v.size_is)) in
      (
        a',
        run ∙ ap (λ x. ok (x, a')) (slot-block a (id ∷ ids) id v),
        record {
          valid = valid;
          base_is = b ∙ v.base_is;
          size_is = s ∙ v.size_is;
          number_is = k ∙ v.number_is;
          free_is = rest;
        },
      )

  -- The loop takes every slot, slot 0 last.
  take_slots-all :
      (k : ℕ) (blk : MemBlk) (a : StackAllocator)
      → IsStack base n a (countdown (suc k))
      → (a' : StackAllocator) × (take_slots (suc k) blk a ≡ ok (block base 0, a'))
        × IsStack base n a' []
  unfolding take_slots
  take_slots-all zero blk a v =
      let (a', run, v') = take_slot a 0 [] v in (a', rw (run, there 0) refl, v')
  take_slots-all (suc k) blk a v =
      let (a1, run, v1) = take_slot a (suc k) (countdown (suc k)) v in
      let (a', more, v') = take_slots-all k (block base (suc k)) a1 v1 in
      (a', rw (run, there (suc k)) more, v')

  -- Slot 0 comes back.
  give_slot :
      (a : StackAllocator)
      → IsStack base n a []
      → 0 < n
      → (a' : StackAllocator) × (deallocate (block base 0) a
          ≡ ok (record { ptr = 0; size = 0 }, a'))
        × IsStack base n a' (0 ∷ [])
  give_slot a v pos =
      let (a', run, valid, view, (b, s, k)) =
        deallocate_lem a v.valid 0 (omega (arith, v.number_is)) (rw (v.free_is) tt) in
      (
        a',
        ap (λ x. deallocate x a) (sym (slot-block a [] 0 v)) ∙ run,
        record {
          valid = valid;
          base_is = b ∙ v.base_is;
          size_is = s ∙ v.size_is;
          number_is = k ∙ v.number_is;
          free_is = view ∙ ap (λ l. 0 ∷ l) v.free_is;
        },
      )

  pub use_stack-returns :
      (a : StackAllocator)
      → n ≡ 1024
      → IsStack base n a (countdown 1024)
      → (a' : StackAllocator) × (use_stack a ≡ ok (tt, a')) × IsStack base n a' []
  unfolding use_stack
  use_stack-returns a many v =
      let big = allocate_refused a v.valid 128 (inr (omega (arith, v.size_is))) in
      let (a1, takes, v1) = take_slots-all 1023 (record { ptr = 0; size = 0 }) a v in
      let (a2, gives, v2) = give_slot a1 v1 (omega arith) in
      let (a3, again, v3) = take_slot a2 0 [] v2 in
      let more = allocate_refused a3 v3.valid 64 (inl v3.free_is) in
      (a3, rw (big, takes, gives, again, there 0, more) refl, v3)
