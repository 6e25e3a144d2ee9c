-- ===== src/Allocator/Spinlock/Tests.antt =====
-- Two threads share two slots: thread 0 has taken the lock and slot 1, thread 1 waits.
use ixy.Base.{
  if◌then◌else◌, ℕ, ◌<◌, ◌≡◌, refl, arith, Bool, true, false, none, some, [], ◌∷◌, update, Distinct,
}
use ixy.Allocator.Stack.{StackAllocator}
use ixy.Base.Outcome.{ok}
use ixy.Memory.New.{countdown}
use ixy.Allocator.Malloc.{free, mallocator, mallocator_allocate, call_malloc}
use ixy.Allocator.Malloc.Tests.{pages, fresh}
use ixy.Allocator.Stack.New.{default_size}
use ixy.Allocator.Spinlock.New.{spinlock_stack_allocator_new}
use ixy.Allocator.Spinlock.New.Safe.{IsSafe, spinlock_stack_allocator_new-IsSafe}
use ixy.Allocator.Stack.Slots.{IsValid, free_slots}
use ixy.Allocator.Spinlock.{
  Spinlock, Shared, allocates, goes_on, Reach, start, after, call_allocate, step, take_lock,
  test_top, pop,
}
use ixy.Allocator.Spinlock.Owned.{owned}
use ixy.Allocator.Spinlock.Valid.{IsSpinlock}
use ixy.Allocator.Spinlock.Safety.{unused, slots_apart}
use ixy.Allocator.Spinlock.Progress.{progress}

-- A flag that is set while the lock is held.
unfoldable pub flag : Spinlock Bool
flag = record { acquire = λ l. if l then none else some true; release = λ l. false }

pub flag-IsSpinlock : IsSpinlock flag
unfolding flag
flag-IsSpinlock = record { excludes = excludes; frees = λ l e. (true, refl) }
  where
    excludes : (l l' : Bool) → flag.acquire l ≡ some l' → flag.acquire l' ≡ none
    excludes false true e = refl
    excludes false false e = absurd (cc (e))
    excludes true l' e = absurd (cc (e))

abbrev two_slots : StackAllocator
two_slots = record {
  base_addr = 0x200000;
  entry_size = 2048;
  num_entries = 2;
  free_stack_top = 2;
  free_stack = 0 ∷ 1 ∷ 0 ∷ [];
}

two_slots-IsValid : IsValid two_slots
two_slots-IsValid = record {
  room = omega arith;
  fits = omega arith;
  positive = omega arith;
  below = (omega arith, (omega arith, tt));
  distinct = (((λ e. omega (arith, e)), tt), (tt, tt));
}

-- Thread `t` goes on if it can.
go_on : ℕ → Shared Bool → Shared Bool
go_on t s = elim (step flag t (s.pc t) s) [ none ↦ s | some s' ↦ s' ]

abbrev first : ℕ
first = 0

both_call : Shared Bool
both_call = call_allocate 1 60 (call_allocate 0 60 (unused two_slots false))

one_has_slot : Shared Bool
one_has_slot = go_on 0 (go_on 0 (go_on 0 both_call))

one_has_slot-Reach : Reach flag (unused two_slots false) one_has_slot
unfolding one_has_slot both_call go_on flag step take_lock test_top pop call_allocate update
one_has_slot-Reach =
    after _ _
      (after _ _
        (after _ _ (after _ _ (after _ _ start (allocates 0 60 _ refl)) (allocates 1 60 _ refl))
          (goes_on 0 _ (go_on 0 both_call) refl))
        (goes_on 0 _ (go_on 0 (go_on 0 both_call)) refl))
      (goes_on 0 _ one_has_slot refl)

slots_apart_example :
    (first ≡ first)
    × (1 < 2)
    × Distinct (owned one_has_slot.alloc.free_stack (one_has_slot.pc 0) (one_has_slot.held 0))
unfolding one_has_slot both_call go_on flag step take_lock test_top pop call_allocate update
slots_apart_example =
    slots_apart flag flag-IsSpinlock two_slots false true two_slots-IsValid (omega arith) refl
      one_has_slot 0 0 1 one_has_slot-Reach refl refl

progress_example :
    (u : ℕ) × (s' : Shared Bool) × (step flag u (one_has_slot.pc u) one_has_slot ≡ some s')
unfolding one_has_slot both_call go_on flag step take_lock test_top pop call_allocate update
progress_example =
    progress flag flag-IsSpinlock two_slots false true two_slots-IsValid (omega arith) refl
      one_has_slot 1 one_has_slot-Reach (λ e. cc (e))

-- A new allocator with four slots of 64 bytes, in memory from `malloc`.
spinlock_stack_allocator_new-IsSafe_example :
    (s0 : Shared Bool) × (spinlock_stack_allocator_new
        (mallocator pages)
        flag
        false
        free
        0x500
        4
        64
        fresh
      ≡ ok (some s0, record { calls = 1; live = 0x1000 ∷ [] }))
    × IsValid s0.alloc
    × (free_slots s0.alloc ≡ countdown 4)
    × IsSafe flag 4 s0
unfolding flag default_size mallocator_allocate call_malloc
spinlock_stack_allocator_new-IsSafe_example =
    spinlock_stack_allocator_new-IsSafe (mallocator pages) flag flag-IsSpinlock false true free
      0x500 4 64 (record { ptr = 0x1000; size = 256 }) fresh
      (record { calls = 1; live = 0x1000 ∷ [] }) refl (λ e. omega (arith, e)) refl
      (λ e. omega (arith, e)) (omega arith) (omega arith)
