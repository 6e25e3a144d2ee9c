-- ===== src/App/Example/Alone.antt =====
-- The part of src/app/allocator-example.c with a spinlock stack allocator, which one thread uses.
use ixy.Base.{
  ℕ, ◌+◌, ◌-◌, ◌/◌, ◌*◌, ◌≡◌, ◌≢◌, refl, arith, List, true, some, [], ◌∷◌, replicate, ==_ne, leb,
  ltb, update,
}
use ixy.Base.Outcome.{ok}
use ixy.Allocator.Malloc.{Arena, call_malloc, mallocator_allocate, mallocator}
use ixy.Allocator.Malloc.Behind.{free_live, mallocator_deallocate-live}
use ixy.Allocator.Stack.{StackAllocator, entry_id}
use ixy.Allocator.Stack.New.{default_size, number_slots}
use ixy.Allocator.Spinlock.{
  Spinlock, Shared, outside, wants, tests, pops, granted, returns, pushes, stores, returned, step,
  call_allocate, call_deallocate, returned_id, take_lock, give_lock, test_top, pop, store,
}
use ixy.Allocator.Spinlock.Valid.{IsSpinlock}
use ixy.Allocator.Spinlock.New.{spinlock_stack_allocator_new, spinlock_stack_allocator_free, owns}
use ixy.App.Example.{
  finish, allocate_alone, deallocate_alone, use_spinlock, try_spinlock,
  sizeof_spinlock_stack_allocator,
}

-- One thread never waits for the lock.
module _ {L : Type 0} (spin : Spinlock L) (law : IsSpinlock spin) where
  again :
      (l l' : L)
      → spin.acquire l ≡ some l'
      → (l'' : L) × (spin.acquire (spin.release l') ≡ some l'')
  again l l' e = law.frees l' (law.excludes l l' e)

  abbrev ten : StackAllocator
  ten = record {
    base_addr = 0;
    entry_size = 8;
    num_entries = 10;
    free_stack_top = 10;
    free_stack = number_slots 10 0 (replicate 11 0);
  }

  abbrev start_at : ℕ → L → Shared L
  start_at base l = record {
    alloc = record ten { base_addr = base };
    lock = l;
    pc = λ _. outside;
    held = λ _. [];
  }

  allocated : ℕ → L → Shared L
  allocated base l = record {
    alloc = record ten { base_addr = base; free_stack_top = 9 };
    lock = l;
    pc =
        update
          (update (update (update (update (λ _. outside) 0 (wants 8)) 0 (tests 8)) 0 (pops 9)) 0
            (granted (record { ptr = base + 72; size = 8 })))
          0 outside;
    held = update (λ _. []) 0 (9 ∷ []);
  }

  allocate_alone-ten :
      (base : ℕ) (l0 l1 : L)
      → spin.acquire l0 ≡ some l1
      → allocate_alone spin 8 (start_at base l0)
        ≡ ok (record { ptr = base + 72; size = 8 }, allocated base (spin.release l1))
  unfolding allocate_alone finish call_allocate step take_lock give_lock test_top pop update
      allocated
  allocate_alone-ten base l0 l1 e = rw e refl

  given_back : ℕ → L → Shared L
  unfolding allocated
  given_back base l =
      let s = allocated base l in
      record {
        alloc = record ten { base_addr = base };
        lock = l;
        pc =
            update
              (update (update (update (update s.pc 0 (returns 9)) 0 (pushes 9)) 0 (stores 9 9)) 0
                returned)
              0 outside;
        held = update s.held 0 [];
      }

  called : ℕ → L → Shared L
  called base l =
      let s = allocated base l in
      record s { pc = update s.pc 0 (returns 9); held = update s.held 0 [] }

  call_deallocate_lem :
      (base : ℕ) (l : L)
      → call_deallocate 0 (record { ptr = base + 72; size = 8 }) (allocated base l)
        ≡ some (called base l)
  unfolding call_deallocate returned_id entry_id allocated called update
  call_deallocate_lem base l =
      let above : leb base (base + 72) ≡ true = ground arith in
      let slot : (base + 72 - base) / 8 ≡ 9 = omega arith in
      rw (call_deallocate, returned_id, entry_id, above, slot) refl

  deallocate_alone-ten :
      (base : ℕ) (l1 l2 : L)
      → spin.acquire l1 ≡ some l2
      → deallocate_alone spin (record { ptr = base + 72; size = 8 }) (allocated base l1)
        ≡ ok (tt, given_back base (spin.release l2))
  unfolding deallocate_alone finish called step take_lock give_lock store update allocated
      given_back entry_id
  deallocate_alone-ten base l1 l2 e = rw (call_deallocate_lem base l1, e) refl

  use_spinlock-returns :
      (base : ℕ) (l0 l1 l2 : L)
      → base ≢ 0
      → spin.acquire l0 ≡ some l1
      → spin.acquire (spin.release l1) ≡ some l2
      → use_spinlock spin (start_at base l0) ≡ ok (tt, given_back base (spin.release l2))
  unfolding use_spinlock owns allocated
  use_spinlock-returns base l0 l1 l2 there e f =
      let above : leb base (base + 72) ≡ true = ground arith in
      let below : ltb (base + 72) (base + 80) ≡ true = ground arith in
      rw
        (
          allocate_alone-ten base l0 l1 e,
          ==_ne (base + 72) 0 (λ z. there (omega (arith, z))),
          above,
          below,
        )
        (deallocate_alone-ten base (spin.release l1) l2 f)

  spinlock_stack_allocator_free-given_back :
      (malloc : ℕ → ℕ → ℕ) (init l l' : L) (base calls : ℕ) (live : List ℕ)
      → base ≢ 0
      → spin.acquire l ≡ some l'
      → spinlock_stack_allocator_free
          (mallocator malloc)
          spin
          init
          (given_back base l)
          (record { calls = calls; live = base ∷ live })
        ≡ ok (tt, record { calls = calls; live = live })
  unfolding spinlock_stack_allocator_free given_back allocated
  spinlock_stack_allocator_free-given_back malloc init l l' base calls live there e =
      rw (spinlock_stack_allocator_free, e, mallocator_deallocate-live base 80 calls live there)
        refl

  pub try_spinlock-returns :
      (malloc : ℕ → ℕ → ℕ) (init l : L)
      → ((k size : ℕ) → malloc k size ≢ 0)
      → spin.acquire init ≡ some l
      → (a : Arena)
      → (a' : Arena) × (try_spinlock spin malloc init a ≡ ok (tt, a')) × (a'.live ≡ a.live)
  unfolding try_spinlock spinlock_stack_allocator_new call_malloc mallocator_allocate default_size
  try_spinlock-returns malloc init l has_memory e a =
      let sa = malloc a.calls (sizeof_spinlock_stack_allocator + 4 * 10) in
      let base = malloc (a.calls + 1) 80 in
      let (l2, f) = again init l e in
      let (l3, g) = again (spin.release l) l2 f in
      (
        record { calls = a.calls + 1 + 1; live = a.live },
        rw
            (
              ==_ne sa 0 (has_memory _ _),
              ==_ne base 0 (has_memory _ _),
              use_spinlock-returns base init l l2 (has_memory _ _) e f,
              spinlock_stack_allocator_free-given_back malloc init (spin.release l2) l3 base
                  (a.calls + 1 + 1) (sa ∷ a.live) (has_memory _ _) g,
              free_live sa (a.calls + 1 + 1) a.live (has_memory _ _),
            )
            refl,
        refl,
      )
