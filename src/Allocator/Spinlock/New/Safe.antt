-- ===== src/Allocator/Spinlock/New/Safe.antt =====
-- What threads can rely on that share a new allocator of
-- src/allocator/spinlock_stack_allocator.c.
use ixy.Base.{ℕ, ◌+◌, ◌*◌, ◌^◌, ◌<◌, ◌≡◌, ◌≢◌, refl, arith, true, some, u32, ==_ne}
use ixy.Base.Members.{member}
use ixy.Base.Outcome.{Cmd, ok}
use ixy.Memory.New.{countdown}
use ixy.Allocator.{MemBlk, Allocator}
use ixy.Allocator.Stack.Slots.{IsValid, free_slots}
use ixy.Allocator.Stack.New.{default_size}
use ixy.Allocator.Stack.New.Full.{full, full-IsValid, all_free}
use ixy.Allocator.Spinlock.{Spinlock, Shared, outside, Reach, step}
use ixy.Allocator.Spinlock.New.{spinlock_stack_allocator_new}
use ixy.Allocator.Spinlock.Owned.{inside, owned}
use ixy.Allocator.Spinlock.Valid.{IsSpinlock}
use ixy.Allocator.Spinlock.Safety.{unused, mutual_exclusion, slots_apart}
use ixy.Allocator.Spinlock.Progress.{progress}

-- In every state that threads reach from `s0`, at most one thread has the lock, a slot is owned by
-- one thread at most and is below `n`, and while a thread is in a function some thread can go on.
pub record IsSafe {L : Type 0} (spin : Spinlock L) (n : ℕ) (s0 : Shared L) : Type 0 where
  pub excludes :
      (s : Shared L) (t u : ℕ)
      → Reach spin s0 s
      → inside (s.pc t) ≡ true
      → inside (s.pc u) ≡ true
      → t ≡ u
  pub apart :
      (s : Shared L) (t u id : ℕ)
      → Reach spin s0 s
      → member id (owned s.alloc.free_stack (s.pc t) (s.held t)) ≡ true
      → member id (owned s.alloc.free_stack (s.pc u) (s.held u)) ≡ true
      → (t ≡ u) × (id < n)
  pub never_stuck :
      (s : Shared L) (t : ℕ)
      → Reach spin s0 s
      → s.pc t ≢ outside
      → (u : ℕ) × (s' : Shared L) × (step spin u (s.pc u) s ≡ some s')

-- If there is memory for the struct, the parent grants a block of less than 4 GB, the slots can be
-- counted in 32 bits and the new lock is free and excludes, `spinlock_stack_allocator_new` returns
-- an allocator with every slot free. Whatever threads then do with it, if a thread returns only
-- blocks of slots that it was given and has not returned, at most one has the lock, no slot is
-- owned by two, and it never gets stuck.
pub spinlock_stack_allocator_new-IsSafe :
    {S L : Type 0} (parent : Allocator S) (spin : Spinlock L) (law : IsSpinlock spin) (init l : L)
    (give : ℕ → Cmd S (Unit {0})) (sa n entry_size : ℕ) (mem : MemBlk) (st st' : S)
    → spin.acquire init ≡ some l
    → sa ≢ 0
    → parent.allocate (n * default_size entry_size) st ≡ ok (mem, st')
    → mem.ptr ≢ 0
    → n * default_size entry_size < 2 ^ 32
    → n + 1 < 2 ^ 32
    → (s0 : Shared L) × (spinlock_stack_allocator_new parent spin init give sa n entry_size st
        ≡ ok (some s0, st'))
      × IsValid s0.alloc
      × (free_slots s0.alloc ≡ countdown n)
      × IsSafe spin n s0
unfolding spinlock_stack_allocator_new
spinlock_stack_allocator_new-IsSafe parent spin law init l give sa n entry_size mem st st' free
      there granted block small few =
    let a = full parent sa n entry_size mem st st' in
    let valid = full-IsValid parent sa n entry_size mem st st' small in
    let whole : u32 (n * default_size entry_size) ≡ n * default_size entry_size = omega arith in
    (
      unused a init,
      rw (==_ne sa 0 there, whole, granted, ==_ne mem.ptr 0 block) refl,
      valid,
      all_free parent sa n entry_size mem st st',
      record {
        excludes = mutual_exclusion spin law a init l valid few free;
        apart = λ s t u id r ht hu.
            let (same, below, distinct) =
              slots_apart spin law a init l valid few free s t u id r ht hu in
            (same, below);
        never_stuck = progress spin law a init l valid few free;
      },
    )
