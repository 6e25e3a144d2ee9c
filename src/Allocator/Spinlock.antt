-- ===== src/Allocator/Spinlock.antt =====
-- src/allocator/spinlock_stack_allocator.c: a stack allocator that threads share, under a spinlock.
--
-- Each thread runs `allocate` and `deallocate` step by step, and a step is one access of the shared
-- counter, the shared array or the lock. The spinlock is a parameter: `rte_spinlock_lock` waits
-- until `acquire` succeeds.
pub mod Owned
pub mod Valid
pub mod Held
pub mod Popped
pub mod Kept
pub mod Safety
pub mod Progress
pub mod New
pub mod Tests
use ixy.Base.{
  ℕ, ◌≡◌, ◌+◌, ◌-◌, ◌*◌, Bool, true, false, not, ◌==◌, ◌||◌, if◌then◌else◌, ltb, leb, Option, none,
  some, List, [], ◌∷◌, u32, update, length, get_elem?, set,
}
use ixy.Base.Members.{member, remove}
use ixy.Allocator.{MemBlk}
use ixy.Allocator.Stack.{StackAllocator, entry_id}

-- `rte_spinlock_lock`, if it does not wait, and `rte_spinlock_unlock`.
pub record Spinlock (L : Type 0) : Type 0 where
  pub acquire : L → Option L
  pub release : L → L

-- Where a thread is.
pub data Pc : Type 0 where
  -- In neither function.
  outside : Pc
  -- `allocate`, before the lock is taken, before the test, after `--free_stack_top` with the value,
  -- and before the lock is given back.
  wants : (size : ℕ) → Pc
  tests : (size : ℕ) → Pc
  pops : (top : ℕ) → Pc
  granted : (blk : MemBlk) → Pc
  -- `deallocate`, before the lock is taken, before `free_stack_top++`, after it with the value
  -- before, and before the lock is given back.
  returns : (id : ℕ) → Pc
  pushes : (id : ℕ) → Pc
  stores : (id top : ℕ) → Pc
  returned : Pc

-- The shared allocator and its lock, where each thread is, and the slots that each thread was given
-- and has not returned.
pub record Shared (L : Type 0) : Type 0 where
  pub alloc : StackAllocator
  pub lock : L
  pub pc : ℕ → Pc
  pub held : ℕ → List ℕ

-- The block of a slot.
abbrev pub slot_block : StackAllocator → ℕ → MemBlk
slot_block a id = record { ptr = a.base_addr + u32 (id * a.entry_size); size = a.entry_size }

-- The two tests of `deallocate` and the id that it computes: `none` is an error. As in
-- stack_allocator.c, the slot behind the last one passes.
unfoldable pub returned_id : StackAllocator → MemBlk → Option ℕ
returned_id a blk = if not (a.entry_size == blk.size) then none else elim (entry_id a blk.ptr) [
  | none ↦ none
  | some id ↦ if ltb a.num_entries id then none else some id
]

module _ {L : Type 0} where
  abbrev pub goes : ℕ → Pc → Shared L → Shared L
  goes t p s = record s { pc = update s.pc t p }

  abbrev pub with_top : ℕ → Shared L → Shared L
  with_top top s = record s { alloc = record s.alloc { free_stack_top = top } }

  -- `allocate(size)` is called by thread `t`.
  unfoldable pub call_allocate : ℕ → ℕ → Shared L → Shared L
  call_allocate t size = goes t (wants size)

  -- `deallocate(&blk)` is called by thread `t`. `none` is the end of the process with an error.
  unfoldable pub call_deallocate : ℕ → MemBlk → Shared L → Option (Shared L)
  call_deallocate t blk s = elim (returned_id s.alloc blk) [
    | none ↦ none
    | some id ↦ some (record s {
      pc = update s.pc t (returns id);
      held = update s.held t (remove id (s.held t));
    })
  ]

  -- The test of `allocate` and `--free_stack_top`.
  unfoldable pub test_top : ℕ → ℕ → Shared L → Option (Shared L)
  test_top t size s =
      if s.alloc.free_stack_top == 0 || ltb s.alloc.entry_size size
      then some (goes t (granted (record { ptr = 0; size = 0 })) s)
      else some
          (goes t (pops (s.alloc.free_stack_top - 1)) (with_top (s.alloc.free_stack_top - 1) s))

  -- The read of the slot's id.
  unfoldable pub pop : ℕ → ℕ → Shared L → Option (Shared L)
  pop t top s = elim (get_elem? s.alloc.free_stack top) [
    | none ↦ none
    | some id ↦ some (record s {
      pc = update s.pc t (granted (slot_block s.alloc id));
      held = update s.held t (id ∷ s.held t);
    })
  ]

  -- The write of the slot's id.
  unfoldable pub store : ℕ → ℕ → ℕ → Shared L → Option (Shared L)
  store t id top s =
      if ltb top (length s.alloc.free_stack)
      then some (
          goes t returned (record s {
            alloc = record s.alloc { free_stack = set s.alloc.free_stack top (u32 id) };
          }))
      else none

module _ {L : Type 0} (spin : Spinlock L) where
  unfoldable pub take_lock : ℕ → Pc → Shared L → Option (Shared L)
  take_lock t p s = elim (spin.acquire s.lock) [
    | none ↦ none
    | some l ↦ some (goes t p (record s { lock = l }))
  ]

  unfoldable pub give_lock : ℕ → Shared L → Option (Shared L)
  give_lock t s = some (goes t outside (record s { lock = spin.release s.lock }))

  -- The next step of thread `t` in the function that it is in, `none` if it waits for the lock, is in
  -- neither or is undefined.
  unfoldable pub step : ℕ → Pc → Shared L → Option (Shared L)
  step t outside s = none
  step t (wants size) s = take_lock t (tests size) s
  step t (tests size) s = test_top t size s
  step t (pops top) s = pop t top s
  step t (granted blk) s = give_lock t s
  step t (returns id) s = take_lock t (pushes id) s
  step t (pushes id) s =
      some
        (goes t (stores id s.alloc.free_stack_top) (with_top (u32 (s.alloc.free_stack_top + 1)) s))
  step t (stores id top) s = store t id top s
  step t returned s = give_lock t s

  -- What threads do: they call the functions and go on in them. The contract of `deallocate` is kept:
  -- a thread returns a block only if its slot, as `deallocate` computes it, is one that the thread
  -- was given and has not returned. Double returns, blocks of other threads and blocks that no slot
  -- has are not among the steps.
  pub data Step : Shared L → Shared L → Type 0 where
    allocates : (t size : ℕ) (s : Shared L) → s.pc t ≡ outside → Step s (call_allocate t size s)
    deallocates :
        (t id : ℕ) (blk : MemBlk) (s s' : Shared L)
        → s.pc t ≡ outside
        → returned_id s.alloc blk ≡ some id
        → member id (s.held t) ≡ true
        → call_deallocate t blk s ≡ some s'
        → Step s s'
    goes_on : (t : ℕ) (s s' : Shared L) → step t (s.pc t) s ≡ some s' → Step s s'

  -- What is reached from a state.
  pub data Reach (s0 : Shared L) : Shared L → Type 0 where
    start : Reach s0 s0
    after : (s s' : Shared L) → Reach s0 s → Step s s' → Reach s0 s'
