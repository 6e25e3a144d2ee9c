-- ===== src/Allocator/Stack/New/Full.antt =====
-- A new stack allocator has every slot free.
use ixy.Base.{
  ℕ, zero, suc, ◌+◌, ◌*◌, ◌^◌, ◌≤◌, ◌<◌, ◌≡◌, ◌≢◌, refl, ◌∙◌, arith, List, some, u32, length, set,
  get_or, replicate, length-set, length-replicate, get_or-set_self, get_or-set_ne, ==_ne,
}
use native.Mathlib.Decide.{ℕ_discrete}
use ixy.Base.Outcome.{Cmd, ok}
use ixy.Memory.New.{countdown, countdown-Below, countdown-Distinct, stack_view-countdown}
use ixy.Allocator.{MemBlk, Allocator}
use ixy.Allocator.Stack.{StackAllocator}
use ixy.Allocator.Stack.Slots.{IsValid, free_slots}
use ixy.Allocator.Stack.New.{default_size, number_slots, stack_allocator_new, stack_allocator_free}

length-number_slots : (left i : ℕ) (f : List ℕ) → length (number_slots left i f) ≡ length f
length-number_slots zero i f = refl
length-number_slots (suc left) i f = length-number_slots left (i + 1) (set f i i) ∙ length-set f i i

get_or-number_slots :
    (left i : ℕ) (f : List ℕ)
    → i + left ≤ length f
    → ((j : ℕ) → j < i → get_or f j 0 ≡ j)
    → (j : ℕ) → j < i + left
    → get_or (number_slots left i f) j 0 ≡ j
get_or-number_slots zero i f room below j lt = below j (omega (arith, lt))
get_or-number_slots (suc left) i f room below j lt =
    get_or-number_slots left (i + 1) (set f i i) (omega (arith, length-set f i i, room))
      (λ k lt'. elim (ℕ_discrete i k) [
        | yes same ↦ rw same (get_or-set_self f k k 0 (omega (arith, room, same)))
        | no other ↦ get_or-set_ne f i k i 0 other ∙ below k (omega (arith, other))
      ])
      j (omega arith)

default_size-pos : (s : ℕ) → 0 < default_size s
unfolding default_size
default_size-pos s = ground arith

module _ {S : Type 0} (parent : Allocator S) (sa n entry_size : ℕ) (mem : MemBlk) (s s1 : S) where
  abbrev pub block_size : ℕ
  block_size = n * default_size entry_size

  abbrev pub full : StackAllocator
  full = record {
    base_addr = mem.ptr;
    entry_size = default_size entry_size;
    num_entries = n;
    free_stack_top = n;
    free_stack = number_slots n 0 (replicate (n + 1) 0);
  }

  room : length (replicate {A = ℕ} (n + 1) 0) ≡ n + 1
  room = length-replicate (n + 1) 0

  pub all_free : free_slots full ≡ countdown n
  all_free = stack_view-countdown full.free_stack n λ j lt.
      get_or-number_slots n 0 (replicate (n + 1) 0) (omega (arith, room))
        (λ k h. absurd (omega arith)) j (omega arith)

  pub full-IsValid : block_size < 2 ^ 32 → IsValid full
  full-IsValid small = record {
    room = omega (arith, length-number_slots n 0 (replicate (n + 1) 0), room);
    fits = small;
    positive = default_size-pos entry_size;
    below = rw all_free (countdown-Below n n (omega arith));
    distinct = rw all_free (countdown-Distinct n);
  }

  pub stack_allocator_new-granted :
      (free : ℕ → Cmd S (Unit {0}))
      → sa ≢ 0
      → parent.allocate block_size s ≡ ok (mem, s1)
      → mem.ptr ≢ 0
      → block_size < 2 ^ 32
      → stack_allocator_new parent free sa n entry_size s ≡ ok (some full, s1)
  unfolding stack_allocator_new
  stack_allocator_new-granted free there granted block small =
      let whole : u32 block_size ≡ block_size = omega (arith, small) in
      rw (==_ne sa 0 there, whole, granted, ==_ne mem.ptr 0 block) refl

  -- If there is memory for the struct and the parent grants a block of less than 4 GB,
  -- `stack_allocator_new` returns a valid allocator with every slot free, the last one on top. If
  -- the parent then takes the whole block back, `stack_allocator_free` returns it.
  pub stack_allocator_new-full :
      (free : ℕ → Cmd S (Unit {0})) (b : MemBlk) (s2 s3 : S)
      → sa ≢ 0
      → parent.allocate block_size s ≡ ok (mem, s1)
      → mem.ptr ≢ 0
      → block_size < 2 ^ 32
      → parent.deallocate (record { ptr = mem.ptr; size = block_size }) s2 ≡ ok (b, s3)
      → (a : StackAllocator) × (stack_allocator_new parent free sa n entry_size s ≡ ok (some a, s1))
        × IsValid a
        × (free_slots a ≡ countdown n)
        × (stack_allocator_free parent a s2 ≡ ok (tt, s3))
  unfolding stack_allocator_free
  stack_allocator_new-full free b s2 s3 there granted block small returned =
      let whole : u32 block_size ≡ block_size = omega (arith, small) in
      (
        full,
        stack_allocator_new-granted free there granted block small,
        full-IsValid small,
        all_free,
        rw (whole, returned) refl,
      )
