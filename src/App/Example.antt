-- ===== src/App/Example.antt =====
-- src/app/allocator-example.c: the mallocator, a stack allocator behind it, a fallback allocator, a
-- spinlock stack allocator and the DMA allocator, one after the other.
--
-- What `malloc` returns is a parameter, and the state is that of the mallocator. The local variable
-- `a` is the state of the allocator that it points to.
pub mod Alone
pub mod Dma
pub mod Slots
pub mod Runs
mod Tests
use ixy.Base.{
  ℕ, zero, suc, ◌+◌, ◌*◌, Bool, not, ◌==◌, if◌then◌else◌, Option, none, some, true, false, ltb,
}
use ixy.Base.Outcome.{
  Outcome, ok, aborted, exited, fault, hung, Cmd, ◌>>=◌, ◌>>◌, pure, abort, gets, modify, or_fault,
  zoom,
}
use ixy.Os.{Os}
use ixy.Memory.{Heap}
use ixy.Allocator.{MemBlk}
use ixy.Allocator.Dma.{dma_allocate, dma_deallocate}
use ixy.Allocator.Malloc.{
  Arena, free, call_malloc, mallocator_allocate, mallocator_deallocate, mallocator, null_allocator,
}
use ixy.Allocator.Stack.{StackAllocator, allocate, deallocate, entry_id}
use ixy.Allocator.Spinlock.{
  Spinlock, Shared, Pc, outside, granted, step, call_allocate, call_deallocate,
}
use ixy.Allocator.Spinlock.New.{spinlock_stack_allocator_new, spinlock_stack_allocator_free, owns}
use ixy.Allocator.Stack.New.{stack_allocator_new, stack_allocator_free}
use ixy.Allocator.Fallback.New.{FallbackAllocator, fallback_allocator_new, fallback_allocator_free}

-- `error(...)` if a test fails.
abbrev pub ensure {ℓ} : {S : Type ℓ} → Bool → Cmd S (Unit {0})
ensure b = if b then pure tt else abort

-- The loop that takes slots, with `left` to go.
unfoldable pub take_slots : ℕ → MemBlk → Cmd StackAllocator MemBlk
take_slots zero blk = pure blk
take_slots (suc left) blk = do
  blk' ← allocate 64
  ensure (not (blk'.ptr == 0))
  take_slots left blk'

-- What is done with the stack allocator.
unfoldable pub use_stack : Cmd StackAllocator (Unit {0})
use_stack = do
  big ← allocate 128
  ensure (big.ptr == 0)
  last ← take_slots 1024 big
  _ ← deallocate last
  again ← allocate 64
  ensure (not (again.ptr == 0))
  more ← allocate 64
  ensure (more.ptr == 0)

-- A command on an object that nothing else has: the object is part of the result.
abbrev pub beside : {S A : Type 0} → S → Outcome A → Outcome (A × S)
beside s (ok a) = ok (a, s)
beside s aborted = aborted
beside s exited = exited
beside s fault = fault
beside s hung = hung

abbrev pub on_local : {S T A : Type 0} → T → Cmd T A → Cmd S (A × T)
on_local t c s = beside s (c t)

-- A command on the states of a null allocator and a mallocator.
abbrev pub on_both : {A : Type 0} → Cmd (Unit {0} × Arena) A → Cmd Arena A
on_both = zoom (λ s. (tt, s)) (λ s both. both.1)

-- `sizeof(struct stack_allocator)`.
abbrev pub sizeof_stack_allocator : ℕ
sizeof_stack_allocator = 72

module _ (malloc : ℕ → ℕ → ℕ) where
  -- The mallocator.
  unfoldable pub try_mallocator : Cmd Arena (Unit {0})
  try_mallocator = do blk ← mallocator_allocate malloc 1024; _ ← mallocator_deallocate blk; pure tt

  -- The stack allocator, with `malloc` and `free` of its struct.
  unfoldable pub try_stack : Cmd Arena (Unit {0})
  try_stack = do
    sa ← call_malloc malloc (sizeof_stack_allocator + 4 * 1024)
    made ← stack_allocator_new (mallocator malloc) free sa 1024 64
    a ← or_fault made
    used ← on_local a use_stack
    stack_allocator_free (mallocator malloc) used.1
    free sa

  -- The fallback allocator.
  unfoldable pub try_fallback : Cmd Arena (Unit {0})
  try_fallback = do
    a ← fallback_allocator_new malloc 1 null_allocator 1 (mallocator malloc)
    blk ← on_both (a.functions.allocate 64)
    ensure (not (blk.ptr == 0))
    _ ← on_both (a.functions.deallocate blk)
    fallback_allocator_free a

-- `sizeof(struct spinlock_stack_allocator)`.
abbrev pub sizeof_spinlock_stack_allocator : ℕ
sizeof_spinlock_stack_allocator = 80

abbrev pub is_outside : Pc → Bool
is_outside outside = true
is_outside _ = false

-- The block that `allocate` returns, once it has it.
abbrev pub block_of : Pc → MemBlk → MemBlk
block_of (granted blk) _ = blk
block_of _ blk = blk

module _ {L : Type 0} (spin : Spinlock L) where
  -- The function that thread 0 is in, to its end. No other thread takes a step.
  unfoldable pub finish : ℕ → MemBlk → Cmd (Shared L) MemBlk
  finish zero blk = λ _. hung
  finish (suc fuel) blk = λ s.
      if is_outside (s.pc 0) then ok (blk, s) else elim (step spin 0 (s.pc 0) s) [
        | none ↦ hung
        | some s' ↦ finish fuel (block_of (s.pc 0) blk) s'
      ]

  unfoldable pub allocate_alone : ℕ → Cmd (Shared L) MemBlk
  allocate_alone size = modify (call_allocate 0 size) >> finish 5 (record { ptr = 0; size = 0 })

  unfoldable pub deallocate_alone : MemBlk → Cmd (Shared L) (Unit {0})
  deallocate_alone blk = do
    called ← gets (call_deallocate 0 blk)
    elim called [ none ↦ abort | some s ↦ do modify (λ _. s); _ ← finish 5 blk; pure tt ]

  unfoldable pub use_spinlock : Cmd (Shared L) (Unit {0})
  use_spinlock = do
    blk ← allocate_alone 8
    ensure (not (blk.ptr == 0))
    owned ← gets (λ s. owns s blk)
    ensure owned
    deallocate_alone blk

  -- `init` is the lock after `rte_spinlock_init`.
  unfoldable pub try_spinlock : (ℕ → ℕ → ℕ) → L → Cmd Arena (Unit {0})
  try_spinlock malloc init = do
    sa ← call_malloc malloc (sizeof_spinlock_stack_allocator + 4 * 10)
    made ← spinlock_stack_allocator_new (mallocator malloc) spin init free sa 10 8
    a ← or_fault made
    used ← on_local a use_spinlock
    spinlock_stack_allocator_free (mallocator malloc) spin init used.1
    free sa

module _ (os : Os) (munmap : ℕ → ℕ → Option ℕ) where
  -- A block of the DMA allocator.
  unfoldable pub try_block : ℕ → Cmd Heap (Unit {0})
  try_block size = do blk ← dma_allocate os size; _ ← dma_deallocate munmap blk; pure tt

  -- The DMA allocator.
  unfoldable pub try_dma : Cmd Heap (Unit {0})
  try_dma = do try_block 4096; try_block (4 * 1024 * 1024); try_block (8 * 1024 * 1024)

-- A command on the memory of `malloc`, and one on the huge pages.
abbrev pub on_arena : {A : Type 0} → Cmd Arena A → Cmd (Arena × Heap) A
on_arena = zoom (λ s. s.0) (λ s a. (a, s.1))

abbrev pub on_heap : {A : Type 0} → Cmd Heap A → Cmd (Arena × Heap) A
on_heap = zoom (λ s. s.1) (λ s h. (s.0, h))

-- `main`, without what it prints.
unfoldable pub run_example :
    {L : Type 0}
    → (ℕ → ℕ → ℕ)
    → Spinlock L
    → L
    → Os
    → (ℕ → ℕ → Option ℕ)
    → Cmd (Arena × Heap) (Unit {0})
run_example malloc spin init os munmap = do
  on_arena (try_mallocator malloc)
  on_arena (try_stack malloc)
  on_arena (try_fallback malloc)
  on_arena (try_spinlock spin malloc init)
  on_heap (try_dma os munmap)
