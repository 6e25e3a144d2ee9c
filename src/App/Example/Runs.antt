-- ===== src/App/Example/Runs.antt =====
-- The example ends without an error, and gives all memory back.
use ixy.Base.{ℕ, ◌+◌, ◌*◌, ◌≡◌, ◌≢◌, refl, ◌∙◌, arith, ◌∷◌, ==_ne, Option, some, u32}
use ixy.Base.Outcome.{ok}
use ixy.Os.{Os}
use ixy.Memory.{Heap}
use ixy.Allocator.{MemBlk}
use ixy.Allocator.Malloc.{free, Arena, call_malloc, mallocator_allocate, mallocator}
use ixy.Allocator.Malloc.Behind.{
  free_live, mallocator_deallocate-live, mallocator_deallocate-mallocator_allocate,
}
use ixy.Allocator.Stack.New.{default_size, stack_allocator_free}
use ixy.Allocator.Stack.New.Full.{full, full-IsValid, all_free, stack_allocator_new-granted}
use ixy.Allocator.Fallback.{fallback_allocate, fallback_deallocate}
use ixy.Allocator.Fallback.New.{fallback_allocator_new}
use ixy.Allocator.Spinlock.{Spinlock}
use ixy.Allocator.Spinlock.Valid.{IsSpinlock}
use ixy.App.Example.Slots.{use_stack-returns}
use ixy.App.Example.Alone.{try_spinlock-returns}
use ixy.App.Example.Dma.{GrantsBlock, try_dma-returns}
use ixy.App.Example.{try_mallocator, try_stack, try_fallback, run_example, sizeof_stack_allocator}

-- The parts of `main`, for a `malloc` that has memory.
module _ (malloc : ℕ → ℕ → ℕ) (has_memory : (k size : ℕ) → malloc k size ≢ 0) where
  try_mallocator-returns :
      (a : Arena) → (a' : Arena) × (try_mallocator malloc a ≡ ok (tt, a')) × (a'.live ≡ a.live)
  unfolding try_mallocator
  try_mallocator-returns a =
      let (blk, a1, a2, allocates, size, gives, same) =
        mallocator_deallocate-mallocator_allocate malloc 1024 a (has_memory _ _) in
      (a2, rw (allocates, gives) refl, same)

  try_stack-returns :
      (a : Arena) → (a' : Arena) × (try_stack malloc a ≡ ok (tt, a')) × (a'.live ≡ a.live)
  unfolding try_stack call_malloc mallocator_allocate default_size stack_allocator_free
  try_stack-returns a =
      let sa = malloc a.calls (sizeof_stack_allocator + 4 * 1024) in
      let base = malloc (a.calls + 1) 65536 in
      let mem : MemBlk = record { ptr = base; size = 65536 } in
      let a1 : Arena = record { calls = a.calls + 1; live = sa ∷ a.live } in
      let a2 : Arena = record { calls = a.calls + 1 + 1; live = base ∷ sa ∷ a.live } in
      let granted : mallocator_allocate malloc 65536 a1 ≡ ok (mem, a2) =
        rw (==_ne base 0 (has_memory _ _)) refl in
      let made =
        stack_allocator_new-granted (mallocator malloc) sa 1024 64 mem a1 a2 free (has_memory _ _)
          granted (has_memory _ _) (omega arith) in
      let stack = full (mallocator malloc) sa 1024 64 mem a1 a2 in
      let (used, run, v) = use_stack-returns base 1024 (has_memory _ _) stack refl (record {
        valid = full-IsValid (mallocator malloc) sa 1024 64 mem a1 a2 (omega arith);
        base_is = refl;
        size_is = refl;
        number_is = refl;
        free_is = all_free (mallocator malloc) sa 1024 64 mem a1 a2;
      }) in
      (
        record { calls = a.calls + 1 + 1; live = a.live },
        rw
            (
              ==_ne sa 0 (has_memory _ _),
              made,
              run,
              v.base_is,
              mallocator_deallocate-live base _ (a.calls + 1 + 1) (sa ∷ a.live) (has_memory _ _),
              free_live sa (a.calls + 1 + 1) a.live (has_memory _ _),
            )
            refl,
        refl,
      )

  try_fallback-returns :
      (a : Arena) → (a' : Arena) × (try_fallback malloc a ≡ ok (tt, a')) × (a'.live ≡ a.live)
  unfolding try_fallback fallback_allocator_new fallback_allocate fallback_deallocate call_malloc
      mallocator_allocate
  try_fallback-returns a =
      let fb = malloc a.calls 48 in
      let ptr = malloc (a.calls + 1) 64 in
      (
        record { calls = a.calls + 1 + 1; live = a.live },
        rw
            (
              ==_ne fb 0 (has_memory _ _),
              ==_ne ptr 0 (has_memory _ _),
              mallocator_deallocate-live ptr 64 (a.calls + 1 + 1) (fb ∷ a.live) (has_memory _ _),
              free_live fb (a.calls + 1 + 1) a.live (has_memory _ _),
            )
            refl,
        refl,
      )

  module _ {L : Type 0} (spin : Spinlock L) (law : IsSpinlock spin) (init l : L)
      (open_lock : spin.acquire init ≡ some l) (os : Os) (munmap : ℕ → ℕ → Option ℕ)
      (page : (h : Heap) → GrantsBlock os munmap 4096 h)
      (four : (h : Heap) → GrantsBlock os munmap (4 * 1024 * 1024) h)
      (eight : (h : Heap) → GrantsBlock os munmap (8 * 1024 * 1024) h) where
    -- If `malloc` always has memory, the new spinlock is free and excludes, and the calls for the
    -- DMA blocks succeed, with pages in a row, the example ends without an error, whatever is in
    -- use before it: every test passes, among them that 1024 slots can be taken, that one that is
    -- given back can be taken again, and that no more can be taken then. What was allocated is
    -- freed: the memory in use is what it was. Three numbers of huge pages are used up.
    pub run_example-returns :
        (a : Arena) (h : Heap)
        → (a' : Arena) × (run_example malloc spin init os munmap (a, h)
            ≡ ok (tt, (a', record h { huge_pg_id = u32 (h.huge_pg_id + 3) })))
          × (a'.live ≡ a.live)
    unfolding run_example
    run_example-returns a h =
        let (a1, first, same1) = try_mallocator-returns a in
        let (a2, second, same2) = try_stack-returns a1 in
        let (a3, third, same3) = try_fallback-returns a2 in
        let (a4, fourth, same4) =
          try_spinlock-returns spin law malloc init l has_memory open_lock a3 in
        (
          a4,
          rw (first, second, third, fourth, try_dma-returns os munmap page four eight h) refl,
          same4 ∙ same3 ∙ same2 ∙ same1,
        )
