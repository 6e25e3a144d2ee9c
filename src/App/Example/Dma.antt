-- ===== src/App/Example/Dma.antt =====
-- The end of src/app/allocator-example.c: blocks of the DMA allocator.
use ixy.Base.{ℕ, ◌+◌, ◌*◌, ◌<◌, ◌≡◌, refl, arith, Option, some, u32}
use ixy.Base.Outcome.{ok}
use ixy.Os.{Os}
use ixy.Memory.{Heap}
use ixy.Allocator.Dma.{round_size, dma_deallocate}
use ixy.Allocator.Dma.Continuous.{Consecutive, Maps, pages, dma_allocate-Consecutive}
use ixy.App.Example.{try_block, try_dma}

-- The calls for a block succeed, its pages are physically in a row, and it can be unmapped.
pub record GrantsBlock (os : Os) (munmap : ℕ → ℕ → Option ℕ) (request : ℕ) (h : Heap) : Type 0 where
  pub virt : ℕ
  pub base : ℕ
  pub maps : Maps os request virt base h
  pub some_page : 0 < pages os request virt base h maps
  pub in_row : Consecutive os virt base (pages os request virt base h maps)
  pub freed : ℕ
  pub unmaps : munmap virt (round_size request) ≡ some freed

module _ (os : Os) (munmap : ℕ → ℕ → Option ℕ) where
  abbrev after_blocks : ℕ → Heap → Heap
  after_blocks k h = record h { huge_pg_id = u32 (h.huge_pg_id + k) }

  try_block-returns :
      (request : ℕ) (h : Heap)
      → GrantsBlock os munmap request h
      → try_block os munmap request h ≡ ok (tt, after_blocks 1 h)
  unfolding try_block dma_deallocate
  try_block-returns request h g =
      rw (dma_allocate-Consecutive os request g.virt g.base h g.maps g.some_page g.in_row, g.unmaps)
        refl

  pub try_dma-returns :
      ((h : Heap) → GrantsBlock os munmap 4096 h)
      → ((h : Heap) → GrantsBlock os munmap (4 * 1024 * 1024) h)
      → ((h : Heap) → GrantsBlock os munmap (8 * 1024 * 1024) h)
      → (h : Heap) → try_dma os munmap h ≡ ok (tt, after_blocks 3 h)
  unfolding try_dma
  try_dma-returns page four eight h =
      let counted : u32 (u32 (u32 (h.huge_pg_id + 1) + 1) + 1) ≡ u32 (h.huge_pg_id + 3) =
        omega arith in
      rw
        (
          try_block-returns _ h (page h),
          try_block-returns _ (after_blocks 1 h) (four _),
          try_block-returns _ (after_blocks 1 (after_blocks 1 h)) (eight _),
          counted,
        )
        refl
