-- ===== src/Allocator/Dma.antt =====
-- src/allocator/dma_allocator.c: blocks of huge pages that are physically continuous.
--
-- The state is the heap of Memory.antt, of which this file uses its own counter `huge_pg_id`.
pub mod Continuous
pub mod Tests
use ixy.Base.{
  ℕ, zero, suc, ◌+◌, ◌-◌, ◌*◌, ◌/◌, ◌%◌, ◌^◌, bit_and, Bool, true, false, not, Option, ◌==◌, ltb,
  if◌then◌else◌, u32, u64, ◌<<<◌, ◌>>>◌,
}
use ixy.Base.Outcome.{Cmd, ◌>>=◌, ◌>>◌, pure, gets, abort, check_err, modify}
use ixy.Os.{Os}
use ixy.Memory.{Heap}
use ixy.Allocator.{MemBlk, Allocator}

-- `allocate` rounds up to whole huge pages of 2 MB.
unfoldable pub round_size : ℕ → ℕ
round_size size = if size % 2 ^ 21 == 0 then size else u64 ((size >>> 21 + 1) <<< 21)

-- The number of rounds of a loop from 0 below `size` in steps of `step`.
abbrev pub rounds : ℕ → ℕ → ℕ
rounds size step = (size + step - 1) / step

-- The block without the alignment of 4096.
abbrev pub dma_owns : Heap → MemBlk → Bool
dma_owns h blk = true

module _ (os : Os) where
  unfoldable pub virt_to_phys : ℕ → Cmd Heap ℕ
  virt_to_phys virt = do
    phy ← check_err (os.pagemap (virt / os.page_size * 8))
    let pfn = bit_and phy 0x7fffffffffffff
    if phy == 0 then abort else pure (u64 (pfn * os.page_size + virt % os.page_size))

  -- The loop of `is_phys_continuous` at address `i`, with `left` pages to go.
  unfoldable pub check_pages : ℕ → ℕ → ℕ → ℕ → Cmd Heap Bool
  check_pages virt_base phys_base zero i = pure true
  check_pages virt_base phys_base (suc left) i = do
    phys ← virt_to_phys i
    let rest = check_pages virt_base phys_base left (i + os.page_size)
    if not (u64 (phys_base + (i - virt_base)) == phys) then pure false else rest

  unfoldable pub is_phys_continuous : MemBlk → Cmd Heap Bool
  is_phys_continuous blk =
      if not (blk.ptr % os.page_size == 0)
      then abort
      else if ltb blk.size os.page_size
      then abort
      else do
        phys_base ← virt_to_phys blk.ptr
        check_pages blk.ptr phys_base (rounds blk.size os.page_size) blk.ptr

  -- The reads and writes that touch every page leave the memory as it is.
  unfoldable pub dma_allocate : ℕ → Cmd Heap MemBlk
  dma_allocate request = do
    let size = round_size request
    id ← gets (λ h. h.huge_pg_id)
    modify (λ h. record h { huge_pg_id = u32 (id + 1) })
    fd ← check_err (os.open_huge id)
    _ ← check_err (os.ftruncate fd size)
    virt_addr ← check_err (os.mmap fd size)
    _ ← check_err (os.mlock virt_addr size)
    let blk : MemBlk = record { ptr = virt_addr; size = size }
    continuous ← is_phys_continuous blk
    if not continuous then abort else pure blk

-- The block is left as it is.
unfoldable pub dma_deallocate : (ℕ → ℕ → Option ℕ) → MemBlk → Cmd Heap MemBlk
dma_deallocate munmap blk = do _ ← check_err (munmap blk.ptr blk.size); pure blk

abbrev pub dma_allocator : Os → (ℕ → ℕ → Option ℕ) → Allocator Heap
dma_allocator os munmap = record {
  allocate = dma_allocate os;
  deallocate = dma_deallocate munmap;
  owns = dma_owns;
}
