-- ===== src/Memory/Dma.antt =====
-- The rounding to huge pages, the translation of addresses, and the allocation of DMA memory.
use ixy.Base.{
  ℕ, ◌+◌, ◌-◌, ◌*◌, ◌/◌, ◌%◌, ◌^◌, ◌≤◌, ◌<◌, ◌≡◌, ◌≢◌, refl, ap, ◌∙◌, arith, some, u32, u64, ==_ne,
}
use ixy.Base.Bits.{bit_and_mask}
use ixy.Base.Outcome.{Outcome, ok}
use ixy.Os.{Os}
use ixy.Memory.{Heap, round_up_2mb, virt_to_phys, memory_allocate_dma}

-- A size that does not reach the last 2 MB of the address space is rounded up to the next multiple
-- of 2 MB: the result is a multiple, at least the size, and less than 2 MB above it.
pub round_up_2mb_bounds :
    (size : ℕ)
    → size ≤ 2 ^ 64 - 2 ^ 21
    → (size ≤ round_up_2mb size)
      × (round_up_2mb size < size + 2 ^ 21)
      × (round_up_2mb size % 2 ^ 21 ≡ 0)
unfolding round_up_2mb
round_up_2mb_bounds size h = ground arith

-- Where the page table entry is there and not 0, the result is its page frame and the offset.
virt_to_phys_entry :
    (os : Os) (virt word : ℕ) (h : Heap)
    → os.pagemap (virt / os.page_size * 8) ≡ some word
    → word ≢ 0
    → virt_to_phys os virt h ≡ ok (u64 (word % 2 ^ 55 * os.page_size + virt % os.page_size), h)
unfolding virt_to_phys
virt_to_phys_entry os virt word h e ne =
    rw (e, ==_ne word 0 ne)
      (ap (λ f. ok (u64 (f * os.page_size + virt % os.page_size), h)) (bit_and_mask 55 word))

-- The bytes of one page of 4096 are translated to consecutive physical addresses, if the first
-- address is translated and the page frame fits the 52 bits that a 64-bit address leaves for it.
pub virt_to_phys_page :
    (os : Os) (virt d word : ℕ) (h : Heap)
    → os.page_size ≡ 4096
    → os.pagemap (virt / 4096 * 8) ≡ some word
    → word ≢ 0
    → word % 2 ^ 55 < 2 ^ 52
    → virt % 4096 + d < 4096
    → (phy : ℕ) × (virt_to_phys os virt h ≡ ok (phy, h))
      × (virt_to_phys os (virt + d) h ≡ ok (phy + d, h))
      × (phy % 4096 ≡ virt % 4096)
virt_to_phys_page os virt d word h page e ne frame within = (
  word % 2 ^ 55 * 4096 + virt % 4096,
  translated virt refl (virt % 4096) refl ∙ whole (virt % 4096) (omega arith),
  translated (virt + d) (omega arith) ((virt + d) % 4096) refl
      ∙ whole ((virt + d) % 4096) (omega arith)
      ∙ ap (λ (x : ℕ). ok (x, h)) (omega arith),
  omega arith,
)
  where
    translated :
        (a : ℕ)
        → a / 4096 ≡ virt / 4096
        → (k : ℕ) → k ≡ a % 4096
        → virt_to_phys os a h ≡ ok (u64 (word % 2 ^ 55 * 4096 + k), h)
    translated a same k off =
        virt_to_phys_entry os a word h (rw (page, same) e) ne ∙ rw (page, off) refl

    whole :
        (k : ℕ)
        → k < 4096
        → ◌≡◌ {A = Outcome (ℕ × Heap)}
            (ok (u64 (word % 2 ^ 55 * 4096 + k), h))
            (ok (word % 2 ^ 55 * 4096 + k, h))
    whole k lt = ap (λ (x : ℕ). ok (x, h)) (omega arith)

-- If every system call succeeds and the page table has an entry for the block, the block is what
-- `mmap` returned for the rounded size, with the physical address of its first byte; of the
-- process's state only the counter of huge pages changes, by one modulo 2^32.
pub memory_allocate_dma_lem :
    (os : Os) (bytes fd t l virt word : ℕ) (h : Heap)
    → os.open_huge h.huge_pg_id ≡ some fd
    → os.ftruncate fd (round_up_2mb bytes) ≡ some t
    → os.mmap fd (round_up_2mb bytes) ≡ some virt
    → os.mlock virt (round_up_2mb bytes) ≡ some l
    → os.pagemap (virt / os.page_size * 8) ≡ some word
    → word ≢ 0
    → memory_allocate_dma os bytes h
      ≡ ok (
        record { virt = virt; phy = u64 (word % 2 ^ 55 * os.page_size + virt % os.page_size) },
        record h { huge_pg_id = u32 (h.huge_pg_id + 1) },
      )
unfolding memory_allocate_dma
memory_allocate_dma_lem os bytes fd t l virt word h op tr mm ml pm ne =
    rw (op, tr, mm, ml, virt_to_phys_entry os virt word _ pm ne) refl
