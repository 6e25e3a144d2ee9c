-- ===== src/Ixgbe/Init/Grants.antt =====
-- An operating system that grants every request of the driver.
use ixy.Base.{ℕ, ◌*◌, ◌+◌, ◌%◌, ◌/◌, ◌^◌, ◌<◌, ◌≡◌, ◌≢◌, arith, some, u64, refl}
use ixy.Base.Outcome.{ok}
use ixy.Os.{Os}
use ixy.Memory.{Heap, DmaMemory, malloc, memory_allocate_dma, round_up_2mb}
use ixy.Memory.Dma.{memory_allocate_dma_lem}

-- No call returns -1 or `NULL`, and pages have a frame.
pub record Grants (os : Os) : Type 0 where
  pub malloc : (n size : ℕ) → os.malloc n size ≢ 0
  pub open_huge : (id : ℕ) → (fd : ℕ) × (os.open_huge id ≡ some fd)
  pub ftruncate : (fd size : ℕ) → (r : ℕ) × (os.ftruncate fd size ≡ some r)
  pub mmap : (fd size : ℕ) → (virt : ℕ) × (os.mmap fd size ≡ some virt) × (0 < virt)
  pub mlock : (virt size : ℕ) → (r : ℕ) × (os.mlock virt size ≡ some r)
  pub pagemap : (offset : ℕ) → (word : ℕ) × (os.pagemap offset ≡ some word) × (word ≢ 0)

-- A block is at the physical address of its first byte: the frame, in the low 55 bits of the entry of
-- the page table for its page, and the offset in the page.
abbrev pub IsTranslated : Os → DmaMemory → Type 0
IsTranslated os mem =
    (word : ℕ) × (os.pagemap (mem.virt / os.page_size * 8) ≡ some word)
    × (mem.phy ≡ u64 (word % 2 ^ 55 * os.page_size + mem.virt % os.page_size))

pub Grants-dma :
    (os : Os) (g : Grants os) (bytes : ℕ) (h : Heap)
    → (mem : DmaMemory) × (h' : Heap) × (memory_allocate_dma os bytes h ≡ ok (mem, h'))
      × (0 < mem.virt)
      × (mem.phy < 2 ^ 64)
      × IsTranslated os mem
Grants-dma os g bytes h =
    let (fd, opened) = g.open_huge h.huge_pg_id in
    let (t, truncated) = g.ftruncate fd (round_up_2mb bytes) in
    let (virt, mapped, pos) = g.mmap fd (round_up_2mb bytes) in
    let (l, locked) = g.mlock virt (round_up_2mb bytes) in
    let (word, there, ne) = g.pagemap (virt / os.page_size * 8) in
    (
      record { virt = virt; phy = u64 (word % 2 ^ 55 * os.page_size + virt % os.page_size) },
      _,
      memory_allocate_dma_lem os bytes fd t l virt word h opened truncated mapped locked there ne,
      pos,
      omega arith,
      (word, there, refl),
    )

pub Grants-malloc :
    (os : Os) (g : Grants os) (size : ℕ) (h : Heap)
    → (p : ℕ) × (h' : Heap) × (malloc os size h ≡ ok (p, h')) × (p ≢ 0)
unfolding malloc
Grants-malloc os g size h = (_, _, refl, g.malloc _ _)
