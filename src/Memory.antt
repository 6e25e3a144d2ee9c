-- ===== src/Memory.antt =====
-- src/memory.h and src/memory.c: DMA memory in huge pages, and pools of packet buffers.
--
-- `Heap` holds the process's packet buffers and memory pools by address, the counter of huge pages
-- and the number of calls of `malloc`. A pointer is a number, and `NULL` is 0.
pub mod Stack
pub mod Pool
pub mod Dma
pub mod New
pub mod RoundTrip
pub mod Bag
pub mod Tests
use ixy.Base.{
  ℕ, zero, suc, ◌+◌, ◌-◌, ◌*◌, ◌/◌, ◌%◌, ◌^◌, bit_and, Bool, Option, none, some, List, ◌==◌,
  if◌then◌else◌, u32, u64, ◌<<<◌, ◌>>>◌, length, get_elem?, set, replicate, update, ltb,
}
use ixy.Base.Outcome.{Cmd, undefined, ◌>>=◌, ◌>>◌, pure, gets, abort, or_fault, check_err, modify}
use ixy.Os.{Os}

-- `struct pkt_buf`. `payload` is the array `data`, by index.
pub record PktBuf : Type 0 where
  pub buf_addr_phy : ℕ
  pub mempool : ℕ
  pub mempool_idx : ℕ
  pub size : ℕ
  pub payload : ℕ → ℕ

-- `struct mempool`. `free_stack` is as long as its allocation: `sizeof(struct mempool)` is 32 and
-- the array begins at byte 28, so that there is room for `num_entries + 1` of them.
pub record Mempool : Type 0 where
  pub base_addr : ℕ
  pub base_addr_phy : ℕ
  pub buf_size : ℕ
  pub num_entries : ℕ
  pub free_stack_top : ℕ
  pub free_stack : List ℕ

-- `struct dma_memory`.
pub record DmaMemory : Type 0 where
  pub virt : ℕ
  pub phy : ℕ

pub record Heap : Type 0 where
  pub huge_pg_id : ℕ
  pub mallocs : ℕ
  pub pools : ℕ → Option Mempool
  pub bufs : ℕ → Option PktBuf

-- `*pool` and `*buf`, undefined where there is none.
unfoldable pub load_pool : ℕ → Cmd Heap Mempool
load_pool p h = or_fault (h.pools p) h

unfoldable pub load_buf : ℕ → Cmd Heap PktBuf
load_buf p h = or_fault (h.bufs p) h

abbrev pub put_pool : ℕ → Mempool → Heap → Heap
put_pool p m h = record h { pools = update h.pools p (some m) }

abbrev pub put_buf : ℕ → PktBuf → Heap → Heap
put_buf p b h = record h { bufs = update h.bufs p (some b) }

-- `a[i] = v` within an array, undefined outside of it.
abbrev pub store_at : List ℕ → ℕ → ℕ → Cmd Heap (List ℕ)
store_at a i v = if ltb i (length a) then pure (set a i v) else undefined

-- `sizeof(struct mempool)`.
abbrev pub sizeof_mempool : ℕ
sizeof_mempool = 32

-- The entry size that a pool is asked for, with its default.
unfoldable pub default_entry_size : ℕ → ℕ
default_entry_size entry_size = if entry_size == 0 then 2048 else entry_size

-- `size_t`, rounded up to whole huge pages of 2 MB.
unfoldable pub round_up_2mb : ℕ → ℕ
round_up_2mb size = if size % 2 ^ 21 == 0 then size else u64 ((size >>> 21 + 1) <<< 21)

module _ (os : Os) where
  open os use {page_size, pagemap, open_huge, ftruncate, mmap, mlock}

  unfoldable pub malloc : ℕ → Cmd Heap ℕ
  malloc size = do
    n ← gets (λ h. h.mallocs)
    modify (λ h. record h { mallocs = n + 1 })
    pure (os.malloc n size)

  unfoldable pub virt_to_phys : ℕ → Cmd Heap ℕ
  virt_to_phys virt = do
    phy ← check_err (pagemap (virt / page_size * 8))
    if phy == 0
        then abort
        else pure (u64 (bit_and phy 0x7fffffffffffff * page_size + virt % page_size))

  unfoldable pub memory_allocate_dma : ℕ → Cmd Heap DmaMemory
  memory_allocate_dma bytes = do
    let size = round_up_2mb bytes
    id ← gets (λ h. h.huge_pg_id)
    modify (λ h. record h { huge_pg_id = u32 (id + 1) })
    fd ← check_err (open_huge id)
    _ ← check_err (ftruncate fd size)
    virt_addr ← check_err (mmap fd size)
    _ ← check_err (mlock virt_addr size)
    phy ← virt_to_phys virt_addr
    pure (record { virt = virt_addr; phy = phy })

-- The bytes of a `struct pkt_buf` before its padding: what the loop below writes to an entry.
abbrev pub header_size : ℕ
header_size = 24

-- One round of the loop of `memory_allocate_mempool`. In entries that are smaller than a header, the
-- headers would overlap, which a heap of buffers by address cannot hold: that is left undefined.
pub init_entry : ℕ → ℕ → ℕ → Cmd Heap (Unit {0})
init_entry mempool entry_size i = do
  if ltb entry_size header_size then undefined else pure tt
  m ← load_pool mempool
  stack ← store_at m.free_stack i i
  modify (put_pool mempool (record m { free_stack = stack }))
  modify (
      put_buf (m.base_addr + u32 (i * entry_size)) (record {
        buf_addr_phy = u64 (m.base_addr_phy + u32 (i * entry_size));
        mempool = mempool;
        mempool_idx = i;
        size = 0;
        payload = λ _. 0;
      }))

-- The loop at index `i`, with `left` rounds to go.
pub init_entries : ℕ → ℕ → ℕ → ℕ → Cmd Heap (Unit {0})
init_entries mempool entry_size zero i = pure tt
init_entries mempool entry_size (suc left) i =
    init_entry mempool entry_size i >> init_entries mempool entry_size left (i + 1)

module _ (os : Os) where
  unfoldable pub memory_allocate_mempool : ℕ → ℕ → Cmd Heap ℕ
  memory_allocate_mempool num_entries entry_size = do
    let size = default_entry_size entry_size
    mempool ← malloc os (sizeof_mempool + num_entries * 4)
    mem ← memory_allocate_dma os (u32 (num_entries * size))
    if mempool == 0 then undefined else pure tt
    modify (
        put_pool mempool (record {
          base_addr = mem.virt;
          base_addr_phy = mem.phy;
          buf_size = size;
          num_entries = num_entries;
          free_stack_top = num_entries;
          free_stack = replicate (num_entries + 1) 0;
        }))
    init_entries mempool size num_entries 0
    pure mempool

unfoldable pub pkt_buf_alloc : ℕ → Cmd Heap ℕ
unfolding load_pool
pkt_buf_alloc mempool = do
  m ← load_pool mempool
  if m.free_stack_top == 0 then pure 0 else do
    let top = m.free_stack_top - 1
    entry_id ← or_fault (get_elem? m.free_stack top)
    modify (put_pool mempool (record m { free_stack_top = top }))
    pure (m.base_addr + u32 (entry_id * m.buf_size))

unfoldable pub pkt_buf_free : ℕ → Cmd Heap (Unit {0})
unfolding load_pool load_buf
pkt_buf_free buf = do
  b ← load_buf buf
  m ← load_pool b.mempool
  stack ← store_at m.free_stack m.free_stack_top b.mempool_idx
  modify (
      put_pool b.mempool
        (record m { free_stack_top = u32 (m.free_stack_top + 1); free_stack = stack }))
