-- ===== src/Memory/New.antt =====
-- `memory_allocate_mempool` builds a valid pool with every entry free.
use ixy.Base.{
  ℕ, zero, suc, ◌+◌, ◌*◌, ◌^◌, ◌≤◌, ◌<◌, ◌≡◌, refl, ap₂, ◌∙◌, ◌≢◌, List, [], ◌∷◌, arith, some,
  length, get_or, set, length-set, length-replicate, replicate, get_or-set_self, get_or-set_ne,
  Distinct, update_self, update_ne, u32, u64, ==_ne,
}
use native.Mathlib.Decide.{ℕ_discrete}
use ixy.Base.Outcome.{ok}
use ixy.Os.{Os}
use ixy.Memory.{
  PktBuf, Mempool, Heap, DmaMemory, put_pool, put_buf, load_pool, init_entry, init_entries,
  default_entry_size, header_size, malloc, memory_allocate_dma, memory_allocate_mempool,
  sizeof_mempool,
}
use ixy.Memory.Stack.{stack_view, NotIn, Below}
use ixy.Memory.Pool.{free_ids, HasHeader, IsPool}

-- `n - 1`, …, 0.
abbrev pub countdown : ℕ → List ℕ
countdown zero = []
countdown (suc n) = n ∷ countdown n

pub countdown-Below : (n k : ℕ) → n ≤ k → Below k (countdown n)
countdown-Below zero k h = tt
countdown-Below (suc n) k h = (h, countdown-Below n k (omega arith))

pub countdown-NotIn : (n k : ℕ) → n ≤ k → NotIn k (countdown n)
countdown-NotIn zero k h = tt
countdown-NotIn (suc n) k h = (omega arith, countdown-NotIn n k (omega arith))

pub countdown-Distinct : (n : ℕ) → Distinct (countdown n)
countdown-Distinct zero = tt
countdown-Distinct (suc n) = (countdown-NotIn n n (omega arith), countdown-Distinct n)

pub stack_view-countdown :
    (f : List ℕ) (n : ℕ) → ((j : ℕ) → j < n → get_or f j 0 ≡ j) → stack_view f n ≡ countdown n
stack_view-countdown f zero h = refl
stack_view-countdown f (suc n) h =
    ap₂ ◌∷◌ (h n (omega arith)) (stack_view-countdown f n (λ j lt. h j (omega arith)))

-- A valid pool of `n` entries of `size` bytes in the block `mem`, all free, the last one on top.
pub record IsFullPool (mem : DmaMemory) (n size : ℕ) (h : Heap) (p : ℕ) (m : Mempool) : Type 0 where
  pub valid : IsPool h p m
  pub all_free : free_ids m ≡ countdown n
  pub entries : m.num_entries ≡ n
  pub spacing : m.buf_size ≡ size
  pub block : m.base_addr ≡ mem.virt
  pub block_phy : m.base_addr_phy ≡ mem.phy

module _ (p : ℕ) (mem : DmaMemory) (n size : ℕ) (pos : header_size ≤ size)
    (fits : n * size < 2 ^ 32) where
  -- The pool with a given free stack, all of it live.
  abbrev full_pool : List ℕ → Mempool
  full_pool stack = record {
    base_addr = mem.virt;
    base_addr_phy = mem.phy;
    buf_size = size;
    num_entries = n;
    free_stack_top = n;
    free_stack = stack;
  }

  -- The state of the loop at index `i`.
  record IsBuilt (h : Heap) (i : ℕ) : Type 0 where
    stack : List ℕ
    here : h.pools p ≡ some (full_pool stack)
    room : length stack ≡ n + 1
    ids : (j : ℕ) → j < i → get_or stack j 0 ≡ j
    headers : (j : ℕ) → j < i → HasHeader h p (full_pool stack) j

  no_wrap : (i : ℕ) → i < n → u32 (i * size) ≡ i * size
  no_wrap i lt = let small : i * size < 2 ^ 32 = grind arith in omega arith

  apart : (i j : ℕ) → i < j → mem.virt + i * size ≢ mem.virt + j * size
  apart i j lt = let small : i * size < j * size = grind arith in omega arith

  init_entry-IsBuilt :
      (h : Heap) (i : ℕ)
      → i < n
      → IsBuilt h i
      → (h' : Heap) × (init_entry p size i h ≡ ok (tt, h')) × IsBuilt h' (i + 1)
  unfolding init_entry load_pool
  init_entry-IsBuilt h i lt b = (
    put_buf (mem.virt + i * size) entry (put_pool p (full_pool (set b.stack i i)) h),
    ground (arith, b.here, b.room, no_wrap i lt),
    record {
      stack = set b.stack i i;
      here = update_self _ p _;
      room = length-set b.stack i i ∙ b.room;
      ids = λ j below. elim (ℕ_discrete i j) [
        | yes e ↦ rw (← e) (get_or-set_self b.stack i i 0 (omega (arith, b.room)))
        | no ne ↦ get_or-set_ne b.stack i j i 0 ne ∙ b.ids j (omega arith)
      ];
      headers = λ j below. elim (ℕ_discrete i j) [
        | yes e ↦
            rw (← e) (record {
              buf = entry;
              here = update_self _ _ _;
              pool = refl;
              idx = refl;
              phy = refl;
            })
        | no ne ↦
            let hd = b.headers j (omega arith) in
            record {
              buf = hd.buf;
              here = update_ne _ _ _ _ (apart j i (omega arith)) ∙ hd.here;
              pool = hd.pool;
              idx = hd.idx;
              phy = hd.phy;
            }
      ];
    },
  )
    where
      entry : PktBuf
      entry = record {
        buf_addr_phy = u64 (mem.phy + i * size);
        mempool = p;
        mempool_idx = i;
        size = 0;
        payload = λ _. 0;
      }

  init_entries-IsBuilt :
      (left i : ℕ) (h : Heap)
      → i + left ≡ n
      → IsBuilt h i
      → (h' : Heap) × (init_entries p size left i h ≡ ok (tt, h')) × IsBuilt h' n
  unfolding init_entries
  init_entries-IsBuilt zero i h e b = (h, refl, let e' : i ≡ n = omega arith in rw e' at b)
  init_entries-IsBuilt (suc left) i h e b =
      let (h1, returns, b1) = init_entry-IsBuilt h i (omega arith) b in
      let (h2, rest, b2) = init_entries-IsBuilt left (i + 1) h1 (omega arith) b1 in
      (h2, rw returns rest, b2)

  full_pool-IsFullPool :
      (h : Heap) (b : IsBuilt h n) → IsFullPool mem n size h p (full_pool b.stack)
  full_pool-IsFullPool h b =
      let all_free = stack_view-countdown b.stack n b.ids in
      record {
        valid = record {
          here = b.here;
          room = omega (arith, b.room);
          fits = fits;
          positive = omega (arith, pos);
          below = rw all_free (countdown-Below n n (omega arith));
          distinct = rw all_free (countdown-Distinct n);
          headers = b.headers;
        };
        all_free = all_free;
        entries = refl;
        spacing = refl;
        block = refl;
        block_phy = refl;
      }

  -- The body of `memory_allocate_mempool` after its two allocations.
  init_entries-IsFullPool :
      (h : Heap)
      → (h' : Heap) × (m : Mempool) × (init_entries p size n 0
            (put_pool p (full_pool (replicate (n + 1) 0)) h)
          ≡ ok (tt, h'))
        × IsFullPool mem n size h' p m
  init_entries-IsFullPool h =
      let start : IsBuilt (put_pool p (full_pool (replicate (n + 1) 0)) h) 0 = record {
        stack = replicate (n + 1) 0;
        here = update_self _ p _;
        room = length-replicate (n + 1) 0;
        ids = λ j lt. absurd (omega arith);
        headers = λ j lt. absurd (omega arith);
      } in
      let (h', returns, b) = init_entries-IsBuilt n 0 _ (omega arith) start in
      (h', full_pool b.stack, returns, full_pool-IsFullPool h' b)

-- A new pool is valid and has every entry free, the last one on top, if `malloc` and the DMA
-- allocation succeed, the block's size fits a `uint32_t`, and the entries have at least the 24
-- bytes of a header. Its entries are `entry_size` bytes apart in the DMA block, or 2048 if
-- `entry_size` is 0.
pub memory_allocate_mempool-IsFullPool :
    (os : Os) (n entry_size p : ℕ) (h h1 h2 : Heap) (mem : DmaMemory)
    → header_size ≤ default_entry_size entry_size
    → n * default_entry_size entry_size < 2 ^ 32
    → malloc os (sizeof_mempool + n * 4) h ≡ ok (p, h1)
    → p ≢ 0
    → memory_allocate_dma os (n * default_entry_size entry_size) h1 ≡ ok (mem, h2)
    → (h' : Heap) × (m : Mempool) × (memory_allocate_mempool os n entry_size h ≡ ok (p, h'))
      × IsFullPool mem n (default_entry_size entry_size) h' p m
unfolding memory_allocate_mempool
memory_allocate_mempool-IsFullPool os n entry_size p h h1 h2 mem large fits alloc ne dma =
    let size = default_entry_size entry_size in
    let (h', m, loop, rest) = init_entries-IsFullPool p mem n size large fits h2 in
    let whole : u32 (n * size) ≡ n * size = omega arith in
    (h', m, rw (alloc, whole, dma, ==_ne p 0 ne, loop) refl, rest)
