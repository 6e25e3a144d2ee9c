-- ===== src/Memory/Pool.antt =====
-- What a valid pool is, and that `pkt_buf_alloc` and `pkt_buf_free` pop and push its free entries.
use ixy.Base.{
  ℕ, ◌+◌, ◌-◌, ◌*◌, ◌^◌, ◌≤◌, ◌<◌, ◌≡◌, refl, List, ◌∷◌, arith, some, length, set, length-set,
  get_elem?-eq-get_or, Distinct, update_self, u32, u64,
}
use ixy.Base.Outcome.{ok}
use ixy.Memory.{PktBuf, Mempool, Heap, put_pool, pkt_buf_alloc, pkt_buf_free}
use ixy.Memory.Stack.{
  stack_view, length-stack_view, stack_view-push, stack_view-cons, NotIn, Below, length-Distinct,
}

-- The ids of the free entries, the next one first.
abbrev pub free_ids : Mempool → List ℕ
free_ids m = stack_view m.free_stack m.free_stack_top

-- Where entry `i` of a pool begins.
abbrev pub entry_addr : Mempool → ℕ → ℕ
entry_addr m i = m.base_addr + i * m.buf_size

-- The header of entry `i` leads back to the pool and the entry, and has its physical address.
pub record HasHeader (h : Heap) (p : ℕ) (m : Mempool) (i : ℕ) : Type 0 where
  pub buf : PktBuf
  pub here : h.bufs (entry_addr m i) ≡ some buf
  pub pool : buf.mempool ≡ p
  pub idx : buf.mempool_idx ≡ i
  pub phy : buf.buf_addr_phy ≡ u64 (m.base_addr_phy + i * m.buf_size)

-- The free ids are distinct ids of the pool, its block does not wrap a `uint32_t`, and each entry
-- has its header.
pub record IsPool (h : Heap) (p : ℕ) (m : Mempool) : Type 0 where
  pub here : h.pools p ≡ some m
  pub room : m.num_entries < length m.free_stack
  pub fits : m.num_entries * m.buf_size < 2 ^ 32
  pub positive : 0 < m.buf_size
  pub below : Below m.num_entries (free_ids m)
  pub distinct : Distinct (free_ids m)
  pub headers : (i : ℕ) → i < m.num_entries → HasHeader h p m i

-- The pool after `pkt_buf_alloc` and after `pkt_buf_free` of an entry.
abbrev pub popped : Mempool → Mempool
popped m = record m { free_stack_top = m.free_stack_top - 1 }

abbrev pub pushed : Mempool → ℕ → Mempool
pushed m i = record m {
  free_stack_top = m.free_stack_top + 1;
  free_stack = set m.free_stack m.free_stack_top i;
}

module _ {h : Heap} {p : ℕ} {m : Mempool} (v : IsPool h p m) where
  pub top-le : m.free_stack_top ≤ m.num_entries
  top-le = omega (
    arith,
    length-stack_view m.free_stack m.free_stack_top,
    length-Distinct m.num_entries (free_ids m) v.below v.distinct,
  )

  -- No multiplication of an entry's id wraps.
  pub entry-no_wrap : (i : ℕ) → i < m.num_entries → u32 (i * m.buf_size) ≡ i * m.buf_size
  entry-no_wrap i lt = let small : i * m.buf_size < 2 ^ 32 = grind (arith, v.fits) in omega arith

  put_pool-HasHeader :
      (m' : Mempool) (i : ℕ)
      → m'.base_addr ≡ m.base_addr
      → m'.base_addr_phy ≡ m.base_addr_phy
      → m'.buf_size ≡ m.buf_size
      → HasHeader h p m i
      → HasHeader (put_pool p m' h) p m' i
  put_pool-HasHeader m' i e f g hd = record {
    buf = hd.buf;
    here = rw (e, g) hd.here;
    pool = hd.pool;
    idx = hd.idx;
    phy = rw (f, g) hd.phy;
  }

  -- An empty pool returns `NULL` and stays as it is.
  pub pkt_buf_alloc_empty : m.free_stack_top ≡ 0 → pkt_buf_alloc p h ≡ ok (0, h)
  unfolding pkt_buf_alloc
  pkt_buf_alloc_empty e = ground (arith, v.here)

  -- `pkt_buf_alloc` reads the pool alone: in any memory that has it, it takes the next free entry.
  pub pkt_buf_alloc_next :
      (k : Heap) (i : ℕ) (rest : List ℕ)
      → k.pools p ≡ some m
      → free_ids m ≡ i ∷ rest
      → pkt_buf_alloc p k ≡ ok (entry_addr m i, put_pool p (popped m) k)
  unfolding pkt_buf_alloc
  pkt_buf_alloc_next k i rest there e =
      let (pos, top, tail) = stack_view-cons m.free_stack m.free_stack_top i rest e in
      let lt : i < m.num_entries = (rw e at v.below).0 in
      ground (
        arith,
        there,
        top-le,
        v.room,
        entry-no_wrap i lt,
        get_elem?-eq-get_or m.free_stack (m.free_stack_top - 1) 0,
      )

  -- In a valid pool whose next free entry is `i`, `pkt_buf_alloc` returns the address of entry `i`,
  -- which is one of the pool, and takes it off the free entries; the pool stays valid.
  pub pkt_buf_alloc_pop :
      (i : ℕ) (rest : List ℕ)
      → free_ids m ≡ i ∷ rest
      → (pkt_buf_alloc p h ≡ ok (entry_addr m i, put_pool p (popped m) h))
        × (i < m.num_entries)
        × (free_ids (popped m) ≡ rest)
        × IsPool (put_pool p (popped m) h) p (popped m)
  pkt_buf_alloc_pop i rest e =
      let (pos, top, tail) = stack_view-cons m.free_stack m.free_stack_top i rest e in
      let valid : IsPool (put_pool p (popped m) h) p (popped m) = record {
        here = update_self _ p _;
        room = v.room;
        fits = v.fits;
        positive = v.positive;
        below = rw tail (rw e at v.below).1;
        distinct = rw tail (rw e at v.distinct).1;
        headers = λ k lt. put_pool-HasHeader _ k refl refl refl (v.headers k lt);
      } in
      let lt : i < m.num_entries = (rw e at v.below).0 in
      (pkt_buf_alloc_next h i rest v.here e, lt, tail, valid)

  -- In a valid pool, `pkt_buf_free` of an entry that is not free puts it on top of the free
  -- entries, within the free stack; the pool stays valid.
  pub pkt_buf_free_push :
      (i : ℕ)
      → i < m.num_entries
      → NotIn i (free_ids m)
      → (pkt_buf_free (entry_addr m i) h ≡ ok (tt, put_pool p (pushed m i) h))
        × (free_ids (pushed m i) ≡ i ∷ free_ids m)
        × IsPool (put_pool p (pushed m i) h) p (pushed m i)
  unfolding pkt_buf_free
  pkt_buf_free_push i lt fresh = (returns, view, valid)
    where
      open (v.headers i lt) use {buf, here as there, pool, idx}

      full : length (i ∷ free_ids m) ≤ m.num_entries
      full = length-Distinct m.num_entries (i ∷ free_ids m) (lt, v.below) (fresh, v.distinct)

      roomy : m.free_stack_top < m.num_entries
      roomy = omega (arith, full, length-stack_view m.free_stack m.free_stack_top)

      small : m.num_entries < 2 ^ 32
      small = grind (arith, v.fits, v.positive)

      view : free_ids (pushed m i) ≡ i ∷ free_ids m
      view = stack_view-push m.free_stack m.free_stack_top i (omega (arith, roomy, v.room))

      returns : pkt_buf_free (entry_addr m i) h ≡ ok (tt, put_pool p (pushed m i) h)
      returns = ground (arith, there, pool, idx, v.here, v.room, roomy, small)

      valid : IsPool (put_pool p (pushed m i) h) p (pushed m i)
      valid = record {
        here = update_self _ p _;
        room = rw length-set v.room;
        fits = v.fits;
        positive = v.positive;
        below = rw view (lt, v.below);
        distinct = rw view (fresh, v.distinct);
        headers = λ k b. put_pool-HasHeader _ k refl refl refl (v.headers k b);
      }
