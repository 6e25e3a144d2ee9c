-- ===== src/Ixgbe/Start/Fill.antt =====
-- What the loop of `start_rx_queue` puts into the descriptors and the array of buffers.
use ixy.Base.{
  ℕ, suc, ◌+◌, ◌*◌, ◌<◌, ◌≡◌, ◌≢◌, refl, ◌∙◌, arith, List, [], ◌∷◌, ◌++◌, length, update,
  update_self, update_ne, u64, ==_ne,
}
use ixy.Base.Outcome.{ok}
use ixy.Memory.{Mempool, DmaMemory, put_pool, load_buf}
use ixy.Memory.Pool.{IsPool, free_ids, entry_addr, popped, pkt_buf_alloc_pop}
use ixy.Ixgbe.{Device, Machine, RxDesc, sizeof_desc}
use ixy.Ixgbe.Rx.{descriptors, mempool, virtual_address, virtual_address_at}
use ixy.Ixgbe.Start.{fill_entry, fill_entries}

-- The descriptor that has a physical address.
abbrev pub fresh_desc : ℕ → RxDesc
fresh_desc phy = record { pkt_addr = u64 phy; hdr_addr = 0 }

-- From index `i` on, the array of buffers and the descriptors at `ring` have the entries `ids` of
-- `size` bytes in the block `mem`. The descriptors have the addresses of the headers.
abbrev pub AreFilled :
    (mem : DmaMemory) (size q ring : ℕ) (words : ℕ → ℕ) (descs : ℕ → RxDesc) (i : ℕ)
    → List ℕ
    → Type 0
AreFilled mem size q ring words descs i [] = Unit
AreFilled mem size q ring words descs i (id ∷ ids) =
    (virtual_address words q i ≡ mem.virt + id * size)
    × (descs (ring + i * sizeof_desc) ≡ fresh_desc (mem.phy + id * size))
    × AreFilled mem size q ring words descs (i + 1) ids

-- The block of a pool.
abbrev pub block_of : Mempool → DmaMemory
block_of pool = record { virt = pool.base_addr; phy = pool.base_addr_phy }

-- A pool of `n` entries of `size` bytes in a block.
abbrev pub HasBlock : (mem : DmaMemory) (size n : ℕ) → Mempool → Type 0
HasBlock mem size n pool =
    (pool.base_addr ≡ mem.virt)
    × (pool.base_addr_phy ≡ mem.phy)
    × (pool.buf_size ≡ size)
    × (pool.num_entries ≡ n)

abbrev pub HasFilled : Mempool → (q ring : ℕ) → Machine → ℕ → List ℕ → Type 0
HasFilled pool q ring m =
    AreFilled (block_of pool) pool.buf_size q ring m.dev.rx_queues m.dev.rx_descs

-- The transmit queues and the numbers of queues are the same.
abbrev pub IsSameElsewhere : Device → Device → Type 0
IsSameElsewhere d d' =
    (d'.tx_queues ≡ d.tx_queues)
    × (d'.num_rx_queues ≡ d.num_rx_queues)
    × (d'.num_tx_queues ≡ d.num_tx_queues)

-- Below index `i`, and in the fields of the queue, nothing changed, nor did the card's registers.
pub record IsSameBelow (q ring : ℕ) (m m' : Machine) (i : ℕ) : Type 0 where
  pub word :
      (a : ℕ) → a < virtual_address_at m.dev.rx_queues q i → m'.dev.rx_queues a ≡ m.dev.rx_queues a
  pub desc :
      (k : ℕ)
      → k < i
      → m'.dev.rx_descs (ring + k * sizeof_desc) ≡ m.dev.rx_descs (ring + k * sizeof_desc)
  pub trace : m'.dev.trace ≡ m.dev.trace
  pub elsewhere : IsSameElsewhere m.dev m'.dev

module _ (q p ring : ℕ) where
  -- The state after one round with entry `id`.
  abbrev filled : Mempool → ℕ → ℕ → Machine → Machine
  filled pool id i m = record m {
    heap = put_pool p (popped pool) m.heap;
    dev = record m.dev {
      rx_queues =
          update m.dev.rx_queues (virtual_address_at m.dev.rx_queues q i) (entry_addr pool id);
      rx_descs =
          update m.dev.rx_descs (ring + i * sizeof_desc)
            (fresh_desc (pool.base_addr_phy + id * pool.buf_size));
    };
  }

  -- The struct at `q` has this pool and this ring.
  abbrev IsAt : Machine → Type 0
  IsAt m = (mempool m.dev.rx_queues q ≡ p) × (descriptors m.dev.rx_queues q ≡ ring)

  fill_entry-filled :
      (pool : Mempool) (id : ℕ) (rest : List ℕ) (i : ℕ) (m : Machine)
      → IsAt m
      → IsPool m.heap p pool
      → 0 < pool.base_addr
      → free_ids pool ≡ id ∷ rest
      → fill_entry q i m ≡ ok (tt, filled pool id i m)
  unfolding fill_entry load_buf
  fill_entry-filled pool id rest i m (at, d) v pos e =
      let (pops, lt, tail, after) = pkt_buf_alloc_pop v id rest e in
      let hd = after.headers id lt in
      let null : entry_addr pool id ≢ 0 = λ z. omega (arith, pos, z) in
      rw (at, d, pops, ==_ne _ _ null, hd.here, hd.phy) refl

  filled-IsAt : (pool : Mempool) (id i : ℕ) (m : Machine) → IsAt m → IsAt (filled pool id i m)
  filled-IsAt pool id i m (at, d) = (
    update_ne m.dev.rx_queues _ _ _ (omega arith) ∙ at,
    update_ne m.dev.rx_queues _ _ _ (omega arith) ∙ d,
  )

  fill_entries-suc :
      (left i : ℕ) (m m1 m' : Machine)
      → fill_entry q i m ≡ ok (tt, m1)
      → fill_entries q left (i + 1) m1 ≡ ok (tt, m')
      → fill_entries q (suc left) i m ≡ ok (tt, m')
  unfolding fill_entries
  fill_entries-suc left i m m1 m' first later = rw first later

  -- What a state has below index `i + 1` is what the round of `i` left there.
  filled-after :
      (pool : Mempool) (id i : ℕ) (m m' : Machine) (ids : List ℕ)
      → IsSameBelow q ring (filled pool id i m) m' (i + 1)
      → HasFilled pool q ring m' (i + 1) ids
      → IsSameBelow q ring m m' i × HasFilled pool q ring m' i (id ∷ ids)
  filled-after pool id i m m' ids s later = (
    record {
      word = λ a lt.
          s.word a (omega (arith, lt))
          ∙ update_ne m.dev.rx_queues _ a _ (λ e. omega (arith, e, lt));
      desc = λ k lt.
          s.desc k (omega (arith, lt)) ∙ update_ne m.dev.rx_descs _ _ _ (λ e. omega (arith, e, lt));
      trace = s.trace;
      elsewhere = s.elsewhere;
    },
    (
      s.word _ (omega arith) ∙ update_self m.dev.rx_queues _ _,
      s.desc i (omega arith) ∙ update_self m.dev.rx_descs _ _,
      later,
    ),
  )

  -- In a valid pool that is not at address 0 and whose next free entries are `ids`, the loop of
  -- `start_rx_queue` from index `i` on ends and takes them: the array of buffers gets their
  -- addresses, in order, and the descriptors the physical addresses of their headers. The pool
  -- stays valid with the others free, and below `i`, in the fields of the queue and in the card's
  -- registers nothing changes.
  pub fill_entries_lem :
      (ids rest : List ℕ) (i : ℕ) (m : Machine) (pool : Mempool)
      → IsAt m
      → IsPool m.heap p pool
      → 0 < pool.base_addr
      → free_ids pool ≡ ids ++ rest
      → (m' : Machine) × (pool' : Mempool) × (fill_entries q (length ids) i m ≡ ok (tt, m'))
        × IsPool m'.heap p pool'
        × (free_ids pool' ≡ rest)
        × IsSameBelow q ring m m' i
        × HasFilled pool q ring m' i ids
        × HasBlock (block_of pool) pool.buf_size pool.num_entries pool'
  unfolding fill_entries
  fill_entries_lem [] rest i m pool at v pos e = (
    m,
    pool,
    refl,
    v,
    e,
    record {
      word = λ a lt. refl;
      desc = λ k lt. refl;
      trace = refl;
      elsewhere = (refl, refl, refl);
    },
    tt,
    (refl, refl, refl, refl),
  )
  fill_entries_lem (id ∷ ids) rest i m pool at v pos e =
      let (pops, lt, tail, after) = pkt_buf_alloc_pop v id (ids ++ rest) e in
      let (m', pool', run, v', free, same, all, block) =
        fill_entries_lem ids rest (i + 1) (filled pool id i m) (popped pool)
          (filled-IsAt pool id i m at) after pos tail in
      let (same', all') = filled-after pool id i m m' ids same all in
      let first = fill_entry-filled pool id (ids ++ rest) i m at v pos e in
      (m', pool', fill_entries-suc (length ids) i m _ m' first run, v', free, same', all', block)
