-- ===== src/Ixgbe/Rx/Packet.antt =====
-- Each way that `ixgbe_rx_packet` ends.
use ixy.Base.{
  ℕ, ◌==◌, if◌then◌else◌, Bool-cases, inl, inr, ◌+◌, ◌*◌, ◌%◌, ◌<◌, ◌≡◌, ◌≢◌, refl, arith, List,
  ◌∷◌, some, bit_and, update, update_self, update_ne, u32, u64, ap, sym, ◌∙◌, ==_ne,
}
use native.Mathlib.Decide.{ℕ_discrete}
use mathlib.Core.Option.{some-injective}
use ixy.Base.Outcome.{ok, aborted, abort}
use ixy.Memory.{Heap, PktBuf, Mempool, pkt_buf_alloc, load_buf, put_buf, put_pool}
use ixy.Memory.Pool.{
  free_ids, entry_addr, HasHeader, IsPool, popped, pkt_buf_alloc_empty, pkt_buf_alloc_pop,
}
use ixy.Device.{write, set_reg32}
use ixy.Regs.{rdt}
use ixy.Regs.Bits.{rxdadv_stat_dd, rxdadv_stat_eop}
use ixy.Ixgbe.{Machine, RxDesc, status_error, wb_length, sizeof_desc, get16, put16}
use ixy.Ixgbe.Fields.{put16_low}
use ixy.Ixgbe.Ring.{inc_and_wrap_ring, IsRingSize, inc_and_wrap_ring_lem}
use ixy.Ixgbe.Rx.{
  rx_queue_at, descriptors, mempool, num_entries, rx_index, virtual_address, pkt_buf_data, set_size,
  take_packet, rx_packet,
}

-- A change of the size keeps the headers of a pool.
set_size-HasHeader :
    {h : Heap} {p : ℕ} {m : Mempool} (a : ℕ) (b : PktBuf) (s i : ℕ)
    → h.bufs a ≡ some b
    → HasHeader h p m i
    → HasHeader (put_buf a (record b { size = s }) h) p m i
set_size-HasHeader {h} {p} {m} a b s i e hd = elim (ℕ_discrete (entry_addr m i) a) [
  | yes same ↦
      let own : some b ≡ some hd.buf = sym e ∙ ap h.bufs (sym same) ∙ hd.here in
      let eq : b ≡ hd.buf = some-injective b hd.buf own in
      record {
        buf = record b { size = s };
        here = ap (update h.bufs a _) same ∙ update_self h.bufs a _;
        pool = ap (λ x. x.mempool) eq ∙ hd.pool;
        idx = ap (λ x. x.mempool_idx) eq ∙ hd.idx;
        phy = ap (λ x. x.buf_addr_phy) eq ∙ hd.phy;
      }
  | no other ↦ record {
    buf = hd.buf;
    here = update_ne h.bufs a _ _ other ∙ hd.here;
    pool = hd.pool;
    idx = hd.idx;
    phy = hd.phy;
  }
]

set_size-IsPool :
    {h : Heap} {p : ℕ} {m : Mempool} (a : ℕ) (b : PktBuf) (s : ℕ)
    → h.bufs a ≡ some b
    → IsPool h p m
    → IsPool (put_buf a (record b { size = s }) h) p m
set_size-IsPool a b s e v = record {
  here = v.here;
  room = v.room;
  fits = v.fits;
  positive = v.positive;
  below = v.below;
  distinct = v.distinct;
  headers = λ i lt. set_size-HasHeader a b s i e (v.headers i lt);
}

module _ (m : Machine) (q : ℕ) where
  -- The position of the next packet, its descriptor, and the buffer that the queue keeps for it.
  abbrev pub next : ℕ
  next = rx_index m.dev.rx_queues q

  abbrev pub desc_at : ℕ
  desc_at = descriptors m.dev.rx_queues q + next * sizeof_desc

  abbrev pub desc : RxDesc
  desc = m.dev.rx_descs desc_at

  abbrev pub buf_at : ℕ
  buf_at = virtual_address m.dev.rx_queues q next

  -- Why a packet cannot be taken: it continues in another descriptor, or the pool is empty.
  pub data CannotTake : Type 0 where
    split : bit_and (status_error desc) rxdadv_stat_eop ≡ 0 → CannotTake
    no_buf :
        (b : PktBuf) (pool : Mempool)
        → m.heap.bufs buf_at ≡ some b
        → IsPool m.heap (mempool m.dev.rx_queues q) pool
        → pool.free_stack_top ≡ 0
        → CannotTake

  rejected :
      CannotTake
      → (if bit_and (status_error desc) rxdadv_stat_eop == 0
            then abort
            else take_packet q desc desc_at next)
          m
        ≡ aborted
  unfolding take_packet set_size load_buf
  rejected (split e) = rw e refl
  rejected (no_buf b pool here v empty) =
      elim (Bool-cases (bit_and (status_error desc) rxdadv_stat_eop == 0)) [
        | inl e ↦ rw e refl
        | inr e ↦
            rw
              (
                e,
                here,
                pkt_buf_alloc_empty (set_size-IsPool buf_at b (wb_length desc) here v) empty,
              )
              refl
      ]

  -- If a packet cannot be taken, because it continues in another descriptor or the pool is empty,
  -- `ixgbe_rx_packet` ends the process when there is one, that is when `DD` is set. When there is
  -- none it returns `NULL` and changes nothing.
  pub rx_packet_rejects :
      CannotTake
      → rx_packet q m
        ≡ (if bit_and (status_error desc) rxdadv_stat_dd == 0 then ok (0, m) else aborted)
  unfolding rx_packet
  rx_packet_rejects c = elim (Bool-cases (bit_and (status_error desc) rxdadv_stat_dd == 0)) [
    | inl none ↦ rw none refl
    | inr dd ↦ rw dd (rejected c)
  ]

  module _ (size : IsRingSize (num_entries m.dev.rx_queues q))
      (index_in : next < num_entries m.dev.rx_queues q) (b : PktBuf)
      (here : m.heap.bufs buf_at ≡ some b) (dd : bit_and (status_error desc) rxdadv_stat_dd ≢ 0)
      (eop : bit_and (status_error desc) rxdadv_stat_eop ≢ 0) (pool : Mempool) where
    -- The packet's buffer with its size, and the memory with it.
    abbrev pub received : PktBuf
    received = record b { size = wb_length desc }

    abbrev with_size : Heap
    with_size = put_buf buf_at received m.heap

    -- The state after a packet whose buffer is replaced by entry `i`.
    abbrev pub slot : ℕ
    slot = rx_queue_at q + 2

    abbrev next_word : ℕ
    next_word =
        put16 16 (m.dev.rx_queues slot) (inc_and_wrap_ring next (num_entries m.dev.rx_queues q))

    abbrev fresh_desc : ℕ → RxDesc
    fresh_desc phy = record { pkt_addr = u64 (phy + pkt_buf_data); hdr_addr = 0 }

    abbrev taken : ℕ → Machine
    taken phy = record m {
      heap = put_pool (mempool m.dev.rx_queues q) (popped pool) with_size;
      dev = record m.dev {
        rx_queues = update m.dev.rx_queues slot next_word;
        rx_descs = update m.dev.rx_descs desc_at (fresh_desc phy);
        trace = write (rdt q) (u32 next) ∷ m.dev.trace;
      };
    }

    -- What `ixgbe_rx_packet` does with a buffer `nb` at `new` from the pool, which need not be valid.
    pub rx_packet-taken :
        (new : ℕ) (nb : PktBuf)
        → new ≢ 0
        → pkt_buf_alloc (mempool m.dev.rx_queues q) with_size
          ≡ ok (new, put_pool (mempool m.dev.rx_queues q) (popped pool) with_size)
        → with_size.bufs new ≡ some nb
        → rx_packet q m ≡ ok (buf_at, taken nb.buf_addr_phy)
    unfolding rx_packet take_packet set_size load_buf set_reg32
    rx_packet-taken new nb null pops there =
        rw (==_ne _ _ dd, ==_ne _ _ eop, here, pops, ==_ne _ _ null, there) refl

    module _ (v : IsPool m.heap (mempool m.dev.rx_queues q) pool) (i : ℕ) (rest : List ℕ)
        (pos : 0 < pool.base_addr) (e : free_ids pool ≡ i ∷ rest) where
      -- The physical address of entry `i`, and the next position.
      abbrev pub entry_phy : ℕ
      entry_phy = u64 (pool.base_addr_phy + i * pool.buf_size)

      abbrev pub following : ℕ
      following = (next + 1) % num_entries m.dev.rx_queues q

      valid : IsPool with_size (mempool m.dev.rx_queues q) pool
      valid = set_size-IsPool buf_at b (wb_length desc) here v

      popped-IsPool :
          IsPool
            (put_pool (mempool m.dev.rx_queues q) (popped pool) with_size)
            (mempool m.dev.rx_queues q)
            (popped pool)
      popped-IsPool = (pkt_buf_alloc_pop valid i rest e).3

      rx_packet-next : rx_packet q m ≡ ok (buf_at, taken entry_phy)
      rx_packet-next =
          let (pops, lt, tail, after) = pkt_buf_alloc_pop valid i rest e in
          let hd = after.headers i lt in
          rx_packet-taken (entry_addr pool i) hd.buf (λ z. omega (arith, pos, z)) pops hd.here
          ∙ ap (λ phy. ok (buf_at, taken phy)) hd.phy

      taken-rx_index : rx_index (taken entry_phy).dev.rx_queues q ≡ following
      taken-rx_index =
          let step = inc_and_wrap_ring_lem next (num_entries m.dev.rx_queues q) size index_in in
          let wraps : following < num_entries m.dev.rx_queues q = omega (arith, index_in) in
          ap (get16 16) (update_self m.dev.rx_queues slot _)
          ∙ (put16_low (m.dev.rx_queues slot) _ (omega (arith, step, wraps, size.small))).0
          ∙ step

      -- In a queue whose size is a power of two and whose index is in the ring, for a finished
      -- packet (`DD` and `EOP` are set) in an existing buffer, and a valid pool with a free entry
      -- that is not at address 0, `ixgbe_rx_packet` returns the buffer that the queue keeps for the
      -- position, with the packet's length as its size; the next free entry of the pool takes the
      -- descriptor's place with the write-back cleared, the queue moves on by one round the ring,
      -- and the last access writes the old position to the tail register.
      pub rx_packet_take :
          (m' : Machine) × (rx_packet q m ≡ ok (buf_at, m'))
          × (m'.heap.bufs buf_at ≡ some received)
          × IsPool m'.heap (mempool m.dev.rx_queues q) (popped pool)
          × (free_ids (popped pool) ≡ rest)
          × (m'.dev.rx_descs desc_at
              ≡ record { pkt_addr = u64 (entry_phy + pkt_buf_data); hdr_addr = 0 })
          × (rx_index m'.dev.rx_queues q ≡ following)
          × (m'.dev.trace ≡ write (rdt q) next ∷ m.dev.trace)
      rx_packet_take = (
        taken entry_phy,
        rx_packet-next,
        update_self m.heap.bufs buf_at _,
        popped-IsPool,
        (pkt_buf_alloc_pop valid i rest e).2,
        update_self m.dev.rx_descs desc_at _,
        taken-rx_index,
        ap (λ x. write (rdt q) x ∷ m.dev.trace) (omega (arith, index_in, size.small)),
      )

      -- In a queue whose size is a power of two and whose index is in the ring, for a finished
      -- packet and a valid pool with a free entry, `ixgbe_rx_packet` returns the buffer and the
      -- array of buffers stays as it is: at the position of the packet it still has the returned
      -- buffer, while the descriptor has the address of the entry that took its place.
      pub rx_packet_stale :
          (m' : Machine) × (rx_packet q m ≡ ok (buf_at, m'))
          × ((j : ℕ) → virtual_address m'.dev.rx_queues q j ≡ virtual_address m.dev.rx_queues q j)
          × ((m'.dev.rx_descs desc_at).pkt_addr ≡ u64 (entry_phy + pkt_buf_data))
      rx_packet_stale = (
        taken entry_phy,
        rx_packet-next,
        λ j. update_ne m.dev.rx_queues slot _ _ (omega arith),
        ap (λ d. d.pkt_addr) (update_self m.dev.rx_descs desc_at _),
      )
