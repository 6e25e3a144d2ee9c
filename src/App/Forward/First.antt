-- ===== src/App/Forward/First.antt =====
-- The first packet from a card that was initialised to another card.
use ixy.Base.{
  ℕ, ◌+◌, ◌*◌, ◌≡◌, ◌≢◌, refl, ap, ap₂, sym, u64, ◌∙◌, arith, List, [], ◌∷◌, ◌++◌, some, bit_and,
  update, update_self, update_ne, ==_ne,
}
use ixy.Base.Outcome.{Outcome, ok}
use ixy.Os.{Os}
use ixy.Memory.{Heap, DmaMemory, PktBuf, put_buf, put_pool}
use ixy.Memory.Pool.{HasHeader, free_ids, popped, entry_addr, pkt_buf_alloc_next, pkt_buf_alloc_pop}
use ixy.Memory.New.{countdown}
use ixy.Regs.Bits.{rxdadv_stat_dd, rxdadv_stat_eop}
use ixy.Ixgbe.{Device, Machine, RxDesc, status_error, wb_length, sizeof_desc}
use ixy.Ixgbe.Rx.{descriptors, mempool, rx_index, virtual_address, pkt_buf_data, rx_packet}
use ixy.Ixgbe.Rx.Packet.{desc, buf_at, rx_packet-taken}
use ixy.Ixgbe.Tx.{descriptors as tx_ring, tx_index, tx_desc, tx_packet}
use ixy.Ixgbe.Tx.Clean.{free_all}
use ixy.Ixgbe.Tx.InFlight.{IsTxQueue, in_flight, sent_bufs, unsent_bufs, ring_size, in_flight-split}
use ixy.Ixgbe.Tx.Packet.{tx_packet_room}
use ixy.Ixgbe.Init.Ready.{IsReady, ring_1024}
use ixy.App.Forward.{forward_packet}

++-eq-nil : (xs ys : List ℕ) → [] ≡ xs ++ ys → (xs ≡ []) × (ys ≡ [])
++-eq-nil [] ys e = (refl, sym e)
++-eq-nil (x ∷ xs) ys e = absurd (cc)

returned_as :
    {o : Outcome (ℕ × Machine)} {a b : ℕ} {m : Machine} → o ≡ ok (a, m) → a ≡ b → o ≡ ok (b, m)
returned_as {o} {a} {b} {m} e same = e ∙ ap (λ x. ok (x, m)) same

-- An idle queue has nothing to free and room for a packet.
tx_packet-idle :
    (dev : Device) (buf : ℕ) (b : PktBuf) (h : Heap)
    → IsTxQueue dev 0
    → ring_size dev 0 ≡ 1024
    → in_flight dev 0 ≡ []
    → h.bufs buf ≡ some b
    → (dev' : Device) × (tx_packet 0 buf (record { heap = h; dev = dev })
        ≡ ok (1, record { heap = h; dev = dev' }))
      × IsTxQueue dev' 0
      × (in_flight dev' 0 ≡ buf ∷ [])
      × (dev'.tx_descs (tx_ring dev.tx_queues 0 + tx_index dev.tx_queues 0 * sizeof_desc)
          ≡ tx_desc b)
unfolding free_all
tx_packet-idle dev buf b h v size idle here =
    let (none_sent, none_left) =
      ++-eq-nil (sent_bufs dev 0) (unsent_bufs dev 0) (sym idle ∙ in_flight-split dev 0 v) in
    let (dev', run, valid, queued, desc, trace) =
      tx_packet_room dev 0 v buf b h h (rw (none_left, size) (omega arith))
        (ap (λ l. free_all l h) none_sent) here in
    (dev', run, valid, queued ∙ ap (λ l. l ++ (buf ∷ [])) none_left, desc)

-- The card wrote `d` to the first descriptor.
abbrev pub arrived : Device → RxDesc → Device
arrived dev d = record dev { rx_descs = update dev.rx_descs (descriptors dev.rx_queues 0) d }

-- The buffer at position 0 of the ring, for a pool in `mem`.
abbrev pub first_buf : DmaMemory → ℕ
first_buf mem = mem.virt + 4095 * 2048

-- `left` is what lies in that buffer after the card wrote the packet. The descriptor of
-- `start_rx_queue` has the address of the buffer's header, so that this is another header, made of
-- the packet's first bytes.
module _ (os : Os) (heap : Heap) (dev1 : Device)
    (ready : IsReady os (record { heap = heap; dev = dev1 })) (d : RxDesc)
    (dd : bit_and (status_error d) rxdadv_stat_dd ≢ 0)
    (eop : bit_and (status_error d) rxdadv_stat_eop ≢ 0) (left : PktBuf) where
  abbrev pub taken_buf : ℕ
  taken_buf = first_buf ready.mem

  abbrev pool_at : ℕ
  pool_at = mempool dev1.rx_queues 0

  abbrev machine : Machine
  machine = record { heap = put_buf taken_buf left heap; dev = arrived dev1 d }

  -- The received packet: its header is the packet's, but for the size.
  abbrev pub packet : PktBuf
  packet = record left { size = wb_length d }

  abbrev sized : Heap
  sized = put_buf taken_buf packet (put_buf taken_buf left heap)

  desc-is : desc machine 0 ≡ d
  desc-is =
      let here : descriptors dev1.rx_queues 0 + rx_index dev1.rx_queues 0 * sizeof_desc
          ≡ descriptors dev1.rx_queues 0 =
        omega (arith, ready.index) in
      ap (update dev1.rx_descs (descriptors dev1.rx_queues 0) d) here
      ∙ update_self dev1.rx_descs (descriptors dev1.rx_queues 0) d

  buf_at-is : buf_at machine 0 ≡ taken_buf
  buf_at-is = ap (virtual_address dev1.rx_queues 0) ready.index ∙ ready.buffers 0 (omega arith)

  -- The header of the next free entry is still there.
  next_header : HasHeader heap pool_at ready.pool 3071
  next_header = ready.valid.headers 3071 (rw (ready.block.3) (omega arith))

  apart : entry_addr ready.pool 3071 ≢ taken_buf
  apart e = omega (arith, rw (ready.block.0, ready.block.2) at e)

  rx_packet-taken_buf :
      (m' : Machine) × (rx_packet 0 machine ≡ ok (taken_buf, m'))
      × (m'.heap ≡ put_pool pool_at (popped ready.pool) sized)
  rx_packet-taken_buf =
      let h : Heap =
        put_buf (buf_at machine 0) (record left { size = wb_length (desc machine 0) })
          machine.heap in
      let same : h ≡ sized =
        ap₂ (λ a x. put_buf a (record left { size = wb_length x }) machine.heap) buf_at-is
          desc-is in
      let pops =
        pkt_buf_alloc_next ready.valid h 3071 (countdown 3071) ready.valid.here ready.free in
      let there : h.bufs (entry_addr ready.pool 3071) ≡ some next_header.buf =
        update_ne _ (buf_at machine 0) _ _ (λ e. apart (e ∙ buf_at-is))
        ∙ update_ne heap.bufs taken_buf _ _ apart
        ∙ next_header.here in
      let runs =
        rx_packet-taken machine 0 (rw (ready.rx_entries) ring_1024)
          (rw (ready.index, ready.rx_entries) (omega arith)) left
          (ap machine.heap.bufs buf_at-is ∙ update_self heap.bufs taken_buf _) (rw (desc-is) dd)
          (rw (desc-is) eop) ready.pool (entry_addr ready.pool 3071) next_header.buf
          (λ e. omega (arith, ready.nonnull, e)) pops there in
      (_, returned_as runs buf_at-is, ap (put_pool pool_at (popped ready.pool)) same)

  -- If the first card is ready and writes a finished packet to its first descriptor and to the
  -- buffer, whatever header this leaves there, and another card has a valid transmit queue of 1024
  -- entries with none in flight, a round of the forwarder leaves one packet in flight at that card:
  -- the first buffer of the receive ring. The descriptor that the other card gets is made of the
  -- header that the packet left, with the length that the first card wrote as its size: its address
  -- is what the packet has in place of the buffer's. The pool of the first card has one free buffer
  -- less, and the transmit queue stays valid.
  pub forward_packet_first :
      (dev2 : Device)
      → IsTxQueue dev2 0
      → ring_size dev2 0 ≡ 1024
      → in_flight dev2 0 ≡ []
      → (dev1' dev2' : Device) × (h' : Heap) × (forward_packet (record {
        heap = put_buf taken_buf left heap;
        dev1 = arrived dev1 d;
        other = some dev2;
      })
          ≡ ok (tt, record { heap = h'; dev1 = dev1'; other = some dev2' }))
        × IsTxQueue dev2' 0
        × (in_flight dev2' 0 ≡ taken_buf ∷ [])
        × (dev2'.tx_descs (tx_ring dev2.tx_queues 0 + tx_index dev2.tx_queues 0 * sizeof_desc)
            ≡ tx_desc packet)
        × ((tx_desc packet).buffer_addr ≡ u64 (left.buf_addr_phy + pkt_buf_data))
        × (h'.bufs taken_buf ≡ some packet)
        × (h'.pools pool_at ≡ some (popped ready.pool))
        × (free_ids (popped ready.pool) ≡ countdown 3071)
  unfolding forward_packet tx_desc
  forward_packet_first dev2 v size idle =
      let (m', run, heap_is) = rx_packet-taken_buf in
      let there : m'.heap.bufs taken_buf ≡ some packet =
        ap (λ h. h.bufs taken_buf) heap_is ∙ update_self _ taken_buf _ in
      let (dev2', sends, v', queued, desc_is) =
        tx_packet-idle dev2 taken_buf packet m'.heap v size idle there in
      let null : taken_buf ≢ 0 = λ e. omega (arith, e) in
      (
        m'.dev,
        dev2',
        m'.heap,
        rw (run, ==_ne taken_buf 0 null, sends) refl,
        v',
        queued,
        desc_is,
        refl,
        there,
        ap (λ h. h.pools pool_at) heap_is ∙ update_self _ pool_at _,
        (pkt_buf_alloc_pop ready.valid 3071 (countdown 3071) ready.free).2,
      )
