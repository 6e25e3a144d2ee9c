-- ===== src/Ixgbe/Tx/Packet.antt =====
-- `ixgbe_tx_packet` as a queue of the packets in flight.
use ixy.Base.{
  ℕ, zero, suc, ◌+◌, ◌-◌, ◌*◌, ◌%◌, ◌<◌, ◌≡◌, ◌≢◌, refl, ap, ap₂, sym, ◌∙◌, arith, false, [], ◌∷◌,
  ◌++◌, map, some, length, update, update_id, u32, ==_self, ==_ne, fun_ext, length-map, update_self,
}
use mathlib.Core.List.{map-append}
use ixy.Base.Outcome.{ok}
use ixy.Memory.{Heap, PktBuf, load_buf}
use ixy.Device.{write, set_reg32}
use ixy.Regs.{tdt}
use ixy.Ixgbe.{Device, sizeof_desc}
use ixy.Ixgbe.Fields.{put16-get16}
use ixy.Ixgbe.Ring.{
  inc_and_wrap_ring, inc_and_wrap_ring_lem, indices, distance-lt, add-distance, indices-snoc,
  length-indices, add-add, add-ne, add-zero, add-injective, add-round,
}
use ixy.Ixgbe.Tx.{
  tx_queue_at, descriptors, num_entries, clean_index, tx_index, virtual_address, set_clean_index,
  set_tx_index, set_virtual_address, tx_desc, enqueue, tx_packet,
}
use ixy.Ixgbe.Tx.Clean.{free_all, sent, sent-le, sent_waits, is_done, pending}
use ixy.Ixgbe.Tx.Queue.{
  HasFields, set_clean_index-HasFields, set_tx_index-HasFields, set_virtual_address-HasFields,
  virtual_address-set_index, virtual_address-set_self, virtual_address-set_ne, map-indices,
}
use ixy.Ixgbe.Tx.InFlight.{
  IsTxQueue, ring_size, num_in_flight, in_flight, num_sent, sent_bufs, cleaned_index, unsent_bufs,
  cleaned, tx_packet-cleaned, HasFields-IsTxQueue, in_flight_of,
}

module _ (dev : Device) (q : ℕ) (v : IsTxQueue dev q) where
  abbrev n : ℕ
  n = ring_size dev q

  abbrev t : ℕ
  t = tx_index dev.tx_queues q

  abbrev left : ℕ
  left = num_in_flight dev q - num_sent dev q

  abbrev d : ℕ
  d = descriptors dev.tx_queues q

  fields : HasFields dev.tx_queues q d n (clean_index dev.tx_queues q) t
  fields = record { descs = refl; num = refl; clean = refl; tail = refl }

  left-lt : left < n
  left-lt = omega (arith, distance-lt n (clean_index dev.tx_queues q) t v.clean_in)

  cleaned-lt : cleaned_index dev q < n
  cleaned-lt = omega (arith, v.clean_in)

  reaches : (cleaned_index dev q + left) % n ≡ t
  reaches =
      add-add n (clean_index dev.tx_queues q) (num_sent dev q) left
      ∙ ap (λ x. (clean_index dev.tx_queues q + x) % n) whole
      ∙ add-distance n (clean_index dev.tx_queues q) t v.clean_in v.tail_in
    where
      whole : num_sent dev q + left ≡ num_in_flight dev q
      whole =
          omega
            (arith, sent-le (is_done dev q) n (clean_index dev.tx_queues q) (num_in_flight dev q))

  next_tail : (t + 1) % n ≡ (cleaned_index dev q + suc left) % n
  next_tail =
      ap (λ x. (x + 1) % n) (sym reaches)
      ∙ add-add n (cleaned_index dev q) left 1
      ∙ ap (λ x. (cleaned_index dev q + x) % n) (omega arith)

  cleaned_fields : HasFields (cleaned dev q v).tx_queues q d n (cleaned_index dev q) t
  cleaned_fields =
      set_clean_index-HasFields dev.tx_queues q fields (cleaned_index dev q)
        (omega (arith, cleaned-lt, v.size.small))

  cleaned-in_flight : in_flight (cleaned dev q v) q ≡ unsent_bufs dev q
  cleaned-in_flight =
      in_flight_of (cleaned dev q v) q left cleaned_fields cleaned-lt left-lt reaches
      ∙ ap (λ f. map f (indices n (cleaned_index dev q) left))
          (fun_ext (λ i. virtual_address-set_index dev.tx_queues q _ i))

  cleaned-IsTxQueue : IsTxQueue (cleaned dev q v) q
  cleaned-IsTxQueue =
      HasFields-IsTxQueue (cleaned dev q v) q cleaned_fields v.size cleaned-lt v.tail_in

  length-unsent : length (unsent_bufs dev q) ≡ left
  length-unsent =
      length-map _ (indices n (cleaned_index dev q) left)
      ∙ length-indices n (cleaned_index dev q) left

  has_room : suc left < n → cleaned_index dev q ≢ inc_and_wrap_ring t n
  has_room lt e =
      add-ne n (cleaned_index dev q) left cleaned-lt lt
        (sym next_tail ∙ sym (inc_and_wrap_ring_lem t n v.size v.tail_in) ∙ sym e)

  -- The packets in flight fill the ring but for one place.
  module _ (full : suc (num_in_flight dev q) ≡ ring_size dev q)
      (waits : is_done dev q (clean_index dev.tx_queues q) ≡ false) where
    none_sent : num_sent dev q ≡ 0
    none_sent = sent_none (num_in_flight dev q) refl
      where
        sent_none : (k : ℕ) → num_in_flight dev q ≡ k → num_sent dev q ≡ 0
        sent_none zero e =
            omega
              (arith, sent-le (is_done dev q) n (clean_index dev.tx_queues q) (num_in_flight dev q))
        sent_none (suc k) e =
            ap (sent (is_done dev q) n (clean_index dev.tx_queues q)) e
            ∙ sent_waits (is_done dev q) n (clean_index dev.tx_queues q) k waits

    same_index : cleaned_index dev q ≡ clean_index dev.tx_queues q
    same_index = ap (λ x. (clean_index dev.tx_queues q + x) % n) none_sent ∙ add-zero n _ v.clean_in

    is_full : cleaned_index dev q ≡ inc_and_wrap_ring t n
    is_full =
        sym (add-round n (cleaned_index dev q) cleaned-lt)
        ∙ ap (λ x. (cleaned_index dev q + x) % n) (omega (arith, full, none_sent))
        ∙ sym next_tail
        ∙ sym (inc_and_wrap_ring_lem t n v.size v.tail_in)

    -- The cleaning writes the index that was there.
    nothing_cleaned : cleaned dev q v ≡ dev
    nothing_cleaned =
        ap (λ w. record dev { tx_queues = w })
          (ap (set_clean_index dev.tx_queues q) same_index
            ∙ update_id dev.tx_queues (tx_queue_at q + 1) _ (put16-get16 _))

    -- In a valid queue, if all places of the ring but one are taken and the card has not sent the
    -- oldest packet, `ixgbe_tx_packet` returns 0 and changes nothing: the packet is neither queued
    -- nor freed.
    pub tx_packet_full :
        (buf : ℕ) (h : Heap)
        → tx_packet q buf (record { heap = h; dev = dev }) ≡ ok (0, record { heap = h; dev = dev })
    unfolding free_all
    tx_packet_full buf h =
        let freed : free_all (sent_bufs dev q) h ≡ ok (tt, h) =
          ap (λ k. free_all (pending dev q (clean_index dev.tx_queues q) k) h) none_sent in
        tx_packet-cleaned dev q v buf h h freed
        ∙ rw (← is_full, ==_self (cleaned_index dev q))
            (ap (λ d. ok (0, record { heap = h; dev = d })) nothing_cleaned)

  -- The words of the queues and the state after step 2.
  abbrev stored : ℕ → ℕ → ℕ
  stored buf = set_virtual_address (cleaned dev q v).tx_queues q t buf

  abbrev advanced : ℕ → ℕ → ℕ
  advanced buf =
      set_tx_index (stored buf) q
        (inc_and_wrap_ring (tx_index (stored buf) q) (num_entries (stored buf) q))

  abbrev queued : ℕ → PktBuf → Device
  queued buf b = record dev {
    tx_queues = advanced buf;
    tx_descs = update dev.tx_descs (descriptors (advanced buf) q + t * sizeof_desc) (tx_desc b);
    trace = write (tdt q) (u32 (tx_index (advanced buf) q)) ∷ dev.trace;
  }

  enqueue-queued :
      (buf : ℕ) (b : PktBuf) (h : Heap)
      → h.bufs buf ≡ some b
      → enqueue q buf t (record { heap = h; dev = cleaned dev q v })
        ≡ ok (1, record { heap = h; dev = queued buf b })
  unfolding enqueue load_buf set_reg32
  enqueue-queued buf b h here = rw here refl

  stored_fields : (buf : ℕ) → HasFields (stored buf) q d n (cleaned_index dev q) t
  stored_fields buf =
      set_virtual_address-HasFields (cleaned dev q v).tx_queues q cleaned_fields t buf

  next_index :
      (buf : ℕ)
      → inc_and_wrap_ring (tx_index (stored buf) q) (num_entries (stored buf) q) ≡ (t + 1) % n
  next_index buf =
      ap₂ inc_and_wrap_ring (stored_fields buf).tail (stored_fields buf).num
      ∙ inc_and_wrap_ring_lem t n v.size v.tail_in

  queued_fields :
      (buf : ℕ) (b : PktBuf)
      → HasFields (queued buf b).tx_queues q d n (cleaned_index dev q) ((t + 1) % n)
  queued_fields buf b =
      let below : (t + 1) % n < n = omega (arith, v.tail_in) in
      rw (next_index buf) (
        set_tx_index-HasFields (stored buf) q (stored_fields buf) ((t + 1) % n)
          (omega (arith, below, v.size.small)))

  -- The new packet stands behind those that were left.
  queued_array :
      (buf : ℕ) (b : PktBuf) (r : ℕ)
      → (cleaned_index dev q + r) % n ≡ t
      → r < n
      → map (virtual_address (queued buf b).tx_queues q) (indices n (cleaned_index dev q) (suc r))
        ≡ map (virtual_address dev.tx_queues q) (indices n (cleaned_index dev q) r) ++ (buf ∷ [])
  queued_array buf b r e hr =
      ap (map array) (indices-snoc n (cleaned_index dev q) r cleaned-lt)
      ∙ map-append array (indices n (cleaned_index dev q) r) _
      ∙ ap₂ ◌++◌ (map-indices array _ n (cleaned_index dev q) r cleaned-lt old)
          (ap (λ x. x ∷ []) (ap array e ∙ new))
    where
      array : ℕ → ℕ
      array = virtual_address (advanced buf) q

      new : array t ≡ buf
      new =
          virtual_address-set_index (stored buf) q _ t
          ∙ virtual_address-set_self (cleaned dev q v).tx_queues q t buf

      old :
          (j : ℕ)
          → j < r
          → array ((cleaned_index dev q + j) % n)
            ≡ virtual_address dev.tx_queues q ((cleaned_index dev q + j) % n)
      old j lt =
          virtual_address-set_index (stored buf) q _ _
          ∙ virtual_address-set_ne (cleaned dev q v).tx_queues q t _ buf
              (λ x. add-injective n (cleaned_index dev q) j r cleaned-lt lt hr (x ∙ sym e))
          ∙ virtual_address-set_index dev.tx_queues q _ _

  -- In a valid queue (the size is a power of two, both indices are in the ring) with room beside
  -- the packets that the card has not sent, if the sent ones can be freed and the new buffer
  -- exists, `ixgbe_tx_packet` frees the sent packets and returns 1: in flight are then the unsent
  -- packets followed by the new one, the descriptor at the old tail is the new packet's, the queue
  -- stays valid, and the last access writes the new tail.
  pub tx_packet_room :
      (buf : ℕ) (b : PktBuf) (h h' : Heap)
      → suc (length (unsent_bufs dev q)) < ring_size dev q
      → free_all (sent_bufs dev q) h ≡ ok (tt, h')
      → h'.bufs buf ≡ some b
      → (dev' : Device) × (tx_packet q buf (record { heap = h; dev = dev })
          ≡ ok (1, record { heap = h'; dev = dev' }))
        × IsTxQueue dev' q
        × (in_flight dev' q ≡ unsent_bufs dev q ++ (buf ∷ []))
        × (dev'.tx_descs (descriptors dev.tx_queues q + tx_index dev.tx_queues q * sizeof_desc)
            ≡ tx_desc b)
        × (dev'.trace
            ≡ write (tdt q) ((tx_index dev.tx_queues q + 1) % ring_size dev q) ∷ dev.trace)
  tx_packet_room buf b h h' room freed here = (
    queued buf b,
    tx_packet-cleaned dev q v buf h h' freed
        ∙ rw (==_ne _ _ (has_room (rw length-unsent at room))) (enqueue-queued buf b h' here),
    HasFields-IsTxQueue (queued buf b) q (queued_fields buf b) v.size cleaned-lt
        (omega (arith, v.tail_in)),
    in_flight_of (queued buf b) q (suc left) (queued_fields buf b) cleaned-lt
          (rw length-unsent at room) (sym next_tail)
        ∙ queued_array buf b left reaches left-lt,
    rw (queued_fields buf b).descs (update_self dev.tx_descs _ _),
    ap (λ x. write (tdt q) x ∷ dev.trace)
        (ap u32 (queued_fields buf b).tail ∙ omega (arith, v.tail_in, v.size.small)),
  )
