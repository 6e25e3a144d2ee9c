-- ===== src/Ixgbe/Tx/InFlight.antt =====
-- A transmit queue as the list of its packets in flight, and what step 1 of `ixgbe_tx_packet` makes
-- of it.
use ixy.Base.{
  ℕ, suc, ◌+◌, ◌-◌, ◌%◌, ◌<◌, ◌≡◌, ap, sym, ◌∙◌, arith, List, ◌++◌, map, if◌then◌else◌, ◌==◌,
  Bool-cases, inl, inr,
}
use mathlib.Core.List.{map-append}
use ixy.Base.Outcome.{ok, and_then, put_back}
use ixy.Memory.{Heap}
use ixy.Ixgbe.{Device}
use ixy.Ixgbe.Ring.{
  inc_and_wrap_ring, IsRingSize, indices, distance, distance-lt, add-distance, distance-add,
  indices-add,
}
use ixy.Ixgbe.Tx.{
  num_entries, clean_index, tx_index, virtual_address, set_clean_index, clean, enqueue, tx_packet,
}
use ixy.Ixgbe.Tx.Clean.{free_all, sent, sent-le, is_done, pending, clean_lem}
use ixy.Ixgbe.Tx.Queue.{HasFields}

-- Both indices are in the ring, whose size is a power of two.
pub record IsTxQueue (dev : Device) (q : ℕ) : Type 0 where
  pub size : IsRingSize (num_entries dev.tx_queues q)
  pub clean_in : clean_index dev.tx_queues q < num_entries dev.tx_queues q
  pub tail_in : tx_index dev.tx_queues q < num_entries dev.tx_queues q

module _ (dev : Device) (q : ℕ) where
  abbrev pub ring_size : ℕ
  ring_size = num_entries dev.tx_queues q

  -- The packets handed to the card and not yet freed: their number and their buffers, oldest first.
  abbrev pub num_in_flight : ℕ
  num_in_flight = distance ring_size (clean_index dev.tx_queues q) (tx_index dev.tx_queues q)

  abbrev pub in_flight : List ℕ
  in_flight = pending dev q (clean_index dev.tx_queues q) num_in_flight

  -- Those at the front that the card has sent.
  abbrev pub num_sent : ℕ
  num_sent = sent (is_done dev q) ring_size (clean_index dev.tx_queues q) num_in_flight

  abbrev pub sent_bufs : List ℕ
  sent_bufs = pending dev q (clean_index dev.tx_queues q) num_sent

  -- The index after them, and the packets from there on.
  abbrev pub cleaned_index : ℕ
  cleaned_index = (clean_index dev.tx_queues q + num_sent) % ring_size

  abbrev pub unsent_bufs : List ℕ
  unsent_bufs = pending dev q cleaned_index (num_in_flight - num_sent)

  module _ (v : IsTxQueue dev q) where
    pub in_flight-split : in_flight ≡ sent_bufs ++ unsent_bufs
    in_flight-split =
        let whole : num_sent + (num_in_flight - num_sent) ≡ num_in_flight =
          omega (
            arith,
            sent-le (is_done dev q) ring_size (clean_index dev.tx_queues q) num_in_flight,
          ) in
        ap (pending dev q (clean_index dev.tx_queues q)) (sym whole)
        ∙ ap (map (virtual_address dev.tx_queues q)) (
            indices-add ring_size (clean_index dev.tx_queues q) num_sent (num_in_flight - num_sent)
              v.clean_in)
        ∙ map-append _ _ _

    -- The state after step 1.
    abbrev pub cleaned : Device
    cleaned = record dev { tx_queues = set_clean_index dev.tx_queues q cleaned_index }

    -- What step 1 leaves for step 2.
    pub tx_packet-cleaned :
        (buf : ℕ) (h h' : Heap)
        → free_all sent_bufs h ≡ ok (tt, h')
        → tx_packet q buf (record { heap = h; dev = dev }) ≡ (
            if cleaned_index == inc_and_wrap_ring (tx_index dev.tx_queues q) ring_size
            then ok (0, record { heap = h'; dev = cleaned })
            else enqueue q buf (tx_index dev.tx_queues q) (record { heap = h'; dev = cleaned }))
    unfolding tx_packet
    tx_packet-cleaned buf h h' freed =
        rw loop
          (elim (Bool-cases
            (cleaned_index == inc_and_wrap_ring (tx_index dev.tx_queues q) ring_size)) [
              | inl e ↦ rw e
              | inr e ↦ rw e
            ])
      where
        loop :
            clean
              (suc ring_size)
              q
              (clean_index dev.tx_queues q)
              (tx_index dev.tx_queues q)
              (record { heap = h; dev = dev })
            ≡ ok (cleaned_index, record { heap = h'; dev = dev })
        loop =
            clean_lem dev q v.size (suc ring_size) num_in_flight (clean_index dev.tx_queues q)
              (tx_index dev.tx_queues q) h v.clean_in (distance-lt ring_size _ _ v.clean_in)
              (add-distance ring_size _ _ v.clean_in v.tail_in)
              (omega (arith, distance-lt ring_size _ (tx_index dev.tx_queues q) v.clean_in))
            ∙ ap
                (λ o.
                  and_then (put_back (λ x. record { heap = x; dev = dev }) o)
                    (λ _ m. ok (cleaned_index, m)))
                freed

pub HasFields-IsTxQueue :
    (dev : Device) (q : ℕ) {d n c t : ℕ}
    → HasFields dev.tx_queues q d n c t
    → IsRingSize n
    → c < n
    → t < n
    → IsTxQueue dev q
HasFields-IsTxQueue dev q f size hc ht = record {
  size = rw f.num size;
  clean_in = rw (f.clean, f.num) hc;
  tail_in = rw (f.tail, f.num) ht;
}

-- In flight are as many entries from `c` on as there are steps to `t`.
pub in_flight_of :
    (dev : Device) (q : ℕ) {d n c t : ℕ} (r : ℕ)
    → HasFields dev.tx_queues q d n c t
    → c < n
    → r < n
    → (c + r) % n ≡ t
    → in_flight dev q ≡ map (virtual_address dev.tx_queues q) (indices n c r)
in_flight_of dev q {n} {c} {t} r f hc hr e =
    let steps : distance n c t ≡ r = ap (distance n c) (sym e) ∙ distance-add n c r hc hr in
    rw (f.num, f.clean, f.tail, steps)
