-- ===== src/App/Forward/Full.antt =====
-- A packet that is received while the transmit ring is full.
use ixy.Base.{ℕ, suc, ◌≡◌, ◌≢◌, refl, false, some, ==_ne}
use ixy.Base.Outcome.{ok}
use ixy.Memory.{Heap}
use ixy.Ixgbe.{Device}
use ixy.Ixgbe.Rx.{rx_packet}
use ixy.Ixgbe.Tx.{clean_index}
use ixy.Ixgbe.Tx.Clean.{is_done}
use ixy.Ixgbe.Tx.InFlight.{IsTxQueue, num_in_flight, ring_size}
use ixy.Ixgbe.Tx.Packet.{tx_packet_full}
use ixy.App.Forward.{forward_packet}

module _ (heap h' : Heap) (dev1 dev1' dev2 : Device) (buf : ℕ)
    (received : rx_packet 0 (record { heap = heap; dev = dev1 })
      ≡ ok (buf, record { heap = h'; dev = dev1' }))
    (packet : buf ≢ 0) (v : IsTxQueue dev2 0) (full : suc (num_in_flight dev2 0) ≡ ring_size dev2 0)
    (waits : is_done dev2 0 (clean_index dev2.tx_queues 0) ≡ false) where
  -- If a packet is received from the first card while the transmit ring of another card is full and
  -- its oldest packet was not sent, a round of the forwarder leaves the state after the reception:
  -- the buffer is neither queued nor freed.
  pub forward_packet_full :
      forward_packet (record { heap = heap; dev1 = dev1; other = some dev2 })
      ≡ ok (tt, record { heap = h'; dev1 = dev1'; other = some dev2 })
  unfolding forward_packet
  forward_packet_full =
      rw (received, ==_ne buf 0 packet, tx_packet_full dev2 0 v full waits buf h') refl
