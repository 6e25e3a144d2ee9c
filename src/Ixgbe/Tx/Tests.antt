-- ===== src/Ixgbe/Tx/Tests.antt =====
-- A transmit queue of four entries: with two packets in flight of which the card sent the first,
-- and a full one of which it sent none.
use ixy.Base.{ℕ, ◌+◌, ◌*◌, ◌≡◌, refl, arith, get_or, [], ◌∷◌, update}
use ixy.Base.Outcome.{ok}
use ixy.Memory.{Heap, put_pool, pkt_buf_free}
use ixy.Memory.Pool.{pushed}
use ixy.Memory.Tests.{entry, two_entries, heap}
use ixy.Device.{write}
use ixy.Regs.{tdt}
use ixy.Ixgbe.{Device}
use ixy.Ixgbe.Ring.{IsRingSize}
use ixy.Ixgbe.Tx.{clean, tx_packet, tx_desc}
use ixy.Ixgbe.Tx.Clean.{free_all, sent, clean_lem}
use ixy.Ixgbe.Tx.InFlight.{IsTxQueue, in_flight}
use ixy.Ixgbe.Tx.Packet.{tx_packet_full, tx_packet_room}

four-IsRingSize : IsRingSize 4
four-IsRingSize = record { k = 2; power = refl; small = omega arith }

-- The words of a queue whose ring is at 0x1000, with `clean_index` 0 and a given `tx_index`.
abbrev pub words : ℕ → ℕ → ℕ
words tail i = get_or (0x1000 ∷ (tail * 0x100000000 + 4) ∷ 0x200800 ∷ 0x300000 ∷ []) i 0

abbrev pub device : ℕ → ℕ → Device
device tail status = record {
  num_rx_queues = 1;
  num_tx_queues = 1;
  rx_queues = λ _. 0;
  tx_queues = words tail;
  rx_descs = λ _. record { pkt_addr = 0; hdr_addr = 0 };
  tx_descs =
      update (λ _. record { buffer_addr = 0; cmd_type_len = 0; olinfo_status = 0 }) 0x1000
        (record { buffer_addr = 0; cmd_type_len = 0; olinfo_status = status });
  trace = [];
}

two_in_flight : IsTxQueue (device 2 1) 0
two_in_flight = record { size = four-IsRingSize; clean_in = omega arith; tail_in = omega arith }

pub three_in_flight : IsTxQueue (device 3 0) 0
three_in_flight = record { size = four-IsRingSize; clean_in = omega arith; tail_in = omega arith }

-- The memory after entry 1 came back to the pool.
abbrev freed : Heap
freed = put_pool 100 (pushed (two_entries 0) 1) (heap 0)

clean_lem_example :
    clean 5 0 0 2 (record { heap = heap 0; dev = device 2 1 })
    ≡ ok (1, record { heap = freed; dev = device 2 1 })
unfolding free_all sent pkt_buf_free update
clean_lem_example =
    clean_lem (device 2 1) 0 four-IsRingSize 5 2 0 2 (heap 0) (omega arith) (omega arith) refl
      (omega arith)

tx_packet_full_example :
    tx_packet 0 0x200000 (record { heap = heap 0; dev = device 3 0 })
    ≡ ok (0, record { heap = heap 0; dev = device 3 0 })
unfolding update
tx_packet_full_example = tx_packet_full (device 3 0) 0 three_in_flight refl refl 0x200000 (heap 0)

tx_packet_room_example :
    (dev' : Device) × (tx_packet 0 0x200000 (record { heap = heap 0; dev = device 2 1 })
      ≡ ok (1, record { heap = freed; dev = dev' }))
    × IsTxQueue dev' 0
    × (in_flight dev' 0 ≡ 0x300000 ∷ 0x200000 ∷ [])
    × (dev'.tx_descs 0x1020 ≡ tx_desc (entry 0))
    × (dev'.trace ≡ write (tdt 0) 3 ∷ [])
unfolding free_all sent pkt_buf_free update
tx_packet_room_example =
    tx_packet_room (device 2 1) 0 two_in_flight 0x200000 (entry 0) (heap 0) freed (omega arith) refl
      refl
