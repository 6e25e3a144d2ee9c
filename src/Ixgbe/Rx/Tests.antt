-- ===== src/Ixgbe/Rx/Tests.antt =====
-- A receive queue of two entries with a packet of 60 bytes at the second one.
use ixy.Base.{ℕ, ◌≡◌, refl, arith, some, get_or, [], ◌∷◌, update}
use ixy.Base.Outcome.{ok, aborted}
use ixy.Memory.Pool.{IsPool, free_ids, popped}
use ixy.Memory.Tests.{entry, two_entries, heap, one_free-IsPool, none_free-IsPool}
use ixy.Device.{write}
use ixy.Regs.{rdt}
use ixy.Ixgbe.{Device, Machine}
use ixy.Ixgbe.Ring.{IsRingSize}
use ixy.Ixgbe.Rx.{rx_index, virtual_address, rx_packet}
use ixy.Ixgbe.Rx.Packet.{no_buf, rx_packet_rejects, rx_packet_take, rx_packet_stale}

-- The words of the queue: its ring at 0x1000, its pool, 2 entries with index 1, and the buffers.
abbrev pub words : ℕ → ℕ
words i = get_or (0x1000 ∷ 100 ∷ 0x10002 ∷ 0x200000 ∷ 0x200800 ∷ []) i 0

abbrev pub device : Device
device = record {
  num_rx_queues = 1;
  num_tx_queues = 1;
  rx_queues = words;
  tx_queues = λ _. 0;
  rx_descs = λ _. record { pkt_addr = 0; hdr_addr = 0x3c00000003 };
  tx_descs = λ _. record { buffer_addr = 0; cmd_type_len = 0; olinfo_status = 0 };
  trace = [];
}

-- With so many entries free.
abbrev pub machine : ℕ → Machine
machine free = record { heap = heap free; dev = device }

two-IsRingSize : IsRingSize 2
two-IsRingSize = record { k = 1; power = refl; small = omega arith }

rx_packet_rejects_example : rx_packet 0 (machine 0) ≡ aborted
unfolding update
rx_packet_rejects_example =
    rx_packet_rejects (machine 0) 0 (no_buf (entry 1) (two_entries 0) refl none_free-IsPool refl)

rx_packet_take_example :
    (m' : Machine) × (rx_packet 0 (machine 1) ≡ ok (0x200800, m'))
    × (m'.heap.bufs 0x200800 ≡ some (record (entry 1) { size = 60 }))
    × IsPool m'.heap 100 (popped (two_entries 1))
    × (free_ids (popped (two_entries 1)) ≡ [])
    × (m'.dev.rx_descs 0x1010 ≡ record { pkt_addr = 0x500040; hdr_addr = 0 })
    × (rx_index m'.dev.rx_queues 0 ≡ 0)
    × (m'.dev.trace ≡ write (rdt 0) 1 ∷ [])
unfolding update
rx_packet_take_example =
    rx_packet_take (machine 1) 0 two-IsRingSize (omega arith) (entry 1) refl (λ e. omega (arith, e))
      (λ e. omega (arith, e)) (two_entries 1) one_free-IsPool 0 [] (omega arith) refl

rx_packet_stale_example :
    (m' : Machine) × (rx_packet 0 (machine 1) ≡ ok (0x200800, m'))
    × ((j : ℕ) → virtual_address m'.dev.rx_queues 0 j ≡ virtual_address words 0 j)
    × ((m'.dev.rx_descs 0x1010).pkt_addr ≡ 0x500040)
unfolding update
rx_packet_stale_example =
    rx_packet_stale (machine 1) 0 two-IsRingSize (omega arith) (entry 1) refl
      (λ e. omega (arith, e)) (λ e. omega (arith, e)) (two_entries 1) one_free-IsPool 0 []
      (omega arith) refl
