-- ===== src/App/Forward/Tests.antt =====
-- A packet arrives while three packets wait in a transmit ring of four.
use ixy.Base.{ℕ, ◌≡◌, ◌^◌, ◌*◌, ◌+◌, [], ◌∷◌, refl, arith, some, update, u64}
use ixy.Base.Outcome.{ok}
use ixy.Memory.{Heap, PktBuf, put_buf, load_buf, load_pool, pkt_buf_alloc}
use ixy.Memory.Pool.{popped, free_ids}
use ixy.Memory.New.{countdown}
use ixy.Pci.Tests.{working, working-Succeeds}
use ixy.Device.{set_reg32}
use ixy.Ixgbe.{Device, RxDesc, Machine, sizeof_desc}
use ixy.Ixgbe.Ring.{inc_and_wrap_ring}
use ixy.Ixgbe.Rx.{mempool, set_size, take_packet, rx_packet, pkt_buf_data}
use ixy.Ixgbe.Tx.{descriptors, tx_index, tx_desc}
use ixy.Ixgbe.Tx.InFlight.{IsTxQueue, in_flight}
use ixy.Ixgbe.Mmio.{AreRegs}
use ixy.Ixgbe.Init.Ready.{IsReady}
use ixy.Ixgbe.New.{Platform, ixgbe_init}
use ixy.Ixgbe.New.Ready.{ixgbe_init-IsReady}
use ixy.Ixgbe.New.Tests.{answering, booted, granting-Grants, answering-Responds}
use ixy.Ixgbe.Rx.Tests.{machine}
use ixy.Ixgbe.Tx.Tests.{device, three_in_flight}
use ixy.Memory.Tests.{granting}
use ixy.Device.Tests.{five}
use ixy.App.Forward.{Ports, forward_packet, forward_round}
use ixy.App.Forward.Cpp.{cpp_forward_round, cpp_start}
use ixy.App.Forward.Agrees.{forward_agrees}
use ixy.App.Forward.First.{arrived, first_buf, forward_packet_first}
use ixy.App.Forward.Full.{forward_packet_full}

taken : Machine
taken = elim (rx_packet 0 (machine 1)) [ ok (b, m) ↦ m | _ ↦ machine 1 ]

received : rx_packet 0 (machine 1) ≡ ok (0x200800, taken)
unfolding taken rx_packet take_packet set_size load_buf load_pool pkt_buf_alloc set_reg32
    inc_and_wrap_ring update
received = refl

forward_packet_full_example :
    forward_packet
      (record { heap = (machine 1).heap; dev1 = (machine 1).dev; other = some (device 3 0) })
    ≡ ok (tt, record { heap = taken.heap; dev1 = taken.dev; other = some (device 3 0) })
unfolding update
forward_packet_full_example =
    forward_packet_full (machine 1).heap taken.heap (machine 1).dev taken.dev (device 3 0) 0x200800
      received (λ e. omega (arith, e)) three_in_flight refl refl

abbrev two_ports : Ports
two_ports = record { heap = (machine 1).heap; dev1 = (machine 1).dev; other = some (device 3 0) }

forward_agrees_example :
    cpp_forward_round five five (λ n. (n, 7)) (cpp_start two_ports 5)
    ≡ forward_round five five (λ n. (n, 7)) (cpp_start two_ports 5)
forward_agrees_example = forward_agrees granting five five (λ n. (n, 7)) (cpp_start two_ports 5)

-- A card after `ixgbe_init`, which is both the first and the second one here, and a packet of 60
-- bytes. It begins with the bytes that a broadcast from 02:00:00:00:00:01 has.
abbrev initialised :
    (dev : Device) × (p' : Platform) × (ixgbe_init granting answering working 1 1 1 booted
      ≡ ok (dev, p'))
    × IsReady granting (record { heap = p'.heap; dev = dev })
    × AreRegs dev.trace
initialised =
    ixgbe_init-IsReady granting answering working 1 0x7f0000000000 booted granting-Grants
      answering-Responds working-Succeeds

abbrev finished : RxDesc
finished = record { pkt_addr = 0; hdr_addr = 3 + 60 * 2 ^ 32 }

abbrev broadcast : PktBuf
broadcast = record {
  buf_addr_phy = 0x0002FFFFFFFFFFFF;
  mempool = 0x0045000801000000;
  mempool_idx = 0x00002E00;
  size = 0x11400000;
  payload = λ n. 0;
}

abbrev first_at : ℕ
first_at = first_buf initialised.3.mem

forward_packet_first_example :
    (dev1' dev2' : Device) × (h' : Heap) × (forward_packet (record {
      heap = put_buf first_at broadcast initialised.1.heap;
      dev1 = arrived initialised.0 finished;
      other = some initialised.0;
    })
      ≡ ok (tt, record { heap = h'; dev1 = dev1'; other = some dev2' }))
    × IsTxQueue dev2' 0
    × (in_flight dev2' 0 ≡ first_at ∷ [])
    × (dev2'.tx_descs
          (descriptors initialised.0.tx_queues 0 + tx_index initialised.0.tx_queues 0 * sizeof_desc)
        ≡ tx_desc (record broadcast { size = 60 }))
    × ((tx_desc (record broadcast { size = 60 })).buffer_addr
        ≡ u64 (0x0002FFFFFFFFFFFF + pkt_buf_data))
    × (h'.bufs first_at ≡ some (record broadcast { size = 60 }))
    × (h'.pools (mempool initialised.0.rx_queues 0) ≡ some (popped initialised.3.pool))
    × (free_ids (popped initialised.3.pool) ≡ countdown 3071)
forward_packet_first_example =
    forward_packet_first granting initialised.1.heap initialised.0 initialised.3 finished
      (λ e. omega (arith, e)) (λ e. omega (arith, e)) broadcast initialised.0 initialised.3.tx
      initialised.3.tx_entries initialised.3.idle
