-- ===== src/Cpp/Tests.antt =====
-- The C++ driver on a card with a receive queue of two entries whose first descriptor is done, and
-- a card that keeps what is written.
use ixy.Base.{
  arith, ℕ, ◌+◌, ◌≡◌, ◌≢◌, refl, sym, List, [], ◌∷◌, ◌++◌, ◌==◌, ==_ne, true, none, update,
  if◌then◌else◌, ◌<<<◌,
}
use ixy.Base.Outcome.{ok}
use ixy.Memory.Tests.{heap, granting}
use ixy.Device.{Access, Trace, Nic, read, write, sleep}
use ixy.Regs.{autoc}
use ixy.Regs.Bits.{autoc_lms_10g_serial}
use ixy.Ixgbe.{Machine}
use ixy.Ixgbe.Rx.{rx_packet}
use ixy.Ixgbe.Tx.{tx_packet}
use ixy.Ixgbe.Link.{set_promisc, wait_for_link}
use ixy.Ixgbe.Link.Mode.{mode_of, autoc_mode, KeepsMode, mode_of-u32}
use ixy.Ixgbe.Init.{init_rx}
use ixy.Ixgbe.Start.{start_rx_queue, start_tx_queue}
use ixy.Ixgbe.Stats.{read_stats}
use ixy.Cpp.Rx.{rx_packet as cpp_rx_packet}
use ixy.Cpp.Tx.{tx_packet as cpp_tx_packet}
use ixy.Cpp.Init.{init_rx as cpp_init_rx}
use ixy.Cpp.Start.{start_rx_queue as cpp_start_rx_queue, start_tx_queue as cpp_start_tx_queue}
use ixy.Cpp.Link.{
  init_link as cpp_init_link, set_promisc as cpp_set_promisc, wait_for_link as cpp_wait_for_link,
  do_read_stats,
}
use ixy.Cpp.Link.Mode.{init_link-stray}
use ixy.Cpp.Agrees.Packets.{packets_agree}
use ixy.Cpp.Agrees.Control.{control_agrees}

-- The value written last.
keeping : Nic
keeping [] reg = 0
keeping (read r v ∷ t) reg = keeping t reg
keeping (write r v ∷ t) reg = if reg == r then v else keeping t reg
keeping (sleep us ∷ t) reg = keeping t reg

keeping-KeepsMode : KeepsMode keeping
unfolding keeping
keeping-KeepsMode = record {
  written = λ v t. mode_of-u32 v;
  unwritten = λ reg v t away. rw (==_ne autoc reg (λ e. away (sym e))) refl;
  kept = λ reg v t. refl;
}

init_link-stray_example :
    (t' : Trace) × (after : List Access) × (reg : ℕ) × (cpp_init_link keeping 0x80000 []
      ≡ ok (tt, t'))
    × (autoc_mode keeping t' ≡ autoc_mode keeping [])
    × (t' ≡ after ++ (write reg 0 ∷ read 0 0 ∷ []))
    × (mode_of reg ≡ autoc_lms_10g_serial)
    × (reg ≢ autoc)
unfolding keeping
init_link-stray_example = init_link-stray keeping keeping-KeepsMode [] 0x80000 (omega arith)

-- Its first descriptor has flags DD and EOP and a length of 60.
abbrev one_received : Machine
one_received = record {
  heap = heap 1;
  dev = record {
    num_rx_queues = 1;
    num_tx_queues = 1;
    rx_queues = update (update (update (update (λ _. 0) 0 0x1000) 1 100) 2 2) 3 0x200800;
    tx_queues = update (update (λ _. 0) 0 0x2000) 1 2;
    rx_descs = λ _. record { pkt_addr = 0; hdr_addr = 3 + 60 <<< 32 };
    tx_descs = λ _. record { buffer_addr = 0; cmd_type_len = 0; olinfo_status = 0 };
    trace = [];
  };
}

packets_agree_example :
    (cpp_rx_packet 0 one_received ≡ rx_packet 0 one_received)
    × (cpp_tx_packet 0 0x200000 one_received ≡ tx_packet 0 0x200000 one_received)
packets_agree_example = packets_agree 0 0x200000 one_received

control_agrees_example :
    (cpp_init_rx granting keeping one_received ≡ init_rx granting keeping one_received)
    × (cpp_start_rx_queue granting keeping 5 0 one_received
        ≡ start_rx_queue granting keeping 5 0 one_received)
    × (cpp_start_tx_queue keeping 5 0 one_received ≡ start_tx_queue keeping 5 0 one_received)
    × (cpp_set_promisc keeping true [] ≡ set_promisc keeping true [])
    × (cpp_wait_for_link keeping [] ≡ wait_for_link keeping [])
    × (do_read_stats keeping none [] ≡ read_stats keeping none [])
control_agrees_example = control_agrees granting keeping 5 0 true none one_received []
