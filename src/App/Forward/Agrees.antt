-- ===== src/App/Forward/Agrees.antt =====
-- The C and the C++ forwarder.
use ixy.Base.{ℕ, ◌≡◌, refl, Option, none, some}
use ixy.Device.{Nic}
use ixy.Os.{Os}
use ixy.Ixgbe.{Device}
use ixy.Ixgbe.Rx.{rx_packet}
use ixy.Ixgbe.Tx.{tx_packet}
use ixy.Ixgbe.Stats.{read_stats}
use ixy.Cpp.Rx.{rx_packet as cpp_rx_packet}
use ixy.Cpp.Tx.{tx_packet as cpp_tx_packet}
use ixy.Cpp.Link.{do_read_stats}
use ixy.Cpp.Agrees.Packets.{packets_agree}
use ixy.Cpp.Agrees.Control.{read_stats-read_stats}
use ixy.App.Forward.{
  Loop, report_other, forward_packet, report1, report2, report, poll_time, forward_round,
}
use ixy.App.Forward.Cpp.{
  cpp_report_other, cpp_forward_packet, cpp_report1, cpp_report2, cpp_report, cpp_poll_time,
  cpp_forward_round,
}

same_rx : cpp_rx_packet ≡ rx_packet
same_rx i q m = (packets_agree q 0 m).0 i

same_tx : cpp_tx_packet ≡ tx_packet
same_tx i q buf m = (packets_agree q buf m).1 i

module _ (os : Os) (nic : Nic) where
  same_stats : do_read_stats nic ≡ read_stats nic
  same_stats i s t = read_stats-read_stats os nic s t i

module _ (os : Os) (nic1 nic2 : Nic) (clock : ℕ → ℕ × ℕ) where
  report_other-report_other :
      (other : Option Device) (l : Loop)
      → cpp_report_other nic1 nic2 other l ≡ report_other nic1 nic2 other l
  unfolding cpp_report_other report_other cpp_report2 report2
  report_other-report_other none l = refl
  report_other-report_other (some dev2) l = rw (same_stats os nic2) refl

  same_other : cpp_report_other nic1 nic2 ≡ report_other nic1 nic2
  same_other i other l = report_other-report_other other l i

  -- For every state, clock and cards, a round of the C++ forwarder, with its statistics, does what
  -- a round of the C forwarder does.
  pub forward_agrees :
      (l : Loop) → cpp_forward_round nic1 nic2 clock l ≡ forward_round nic1 nic2 clock l
  unfolding forward_packet cpp_forward_packet cpp_report1 cpp_report cpp_poll_time cpp_forward_round
      report1 report poll_time forward_round
  forward_agrees l = rw (same_rx, same_tx, same_stats os nic1, same_other) refl
