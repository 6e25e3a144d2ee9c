-- ===== src/App/Forward/Cpp.antt =====
-- src/app/ixy-cpp-fwd.cpp, and `monotonic_time` and the constructor of `device_stats` of
-- src/stats.cpp, on the variables of the C forwarder.
use ixy.Base.{
  ℕ, ◌+◌, ◌-◌, ◌*◌, ◌%◌, ◌^◌, bit_and, Option, none, some, ◌==◌, if◌then◌else◌, ltb, u64,
}
use ixy.Base.Outcome.{Cmd, ◌>>=◌, ◌>>◌, pure, gets, modify}
use ixy.Device.{Nic}
use ixy.Ixgbe.{Device, on_regs}
use ixy.Ixgbe.Stats.{DeviceStats}
use ixy.Cpp.Link.{do_read_stats}
use ixy.Cpp.Rx.{rx_packet}
use ixy.Cpp.Tx.{tx_packet}
use ixy.App.Forward.{Ports, Loop, on_dev1, on_dev2, on_ports, on_other, or_else}

abbrev pub cpp_monotonic_time : ℕ × ℕ → ℕ
cpp_monotonic_time t = u64 (t.0 * 1000000000 + t.1)

-- The address is left out.
abbrev pub device_stats : DeviceStats
device_stats = record { rx_pkts = 0; tx_pkts = 0; rx_bytes = 0; tx_bytes = 0 }

unfoldable pub cpp_forward_packet : Cmd Ports (Unit {0})
cpp_forward_packet = do
  buf ← on_dev1 (rx_packet 0)
  if buf == 0 then pure tt else do _ ← on_dev2 (tx_packet 0 buf); pure tt

-- The variables before the loop, for the cards and the time.
abbrev pub cpp_start : Ports → ℕ → Loop
cpp_start p time = record {
  ports = p;
  counter = 0;
  calls = 1;
  last_stats_printed = time;
  stats1 = device_stats;
  stats1_old = device_stats;
  stats2 = device_stats;
  stats2_old = device_stats;
}

module _ (nic1 nic2 : Nic) where
  unfoldable pub cpp_report1 : Cmd Loop (Unit {0})
  cpp_report1 = do
    l ← gets (λ l. l)
    s ← on_ports (on_dev1 (on_regs (do_read_stats nic1 (some l.stats1))))
    let stats = or_else l.stats1 s
    modify (λ l. record l { stats1 = stats; stats1_old = stats })

  unfoldable pub cpp_report2 : Device → Cmd Loop (Unit {0})
  cpp_report2 dev2 = do
    l ← gets (λ l. l)
    s ← on_ports (on_other dev2 (do_read_stats nic2 (some l.stats2)))
    let stats = or_else l.stats2 s
    modify (λ l. record l { stats2 = stats; stats2_old = stats })

  -- `if (dev1 != dev2)`.
  unfoldable pub cpp_report_other : Option Device → Cmd Loop (Unit {0})
  cpp_report_other none = pure tt
  cpp_report_other (some dev2) = cpp_report2 dev2

  unfoldable pub cpp_report : ℕ → Cmd Loop (Unit {0})
  cpp_report time = do
    cpp_report1
    other ← gets (λ l. l.ports.other)
    cpp_report_other other
    modify (λ l. record l { last_stats_printed = time })

  unfoldable pub cpp_poll_time : (ℕ → ℕ × ℕ) → Cmd Loop (Unit {0})
  cpp_poll_time clock = do
    l ← gets (λ l. l)
    modify (λ l. record l { calls = l.calls + 1 })
    let time = cpp_monotonic_time (clock l.calls)
    if ltb 1000000000 ((time + 2 ^ 64 - l.last_stats_printed) % 2 ^ 64)
        then cpp_report time
        else pure tt

  unfoldable pub cpp_forward_round : (ℕ → ℕ × ℕ) → Cmd Loop (Unit {0})
  cpp_forward_round clock = do
    on_ports cpp_forward_packet
    counter ← gets (λ l. l.counter)
    modify (λ l. record l { counter = u64 (counter + 1) })
    if bit_and counter 0xFFF == 0 then cpp_poll_time clock else pure tt
