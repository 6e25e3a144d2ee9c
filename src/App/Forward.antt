-- ===== src/App/Forward.antt =====
-- src/app/ixy-fwd.c: packets of one card are sent by another, and the
-- counters are read once in a while.
--
-- The clock and the answers of the cards are parameters. The printed lines are left out.
pub mod Full
pub mod First
pub mod Cpp
pub mod Agrees
mod Tests
use ixy.Base.{
  ℕ, ◌+◌, ◌-◌, ◌*◌, ◌%◌, ◌^◌, bit_and, Bool, true, false, Option, none, some, ◌==◌, if◌then◌else◌,
  ltb, u64,
}
use ixy.Base.Outcome.{Cmd, ◌>>=◌, ◌>>◌, pure, gets, modify, zoom}
use ixy.Memory.{Heap}
use ixy.Device.{Nic, Trace}
use ixy.Ixgbe.{Device, Machine, on_regs}
use ixy.Ixgbe.Rx.{rx_packet}
use ixy.Ixgbe.Tx.{tx_packet}
use ixy.Ixgbe.Stats.{DeviceStats, read_stats, stats_init}

-- The heap and the cards. `other` is `none` if both arguments name one card, so that `dev2` is
-- `dev1`.
pub record Ports : Type 0 where
  pub heap : Heap
  pub dev1 : Device
  pub other : Option Device

abbrev pub on_dev1 {ℓ} : {A : Type ℓ} → Cmd Machine A → Cmd Ports A
on_dev1 =
    zoom (λ p. record { heap = p.heap; dev = p.dev1 })
      (λ p m. record p { heap = m.heap; dev1 = m.dev })

abbrev pub with_other : Ports → Device → Cmd Machine ℕ → Cmd Ports ℕ
with_other p dev2 =
    zoom (λ p. record { heap = p.heap; dev = dev2 })
      (λ p m. record p { heap = m.heap; other = some m.dev })

abbrev pub on_dev2 : Cmd Machine ℕ → Cmd Ports ℕ
on_dev2 c p = elim p.other [ none ↦ on_dev1 c p | some dev2 ↦ with_other p dev2 c p ]

-- What a round does with a packet. The result of the transmission is dropped.
unfoldable pub forward_packet : Cmd Ports (Unit {0})
forward_packet = do
  buf ← on_dev1 (rx_packet 0)
  if buf == 0 then pure tt else do _ ← on_dev2 (tx_packet 0 buf); pure tt

-- `monotonic_time` for the seconds and nanoseconds of the clock.
abbrev pub monotonic_time : ℕ × ℕ → ℕ
monotonic_time t = u64 (t.0 * 1000000000 + t.1)

-- The variables of `main`; `calls` is the number of calls of `clock_gettime`.
pub record Loop : Type 0 where
  pub ports : Ports
  pub counter : ℕ
  pub calls : ℕ
  pub last_stats_printed : ℕ
  pub stats1 : DeviceStats
  pub stats1_old : DeviceStats
  pub stats2 : DeviceStats
  pub stats2_old : DeviceStats

abbrev pub on_ports {ℓ} : {A : Type ℓ} → Cmd Ports A → Cmd Loop A
on_ports = zoom (λ l. l.ports) (λ l p. record l { ports = p })

-- The counters that are read, if there were any to add to.
abbrev pub or_else : DeviceStats → Option DeviceStats → DeviceStats
or_else s none = s
or_else s (some x) = x

-- The registers of the second card.
abbrev pub on_other {ℓ} : {A : Type ℓ} → Device → Cmd Trace A → Cmd Ports A
on_other dev2 =
    zoom (λ p. dev2.trace) (λ p t. record p { other = some (record dev2 { trace = t }) })

module _ (nic1 nic2 : Nic) where
  -- `stats_init(..., dev2)`.
  abbrev pub init_other : Option Device → Cmd Ports DeviceStats
  init_other none = on_dev1 (on_regs (stats_init nic1 true))
  init_other (some dev2) = on_other dev2 (stats_init nic2 true)

  -- The variables before the loop. `stats_init` clears the counters, and those of the card.
  unfoldable pub start : ℕ → Cmd Ports Loop
  start time = do
    stats1 ← on_dev1 (on_regs (stats_init nic1 true))
    stats1_old ← on_dev1 (on_regs (stats_init nic1 true))
    p ← gets (λ p. p)
    stats2 ← init_other p.other
    q ← gets (λ p. p)
    stats2_old ← init_other q.other
    ports ← gets (λ p. p)
    pure (record {
      ports = ports;
      counter = 0;
      calls = 1;
      last_stats_printed = time;
      stats1 = stats1;
      stats1_old = stats1_old;
      stats2 = stats2;
      stats2_old = stats2_old;
    })

  -- The counters of the two cards, and what is kept of them.
  unfoldable pub report1 : Cmd Loop (Unit {0})
  report1 = do
    l ← gets (λ l. l)
    s ← on_ports (on_dev1 (on_regs (read_stats nic1 (some l.stats1))))
    let stats = or_else l.stats1 s
    modify (λ l. record l { stats1 = stats; stats1_old = stats })

  unfoldable pub report2 : Device → Cmd Loop (Unit {0})
  report2 dev2 = do
    l ← gets (λ l. l)
    s ← on_ports (on_other dev2 (read_stats nic2 (some l.stats2)))
    let stats = or_else l.stats2 s
    modify (λ l. record l { stats2 = stats; stats2_old = stats })

  -- `if (dev1 != dev2)`.
  unfoldable pub report_other : Option Device → Cmd Loop (Unit {0})
  report_other none = pure tt
  report_other (some dev2) = report2 dev2

  -- The body of `if (time - last_stats_printed > ...)`.
  unfoldable pub report : ℕ → Cmd Loop (Unit {0})
  report time = do
    report1
    other ← gets (λ l. l.ports.other)
    report_other other
    modify (λ l. record l { last_stats_printed = time })

  -- `clock n` is what the call number `n` of `clock_gettime` tells.
  unfoldable pub poll_time : (ℕ → ℕ × ℕ) → Cmd Loop (Unit {0})
  poll_time clock = do
    l ← gets (λ l. l)
    modify (λ l. record l { calls = l.calls + 1 })
    let time = monotonic_time (clock l.calls)
    if ltb 1000000000 ((time + 2 ^ 64 - l.last_stats_printed) % 2 ^ 64)
        then report time
        else pure tt

  -- One round of the endless loop. The time is polled in one of 4096 rounds.
  unfoldable pub forward_round : (ℕ → ℕ × ℕ) → Cmd Loop (Unit {0})
  forward_round clock = do
    on_ports forward_packet
    counter ← gets (λ l. l.counter)
    modify (λ l. record l { counter = u64 (counter + 1) })
    if bit_and counter 0xFFF == 0 then poll_time clock else pure tt
