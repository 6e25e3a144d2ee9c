-- ===== src/App/Pktgen/Loop.antt =====
-- src/app/ixy-pktgen.c: the endless loop, with its counters.
--
-- The clock and the answers of the card are parameters. The printed lines are left out.
use ixy.Base.{ℕ, some, ◌+◌, ◌-◌, ◌%◌, ◌^◌, bit_and, ◌==◌, if◌then◌else◌, ltb, u64}
use ixy.Base.Outcome.{Cmd, ◌>>=◌, ◌>>◌, pure, gets, modify, zoom}
use ixy.Device.{Nic}
use ixy.Ixgbe.{Machine, on_regs}
use ixy.Ixgbe.Stats.{DeviceStats, read_stats}
use ixy.App.Pktgen.{generate_one}
use ixy.App.Forward.{monotonic_time, or_else}

-- The variables of `main`; `calls` is the number of calls of `clock_gettime`.
pub record Generator : Type 0 where
  pub machine : Machine
  pub counter : ℕ
  pub calls : ℕ
  pub last_stats_printed : ℕ
  pub stats : DeviceStats
  pub stats_old : DeviceStats

abbrev pub on_machine {ℓ} : {A : Type ℓ} → Cmd Machine A → Cmd Generator A
on_machine = zoom (λ g. g.machine) (λ g m. record g { machine = m })

module _ (nic : Nic) where
  -- The body of `if (time - last_stats_printed > ...)`.
  unfoldable pub report_stats : ℕ → Cmd Generator (Unit {0})
  report_stats time = do
    g ← gets (λ g. g)
    s ← on_machine (on_regs (read_stats nic (some g.stats)))
    let stats = or_else g.stats s
    modify (λ g. record g { stats = stats; stats_old = stats; last_stats_printed = time })

  -- `clock n` is what the call number `n` of `clock_gettime` tells.
  unfoldable pub check_time : (ℕ → ℕ × ℕ) → Cmd Generator (Unit {0})
  check_time clock = do
    g ← gets (λ g. g)
    modify (λ g. record g { calls = g.calls + 1 })
    let time = monotonic_time (clock g.calls)
    if ltb 1000000000 ((time + 2 ^ 64 - g.last_stats_printed) % 2 ^ 64)
        then report_stats time
        else pure tt

  -- One round, where `fuel` bounds the attempts to send. The time is polled in one of 4096 rounds.
  unfoldable pub generate_round : ℕ → ℕ → (ℕ → ℕ × ℕ) → Cmd Generator (Unit {0})
  generate_round fuel mempool clock = do
    on_machine (generate_one fuel mempool)
    counter ← gets (λ g. g.counter)
    modify (λ g. record g { counter = u64 (counter + 1) })
    if bit_and counter 0xFFF == 0 then check_time clock else pure tt
