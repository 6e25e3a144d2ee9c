-- ===== src/Ixgbe/Stats.antt =====
-- src/stats.h, `stats_init` of src/stats.c, and `ixgbe_read_stats` of src/driver/ixgbe.c.
pub mod Sum
mod Tests
use ixy.Base.{ℕ, ◌+◌, Bool, if◌then◌else◌, Option, none, some, u64, ◌<<<◌}
use ixy.Base.Outcome.{Cmd, ◌>>=◌, pure}
use ixy.Device.{Trace, Nic, get_reg32}
use ixy.Regs.{gprc, gptc, gorcl, gorch, gotcl, gotch}

-- The counters of `struct device_stats`, each a `size_t`.
pub record DeviceStats : Type 0 where
  pub rx_pkts : ℕ
  pub tx_pkts : ℕ
  pub rx_bytes : ℕ
  pub tx_bytes : ℕ

-- `stats->x += ...` for the four counters.
unfoldable pub add_stats : DeviceStats → DeviceStats → DeviceStats
add_stats s d = record {
  rx_pkts = u64 (s.rx_pkts + d.rx_pkts);
  tx_pkts = u64 (s.tx_pkts + d.tx_pkts);
  rx_bytes = u64 (s.rx_bytes + d.rx_bytes);
  tx_bytes = u64 (s.tx_bytes + d.tx_bytes);
}

module _ (nic : Nic) where
  -- `none` is a null pointer. The order in which the operands of a `+` are read is left open by C:
  -- here the low word is read first.
  unfoldable pub read_stats : Option DeviceStats → Cmd Trace (Option DeviceStats)
  unfolding get_reg32
  read_stats stats = do
    rx_pkts ← get_reg32 nic gprc
    tx_pkts ← get_reg32 nic gptc
    rx_low ← get_reg32 nic gorcl
    rx_high ← get_reg32 nic gorch
    tx_low ← get_reg32 nic gotcl
    tx_high ← get_reg32 nic gotch
    pure (elim stats [
      | none ↦ none
      | some s ↦ some (
          add_stats s (record {
            rx_pkts = rx_pkts;
            tx_pkts = tx_pkts;
            rx_bytes = u64 (rx_low + rx_high <<< 32);
            tx_bytes = u64 (tx_low + tx_high <<< 32);
          }))
    ])

  -- The counters are cleared and, if there is a device, the card's are read.
  unfoldable pub stats_init : Bool → Cmd Trace DeviceStats
  unfolding read_stats
  stats_init has_device =
      let cleared : DeviceStats = record { rx_pkts = 0; tx_pkts = 0; rx_bytes = 0; tx_bytes = 0 } in
      if has_device then (do _ ← read_stats none; pure cleared) else pure cleared
