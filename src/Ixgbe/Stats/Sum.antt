-- ===== src/Ixgbe/Stats/Sum.antt =====
-- What the counters are after repeated calls of `ixgbe_read_stats`.
use ixy.Base.{
  ℕ, zero, suc, ◌+◌, ◌*◌, ◌%◌, ◌^◌, ◌≡◌, refl, arith, Option, some, ◌∷◌, u32, u64, ◌<<<◌,
}
use ixy.Base.Outcome.{ok, Cmd, ◌>>=◌, pure}
use ixy.Device.{Trace, Nic, read, get_reg32}
use ixy.Regs.{gprc, gptc, gorcl, gorch, gotcl, gotch}
use ixy.Ixgbe.Stats.{DeviceStats, add_stats, read_stats}

module _ (nic : Nic) where
  abbrev look : ℕ → Trace → Trace
  look reg t = read reg (u32 (nic t reg)) ∷ t

  -- The trace before each of the six reads of a call, and after it.
  abbrev at_tx_pkts : Trace → Trace
  at_tx_pkts t = look gprc t

  abbrev at_rx_bytes : Trace → Trace
  at_rx_bytes t = look gptc (at_tx_pkts t)

  abbrev at_tx_bytes : Trace → Trace
  at_tx_bytes t = look gorch (look gorcl (at_rx_bytes t))

  abbrev pub read_all : Trace → Trace
  read_all t = look gotch (look gotcl (at_tx_bytes t))

  -- What the card tells in a call that begins at a trace.
  abbrev pub told : Trace → DeviceStats
  told t = record {
    rx_pkts = u32 (nic t gprc);
    tx_pkts = u32 (nic (at_tx_pkts t) gptc);
    rx_bytes =
        u32 (nic (look gorcl (at_rx_bytes t)) gorch) * 2 ^ 32 + u32 (nic (at_rx_bytes t) gorcl);
    tx_bytes =
        u32 (nic (look gotcl (at_tx_bytes t)) gotch) * 2 ^ 32 + u32 (nic (at_tx_bytes t) gotcl);
  }

  -- The same with the sums of the halves computed in 64 bits, as the code does.
  abbrev recorded : Trace → DeviceStats
  recorded t = record {
    rx_pkts = u32 (nic t gprc);
    tx_pkts = u32 (nic (at_tx_pkts t) gptc);
    rx_bytes =
        u64 (u32 (nic (at_rx_bytes t) gorcl) + u32 (nic (look gorcl (at_rx_bytes t)) gorch) <<< 32);
    tx_bytes =
        u64 (u32 (nic (at_tx_bytes t) gotcl) + u32 (nic (look gotcl (at_tx_bytes t)) gotch) <<< 32);
  }

  -- The sum of a counter over `k` calls, without a bound, and the trace after them.
  abbrev pub total : (DeviceStats → ℕ) → ℕ → Trace → ℕ
  total count zero t = 0
  total count (suc k) t = count (told t) + total count k (read_all t)

  abbrev pub after : ℕ → Trace → Trace
  after zero t = t
  after (suc k) t = after k (read_all t)

  -- `k` calls for the same counters.
  pub read_times : ℕ → Option DeviceStats → Cmd Trace (Option DeviceStats)
  read_times zero s = pure s
  read_times (suc k) s = read_stats nic s >>= read_times k

  -- Each counter is its sum modulo 2^64.
  pub record IsSum (s s' : DeviceStats) (k : ℕ) (t : Trace) : Type 0 where
    pub rx_pkts : s'.rx_pkts ≡ (s.rx_pkts + total (λ d. d.rx_pkts) k t) % 2 ^ 64
    pub tx_pkts : s'.tx_pkts ≡ (s.tx_pkts + total (λ d. d.tx_pkts) k t) % 2 ^ 64
    pub rx_bytes : s'.rx_bytes ≡ (s.rx_bytes + total (λ d. d.rx_bytes) k t) % 2 ^ 64
    pub tx_bytes : s'.tx_bytes ≡ (s.tx_bytes + total (λ d. d.tx_bytes) k t) % 2 ^ 64

  -- After one call or more of `ixgbe_read_stats` for the same counters, each of them is its value
  -- before plus the sum of all that the card told, modulo 2^64.
  pub read_stats-IsSum :
      (k : ℕ) (s : DeviceStats) (t : Trace)
      → (s' : DeviceStats) × (read_times (suc k) (some s) t ≡ ok (some s', after (suc k) t))
        × IsSum s s' (suc k) t
  unfolding read_times read_stats add_stats get_reg32
  read_stats-IsSum zero s t = (
    _,
    refl,
    record {
      rx_pkts = omega arith;
      tx_pkts = omega arith;
      rx_bytes = omega arith;
      tx_bytes = omega arith;
    },
  )
  read_stats-IsSum (suc k) s t =
      let (s', run, sum) = read_stats-IsSum k (add_stats s (recorded t)) (read_all t) in
      (
        s',
        run,
        record {
          rx_pkts = omega (arith, sum.rx_pkts);
          tx_pkts = omega (arith, sum.tx_pkts);
          rx_bytes = omega (arith, sum.rx_bytes);
          tx_bytes = omega (arith, sum.tx_bytes);
        },
      )
