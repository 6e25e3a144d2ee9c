-- ===== src/Ixgbe/Mmio/Session.antt =====
-- What programs do with a card, by the functions of src/driver/ixgbe.c, and the accesses that this
-- makes.
use ixy.Base.{ℕ, ◌≤◌, ◌<◌, ◌≡◌, arith, Bool, Option, []}
use mathlib.Core.Path.{subst, sym}
use ixy.Base.Outcome.{ok}
use ixy.Os.{Os}
use ixy.Memory.{Heap}
use ixy.Device.{Nic}
use ixy.Ixgbe.{Machine, RxDesc, TxDesc, on_regs}
use ixy.Ixgbe.Rx.{rx_packet}
use ixy.Ixgbe.Tx.{tx_packet}
use ixy.Ixgbe.Link.{get_link_speed, set_promisc}
use ixy.Ixgbe.Stats.{DeviceStats, read_stats}
use ixy.Ixgbe.Init.{reset_and_init}
use ixy.Ixgbe.Mmio.{
  AreRegs, IsSafe, regs_end, get_link_speed-Keeps, set_promisc-Keeps, read_stats-Keeps,
}
use ixy.Ixgbe.Mmio.Start.{reset_and_init-Leaves}
use ixy.Ixgbe.Mmio.Packets.{rx_packet-Leaves, tx_packet-Leaves}

module _ (os : Os) (nic : Nic) (fuel : ℕ) where
  -- The states that a program sees between its calls, on queues that the device has. In between the
  -- card writes to the rings, and the memory of the process changes.
  pub data Session : Machine → Type 0 where
    begins :
        (m m' : Machine)
        → m.dev.trace ≡ []
        → m.dev.num_rx_queues ≤ 64
        → m.dev.num_tx_queues ≤ 64
        → reset_and_init os nic fuel m ≡ ok (tt, m')
        → Session m'
    receives :
        (m m' : Machine) (q buf : ℕ)
        → Session m
        → q < m.dev.num_rx_queues
        → rx_packet q m ≡ ok (buf, m')
        → Session m'
    sends :
        (m m' : Machine) (q buf sent : ℕ)
        → Session m
        → q < m.dev.num_tx_queues
        → tx_packet q buf m ≡ ok (sent, m')
        → Session m'
    reads_stats :
        (m m' : Machine) (stats read : Option DeviceStats)
        → Session m
        → on_regs (read_stats nic stats) m ≡ ok (read, m')
        → Session m'
    reads_speed :
        (m m' : Machine) (speed : ℕ)
        → Session m
        → on_regs (get_link_speed nic) m ≡ ok (speed, m')
        → Session m'
    sets_promisc :
        (m m' : Machine) (enabled : Bool)
        → Session m
        → on_regs (set_promisc nic enabled) m ≡ ok (tt, m')
        → Session m'
    card_writes :
        (m : Machine) (rx : ℕ → RxDesc) (tx : ℕ → TxDesc)
        → Session m
        → Session (record m { dev = record m.dev { rx_descs = rx; tx_descs = tx } })
    memory_changes : (m : Machine) (h : Heap) → Session m → Session (record m { heap = h })

  Session-IsSafe : {m : Machine} → Session m → IsSafe m
  Session-IsSafe (begins m m' fresh rx tx e) =
      (reset_and_init-Leaves os nic fuel m
          (record { rx = rx; tx = tx; regs = subst AreRegs (sym fresh) tt })).on
        _ _ e
  Session-IsSafe (receives m m' q buf before lt e) =
      let s = Session-IsSafe before in (rx_packet-Leaves q m (omega (arith, s.rx, lt)) s).on _ _ e
  Session-IsSafe (sends m m' q buf sent before lt e) =
      let s = Session-IsSafe before in
      (tx_packet-Leaves q buf m (omega (arith, s.tx, lt)) s).on _ _ e
  Session-IsSafe (reads_stats m m' stats read before e) =
      let s = Session-IsSafe before in
      (regs_end _ m (read_stats-Keeps nic stats) s.regs
          (λ t h. record { rx = s.rx; tx = s.tx; regs = h })).on
        _ _ e
  Session-IsSafe (reads_speed m m' speed before e) =
      let s = Session-IsSafe before in
      (regs_end _ m (get_link_speed-Keeps nic) s.regs
          (λ t h. record { rx = s.rx; tx = s.tx; regs = h })).on
        _ _ e
  Session-IsSafe (sets_promisc m m' enabled before e) =
      let s = Session-IsSafe before in
      (regs_end _ m (set_promisc-Keeps nic enabled) s.regs
          (λ t h. record { rx = s.rx; tx = s.tx; regs = h })).on
        _ _ e
  Session-IsSafe (card_writes m rx tx before) =
      let s = Session-IsSafe before in record { rx = s.rx; tx = s.tx; regs = s.regs }
  Session-IsSafe (memory_changes m h before) =
      let s = Session-IsSafe before in record { rx = s.rx; tx = s.tx; regs = s.regs }

  -- Whatever a program does with a card of at most 64 queues of each kind, from `reset_and_init` on
  -- and on queues that the device has, and whatever the card and the rest of the process do in
  -- between, the driver accesses registers only at aligned offsets, from 0 up to EEC, the last
  -- register that it uses.
  pub Session-AreRegs : (m : Machine) → Session m → AreRegs m.dev.trace
  Session-AreRegs m session = (Session-IsSafe session).regs
