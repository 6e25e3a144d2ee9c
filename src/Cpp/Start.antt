-- ===== src/Cpp/Start.antt =====
-- src/driver/ixgbe.cpp: `start_rx_queue` and `start_tx_queue`.
use ixy.Base.{ℕ, zero, suc, ◌+◌, ◌*◌, bit_and, ◌==◌, if◌then◌else◌, update, sub32, not}
use ixy.Base.Outcome.{Cmd, ◌>>=◌, ◌>>◌, pure, gets, abort}
use ixy.Os.{Os}
use ixy.Memory.{load_buf, pkt_buf_alloc, memory_allocate_mempool}
use ixy.Device.{Nic}
use ixy.Regs.{rdh, rdt, rxdctl, tdh, tdt, txdctl}
use ixy.Regs.Bits.{rxdctl_enable, txdctl_enable}
use ixy.Ixgbe.{sizeof_desc, Machine, on_heap, on_regs, set_rx_queues, put_rx_desc}
use ixy.Ixgbe.Rx.{rx_queue_at, descriptors, mempool, num_entries, virtual_address_at}
use ixy.Ixgbe.Tx.{num_entries as tx_num_entries}
use ixy.Cpp.Registers.{set_reg32, set_flags32, wait_set_reg32}

-- One round of the loop.
unfoldable pub fill_entry : ℕ → ℕ → Cmd Machine (Unit {0})
fill_entry queue_id i = do
  w ← gets (λ m. m.dev.rx_queues)
  buf ← on_heap (pkt_buf_alloc (mempool w queue_id))
  if buf == 0 then abort else do
    b ← on_heap (load_buf buf)
    put_rx_desc (descriptors w queue_id + i * sizeof_desc)
        (record { pkt_addr = b.buf_addr_phy; hdr_addr = 0 })
    set_rx_queues (update w (virtual_address_at w queue_id i) buf)

-- The loop at index `i` with `left` rounds to go; a round leaves `num_entries` as it is.
unfoldable pub fill_entries : ℕ → ℕ → ℕ → Cmd Machine (Unit {0})
fill_entries queue_id zero i = pure tt
fill_entries queue_id (suc left) i = fill_entry queue_id i >> fill_entries queue_id left (i + 1)

module _ (os : Os) (nic : Nic) (fuel queue_id : ℕ) where
  unfoldable pub start_rx_queue : Cmd Machine (Unit {0})
  start_rx_queue = do
    pool ← on_heap (memory_allocate_mempool os 4096 2048)
    w ← gets (λ m. m.dev.rx_queues)
    set_rx_queues (update w (rx_queue_at queue_id + 1) pool)
    w1 ← gets (λ m. m.dev.rx_queues)
    let n = num_entries w1 queue_id
    if not (bit_and n (sub32 n 1) == 0) then abort else do
      fill_entries queue_id n 0
      on_regs (set_flags32 nic (rxdctl queue_id) rxdctl_enable)
      on_regs (wait_set_reg32 nic fuel (rxdctl queue_id) rxdctl_enable)
      on_regs (set_reg32 (rdh queue_id) 0)
      w2 ← gets (λ m. m.dev.rx_queues)
      on_regs (set_reg32 (rdt queue_id) (sub32 (num_entries w2 queue_id) 1))

module _ (nic : Nic) (fuel queue_id : ℕ) where
  unfoldable pub start_tx_queue : Cmd Machine (Unit {0})
  start_tx_queue = do
    w ← gets (λ m. m.dev.tx_queues)
    let n = tx_num_entries w queue_id
    if not (bit_and n (sub32 n 1) == 0) then abort else do
      on_regs (set_reg32 (tdh queue_id) 0)
      on_regs (set_reg32 (tdt queue_id) 0)
      on_regs (set_flags32 nic (txdctl queue_id) txdctl_enable)
      on_regs (wait_set_reg32 nic fuel (txdctl queue_id) txdctl_enable)
