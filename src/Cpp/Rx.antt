-- ===== src/Cpp/Rx.antt =====
-- src/driver/ixgbe.cpp: `ixgbe::rx_packet`. The length is read from the ring again, where the C
-- driver copies the descriptor.
use ixy.Base.{ℕ, ◌+◌, ◌*◌, bit_and, ◌==◌, if◌then◌else◌, u16, u64, sub32, not}
use ixy.Base.Outcome.{Cmd, ◌>>=◌, ◌>>◌, pure, gets, abort}
use ixy.Memory.{load_buf, pkt_buf_alloc}
use ixy.Regs.{rdt}
use ixy.Regs.Bits.{rxdadv_stat_dd, rxdadv_stat_eop}
use ixy.Ixgbe.{
  status_error, wb_length, sizeof_desc, Machine, on_heap, on_regs, set_rx_queues, put_rx_desc,
}
use ixy.Ixgbe.Rx.{
  descriptors, mempool, num_entries, rx_index, set_rx_index, virtual_address, pkt_buf_data,
  set_size,
}
use ixy.Cpp.Registers.{set_reg32}

-- The macro `inc_and_wrap_ring` of this file.
unfoldable pub inc_and_wrap_ring : ℕ → ℕ → ℕ
inc_and_wrap_ring index ring_size = u16 (bit_and (index + 1) (sub32 ring_size 1))

-- The body of `if (status & IXGBE_RXDADV_STAT_DD)` after its check.
unfoldable pub take_packet : ℕ → ℕ → ℕ → Cmd Machine ℕ
unfolding inc_and_wrap_ring
take_packet queue_id desc_ptr index = do
  w ← gets (λ m. m.dev.rx_queues)
  let buf = virtual_address w queue_id index
  length ← gets (λ m. wb_length (m.dev.rx_descs desc_ptr))
  on_heap (set_size buf length)
  new_buf ← on_heap (pkt_buf_alloc (mempool w queue_id))
  if new_buf == 0 then abort else do
    b ← on_heap (load_buf new_buf)
    put_rx_desc desc_ptr (record { pkt_addr = u64 (b.buf_addr_phy + pkt_buf_data); hdr_addr = 0 })
    set_rx_queues (set_rx_index w queue_id (inc_and_wrap_ring index (num_entries w queue_id)))
    on_regs (set_reg32 (rdt queue_id) index)
    pure buf

unfoldable pub rx_packet : ℕ → Cmd Machine ℕ
unfolding take_packet
rx_packet queue_id = do
  w ← gets (λ m. m.dev.rx_queues)
  let index = rx_index w queue_id
  let desc_ptr = descriptors w queue_id + index * sizeof_desc
  status ← gets (λ m. status_error (m.dev.rx_descs desc_ptr))
  if not (bit_and status rxdadv_stat_dd == 0)
      then (if not (bit_and status rxdadv_stat_eop == 0)
          then take_packet queue_id desc_ptr index
          else abort)
      else pure 0
