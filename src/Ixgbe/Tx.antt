-- ===== src/Ixgbe/Tx.antt =====
-- src/driver/ixgbe.c: the transmit queue and `ixgbe_tx_packet`.
--
-- As for the receive queues, the structs of the queues are `sizeof(struct ixgbe_tx_queue)` apart,
-- 16 bytes or two words: the descriptors, and `num_entries`, `clean_index` and `tx_index` at bits
-- 0, 16 and 32 of the second; then the array begins.
pub mod Clean
pub mod Queue
pub mod InFlight
pub mod Freed
pub mod Packet
pub mod Tests
use ixy.Base.{
  ℕ, zero, suc, ◌+◌, ◌*◌, ◌^◌, bit_and, bit_or, ◌==◌, if◌then◌else◌, update, u32, u64, ◌<<<◌,
}
use ixy.Base.Outcome.{Cmd, hung, ◌>>=◌, ◌>>◌, pure, gets}
use ixy.Memory.{PktBuf, load_buf, pkt_buf_free}
use ixy.Device.{set_reg32}
use ixy.Regs.{tdt}
use ixy.Regs.Bits.{
  advtxd_stat_dd, advtxd_dcmd_eop, advtxd_dcmd_rs, advtxd_dcmd_ifcs, advtxd_dcmd_dext,
  advtxd_dtyp_data, advtxd_paylen_shift,
}
use ixy.Ixgbe.{
  TxDesc, wb_status, sizeof_desc, Machine, on_heap, on_regs, set_tx_queues, put_tx_desc, get16,
  put16,
}
use ixy.Ixgbe.Ring.{inc_and_wrap_ring}
use ixy.Ixgbe.Rx.{pkt_buf_data}

-- `sizeof(struct ixgbe_tx_queue)`, in words.
abbrev pub tx_queue_words : ℕ
tx_queue_words = 2

abbrev pub tx_queue_at : ℕ → ℕ
tx_queue_at queue_id = queue_id * tx_queue_words

module _ (w : ℕ → ℕ) (queue_id : ℕ) where
  abbrev pub descriptors : ℕ
  descriptors = w (tx_queue_at queue_id)

  abbrev pub num_entries : ℕ
  num_entries = get16 0 (w (tx_queue_at queue_id + 1))

  abbrev pub clean_index : ℕ
  clean_index = get16 16 (w (tx_queue_at queue_id + 1))

  abbrev pub tx_index : ℕ
  tx_index = get16 32 (w (tx_queue_at queue_id + 1))

  abbrev pub virtual_address_at : ℕ → ℕ
  virtual_address_at i = tx_queue_at queue_id + tx_queue_words + i

  abbrev pub virtual_address : ℕ → ℕ
  virtual_address i = w (virtual_address_at i)

  -- `queue->clean_index = v`, `queue->tx_index = v` and `queue->virtual_addresses[i] = p`.
  abbrev pub set_clean_index : ℕ → ℕ → ℕ
  set_clean_index v =
      update w (tx_queue_at queue_id + 1) (put16 16 (w (tx_queue_at queue_id + 1)) v)

  abbrev pub set_tx_index : ℕ → ℕ → ℕ
  set_tx_index v = update w (tx_queue_at queue_id + 1) (put16 32 (w (tx_queue_at queue_id + 1)) v)

  abbrev pub set_virtual_address : ℕ → ℕ → ℕ → ℕ
  set_virtual_address i p = update w (virtual_address_at i) p

-- The flags of every packet and its length.
unfoldable pub cmd_type_len : ℕ → ℕ
cmd_type_len size = u32 (
    bit_or
      (bit_or
        (bit_or (bit_or (bit_or advtxd_dcmd_eop advtxd_dcmd_rs) advtxd_dcmd_ifcs) advtxd_dcmd_dext)
        advtxd_dtyp_data)
      size)

-- The descriptor of a packet, in the format that the card reads.
unfoldable pub tx_desc : PktBuf → TxDesc
unfolding cmd_type_len
tx_desc buf = record {
  buffer_addr = u64 (buf.buf_addr_phy + pkt_buf_data);
  cmd_type_len = cmd_type_len buf.size;
  olinfo_status = u32 (buf.size <<< advtxd_paylen_shift);
}

-- Step 1, the loop that frees the packets that were sent: the index where it stops.
unfoldable pub clean : ℕ → ℕ → ℕ → ℕ → Cmd Machine ℕ
clean zero queue_id index cur_index = λ _. hung
clean (suc fuel) queue_id index cur_index = do
  w ← gets (λ m. m.dev.tx_queues)
  txd ← gets (λ m. m.dev.tx_descs (descriptors w queue_id + index * sizeof_desc))
  let next = inc_and_wrap_ring index (num_entries w queue_id)
  let free_it = on_heap (pkt_buf_free (virtual_address w queue_id index))
  let rest = clean fuel queue_id next cur_index
  if index == cur_index
      then pure index
      else if bit_and (wb_status txd) advtxd_stat_dd == 0
      then pure index
      else do free_it; rest

-- Step 2 for a ring with room: the descriptor and the tail.
unfoldable pub enqueue : ℕ → ℕ → ℕ → Cmd Machine ℕ
enqueue queue_id buf cur_index = do
  w ← gets (λ m. m.dev.tx_queues)
  let w1 = set_virtual_address w queue_id cur_index buf
  let next = inc_and_wrap_ring (tx_index w1 queue_id) (num_entries w1 queue_id)
  let w2 = set_tx_index w1 queue_id next
  set_tx_queues w2
  b ← on_heap (load_buf buf)
  put_tx_desc (descriptors w2 queue_id + cur_index * sizeof_desc) (tx_desc b)
  on_regs (set_reg32 (tdt queue_id) (tx_index w2 queue_id))
  pure 1

-- The number of packets sent. The loop of step 1 has one round for each entry of the ring.
unfoldable pub tx_packet : ℕ → ℕ → Cmd Machine ℕ
tx_packet queue_id buf = do
  w ← gets (λ m. m.dev.tx_queues)
  let cur_index = tx_index w queue_id
  index ← clean (suc (num_entries w queue_id)) queue_id (clean_index w queue_id) cur_index
  set_tx_queues (set_clean_index w queue_id index)
  if index == inc_and_wrap_ring cur_index (num_entries w queue_id)
      then pure 0
      else enqueue queue_id buf cur_index
