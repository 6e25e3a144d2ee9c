-- ===== src/Cpp/Tx.antt =====
-- src/driver/ixgbe.cpp: `ixgbe::tx_packet`.
use ixy.Base.{ℕ, zero, suc, ◌+◌, ◌*◌, bit_and, bit_or, ◌==◌, not, if◌then◌else◌, u32, u64, ◌<<<◌}
use ixy.Base.Outcome.{Cmd, hung, ◌>>=◌, ◌>>◌, pure, gets}
use ixy.Memory.{PktBuf, load_buf, pkt_buf_free}
use ixy.Regs.{tdt}
use ixy.Regs.Bits.{
  advtxd_stat_dd, advtxd_dcmd_eop, advtxd_dcmd_rs, advtxd_dcmd_ifcs, advtxd_dcmd_dext,
  advtxd_dtyp_data, advtxd_paylen_shift,
}
use ixy.Ixgbe.{
  TxDesc, wb_status, sizeof_desc, Machine, on_heap, on_regs, set_tx_queues, put_tx_desc,
}
use ixy.Ixgbe.Rx.{pkt_buf_data}
use ixy.Ixgbe.Tx.{
  descriptors, num_entries, clean_index, tx_index, virtual_address, set_clean_index, set_tx_index,
  set_virtual_address,
}
use ixy.Cpp.Registers.{set_reg32}
use ixy.Cpp.Rx.{inc_and_wrap_ring}

-- The three fields of the descriptor of a packet.
unfoldable pub tx_desc : PktBuf → TxDesc
tx_desc buf = record {
  buffer_addr = u64 (buf.buf_addr_phy + pkt_buf_data);
  cmd_type_len = u32 (
      bit_or
        (bit_or
          (bit_or (bit_or (bit_or advtxd_dcmd_eop advtxd_dcmd_rs) advtxd_dcmd_ifcs)
            advtxd_dcmd_dext)
          advtxd_dtyp_data)
        buf.size);
  olinfo_status = u32 (buf.size <<< advtxd_paylen_shift);
}

-- The loop of step 1 from an index on.
unfoldable pub clean : ℕ → ℕ → ℕ → ℕ → Cmd Machine ℕ
clean zero queue_id index cur_index = λ _. hung
clean (suc fuel) queue_id index cur_index = do
  w ← gets (λ m. m.dev.tx_queues)
  status ← gets (λ m. wb_status (m.dev.tx_descs (descriptors w queue_id + index * sizeof_desc)))
  let free_it = on_heap (pkt_buf_free (virtual_address w queue_id index))
  let rest = clean fuel queue_id (inc_and_wrap_ring index (num_entries w queue_id)) cur_index
  if not (index == cur_index)
      then (if not (bit_and status advtxd_stat_dd == 0) then free_it >> rest else pure index)
      else pure index

-- Step 2 after its check: `virtual_addresses`, `tx_index`, the descriptor and the tail.
unfoldable pub enqueue : ℕ → ℕ → ℕ → Cmd Machine ℕ
enqueue queue_id buf cur_index = do
  w ← gets (λ m. m.dev.tx_queues)
  let w1 = set_virtual_address w queue_id cur_index buf
  let w2 =
      set_tx_index w1 queue_id (inc_and_wrap_ring (tx_index w1 queue_id) (num_entries w1 queue_id))
  set_tx_queues w2
  b ← on_heap (load_buf buf)
  put_tx_desc (descriptors w2 queue_id + cur_index * sizeof_desc) (tx_desc b)
  on_regs (set_reg32 (tdt queue_id) (tx_index w2 queue_id))
  pure 1

-- The loop of step 1 has one round for each entry of the ring.
unfoldable pub tx_packet : ℕ → ℕ → Cmd Machine ℕ
tx_packet queue_id buf = do
  w ← gets (λ m. m.dev.tx_queues)
  let cur_index = tx_index w queue_id
  index ← clean (suc (num_entries w queue_id)) queue_id (clean_index w queue_id) cur_index
  set_tx_queues (set_clean_index w queue_id index)
  if index == inc_and_wrap_ring cur_index (num_entries w queue_id)
      then pure 0
      else enqueue queue_id buf cur_index
