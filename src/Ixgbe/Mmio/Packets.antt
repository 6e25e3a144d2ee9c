-- ===== src/Ixgbe/Mmio/Packets.antt =====
-- The accesses of `ixgbe_rx_packet` and `ixgbe_tx_packet` of src/driver/ixgbe.c.
use ixy.Base.{ℕ, zero, suc, ◌+◌, ◌*◌, ◌<◌, bit_and, ◌==◌, if◌then◌else◌, u64}
use ixy.Base.Outcome.{◌>>◌, pure, abort}
use ixy.Memory.{pkt_buf_alloc, pkt_buf_free, load_buf}
use ixy.Device.{set_reg32}
use ixy.Regs.{rdt}
use ixy.Regs.Bits.{rxdadv_stat_dd, rxdadv_stat_eop, advtxd_stat_dd}
use ixy.Regs.Range.{rdt-IsReg, tdt-IsReg}
use ixy.Ixgbe.{
  Machine, RxDesc, status_error, wb_length, wb_status, sizeof_desc, put_rx_desc, set_rx_queues,
  on_regs, on_heap,
}
use ixy.Ixgbe.Ring.{inc_and_wrap_ring}
use ixy.Ixgbe.Rx.{
  descriptors as rx_descriptors, rx_index, num_entries, mempool, virtual_address, set_rx_index,
  set_size, pkt_buf_data, take_packet, rx_packet,
}
use ixy.Ixgbe.Tx.{
  clean, enqueue, tx_packet, descriptors, tx_index, num_entries as tx_num_entries,
  virtual_address as tx_virtual_address, clean_index, set_clean_index,
}
use ixy.Ixgbe.Mmio.{
  IsSafe, set_reg32-Keeps, Leaves, Leaves-ok, Leaves-abort, Leaves-hung, Leaves-then, Leaves-if,
  regs_step, heap_step,
}

take_packet-Leaves :
    (q : ℕ) (desc : RxDesc) (desc_ptr index : ℕ) (m : Machine)
    → q < 64
    → IsSafe m
    → Leaves (take_packet q desc desc_ptr index m)
unfolding take_packet
take_packet-Leaves q desc desc_ptr index m lt s =
    let w = m.dev.rx_queues in
    heap_step (set_size (virtual_address w q index) (wb_length desc)) _ m λ _ h1.
      heap_step (pkt_buf_alloc (mempool w q)) _ (record m { heap = h1 })
        λ buf h. Leaves-if (buf == 0) _ _ _ Leaves-abort (
          heap_step (load_buf buf)
            (λ b.
              put_rx_desc desc_ptr
                (record { pkt_addr = u64 (b.buf_addr_phy + pkt_buf_data); hdr_addr = 0 })
              >> (set_rx_queues (set_rx_index w q (inc_and_wrap_ring index (num_entries w q)))
                  >> (on_regs (set_reg32 (rdt q) index) >> pure (virtual_address w q index))))
            (record m { heap = h })
            λ _ _.
              regs_step _ _ _ (set_reg32-Keeps _ _ (rdt-IsReg q lt)) s.regs
                λ _ _ h. Leaves-ok _ _ (record { rx = s.rx; tx = s.tx; regs = h }))

pub rx_packet-Leaves : (q : ℕ) (m : Machine) → q < 64 → IsSafe m → Leaves (rx_packet q m)
unfolding rx_packet
rx_packet-Leaves q m lt s =
    let index = rx_index m.dev.rx_queues q in
    let at = rx_descriptors m.dev.rx_queues q + index * sizeof_desc in
    let desc = m.dev.rx_descs at in
    Leaves-if (bit_and (status_error desc) rxdadv_stat_dd == 0) (pure 0)
      (if bit_and (status_error desc) rxdadv_stat_eop == 0
        then abort
        else take_packet q desc at index)
      m (Leaves-ok 0 m s)
      (Leaves-if (bit_and (status_error desc) rxdadv_stat_eop == 0) abort
        (take_packet q desc at index) m Leaves-abort (take_packet-Leaves q desc at index m lt s))

clean-Leaves : (fuel q index cur : ℕ) (m : Machine) → IsSafe m → Leaves (clean fuel q index cur m)
unfolding clean
clean-Leaves zero q index cur m s = Leaves-hung
clean-Leaves (suc fuel) q index cur m s =
    let w = m.dev.tx_queues in
    let next = inc_and_wrap_ring index (tx_num_entries w q) in
    let free_it = on_heap (pkt_buf_free (tx_virtual_address w q index)) in
    let txd = m.dev.tx_descs (descriptors w q + index * sizeof_desc) in
    let go_on = free_it >> clean fuel q next cur in
    Leaves-if (index == cur) (pure index)
      (if bit_and (wb_status txd) advtxd_stat_dd == 0 then pure index else go_on) m
      (Leaves-ok index m s)
      (Leaves-if (bit_and (wb_status txd) advtxd_stat_dd == 0) (pure index) go_on m
        (Leaves-ok index m s)
        (heap_step (pkt_buf_free (tx_virtual_address w q index)) (λ _. clean fuel q next cur) m
          λ _ h.
            clean-Leaves fuel q next cur (record m { heap = h })
              (record { rx = s.rx; tx = s.tx; regs = s.regs })))

enqueue-Leaves : (q buf cur : ℕ) (m : Machine) → q < 64 → IsSafe m → Leaves (enqueue q buf cur m)
unfolding enqueue
enqueue-Leaves q buf cur m lt s = heap_step (load_buf buf) _ _ λ _ _.
    regs_step _ _ _ (set_reg32-Keeps _ _ (tdt-IsReg q lt)) s.regs
      λ _ _ h. Leaves-ok _ _ (record { rx = s.rx; tx = s.tx; regs = h })

pub tx_packet-Leaves : (q buf : ℕ) (m : Machine) → q < 64 → IsSafe m → Leaves (tx_packet q buf m)
unfolding tx_packet
tx_packet-Leaves q buf m lt s =
    let w = m.dev.tx_queues in
    Leaves-then (clean (suc (tx_num_entries w q)) q (clean_index w q) (tx_index w q) m) _
      (clean-Leaves _ q _ _ m s)
      λ index m1 s1.
        Leaves-if (index == inc_and_wrap_ring (tx_index w q) (tx_num_entries w q)) (pure 0)
          (enqueue q buf (tx_index w q))
          (record m1 { dev = record m1.dev { tx_queues = set_clean_index w q index } })
          (Leaves-ok _ _ (record { rx = s1.rx; tx = s1.tx; regs = s1.regs }))
          (enqueue-Leaves q buf _ _ lt (record { rx = s1.rx; tx = s1.tx; regs = s1.regs }))
