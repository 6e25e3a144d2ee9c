-- ===== src/Ixgbe/Mmio/Start.antt =====
-- The accesses of `start_rx_queue`, `start_tx_queue` and `reset_and_init` of src/driver/ixgbe.c.
use ixy.Base.{ℕ, zero, suc, update, ◌*◌, ◌+◌, ◌≤◌, ◌<◌, refl, arith, true, none, not, ◌==◌}
use ixy.Base.Outcome.{◌>>◌}
use ixy.Os.{Os}
use ixy.Memory.{pkt_buf_alloc, load_buf, memory_allocate_mempool}
use ixy.Device.{Nic}
use ixy.Regs.{eimc, ctrl, eec, rdrxctl}
use ixy.Regs.Range.{rdh-IsReg, rdt-IsReg, rxdctl-IsReg, tdh-IsReg, tdt-IsReg, txdctl-IsReg}
use ixy.Ixgbe.{Machine, with_trace, sizeof_desc, put_rx_desc, set_rx_queues}
use ixy.Ixgbe.Rx.{descriptors, virtual_address_at}
use ixy.Ixgbe.Tx.{num_entries as tx_num_entries}
use ixy.Ixgbe.Start.{size_guard, fill_entry, fill_entries, start_rx_queue, start_tx_queue}
use ixy.Ixgbe.Init.{start_rx_queues, start_tx_queues, reset_and_init}
use ixy.Ixgbe.Mmio.{
  IsSafe, set_reg32-Keeps, set_flags32-Keeps, usleep-Keeps, wait_set_reg32-Keeps,
  wait_clear_reg32-Keeps, init_link-Keeps, Leaves, Leaves-ok, Leaves-abort, Leaves-then, Leaves-if,
  regs_step, regs_end, heap_step, set_promisc-Keeps, wait_for_link-Keeps, read_stats-Keeps,
}
use ixy.Ixgbe.Mmio.Init.{fixed, init_rx-Leaves, init_tx-Leaves}

fill_entry-Leaves : (q i : ℕ) (m : Machine) → IsSafe m → Leaves (fill_entry q i m)
unfolding fill_entry
fill_entry-Leaves q i m s =
    let w = m.dev.rx_queues in
    heap_step (pkt_buf_alloc _) _ _ λ buf h. Leaves-if (buf == 0) _ _ _ Leaves-abort (
      heap_step (load_buf buf)
        (λ b.
          put_rx_desc (descriptors w q + i * sizeof_desc)
            (record { pkt_addr = b.buf_addr_phy; hdr_addr = 0 })
          >> set_rx_queues (update w (virtual_address_at w q i) buf))
        (record m { heap = h })
        λ _ _. Leaves-ok _ _ (record { rx = s.rx; tx = s.tx; regs = s.regs }))

fill_entries-Leaves : (q left i : ℕ) (m : Machine) → IsSafe m → Leaves (fill_entries q left i m)
unfolding fill_entries
fill_entries-Leaves q zero i m s = Leaves-ok _ _ s
fill_entries-Leaves q (suc left) i m s =
    Leaves-then _ _ (fill_entry-Leaves q i m s) λ _ m1 s1. fill_entries-Leaves q left (i + 1) m1 s1

module _ (os : Os) (nic : Nic) (fuel : ℕ) where
  start_rx_queue-Leaves :
      (q : ℕ) (m : Machine) → q < 64 → IsSafe m → Leaves (start_rx_queue os nic fuel q m)
  unfolding start_rx_queue
  start_rx_queue-Leaves q m lt s = heap_step (memory_allocate_mempool os 4096 2048) _ _ λ _ _.
      Leaves-if (not (size_guard _ == 0)) _ _ _ Leaves-abort (
        Leaves-then _ _
          (fill_entries-Leaves q _ 0 _ (record { rx = s.rx; tx = s.tx; regs = s.regs }))
          λ _ m1 s1.
            regs_step _ _ _ (set_flags32-Keeps nic _ _ (rxdctl-IsReg q lt)) s1.regs λ _ _ h.
              regs_step _ _ _ (wait_set_reg32-Keeps nic fuel _ _ (rxdctl-IsReg q lt)) h λ _ _ h.
                regs_step _ _ _ (set_reg32-Keeps _ _ (rdh-IsReg q lt)) h λ _ _ h.
                  regs_end _ _ (set_reg32-Keeps _ _ (rdt-IsReg q lt)) h
                    λ _ h. record { rx = s1.rx; tx = s1.tx; regs = h })

  start_tx_queue-Leaves :
      (q : ℕ) (m : Machine) → q < 64 → IsSafe m → Leaves (start_tx_queue nic fuel q m)
  unfolding start_tx_queue
  start_tx_queue-Leaves q m lt s =
      Leaves-if (not (size_guard (tx_num_entries m.dev.tx_queues q) == 0)) _ _ _ Leaves-abort (
        regs_step _ _ _ (set_reg32-Keeps _ _ (tdh-IsReg q lt)) s.regs λ _ _ h.
          regs_step _ _ _ (set_reg32-Keeps _ _ (tdt-IsReg q lt)) h λ _ _ h.
            regs_step _ _ _ (set_flags32-Keeps nic _ _ (txdctl-IsReg q lt)) h λ _ _ h.
              regs_end _ _ (wait_set_reg32-Keeps nic fuel _ _ (txdctl-IsReg q lt)) h
                λ _ h. record { rx = s.rx; tx = s.tx; regs = h })

  start_rx_queues-Leaves :
      (left i : ℕ) (m : Machine)
      → i + left ≤ 64
      → IsSafe m
      → Leaves (start_rx_queues os nic fuel left i m)
  unfolding start_rx_queues
  start_rx_queues-Leaves zero i m h s = Leaves-ok _ _ s
  start_rx_queues-Leaves (suc left) i m h s =
      Leaves-then _ _ (start_rx_queue-Leaves i m (omega arith) s)
        λ _ m1 s1. start_rx_queues-Leaves left (i + 1) m1 (omega arith) s1

  start_tx_queues-Leaves :
      (left i : ℕ) (m : Machine)
      → i + left ≤ 64
      → IsSafe m
      → Leaves (start_tx_queues os nic fuel left i m)
  unfolding start_tx_queues
  start_tx_queues-Leaves zero i m h s = Leaves-ok _ _ s
  start_tx_queues-Leaves (suc left) i m h s =
      Leaves-then _ _ (start_tx_queue-Leaves i m (omega arith) s)
        λ _ m1 s1. start_tx_queues-Leaves left (i + 1) m1 (omega arith) s1

  pub reset_and_init-Leaves : (m : Machine) → IsSafe m → Leaves (reset_and_init os nic fuel m)
  unfolding reset_and_init
  reset_and_init-Leaves m s =
      regs_step _ _ _ (set_reg32-Keeps eimc _ (fixed _ refl (omega arith))) s.regs λ _ _ h.
        regs_step _ _ _ (set_reg32-Keeps ctrl _ (fixed _ refl (omega arith))) h λ _ _ h.
          regs_step _ _ _ (wait_clear_reg32-Keeps nic fuel ctrl _ (fixed _ refl (omega arith))) h
            λ _ _ h. regs_step _ _ _ (usleep-Keeps 10000) h λ _ _ h.
              regs_step _ _ _ (set_reg32-Keeps eimc _ (fixed _ refl (omega arith))) h λ _ _ h.
                regs_step _ _ _ (wait_set_reg32-Keeps nic fuel eec _ (fixed _ refl (omega arith))) h
                  λ _ _ h.
                    regs_step _ _ _
                      (wait_set_reg32-Keeps nic fuel rdrxctl _ (fixed _ refl (omega arith))) h
                      λ _ _ h. regs_step _ _ _ (init_link-Keeps nic) h λ _ _ h.
                        regs_step _ _ _ (read_stats-Keeps nic none) h λ _ t h.
                          Leaves-then _ _
                            (init_rx-Leaves os nic (with_trace m t)
                              (record { rx = s.rx; tx = s.tx; regs = h }))
                            λ _ m1 s1. Leaves-then _ _ (init_tx-Leaves os nic m1 s1) λ _ m2 s2.
                              Leaves-then _ _
                                (start_rx_queues-Leaves m2.dev.num_rx_queues 0 m2
                                  (omega (arith, s2.rx)) s2)
                                λ _ m3 s3.
                                  Leaves-then _ _
                                    (start_tx_queues-Leaves m3.dev.num_tx_queues 0 m3
                                      (omega (arith, s3.tx)) s3)
                                    λ _ m4 s4.
                                      regs_step _ _ _ (set_promisc-Keeps nic true) s4.regs λ _ _ h.
                                        regs_end _ _ (wait_for_link-Keeps nic) h
                                          λ _ h. record { rx = s4.rx; tx = s4.tx; regs = h }
