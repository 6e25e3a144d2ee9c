-- ===== src/Ixgbe/Mmio/Init.antt =====
-- The accesses of `reset_and_init` of src/driver/ixgbe.c.
use ixy.Base.{ℕ, zero, suc, ◌+◌, ◌%◌, ◌≤◌, ◌<◌, ◌≡◌, refl, arith}
use ixy.Base.Keeps.{Keeps, then-Keeps, pure-Keeps}
use ixy.Os.{Os}
use ixy.Memory.{memory_allocate_dma}
use ixy.Device.{Nic}
use ixy.Regs.{
  ctrl_ext, rdrxctl, rxctrl, fctrl, hlreg0, dmatxctl, dtxmxszrq, rttdcs, rxpbsize, txpbsize,
}
use ixy.Regs.Range.{
  IsReg, range_end, rxpbsize-IsReg, txpbsize-IsReg, rdbal-IsReg, rdbah-IsReg, rdlen-IsReg,
  rdh-IsReg, rdt-IsReg, srrctl-IsReg, dca_rxctrl-IsReg, tdbal-IsReg, tdbah-IsReg, tdlen-IsReg,
  txdctl-IsReg,
}
use ixy.Ixgbe.{Machine, with_trace}
use ixy.Ixgbe.Mmio.{
  AreRegs, IsSafe, set_reg32-Keeps, get_reg32-Keeps, set_flags32-Keeps, clear_flags32-Keeps, Leaves,
  Leaves-ok, Leaves-then, regs_step, regs_end, heap_step,
}
use ixy.Ixgbe.Init.{
  clear_sizes, init_rx_queue, init_rx_queues, clear_dca, init_rx, init_tx_queue, init_tx_queues,
  init_tx,
}

-- A register with a fixed offset.
pub fixed : (reg : ℕ) → reg % 4 ≡ 0 → reg + 4 ≤ range_end → IsReg reg
fixed reg a b = record { aligned = a; in_range = b }

clear_sizes-Keeps :
    (reg : ℕ → ℕ)
    → ((i : ℕ) → i < 8 → IsReg (reg i))
    → (left i : ℕ) → i + left ≤ 8
    → Keeps AreRegs (clear_sizes reg left i)
unfolding clear_sizes
clear_sizes-Keeps reg r zero i h = pure-Keeps AreRegs tt
clear_sizes-Keeps reg r (suc left) i h =
    then-Keeps AreRegs _ _ (set_reg32-Keeps (reg i) 0 (r i (omega arith)))
      (clear_sizes-Keeps reg r left (i + 1) (omega arith))

module _ (os : Os) (nic : Nic) where
  clear_dca-Keeps : (left i : ℕ) → i + left ≤ 64 → Keeps AreRegs (clear_dca os nic left i)
  unfolding clear_dca
  clear_dca-Keeps zero i h = pure-Keeps AreRegs tt
  clear_dca-Keeps (suc left) i h =
      then-Keeps AreRegs _ _ (clear_flags32-Keeps nic _ _ (dca_rxctrl-IsReg i (omega arith)))
        (clear_dca-Keeps left (i + 1) (omega arith))

  init_rx_queue-Leaves :
      (i : ℕ) (m : Machine) → i < 64 → IsSafe m → Leaves (init_rx_queue os nic i m)
  unfolding init_rx_queue
  init_rx_queue-Leaves i m lt s =
      regs_step _ _ _ (get_reg32-Keeps nic _ (srrctl-IsReg i lt)) s.regs λ _ _ h.
        regs_step _ _ _ (set_reg32-Keeps _ _ (srrctl-IsReg i lt)) h λ _ _ h.
          regs_step _ _ _ (set_flags32-Keeps nic _ _ (srrctl-IsReg i lt)) h λ _ _ h.
            heap_step (memory_allocate_dma os _) _ _ λ _ _.
              regs_step _ _ _ (set_reg32-Keeps _ _ (rdbal-IsReg i lt)) h λ _ _ h.
                regs_step _ _ _ (set_reg32-Keeps _ _ (rdbah-IsReg i lt)) h λ _ _ h.
                  regs_step _ _ _ (set_reg32-Keeps _ _ (rdlen-IsReg i lt)) h λ _ _ h.
                    regs_step _ _ _ (set_reg32-Keeps _ _ (rdh-IsReg i lt)) h λ _ _ h.
                      regs_step _ _ _ (set_reg32-Keeps _ _ (rdt-IsReg i lt)) h
                        λ _ _ h. Leaves-ok _ _ (record { rx = s.rx; tx = s.tx; regs = h })

  init_rx_queues-Leaves :
      (left i : ℕ) (m : Machine)
      → i + left ≤ 64
      → IsSafe m
      → Leaves (init_rx_queues os nic left i m)
  unfolding init_rx_queues
  init_rx_queues-Leaves zero i m h s = Leaves-ok _ _ s
  init_rx_queues-Leaves (suc left) i m h s =
      Leaves-then _ _ (init_rx_queue-Leaves i m (omega arith) s)
        λ _ m1 s1. init_rx_queues-Leaves left (i + 1) m1 (omega arith) s1

  pub init_rx-Leaves : (m : Machine) → IsSafe m → Leaves (init_rx os nic m)
  unfolding init_rx
  init_rx-Leaves m s =
      regs_step _ _ _ (clear_flags32-Keeps nic rxctrl _ (fixed _ refl (omega arith))) s.regs
        λ _ _ h. regs_step _ _ _ (set_reg32-Keeps _ _ (rxpbsize-IsReg 0 (omega arith))) h λ _ _ h.
          regs_step _ _ _ (clear_sizes-Keeps rxpbsize rxpbsize-IsReg 7 1 (omega arith)) h λ _ _ h.
            regs_step _ _ _ (set_flags32-Keeps nic hlreg0 _ (fixed _ refl (omega arith))) h λ _ _ h.
              regs_step _ _ _ (set_flags32-Keeps nic rdrxctl _ (fixed _ refl (omega arith))) h
                λ _ _ h.
                  regs_step _ _ _ (set_flags32-Keeps nic fctrl _ (fixed _ refl (omega arith))) h
                    λ _ t h.
                      Leaves-then _ _
                        (init_rx_queues-Leaves m.dev.num_rx_queues 0 (with_trace m t)
                          (omega (arith, s.rx)) (record { rx = s.rx; tx = s.tx; regs = h }))
                        λ _ m1 s1.
                          regs_step _ _ _
                            (set_flags32-Keeps nic ctrl_ext _ (fixed _ refl (omega arith))) s1.regs
                            λ _ _ h.
                              regs_step _ _ _
                                (clear_dca-Keeps m.dev.num_rx_queues 0 (omega (arith, s.rx))) h
                                λ _ _ h.
                                  regs_end _ _
                                    (set_flags32-Keeps nic rxctrl _ (fixed _ refl (omega arith))) h
                                    λ _ h. record { rx = s1.rx; tx = s1.tx; regs = h }

  init_tx_queue-Leaves :
      (i : ℕ) (m : Machine) → i < 64 → IsSafe m → Leaves (init_tx_queue os nic i m)
  unfolding init_tx_queue
  init_tx_queue-Leaves i m lt s = heap_step (memory_allocate_dma os _) _ _ λ _ _.
      regs_step _ _ _ (set_reg32-Keeps _ _ (tdbal-IsReg i lt)) s.regs λ _ _ h.
        regs_step _ _ _ (set_reg32-Keeps _ _ (tdbah-IsReg i lt)) h λ _ _ h.
          regs_step _ _ _ (set_reg32-Keeps _ _ (tdlen-IsReg i lt)) h λ _ _ h.
            regs_step _ _ _ (get_reg32-Keeps nic _ (txdctl-IsReg i lt)) h λ _ _ h.
              regs_step _ _ _ (set_reg32-Keeps _ _ (txdctl-IsReg i lt)) h
                λ _ _ h. Leaves-ok _ _ (record { rx = s.rx; tx = s.tx; regs = h })

  init_tx_queues-Leaves :
      (left i : ℕ) (m : Machine)
      → i + left ≤ 64
      → IsSafe m
      → Leaves (init_tx_queues os nic left i m)
  unfolding init_tx_queues
  init_tx_queues-Leaves zero i m h s = Leaves-ok _ _ s
  init_tx_queues-Leaves (suc left) i m h s =
      Leaves-then _ _ (init_tx_queue-Leaves i m (omega arith) s)
        λ _ m1 s1. init_tx_queues-Leaves left (i + 1) m1 (omega arith) s1

  pub init_tx-Leaves : (m : Machine) → IsSafe m → Leaves (init_tx os nic m)
  unfolding init_tx
  init_tx-Leaves m s =
      regs_step _ _ _ (set_flags32-Keeps nic hlreg0 _ (fixed _ refl (omega arith))) s.regs λ _ _ h.
        regs_step _ _ _ (set_reg32-Keeps _ _ (txpbsize-IsReg 0 (omega arith))) h λ _ _ h.
          regs_step _ _ _ (clear_sizes-Keeps txpbsize txpbsize-IsReg 7 1 (omega arith)) h λ _ _ h.
            regs_step _ _ _ (set_reg32-Keeps dtxmxszrq _ (fixed _ refl (omega arith))) h λ _ _ h.
              regs_step _ _ _ (clear_flags32-Keeps nic rttdcs _ (fixed _ refl (omega arith))) h
                λ _ t h.
                  Leaves-then _ _
                    (init_tx_queues-Leaves m.dev.num_rx_queues 0 (with_trace m t)
                      (omega (arith, s.rx)) (record { rx = s.rx; tx = s.tx; regs = h }))
                    λ _ m1 s1.
                      regs_end _ _ (set_reg32-Keeps dmatxctl _ (fixed _ refl (omega arith))) s1.regs
                        λ _ h. record { rx = s1.rx; tx = s1.tx; regs = h }
