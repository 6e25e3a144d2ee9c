-- ===== src/Ixgbe/Init/Queues.antt =====
-- `init_rx` and `init_tx` for a device with one queue of each kind.
use ixy.Base.{ℕ, sym, ◌≡◌, refl, ap, ◌∙◌, arith, update_self, update_ne}
use mathlib.Core.Path.{subst}
use ixy.Base.Outcome.{ok, and_then}
use ixy.Os.{Os}
use ixy.Device.{Nic}
use ixy.Regs.{
  rdrxctl, rxctrl, fctrl, hlreg0, dmatxctl, dtxmxszrq, rttdcs, rxpbsize, txpbsize, ctrl_ext, tdbal,
  tdbah, tdlen, txdctl,
}
use ixy.Ixgbe.{Machine, with_trace, get16, put16}
use ixy.Ixgbe.Rx.{num_entries, rx_index}
use ixy.Ixgbe.Tx.Queue.{HasFields}
use ixy.Ixgbe.Init.{
  num_tx_queue_entries, init_rx, init_rx_queues, init_tx, init_tx_queue, init_tx_queues,
  init_tx_struct,
}
use ixy.Ixgbe.Init.Rx.{init_rx_queue_lem}
use ixy.Ixgbe.Init.Grants.{Grants, Grants-dma}
use ixy.Ixgbe.Init.Returns.{
  Ends, regs_then, regs_last, ends_then, set_reg32-Returns, get_reg32-Returns, set_flags32-Returns,
  clear_flags32-Returns, clear_sizes-Returns, clear_dca-Returns,
}

-- The struct of the receive queue after `init_rx`, with the transmit queues `w` as they were.
pub record HasRxStruct (w : ℕ → ℕ) (m : Machine) : Type 0 where
  pub one_rx : m.dev.num_rx_queues ≡ 1
  pub one_tx : m.dev.num_tx_queues ≡ 1
  pub entries : num_entries m.dev.rx_queues 0 ≡ 1024
  pub index : rx_index m.dev.rx_queues 0 ≡ 0
  pub tx_queues : m.dev.tx_queues ≡ w

-- The struct of the transmit queue after `init_tx` as well.
pub record HasStructs (m : Machine) : Type 0 where
  pub one_rx : m.dev.num_rx_queues ≡ 1
  pub one_tx : m.dev.num_tx_queues ≡ 1
  pub entries : num_entries m.dev.rx_queues 0 ≡ 1024
  pub index : rx_index m.dev.rx_queues 0 ≡ 0
  pub ring : ℕ
  pub tx : HasFields m.dev.tx_queues 0 ring 1024 0 0

module _ (os : Os) (nic : Nic) (g : Grants os) where
  init_rx_queues-Ends :
      (m : Machine)
      → m.dev.num_rx_queues ≡ 1
      → m.dev.num_tx_queues ≡ 1
      → Ends (HasRxStruct m.dev.tx_queues) (init_rx_queues os nic m.dev.num_rx_queues 0 m)
  unfolding init_rx_queues
  init_rx_queues-Ends m one_rx one_tx =
      let (mem, h, alloc, pos, small, there) = Grants-dma os g 16384 m.heap in
      let (m', low, high, run, ring, entries, index, trace, lt, phy, heap, (tx, rx1, tx1)) =
        init_rx_queue_lem nic 0 m os mem h alloc small in
      record {
        value = tt;
        state = m';
        runs =
            ap (λ n. init_rx_queues os nic n 0 m) one_rx
            ∙ ap (λ o. and_then o (λ _ m1. ok (tt, m1))) run;
        holds = record {
          one_rx = rx1 ∙ one_rx;
          one_tx = tx1 ∙ one_tx;
          entries = entries;
          index = index;
          tx_queues = tx;
        };
      }

  pub init_rx-Ends :
      (m : Machine)
      → m.dev.num_rx_queues ≡ 1
      → m.dev.num_tx_queues ≡ 1
      → Ends (HasRxStruct m.dev.tx_queues) (init_rx os nic m)
  unfolding init_rx
  init_rx-Ends m one_rx one_tx = regs_then _ _ _ (clear_flags32-Returns nic rxctrl _) λ _ _.
      regs_then _ _ _ (set_reg32-Returns (rxpbsize 0) _) λ _ _.
        regs_then _ _ _ (clear_sizes-Returns rxpbsize 7 1) λ _ _.
          regs_then _ _ _ (set_flags32-Returns nic hlreg0 _) λ _ _.
            regs_then _ _ _ (set_flags32-Returns nic rdrxctl _) λ _ _.
              regs_then _ _ _ (set_flags32-Returns nic fctrl _) λ _ t.
                ends_then _ _ (init_rx_queues-Ends (with_trace m t) one_rx one_tx) λ _ m1 h.
                  regs_then _ _ _ (set_flags32-Returns nic ctrl_ext _) λ _ _.
                    regs_then _ _ _ (clear_dca-Returns nic os _ 0) λ _ _.
                      regs_last _ _ (set_flags32-Returns nic rxctrl _) λ _. record {
                        one_rx = h.one_rx;
                        one_tx = h.one_tx;
                        entries = h.entries;
                        index = h.index;
                        tx_queues = h.tx_queues;
                      }

  -- A cleared struct is given its ring and its number of entries.
  init_tx_struct-HasFields :
      (w : ℕ → ℕ) (ring : ℕ) → w 1 ≡ 0 → HasFields (init_tx_struct w 0 ring) 0 ring 1024 0 0
  init_tx_struct-HasFields w ring clear =
      let word : init_tx_struct w 0 ring 1 ≡ put16 0 0 num_tx_queue_entries =
        update_ne _ 0 1 ring (omega arith)
        ∙ update_self w 1 _
        ∙ ap (λ x. put16 0 x num_tx_queue_entries) clear in
      record {
        descs = update_self _ 0 ring;
        num = ap (get16 0) word;
        clean = ap (get16 16) word;
        tail = ap (get16 32) word;
      }

  init_tx_queue-Ends :
      (w : ℕ → ℕ) (m : Machine)
      → w 1 ≡ 0
      → HasRxStruct w m
      → Ends HasStructs (init_tx_queue os nic 0 m)
  unfolding init_tx_queue
  init_tx_queue-Ends w m clear r =
      let (mem, h, alloc, pos, small, there) = Grants-dma os g 16384 m.heap in
      rw alloc (
        regs_then _ _ _ (set_reg32-Returns (tdbal 0) _) λ _ _.
          regs_then _ _ _ (set_reg32-Returns (tdbah 0) _) λ _ _.
            regs_then _ _ _ (set_reg32-Returns (tdlen 0) _) λ _ _.
              regs_then _ _ _ (get_reg32-Returns nic (txdctl 0)) λ _ _.
                regs_then _ _ _ (set_reg32-Returns (txdctl 0) _) λ _ _. record {
                  value = tt;
                  state = _;
                  runs = refl;
                  holds = record {
                    one_rx = r.one_rx;
                    one_tx = r.one_tx;
                    entries = r.entries;
                    index = r.index;
                    ring = mem.virt;
                    tx =
                        init_tx_struct-HasFields m.dev.tx_queues mem.virt
                          (ap (λ (v : ℕ → ℕ). v 1) r.tx_queues ∙ clear);
                  };
                })

  init_tx_queues-Ends :
      (w : ℕ → ℕ) (m : Machine)
      → w 1 ≡ 0
      → HasRxStruct w m
      → Ends HasStructs (init_tx_queues os nic m.dev.num_rx_queues 0 m)
  unfolding init_tx_queues
  init_tx_queues-Ends w m clear r =
      subst (λ n. Ends HasStructs (init_tx_queues os nic n 0 m)) (sym r.one_rx)
        (ends_then _ _ (init_tx_queue-Ends w m clear r)
          λ _ m1 h. record { value = tt; state = m1; runs = refl; holds = h })

  pub init_tx-Ends :
      (w : ℕ → ℕ) (m : Machine) → w 1 ≡ 0 → HasRxStruct w m → Ends HasStructs (init_tx os nic m)
  unfolding init_tx
  init_tx-Ends w m clear r = regs_then _ _ _ (set_flags32-Returns nic hlreg0 _) λ _ _.
      regs_then _ _ _ (set_reg32-Returns (txpbsize 0) _) λ _ _.
        regs_then _ _ _ (clear_sizes-Returns txpbsize 7 1) λ _ _.
          regs_then _ _ _ (set_reg32-Returns dtxmxszrq _) λ _ _.
            regs_then _ _ _ (clear_flags32-Returns nic rttdcs _) λ _ t.
              ends_then _ _
                (init_tx_queues-Ends w (with_trace m t) clear (record {
                  one_rx = r.one_rx;
                  one_tx = r.one_tx;
                  entries = r.entries;
                  index = r.index;
                  tx_queues = r.tx_queues;
                }))
                λ _ _ h. regs_last _ _ (set_reg32-Returns dmatxctl _) λ _. record {
                  one_rx = h.one_rx;
                  one_tx = h.one_tx;
                  entries = h.entries;
                  index = h.index;
                  ring = h.ring;
                  tx = h.tx;
                }
