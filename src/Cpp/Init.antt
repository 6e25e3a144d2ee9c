-- ===== src/Cpp/Init.antt =====
-- src/driver/ixgbe.cpp: `init_rx`, `init_tx` and `reset_and_init`.
use ixy.Base.{ℕ, none, zero, suc, ◌+◌, ◌*◌, bit_and, bit_or, not32, u32, true, ◌>>>◌, ◌<<<◌}
use ixy.Base.Outcome.{Cmd, ◌>>=◌, ◌>>◌, pure, gets}
use ixy.Os.{Os}
use ixy.Memory.{memory_allocate_dma}
use ixy.Device.{Nic, usleep}
use ixy.Regs.{
  eimc, ctrl, ctrl_ext, eec, rdrxctl, rxctrl, fctrl, hlreg0, dmatxctl, dtxmxszrq, rttdcs, rdbal,
  rdbah, rdlen, rdh, rdt, srrctl, dca_rxctrl, rxpbsize, tdbal, tdbah, tdlen, txdctl, txpbsize,
}
use ixy.Regs.Bits.{
  dmatxctl_te, rttdcs_arbdis, rdrxctl_crcstrip, rdrxctl_dmaidone, ctrl_rst_mask, ctrl_ext_ns_dis,
  txpbsize_40kb, rxpbsize_128kb, hlreg0_txcrcen, hlreg0_rxcrcstrp, hlreg0_txpaden, eec_ard,
  rxctrl_rxen, fctrl_bam, srrctl_drop_en, srrctl_desctype_adv_onebuf, srrctl_desctype_mask,
}
use ixy.Ixgbe.{sizeof_desc, Machine, on_heap, on_regs, set_rx_queues, set_tx_queues}
use ixy.Ixgbe.Init.{init_rx_struct, init_tx_struct, memset_rx, memset_tx}
use ixy.Cpp.Registers.{
  get_reg32, set_reg32, set_flags32, clear_flags32, wait_set_reg32, wait_clear_reg32,
}
use ixy.Cpp.Link.{init_link, set_promisc, wait_for_link, do_read_stats}
use ixy.Cpp.Start.{start_rx_queue, start_tx_queue}

-- The constants of src/driver/ixgbe.hpp.
abbrev pub num_rx_queue_entries : ℕ
num_rx_queue_entries = 1024

abbrev pub num_tx_queue_entries : ℕ
num_tx_queue_entries = 1024

-- `for (i = ...; left rounds; i++) body(i)`.
unfoldable pub for_each {ℓ} : {S : Type ℓ} → (ℕ → Cmd S (Unit {0})) → ℕ → ℕ → Cmd S (Unit {0})
for_each body zero i = pure tt
for_each body (suc left) i = body i >> for_each body left (i + 1)

module _ (os : Os) (nic : Nic) where
  -- One round of the loop over the receive queues.
  unfoldable pub init_rx_queue : ℕ → Cmd Machine (Unit {0})
  init_rx_queue i = do
    v ← on_regs (get_reg32 nic (srrctl i))
    on_regs (
        set_reg32 (srrctl i)
          (bit_or (bit_and v (not32 srrctl_desctype_mask)) srrctl_desctype_adv_onebuf))
    on_regs (set_flags32 nic (srrctl i) srrctl_drop_en)
    let ring_size_bytes = u32 (num_rx_queue_entries * sizeof_desc)
    mem ← on_heap (memory_allocate_dma os ring_size_bytes)
    memset_rx mem.virt num_rx_queue_entries
    on_regs (set_reg32 (rdbal i) (bit_and mem.phy 0xFFFFFFFF))
    on_regs (set_reg32 (rdbah i) (mem.phy >>> 32))
    on_regs (set_reg32 (rdlen i) ring_size_bytes)
    on_regs (set_reg32 (rdh i) 0)
    on_regs (set_reg32 (rdt i) 0)
    w ← gets (λ m. m.dev.rx_queues)
    set_rx_queues (init_rx_struct w i mem.virt)

  unfoldable pub init_rx : Cmd Machine (Unit {0})
  init_rx = do
    on_regs (clear_flags32 nic rxctrl rxctrl_rxen)
    on_regs (set_reg32 (rxpbsize 0) rxpbsize_128kb)
    on_regs (for_each (λ i. set_reg32 (rxpbsize i) 0) 7 1)
    on_regs (set_flags32 nic hlreg0 hlreg0_rxcrcstrp)
    on_regs (set_flags32 nic rdrxctl rdrxctl_crcstrip)
    on_regs (set_flags32 nic fctrl fctrl_bam)
    n ← gets (λ m. m.dev.num_rx_queues)
    for_each init_rx_queue n 0
    on_regs (set_flags32 nic ctrl_ext ctrl_ext_ns_dis)
    on_regs (for_each (λ i. clear_flags32 nic (dca_rxctrl i) (1 <<< 12)) n 0)
    on_regs (set_flags32 nic rxctrl rxctrl_rxen)

  -- One round of the loop over the transmit queues.
  unfoldable pub init_tx_queue : ℕ → Cmd Machine (Unit {0})
  init_tx_queue i = do
    let ring_size_bytes = u32 (num_tx_queue_entries * sizeof_desc)
    mem ← on_heap (memory_allocate_dma os ring_size_bytes)
    memset_tx mem.virt num_tx_queue_entries
    on_regs (set_reg32 (tdbal i) (bit_and mem.phy 0xFFFFFFFF))
    on_regs (set_reg32 (tdbah i) (mem.phy >>> 32))
    on_regs (set_reg32 (tdlen i) ring_size_bytes)
    v ← on_regs (get_reg32 nic (txdctl i))
    on_regs (set_reg32 (txdctl i) (bit_or (bit_and v (not32 0x3F)) 32))
    w ← gets (λ m. m.dev.tx_queues)
    set_tx_queues (init_tx_struct w i mem.virt)

  -- The loop counts to `num_rx_queues`, as in C.
  unfoldable pub init_tx : Cmd Machine (Unit {0})
  init_tx = do
    on_regs (set_flags32 nic hlreg0 (bit_or hlreg0_txcrcen hlreg0_txpaden))
    on_regs (set_reg32 (txpbsize 0) txpbsize_40kb)
    on_regs (for_each (λ i. set_reg32 (txpbsize i) 0) 7 1)
    on_regs (set_reg32 dtxmxszrq 0xFFFF)
    on_regs (clear_flags32 nic rttdcs rttdcs_arbdis)
    n ← gets (λ m. m.dev.num_rx_queues)
    for_each init_tx_queue n 0
    on_regs (set_reg32 dmatxctl dmatxctl_te)

  -- `mapped` is the size of the mapped resource.
  unfoldable pub reset_and_init : ℕ → ℕ → Cmd Machine (Unit {0})
  reset_and_init fuel mapped = do
    on_regs (set_reg32 eimc 0x7FFFFFFF)
    on_regs (set_reg32 ctrl ctrl_rst_mask)
    on_regs (wait_clear_reg32 nic fuel ctrl ctrl_rst_mask)
    on_regs (usleep 10000)
    on_regs (set_reg32 eimc 0x7FFFFFFF)
    on_regs (wait_set_reg32 nic fuel eec eec_ard)
    on_regs (wait_set_reg32 nic fuel rdrxctl rdrxctl_dmaidone)
    on_regs (init_link nic mapped)
    _ ← on_regs (do_read_stats nic none)
    init_rx
    init_tx
    rx ← gets (λ m. m.dev.num_rx_queues)
    for_each (start_rx_queue os nic fuel) rx 0
    tx ← gets (λ m. m.dev.num_tx_queues)
    for_each (start_tx_queue nic fuel) tx 0
    on_regs (set_promisc nic true)
    on_regs (wait_for_link nic)
