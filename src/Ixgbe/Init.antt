-- ===== src/Ixgbe/Init.antt =====
-- src/driver/ixgbe.c: `init_rx`, `init_tx` and `reset_and_init`.
pub mod Rx
pub mod Returns
pub mod Grants
pub mod Queues
pub mod Ready
use ixy.Base.{
  ℕ, none, zero, suc, ◌+◌, ◌*◌, ◌-◌, ◌^◌, bit_and, bit_or, not32, u32, true, ◌&&◌, if◌then◌else◌,
  leb, ltb, update, ◌>>>◌, ◌<<<◌,
}
use ixy.Base.Outcome.{Cmd, ◌>>=◌, ◌>>◌, pure, gets, modify}
use ixy.Os.{Os}
use ixy.Memory.{memory_allocate_dma}
use ixy.Device.{
  Trace, Nic, get_reg32, set_reg32, set_flags32, clear_flags32, usleep, wait_set_reg32,
  wait_clear_reg32,
}
use ixy.Regs.{
  eimc, ctrl, ctrl_ext, eec, rdrxctl, rxctrl, fctrl, hlreg0, dmatxctl, dtxmxszrq, rttdcs, rdbal,
  rdbah, rdlen, rdh, rdt, srrctl, dca_rxctrl, rxpbsize, tdbal, tdbah, tdlen, txdctl, txpbsize,
}
use ixy.Regs.Bits.{
  dmatxctl_te, rttdcs_arbdis, rdrxctl_crcstrip, rdrxctl_dmaidone, ctrl_rst_mask, ctrl_ext_ns_dis,
  txpbsize_40kb, rxpbsize_128kb, hlreg0_txcrcen, hlreg0_rxcrcstrp, hlreg0_txpaden, eec_ard,
  rxctrl_rxen, fctrl_bam, srrctl_drop_en, srrctl_desctype_adv_onebuf, srrctl_desctype_mask,
}
use ixy.Ixgbe.{
  RxDesc, TxDesc, sizeof_desc, Machine, on_heap, on_regs, set_rx_queues, set_tx_queues, put16,
}
use ixy.Ixgbe.Rx.{rx_queue_at}
use ixy.Ixgbe.Link.{init_link, set_promisc, wait_for_link}
use ixy.Ixgbe.Start.{start_rx_queue, start_tx_queue}
use ixy.Ixgbe.Stats.{read_stats}
use ixy.Ixgbe.Tx.{tx_queue_at}

-- `NUM_RX_QUEUE_ENTRIES` and `NUM_TX_QUEUE_ENTRIES`.
abbrev pub num_rx_queue_entries : ℕ
num_rx_queue_entries = 1024

abbrev pub num_tx_queue_entries : ℕ
num_tx_queue_entries = 1024

-- `memset` of a ring of `n` descriptors to bytes 0xFF.
abbrev pub rx_ones : RxDesc
rx_ones = record { pkt_addr = 2 ^ 64 - 1; hdr_addr = 2 ^ 64 - 1 }

abbrev pub tx_ones : TxDesc
tx_ones = record { buffer_addr = 2 ^ 64 - 1; cmd_type_len = 2 ^ 32 - 1; olinfo_status = 2 ^ 32 - 1 }

unfoldable pub fill_ring {ℓ} : {A : Type ℓ} → (ℕ → A) → ℕ → ℕ → A → ℕ → A
fill_ring descs ring n ones a =
    if leb ring a && ltb a (ring + n * sizeof_desc) then ones else descs a

abbrev pub memset_rx : ℕ → ℕ → Cmd Machine (Unit {0})
memset_rx ring n =
    modify
      (λ m. record m { dev = record m.dev { rx_descs = fill_ring m.dev.rx_descs ring n rx_ones } })

abbrev pub memset_tx : ℕ → ℕ → Cmd Machine (Unit {0})
memset_tx ring n =
    modify
      (λ m. record m { dev = record m.dev { tx_descs = fill_ring m.dev.tx_descs ring n tx_ones } })

-- The private data of a queue.
abbrev pub init_rx_struct : (ℕ → ℕ) → ℕ → ℕ → ℕ → ℕ
init_rx_struct w i ring =
    let w1 = update w (rx_queue_at i + 2) (put16 0 (w (rx_queue_at i + 2)) num_rx_queue_entries) in
    let w2 = update w1 (rx_queue_at i + 2) (put16 16 (w1 (rx_queue_at i + 2)) 0) in
    update w2 (rx_queue_at i) ring

abbrev pub init_tx_struct : (ℕ → ℕ) → ℕ → ℕ → ℕ → ℕ
init_tx_struct w i ring =
    let w1 = update w (tx_queue_at i + 1) (put16 0 (w (tx_queue_at i + 1)) num_tx_queue_entries) in
    update w1 (tx_queue_at i) ring

-- `reg(i) = 0`, …, with `left` to go.
unfoldable pub clear_sizes : (ℕ → ℕ) → ℕ → ℕ → Cmd Trace (Unit {0})
clear_sizes reg zero i = pure tt
clear_sizes reg (suc left) i = set_reg32 (reg i) 0 >> clear_sizes reg left (i + 1)

module _ (os : Os) (nic : Nic) where
  -- One round of the loop over the receive queues.
  unfoldable pub init_rx_queue : ℕ → Cmd Machine (Unit {0})
  init_rx_queue i = do
    v ← on_regs (get_reg32 nic (srrctl i))
    on_regs (
        set_reg32 (srrctl i)
          (bit_or (bit_and v (not32 srrctl_desctype_mask)) srrctl_desctype_adv_onebuf))
    on_regs (set_flags32 nic (srrctl i) srrctl_drop_en)
    let ring_size_bytes = u32 (num_rx_queue_entries * sizeof_desc)
    mem ← on_heap (memory_allocate_dma os ring_size_bytes)
    memset_rx mem.virt num_rx_queue_entries
    on_regs (set_reg32 (rdbal i) (bit_and mem.phy 0xFFFFFFFF))
    on_regs (set_reg32 (rdbah i) (mem.phy >>> 32))
    on_regs (set_reg32 (rdlen i) ring_size_bytes)
    on_regs (set_reg32 (rdh i) 0)
    on_regs (set_reg32 (rdt i) 0)
    w ← gets (λ m. m.dev.rx_queues)
    set_rx_queues (init_rx_struct w i mem.virt)

  unfoldable pub init_rx_queues : ℕ → ℕ → Cmd Machine (Unit {0})
  init_rx_queues zero i = pure tt
  init_rx_queues (suc left) i = init_rx_queue i >> init_rx_queues left (i + 1)

  -- A reserved flag of each queue is cleared.
  unfoldable pub clear_dca : ℕ → ℕ → Cmd Trace (Unit {0})
  clear_dca zero i = pure tt
  clear_dca (suc left) i = clear_flags32 nic (dca_rxctrl i) (1 <<< 12) >> clear_dca left (i + 1)

  unfoldable pub init_rx : Cmd Machine (Unit {0})
  init_rx = do
    on_regs (clear_flags32 nic rxctrl rxctrl_rxen)
    on_regs (set_reg32 (rxpbsize 0) rxpbsize_128kb)
    on_regs (clear_sizes rxpbsize 7 1)
    on_regs (set_flags32 nic hlreg0 hlreg0_rxcrcstrp)
    on_regs (set_flags32 nic rdrxctl rdrxctl_crcstrip)
    on_regs (set_flags32 nic fctrl fctrl_bam)
    n ← gets (λ m. m.dev.num_rx_queues)
    init_rx_queues n 0
    on_regs (set_flags32 nic ctrl_ext ctrl_ext_ns_dis)
    on_regs (clear_dca n 0)
    on_regs (set_flags32 nic rxctrl rxctrl_rxen)

  -- One round of the loop over the transmit queues.
  unfoldable pub init_tx_queue : ℕ → Cmd Machine (Unit {0})
  init_tx_queue i = do
    let ring_size_bytes = u32 (num_tx_queue_entries * sizeof_desc)
    mem ← on_heap (memory_allocate_dma os ring_size_bytes)
    memset_tx mem.virt num_tx_queue_entries
    on_regs (set_reg32 (tdbal i) (bit_and mem.phy 0xFFFFFFFF))
    on_regs (set_reg32 (tdbah i) (mem.phy >>> 32))
    on_regs (set_reg32 (tdlen i) ring_size_bytes)
    v ← on_regs (get_reg32 nic (txdctl i))
    let pthresh = bit_or v (bit_and 36 0x7F)
    let hthresh = bit_or pthresh (bit_and 8 0x7F <<< 8)
    let wthresh = bit_or hthresh (bit_and 4 0x7F <<< 16)
    on_regs (set_reg32 (txdctl i) wthresh)
    w ← gets (λ m. m.dev.tx_queues)
    set_tx_queues (init_tx_struct w i mem.virt)

  unfoldable pub init_tx_queues : ℕ → ℕ → Cmd Machine (Unit {0})
  init_tx_queues zero i = pure tt
  init_tx_queues (suc left) i = init_tx_queue i >> init_tx_queues left (i + 1)

  -- The loop counts to `num_rx_queues`, as in C.
  unfoldable pub init_tx : Cmd Machine (Unit {0})
  init_tx = do
    on_regs (set_flags32 nic hlreg0 (bit_or hlreg0_txcrcen hlreg0_txpaden))
    on_regs (set_reg32 (txpbsize 0) txpbsize_40kb)
    on_regs (clear_sizes txpbsize 7 1)
    on_regs (set_reg32 dtxmxszrq 0xFFFF)
    on_regs (clear_flags32 nic rttdcs rttdcs_arbdis)
    n ← gets (λ m. m.dev.num_rx_queues)
    init_tx_queues n 0
    on_regs (set_reg32 dmatxctl dmatxctl_te)

  module _ (fuel : ℕ) where
    unfoldable pub start_rx_queues : ℕ → ℕ → Cmd Machine (Unit {0})
    start_rx_queues zero i = pure tt
    start_rx_queues (suc left) i = start_rx_queue os nic fuel i >> start_rx_queues left (i + 1)

    unfoldable pub start_tx_queues : ℕ → ℕ → Cmd Machine (Unit {0})
    start_tx_queues zero i = pure tt
    start_tx_queues (suc left) i = start_tx_queue nic fuel i >> start_tx_queues left (i + 1)

    unfoldable pub reset_and_init : Cmd Machine (Unit {0})
    reset_and_init = do
      on_regs (set_reg32 eimc 0x7FFFFFFF)
      on_regs (set_reg32 ctrl ctrl_rst_mask)
      on_regs (wait_clear_reg32 nic fuel ctrl ctrl_rst_mask)
      on_regs (usleep 10000)
      on_regs (set_reg32 eimc 0x7FFFFFFF)
      on_regs (wait_set_reg32 nic fuel eec eec_ard)
      on_regs (wait_set_reg32 nic fuel rdrxctl rdrxctl_dmaidone)
      on_regs (init_link nic)
      _ ← on_regs (read_stats nic none)
      init_rx
      init_tx
      rx ← gets (λ m. m.dev.num_rx_queues)
      start_rx_queues rx 0
      tx ← gets (λ m. m.dev.num_tx_queues)
      start_tx_queues tx 0
      on_regs (set_promisc nic true)
      on_regs (wait_for_link nic)
