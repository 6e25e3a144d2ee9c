-- ===== src/Ixgbe.antt =====
-- src/driver/ixgbe.c: the state of the driver for one card, and the layout of its queues.
--
-- `Machine` is the process's heap and the card's state. The descriptor rings are DMA memory that
-- the card writes too: what a command finds there is what the card left when it was read.
mod Word
pub mod Fields
pub mod Ring
pub use Word.*
pub mod Rx
pub mod Tx
pub mod Link
pub mod Start
pub mod Init
pub mod Mmio
pub mod New
pub mod Stats
use ixy.Base.{ℕ, update, u16, u32, ◌>>>◌}
use ixy.Base.Outcome.{Cmd, zoom, modify}
use ixy.Memory.{Heap}
use ixy.Device.{Trace}

-- `union ixgbe_adv_rx_desc`, 16 bytes, by the two words of its `read` format. The write-back format
-- lies over them: `wb.upper.status_error` and `wb.upper.length` over `hdr_addr`.
pub record RxDesc : Type 0 where
  pub pkt_addr : ℕ
  pub hdr_addr : ℕ

abbrev pub status_error : RxDesc → ℕ
status_error d = u32 d.hdr_addr

abbrev pub wb_length : RxDesc → ℕ
wb_length d = u16 (d.hdr_addr >>> 32)

-- `union ixgbe_adv_tx_desc`, 16 bytes, by its `read` format; `wb.status` lies over `olinfo_status`.
pub record TxDesc : Type 0 where
  pub buffer_addr : ℕ
  pub cmd_type_len : ℕ
  pub olinfo_status : ℕ

abbrev pub wb_status : TxDesc → ℕ
wb_status d = d.olinfo_status

abbrev pub sizeof_desc : ℕ
sizeof_desc = 16

-- `struct ixy_device`. The two arrays of queues are memory of 64-bit words.
pub record Device : Type 0 where
  pub num_rx_queues : ℕ
  pub num_tx_queues : ℕ
  pub rx_queues : ℕ → ℕ
  pub tx_queues : ℕ → ℕ
  pub rx_descs : ℕ → RxDesc
  pub tx_descs : ℕ → TxDesc
  pub trace : Trace

pub record Machine : Type 0 where
  pub heap : Heap
  pub dev : Device

abbrev pub on_heap {ℓ} : {A : Type ℓ} → Cmd Heap A → Cmd Machine A
on_heap = zoom (λ m. m.heap) (λ m h. record m { heap = h })

abbrev pub with_trace : Machine → Trace → Machine
with_trace m t = record m { dev = record m.dev { trace = t } }

abbrev pub on_regs {ℓ} : {A : Type ℓ} → Cmd Trace A → Cmd Machine A
on_regs = zoom (λ m. m.dev.trace) with_trace

abbrev pub set_rx_queues : (ℕ → ℕ) → Cmd Machine (Unit {0})
set_rx_queues w = modify (λ m. record m { dev = record m.dev { rx_queues = w } })

abbrev pub set_tx_queues : (ℕ → ℕ) → Cmd Machine (Unit {0})
set_tx_queues w = modify (λ m. record m { dev = record m.dev { tx_queues = w } })

-- `*d = v`.
abbrev pub put_rx_desc : ℕ → RxDesc → Cmd Machine (Unit {0})
put_rx_desc d v =
    modify (λ m. record m { dev = record m.dev { rx_descs = update m.dev.rx_descs d v } })

abbrev pub put_tx_desc : ℕ → TxDesc → Cmd Machine (Unit {0})
put_tx_desc d v =
    modify (λ m. record m { dev = record m.dev { tx_descs = update m.dev.tx_descs d v } })
