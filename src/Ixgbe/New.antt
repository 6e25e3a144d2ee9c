-- ===== src/Ixgbe/New.antt =====
-- src/driver/ixgbe.c: `ixgbe_init`.
--
-- `Platform` is the process before it has the device: its heap, and the card's configuration. The
-- arrays of the queues are cleared by `calloc`.
pub mod Guards
pub mod Ready
pub mod Tests
use ixy.Base.{
  ℕ, zero, ◌+◌, ◌*◌, ◌≤◌, ◌<◌, ◌≡◌, refl, arith, [], ltb, not, ◌&&◌, ◌==◌, if◌then◌else◌, ap, ◌∙◌,
  sym,
}
use ixy.Base.Outcome.{
  Outcome, Cmd, ok, aborted, exited, fault, hung, ◌>>=◌, ◌>>◌, pure, gets, abort, undefined, zoom,
  put_back,
}
use ixy.Os.{Os}
use ixy.Memory.{Heap, malloc}
use ixy.Device.{Nic}
use ixy.Pci.{Sysfs, Config, pci_map_resource}
use ixy.Ixgbe.{RxDesc, TxDesc, Device, Machine}
use ixy.Ixgbe.Init.{reset_and_init}

abbrev pub max_queues : ℕ
max_queues = 64

pub record Platform : Type 0 where
  pub heap : Heap
  pub config : Config
  -- What lies in the memory where a device's rings will be.
  pub rx_memory : ℕ → RxDesc
  pub tx_memory : ℕ → TxDesc

abbrev pub on_memory {ℓ} : {A : Type ℓ} → Cmd Heap A → Cmd Platform A
on_memory = zoom (λ p. p.heap) (λ p h. record p { heap = h })

abbrev pub on_config {ℓ} : {A : Type ℓ} → Cmd Config A → Cmd Platform A
on_config = zoom (λ p. p.config) (λ p c. record p { config = c })

-- The device that `reset_and_init` is called with.
abbrev pub new_device : ℕ → ℕ → Platform → Device
new_device rx_queues tx_queues p = record {
  num_rx_queues = rx_queues;
  num_tx_queues = tx_queues;
  rx_queues = λ _. 0;
  tx_queues = λ _. 0;
  rx_descs = p.rx_memory;
  tx_descs = p.tx_memory;
  trace = [];
}

-- The bytes of `struct ixy_device`, and of the memory for a queue with its 4096 addresses.
abbrev pub sizeof_device : ℕ
sizeof_device = 48

abbrev pub rx_queue_bytes : ℕ
rx_queue_bytes = 24 + 8 * 4096

abbrev pub tx_queue_bytes : ℕ
tx_queue_bytes = 16 + 8 * 4096

-- `calloc` is not tested: if it returned `NULL`, `reset_and_init` accesses queues there. Both arrays
-- are accessed for the receive queues, and the second for the transmit queues.
abbrev pub has_queues : (rx tx rx_queues tx_queues : ℕ) → Cmd Platform (Unit {0})
has_queues rx tx rx_queues tx_queues =
    if (rx == 0) && not (rx_queues == 0)
    then undefined
    else if (tx == 0) && not (rx_queues + tx_queues == 0)
    then undefined
    else pure tt

module _ (os : Os) (nic : Nic) (fs : Sysfs) (fuel : ℕ) where
  abbrev pub reset : Device → Cmd Platform Device
  reset dev p = elim (reset_and_init os nic fuel (record { heap = p.heap; dev = dev })) [
    | ok (_, m) ↦ ok (m.dev, record p { heap = m.heap })
    | aborted ↦ aborted
    | exited ↦ exited
    | fault ↦ fault
    | hung ↦ hung
  ]

  -- Both arrays have room for `rx_queues` queues.
  unfoldable pub ixgbe_init : ℕ → ℕ → Cmd Platform Device
  ixgbe_init rx_queues tx_queues =
      if ltb max_queues rx_queues then abort else if ltb max_queues tx_queues then abort else do
        dev ← on_memory (malloc os sizeof_device)
        if dev == 0 then undefined else pure tt
        addr ← on_config (pci_map_resource fs)
        rx ← on_memory (malloc os (rx_queues * rx_queue_bytes))
        tx ← on_memory (malloc os (rx_queues * tx_queue_bytes))
        has_queues rx tx rx_queues tx_queues
        device ← gets (new_device rx_queues tx_queues)
        reset device
