-- ===== src/Cpp/New.antt =====
-- src/driver/ixgbe.cpp: the constructor of `ixgbe`.
use ixy.Base.{ℕ, ◌*◌, ltb, if◌then◌else◌}
use ixy.Base.Outcome.{Cmd, ok, aborted, exited, fault, hung, ◌>>=◌, ◌>>◌, gets, abort}
use ixy.Os.{Os}
use ixy.Memory.{malloc}
use ixy.Device.{Nic}
use ixy.Pci.{Sysfs, pci_map_resource}
use ixy.Ixgbe.{Device}
use ixy.Ixgbe.New.{
  Platform, on_memory, on_config, has_queues, new_device, rx_queue_bytes, tx_queue_bytes,
}
use ixy.Cpp.Init.{reset_and_init}

-- `ixy::MAX_QUEUES` of src/driver/device.hpp.
abbrev pub max_queues : ℕ
max_queues = 64

-- `mapped` is the size of the mapped resource.
module _ (os : Os) (nic : Nic) (fs : Sysfs) (fuel mapped : ℕ) where
  abbrev reset : Device → Cmd Platform Device
  reset dev p = elim (reset_and_init os nic fuel mapped (record { heap = p.heap; dev = dev })) [
    | ok (_, m) ↦ ok (m.dev, record p { heap = m.heap })
    | aborted ↦ aborted
    | exited ↦ exited
    | fault ↦ fault
    | hung ↦ hung
  ]

  -- Both arrays have room for `rx_queues` queues, as in C. `new` has found memory for the object.
  unfoldable pub ixgbe : ℕ → ℕ → Cmd Platform Device
  ixgbe rx_queues tx_queues =
      if ltb max_queues rx_queues then abort else if ltb max_queues tx_queues then abort else do
        addr ← on_config (pci_map_resource fs)
        rx ← on_memory (malloc os (rx_queues * rx_queue_bytes))
        tx ← on_memory (malloc os (rx_queues * tx_queue_bytes))
        has_queues rx tx rx_queues tx_queues
        device ← gets (new_device rx_queues tx_queues)
        reset device
