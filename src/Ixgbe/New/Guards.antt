-- ===== src/Ixgbe/New/Guards.antt =====
-- The guards of `ixgbe_init` of src/driver/ixgbe.c, and what is set up before the card is reset.
use ixy.Base.{ℕ, ◌+◌, ◌*◌, ◌≤◌, ◌<◌, ◌≡◌, ◌≢◌, refl, arith, false, ltb, ==_ne, ◌⊎◌, inl, inr}
use ixy.Base.Outcome.{aborted}
use ixy.Os.{Os}
use ixy.Memory.{malloc}
use ixy.Device.{Nic}
use ixy.Pci.{Sysfs}
use ixy.Pci.Map.{Succeeds, enabled, pci_map_resource-enabled}
use ixy.Ixgbe.New.{
  max_queues, sizeof_device, rx_queue_bytes, tx_queue_bytes, Platform, new_device, reset,
  ixgbe_init,
}

-- The process after its three allocations, with DMA enabled for the card.
abbrev pub prepared : (fs : Sysfs) (addr : ℕ) → Succeeds fs addr → Platform → Platform
prepared fs addr s p = record p {
  heap = record p.heap { mallocs = p.heap.mallocs + 1 + 1 + 1 };
  config = enabled fs addr s p.config;
}

within : (n : ℕ) → n ≤ max_queues → ltb max_queues n ≡ false
within n h = ground arith

module _ (os : Os) (nic : Nic) (fs : Sysfs) (fuel : ℕ) (p : Platform) where
  -- With more than 64 receive or transmit queues, `ixgbe_init` ends the process before any call.
  ixgbe_init-limit :
      (rx tx : ℕ)
      → (max_queues < rx) ⊎ (max_queues < tx)
      → ixgbe_init os nic fs fuel rx tx p ≡ aborted
  unfolding ixgbe_init
  ixgbe_init-limit rx tx (inl h) = ground arith
  ixgbe_init-limit rx tx (inr h) = ground arith

  -- With at most 64 queues of each kind, if there is memory and the calls of
  -- `pci_map_resource` succeed, `ixgbe_init` does what `reset_and_init` does for a device with
  -- these numbers of queues, cleared arrays and no register access yet, after three allocations and
  -- with DMA enabled for the card.
  pub ixgbe_init-reset :
      (rx tx addr : ℕ) (s : Succeeds fs addr)
      → rx ≤ max_queues
      → tx ≤ max_queues
      → ((k size : ℕ) → os.malloc k size ≢ 0)
      → ixgbe_init os nic fs fuel rx tx p
        ≡ reset os nic fs fuel (new_device rx tx p) (prepared fs addr s p)
  unfolding ixgbe_init malloc
  ixgbe_init-reset rx tx addr s hr ht there =
      rw
        (
          within rx hr,
          within tx ht,
          ==_ne (os.malloc p.heap.mallocs sizeof_device) 0 (there _ _),
          pci_map_resource-enabled fs addr s p.config,
          ==_ne (os.malloc (p.heap.mallocs + 1) (rx * rx_queue_bytes)) 0 (there _ _),
          ==_ne (os.malloc (p.heap.mallocs + 1 + 1) (rx * tx_queue_bytes)) 0 (there _ _),
        )
        refl
