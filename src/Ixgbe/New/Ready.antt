-- ===== src/Ixgbe/New/Ready.antt =====
-- What `ixgbe_init` of src/driver/ixgbe.c leaves for a device with one queue of each kind.
use ixy.Base.{ℕ, ◌≡◌, ◌∙◌, refl, arith}
use ixy.Base.Outcome.{ok}
use ixy.Os.{Os}
use ixy.Device.{Nic}
use ixy.Pci.{Sysfs}
use ixy.Pci.Map.{Succeeds}
use ixy.Ixgbe.{Device}
use ixy.Ixgbe.Init.Grants.{Grants}
use ixy.Ixgbe.Init.Ready.{Responds, IsReady, reset_and_init-IsReady}
use ixy.Ixgbe.Mmio.{AreRegs}
use ixy.Ixgbe.Mmio.Start.{reset_and_init-Leaves}
use ixy.Ixgbe.New.{Platform, new_device, reset, ixgbe_init}
use ixy.Ixgbe.New.Guards.{prepared, ixgbe_init-reset}

-- If no system call fails and the card does what the driver polls for, `ixgbe_init` with one queue
-- of each kind returns a device that is ready: the receive ring has at position `i` buffer `4095 -
-- i` of a valid pool, by its address in the array of buffers, and in the descriptor by the physical
-- address that the page table has for the first byte of the pool's block plus the buffer's offset
-- in the block, for all 1024 positions, and begins at index 0; the other 3072 buffers are free; the
-- transmit ring of 1024 entries is valid and has no packet in flight. Every register access was at
-- an aligned offset up to EEC, the last register that the driver uses.
pub ixgbe_init-IsReady :
    (os : Os) (nic : Nic) (fs : Sysfs) (fuel addr : ℕ) (p : Platform)
    → Grants os
    → Responds nic fuel
    → Succeeds fs addr
    → (dev : Device) × (p' : Platform) × (ixgbe_init os nic fs fuel 1 1 p ≡ ok (dev, p'))
      × IsReady os (record { heap = p'.heap; dev = dev })
      × AreRegs dev.trace
ixgbe_init-IsReady os nic fs fuel addr p g r s =
    let before = prepared fs addr s p in
    let (m, run, ready) =
      reset_and_init-IsReady os nic fuel g r (record { heap = before.heap; dev = new_device 1 1 p })
        refl refl refl in
    (
      m.dev,
      record before { heap = m.heap },
      ixgbe_init-reset os nic fs fuel p 1 1 addr s (omega arith) (omega arith) g.malloc
          ∙ rw (run, reset) refl,
      ready,
      ((reset_and_init-Leaves os nic fuel _
            (record { rx = omega arith; tx = omega arith; regs = tt })).on
          tt m run).regs,
    )
