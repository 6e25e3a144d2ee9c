-- ===== src/Ixgbe/New/Tests.antt =====
-- `ixgbe_init` of one queue of each kind.
use ixy.Base.{ℕ, ◌≡◌, refl, arith, bit_and, ◌==◌, if◌then◌else◌}
use ixy.Base.Outcome.{ok}
use ixy.Memory.Tests.{granting, empty}
use ixy.Device.{Nic, Trace}
use ixy.Device.Wait.{value_at}
use ixy.Regs.{ctrl, eec, rdrxctl, rxdctl, txdctl}
use ixy.Regs.Bits.{ctrl_rst_mask, eec_ard, rdrxctl_dmaidone, rxdctl_enable, txdctl_enable}
use ixy.Ixgbe.{Device}
use ixy.Ixgbe.Init.Grants.{Grants}
use ixy.Ixgbe.Init.Returns.{Polled}
use ixy.Ixgbe.Mmio.{AreRegs}
use ixy.Ixgbe.Init.Ready.{Responds, IsReady}
use ixy.Pci.Tests.{fresh_config, working, working-Succeeds}
use ixy.Ixgbe.New.{Platform, ixgbe_init}
use ixy.Ixgbe.New.Ready.{ixgbe_init-IsReady}

-- A card that answers 0.
abbrev silent : Nic
silent t reg = 0

abbrev pub booted : Platform
booted = record {
  heap = empty;
  config = fresh_config;
  rx_memory = λ _. record { pkt_addr = 0; hdr_addr = 0 };
  tx_memory = λ _. record { buffer_addr = 0; cmd_type_len = 0; olinfo_status = 0 };
}

-- A card for which every register reads all ones, but for CTRL, which reads 0.
abbrev pub answering : Nic
answering t reg = if reg == ctrl then 0 else 0xFFFFFFFF

pub granting-Grants : Grants granting
granting-Grants = record {
  malloc = λ n size e. omega (arith, e);
  open_huge = λ id. (3, refl);
  ftruncate = λ fd size. (0, refl);
  mmap = λ fd size. (0x200000, refl, omega arith);
  mlock = λ virt size. (0, refl);
  pagemap = λ offset. (_, refl, λ e. omega (arith, e));
}

pub answering-Responds : Responds answering 1
answering-Responds = record {
  reset = at_once ctrl ctrl_rst_mask 0 (λ t. refl);
  eeprom = at_once eec eec_ard eec_ard (λ t. refl);
  dma = at_once rdrxctl rdrxctl_dmaidone rdrxctl_dmaidone (λ t. refl);
  rx = at_once (rxdctl 0) rxdctl_enable rxdctl_enable (λ t. refl);
  tx = at_once (txdctl 0) txdctl_enable txdctl_enable (λ t. refl);
}
  where
    at_once :
        (reg mask bits : ℕ)
        → ((t : Trace) → bit_and (value_at answering reg t) mask ≡ bits)
        → Polled answering 1 reg mask bits
    at_once reg mask bits h = record {
      at = λ t. (0, omega arith, λ j lt. absurd (omega arith), h t);
    }

ixgbe_init-IsReady_example :
    (dev : Device) × (p' : Platform) × (ixgbe_init granting answering working 1 1 1 booted
      ≡ ok (dev, p'))
    × IsReady granting (record { heap = p'.heap; dev = dev })
    × AreRegs dev.trace
ixgbe_init-IsReady_example =
    ixgbe_init-IsReady granting answering working 1 0x7f0000000000 booted granting-Grants
      answering-Responds working-Succeeds
