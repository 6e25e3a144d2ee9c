-- ===== src/Ixgbe/Mmio/Tests.antt =====
-- A card that is initialised, switched to promiscuous mode and asked for its counters.
use ixy.Base.{◌≡◌, refl, arith, true, none}
use ixy.Base.Outcome.{Cmd, ok}
use ixy.Memory.Tests.{granting, empty}
use ixy.Device.{set_flags32}
use ixy.Ixgbe.{Machine, on_regs}
use ixy.Ixgbe.Link.{set_promisc}
use ixy.Ixgbe.Stats.{read_stats}
use ixy.Ixgbe.Init.{reset_and_init}
use ixy.Ixgbe.Init.Ready.{IsReady, reset_and_init-IsReady}
use ixy.Ixgbe.New.{new_device}
use ixy.Ixgbe.New.Tests.{answering, booted, granting-Grants, answering-Responds}
use ixy.Ixgbe.Mmio.{AreRegs}
use ixy.Ixgbe.Mmio.Session.{Session, begins, reads_stats, sets_promisc, Session-AreRegs}

abbrev before : Machine
before = record { heap = empty; dev = new_device 1 1 booted }

abbrev initialised :
    (m' : Machine) × (reset_and_init granting answering 1 before ≡ ok (tt, m'))
    × IsReady granting m'
initialised =
    reset_and_init-IsReady granting answering 1 granting-Grants answering-Responds before refl refl
      refl

-- The state after `c`, if it returns.
abbrev after : {A : Type 0} → Cmd Machine A → Machine → Machine
after c m = elim (c m) [ ok (a, m') ↦ m' | _ ↦ m ]

abbrev promiscuous : Machine
promiscuous = after (on_regs (set_promisc answering true)) initialised.0

abbrev asked : Machine
asked = after (on_regs (read_stats answering none)) promiscuous

session : Session granting answering 1 asked
unfolding set_promisc read_stats set_flags32
session =
    reads_stats promiscuous asked none none
      (sets_promisc initialised.0 promiscuous true
        (begins before initialised.0 refl (omega arith) (omega arith) initialised.1) refl)
      refl

Session-AreRegs_example : AreRegs asked.dev.trace
Session-AreRegs_example = Session-AreRegs granting answering 1 asked session
