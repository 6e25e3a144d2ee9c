-- ===== src/Ixgbe/Link/Promisc.antt =====
-- The bits of FCTRL that `ixgbe_set_promisc` writes.
use ixy.Base.{ℕ, ◌≡◌, arith, ◌∷◌, Bool, true, false, if◌then◌else◌, bit_and, bit_or, u32, not32}
use ixy.Base.Outcome.{ok}
use ixy.Device.{Trace, Nic, read, write}
use ixy.Device.Flags.{set_flags32_lem, clear_flags32_lem}
use ixy.Regs.{fctrl}
use ixy.Regs.Bits.{fctrl_mpe, fctrl_upe}
use ixy.Ixgbe.Link.{set_promisc}

abbrev pub promisc_flags : ℕ
promisc_flags = bit_or fctrl_mpe fctrl_upe

-- `ixgbe_set_promisc` reads FCTRL once and writes it once. Of the value written, the bits MPE and
-- UPE are both set or both clear, as asked for, and the other bits are those that were read.
pub set_promisc_lem :
    (nic : Nic) (enabled : Bool) (t : Trace)
    → let old = u32 (nic t fctrl) in
      (new : ℕ) × (set_promisc nic enabled t ≡ ok (tt, write fctrl new ∷ read fctrl old ∷ t))
      × (bit_and new promisc_flags ≡ (if enabled then promisc_flags else 0))
      × (bit_and new (not32 promisc_flags) ≡ bit_and old (not32 promisc_flags))
unfolding set_promisc
set_promisc_lem nic true t = set_flags32_lem nic fctrl promisc_flags t (omega arith)
set_promisc_lem nic false t = clear_flags32_lem nic fctrl promisc_flags t (omega arith)
