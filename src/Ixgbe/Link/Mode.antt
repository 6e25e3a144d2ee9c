-- ===== src/Ixgbe/Link/Mode.antt =====
-- The link mode of the register AUTOC, and `init_link` of src/driver/ixgbe.c.
use ixy.Base.{ℕ, ◌/◌, ◌^◌, ◌≡◌, ◌≢◌, refl, ap, ◌∙◌, arith, ◌∷◌, bit_and, bit_or, u32, not32}
use ixy.Base.Bits.{
  bit_and_assoc, bit_and-bit_or, bit_and-complement, bit_and_mask, bit_and_shifted, bit_or-zero,
}
use ixy.Base.Outcome.{ok}
use ixy.Device.{Trace, Nic, read, write, get_reg32, set_reg32, set_flags32}
use ixy.Regs.{autoc}
use ixy.Regs.Bits.{
  autoc_lms_mask, autoc_lms_10g_serial, autoc_10g_pma_pmd_mask, autoc_10g_xaui, autoc_an_restart,
}
use ixy.Ixgbe.Link.{init_link}

-- The bits of the link mode.
abbrev pub mode_of : ℕ → ℕ
mode_of v = bit_and v autoc_lms_mask

abbrev pub autoc_mode : Nic → Trace → ℕ
autoc_mode nic t = mode_of (u32 (nic t autoc))

-- The card keeps the link mode that is written to AUTOC until the next write to it.
pub record KeepsMode (nic : Nic) : Type 0 where
  pub written : (v : ℕ) (t : Trace) → autoc_mode nic (write autoc v ∷ t) ≡ mode_of v
  pub unwritten :
      (reg v : ℕ) (t : Trace) → reg ≢ autoc → autoc_mode nic (write reg v ∷ t) ≡ autoc_mode nic t
  pub kept : (reg v : ℕ) (t : Trace) → autoc_mode nic (read reg v ∷ t) ≡ autoc_mode nic t

pub mode_of-u32 : (v : ℕ) → mode_of (u32 v) ≡ mode_of v
mode_of-u32 v = omega (
  arith,
  bit_and_shifted 13 7 (u32 v),
  bit_and_shifted 13 7 v,
  bit_and_mask 3 (u32 v / 2 ^ 13),
  bit_and_mask 3 (v / 2 ^ 13),
)

-- The mode bits of a value in which one field was cleared and another set.
mode_of-masked :
    (v clear flags : ℕ)
    → mode_of (bit_or (bit_and v clear) flags) ≡ bit_or (bit_and v (mode_of clear)) (mode_of flags)
mode_of-masked v clear flags =
    bit_and-bit_or (bit_and v clear) flags autoc_lms_mask
    ∙ ap (λ x. bit_or x (mode_of flags)) (bit_and_assoc v clear autoc_lms_mask)

-- Writes that set the mode, and that leave it as it is.
pub mode_of-set :
    (v : ℕ)
    → mode_of (bit_or (bit_and v (not32 autoc_lms_mask)) autoc_lms_10g_serial)
      ≡ autoc_lms_10g_serial
mode_of-set v =
    bit_and-bit_or (bit_and v (not32 autoc_lms_mask)) autoc_lms_10g_serial autoc_lms_mask
    ∙ ap (λ x. bit_or x autoc_lms_10g_serial) (bit_and-complement 32 autoc_lms_mask v (omega arith))

pub mode_of-media :
    (v : ℕ)
    → mode_of (u32 (bit_or (bit_and v (not32 autoc_10g_pma_pmd_mask)) autoc_10g_xaui)) ≡ mode_of v
mode_of-media v =
    mode_of-u32 (bit_or (bit_and v (not32 autoc_10g_pma_pmd_mask)) autoc_10g_xaui)
    ∙ mode_of-masked v (not32 autoc_10g_pma_pmd_mask) autoc_10g_xaui
    ∙ bit_or-zero (mode_of v)

pub mode_of-restart : (v : ℕ) → mode_of (u32 (bit_or v autoc_an_restart)) ≡ mode_of v
mode_of-restart v =
    mode_of-u32 (bit_or v autoc_an_restart)
    ∙ bit_and-bit_or v autoc_an_restart autoc_lms_mask
    ∙ bit_or-zero (mode_of v)

module _ (nic : Nic) (keeps : KeepsMode nic) (t : Trace) where
  -- For a card that keeps the link mode written to AUTOC, `init_link` returns, and the mode is then
  -- 10 Gbit/s serial.
  pub init_link-mode :
      (t' : Trace) × (init_link nic t ≡ ok (tt, t')) × (autoc_mode nic t' ≡ autoc_lms_10g_serial)
  unfolding init_link get_reg32 set_reg32 set_flags32
  init_link-mode = (
    _,
    refl,
    keeps.written _ _
        ∙ mode_of-restart _
        ∙ keeps.written _ _
        ∙ mode_of-media _
        ∙ keeps.written _ _
        ∙ mode_of-u32 _
        ∙ mode_of-set _,
  )
