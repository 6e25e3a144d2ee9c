-- ===== src/Cpp/Link/Mode.antt =====
-- The link mode after `ixgbe::init_link` of src/driver/ixgbe.cpp.
use ixy.Base.{
  ℕ, ◌+◌, ◌≤◌, ltb, false, ◌≡◌, ◌≢◌, refl, ap, sym, ◌∙◌, arith, List, [], ◌++◌, ◌∷◌, bit_and,
  bit_or, u32, not32,
}
use ixy.Base.Outcome.{Cmd, ok, ◌>>=◌, ◌>>◌}
use ixy.Device.{Access, Trace, Nic, read, write}
use ixy.Regs.{autoc}
use ixy.Regs.Bits.{
  autoc_lms_mask, autoc_lms_10g_serial, autoc_10g_pma_pmd_mask, autoc_10g_xaui, autoc_an_restart,
}
use ixy.Ixgbe.Link.Mode.{
  mode_of, autoc_mode, KeepsMode, mode_of-set, mode_of-media, mode_of-restart,
}
use ixy.Cpp.Registers.{get_reg32, set_reg32, set_any_reg32, set_flags32}
use ixy.Cpp.Link.{init_link}

-- A register whose offset has these bits is not AUTOC.
serial-ne_autoc : (reg : ℕ) → mode_of reg ≡ autoc_lms_10g_serial → reg ≢ autoc
serial-ne_autoc reg e here = omega (arith, sym e ∙ ap mode_of here)

module _ (nic : Nic) (keeps : KeepsMode nic) (t : Trace) where
  -- The offset that the first write goes to.
  abbrev pub stray : ℕ
  stray = bit_or (bit_and (u32 (nic t 0)) (not32 autoc_lms_mask)) autoc_lms_10g_serial

  -- What `init_link` does if that is in the mapping.
  abbrev inside : Cmd Trace (Unit {0})
  inside = do
    first ← get_reg32 nic 0
    set_reg32 (bit_or (bit_and first (not32 autoc_lms_mask)) autoc_lms_10g_serial) 0
    media ← get_reg32 nic autoc
    set_reg32 autoc (bit_or (bit_and media (not32 autoc_10g_pma_pmd_mask)) autoc_10g_xaui)
    set_flags32 nic autoc autoc_an_restart

  runs_within : (mapped : ℕ) → stray + 4 ≤ mapped → init_link nic mapped t ≡ inside t
  unfolding init_link get_reg32 set_any_reg32
  runs_within mapped le =
      let within : ltb mapped (stray + 4) ≡ false = ground (arith, le) in rw within refl

  -- For a card that keeps the link mode written to AUTOC, if the offset that the C++ `init_link`
  -- computes from register 0 and first writes to is in the mapped resource, it returns, and the
  -- mode is then what it was before. Its first two accesses read register 0 and write 0 at that
  -- offset, whose bits 13 to 15 are 011, so that it is not AUTOC.
  pub init_link-stray :
      (mapped : ℕ)
      → stray + 4 ≤ mapped
      → (t' : Trace) × (after : List Access) × (reg : ℕ) × (init_link nic mapped t ≡ ok (tt, t'))
        × (autoc_mode nic t' ≡ autoc_mode nic t)
        × (t' ≡ after ++ (write reg 0 ∷ read 0 (u32 (nic t 0)) ∷ t))
        × (mode_of reg ≡ autoc_lms_10g_serial)
        × (reg ≢ autoc)
  unfolding init_link get_reg32 set_reg32 set_any_reg32 set_flags32
  init_link-stray mapped le = (
    _,
    write autoc _ ∷ read autoc _ ∷ write autoc _ ∷ read autoc _ ∷ [],
    stray,
    runs_within mapped le ∙ refl,
    keeps.written _ _
        ∙ mode_of-restart _
        ∙ keeps.written _ _
        ∙ mode_of-media _
        ∙ keeps.unwritten stray 0 _ (serial-ne_autoc stray serial)
        ∙ keeps.kept 0 _ t,
    refl,
    serial,
    serial-ne_autoc stray serial,
  )
    where
      serial : mode_of stray ≡ autoc_lms_10g_serial
      serial = mode_of-set (u32 (nic t 0))
