-- ===== src/Device/Flags.antt =====
-- What a read-modify-write of a register does to the bits of the register.
use ixy.Base.{ℕ, ◌^◌, ◌<◌, ◌≡◌, arith, ◌∷◌, ap, bit_and, bit_or, u32, not32}
use ixy.Base.Bits.{
  bit_and-bit_or_self, bit_or-lt, bit_and-complement, bit_or-outside, bit_and-le_right,
  bit_and_idem,
}
use ixy.Base.Outcome.{ok}
use ixy.Device.{Trace, Nic, read, write, set_flags32, clear_flags32}

-- `set_flags32` reads the register once and writes it once. Of the value written, the flags are set
-- and the other bits are those that were read.
pub set_flags32_lem :
    (nic : Nic) (reg flags : ℕ) (t : Trace)
    → flags < 2 ^ 32
    → let old = u32 (nic t reg) in
      (new : ℕ) × (set_flags32 nic reg flags t ≡ ok (tt, write reg new ∷ read reg old ∷ t))
      × (bit_and new flags ≡ flags)
      × (bit_and new (not32 flags) ≡ bit_and old (not32 flags))
unfolding set_flags32
set_flags32_lem nic reg flags t small =
    let old = u32 (nic t reg) in
    let fits : u32 (bit_or old flags) ≡ bit_or old flags =
      omega (arith, bit_or-lt 32 old flags (omega arith) small) in
    (
      bit_or old flags,
      ap (λ v. ok (tt, write reg v ∷ read reg old ∷ t)) fits,
      bit_and-bit_or_self flags old,
      bit_or-outside 32 flags old small,
    )

-- `clear_flags32` reads the register once and writes it once. Of the value written, the flags are
-- clear and the other bits are those that were read.
pub clear_flags32_lem :
    (nic : Nic) (reg flags : ℕ) (t : Trace)
    → flags < 2 ^ 32
    → let old = u32 (nic t reg) in
      (new : ℕ) × (clear_flags32 nic reg flags t ≡ ok (tt, write reg new ∷ read reg old ∷ t))
      × (bit_and new flags ≡ 0)
      × (bit_and new (not32 flags) ≡ bit_and old (not32 flags))
unfolding clear_flags32
clear_flags32_lem nic reg flags t small =
    let old = u32 (nic t reg) in
    let new = bit_and old (not32 flags) in
    let fits : u32 new ≡ new = omega (arith, bit_and-le_right (not32 flags) old) in
    (
      new,
      ap (λ v. ok (tt, write reg v ∷ read reg old ∷ t)) fits,
      bit_and-complement 32 flags old small,
      bit_and_idem (not32 flags) old,
    )
