-- ===== src/Cpp/Registers.antt =====
-- src/driver/device.hpp: the registers, as the base class of the C++ drivers reads and writes them.
use ixy.Base.{ℕ, ◌+◌, ltb, zero, suc, ◌∷◌, bit_and, bit_or, u32, not32, ◌==◌, if◌then◌else◌, not}
use ixy.Base.Outcome.{Cmd, ok, hung, ◌>>=◌, ◌>>◌, pure, undefined}
use ixy.Device.{Trace, Nic, read, write, usleep}

-- `set_reg32` for an offset in the mapped resource, as those of all register macros are.
unfoldable pub set_reg32 : ℕ → ℕ → Cmd Trace (Unit {0})
set_reg32 reg value t = ok (tt, write reg (u32 value) ∷ t)

-- `set_reg32` for any offset, where `mapped` bytes are mapped: a write beyond them is undefined. An
-- offset that is negative as an `int` is far beyond them.
unfoldable pub set_any_reg32 : ℕ → ℕ → ℕ → Cmd Trace (Unit {0})
unfolding set_reg32
set_any_reg32 mapped reg value = if ltb mapped (reg + 4) then undefined else set_reg32 reg value

module _ (nic : Nic) where
  unfoldable pub get_reg32 : ℕ → Cmd Trace ℕ
  get_reg32 reg t = ok (u32 (nic t reg), read reg (u32 (nic t reg)) ∷ t)

  unfoldable pub set_flags32 : ℕ → ℕ → Cmd Trace (Unit {0})
  unfolding get_reg32 set_reg32
  set_flags32 reg flags = get_reg32 reg >>= (λ v. set_reg32 reg (bit_or v flags))

  unfoldable pub clear_flags32 : ℕ → ℕ → Cmd Trace (Unit {0})
  unfolding get_reg32 set_reg32
  clear_flags32 reg flags = get_reg32 reg >>= (λ v. set_reg32 reg (bit_and v (not32 flags)))

  -- The condition of the loop reads the register.
  unfoldable pub wait_clear_reg32 : ℕ → ℕ → ℕ → Cmd Trace (Unit {0})
  unfolding get_reg32 usleep
  wait_clear_reg32 zero reg mask = λ _. hung
  wait_clear_reg32 (suc fuel) reg mask = do
    cur ← get_reg32 reg
    let again = usleep 10000 >> wait_clear_reg32 fuel reg mask
    if not (bit_and cur mask == 0) then again else pure tt

  unfoldable pub wait_set_reg32 : ℕ → ℕ → ℕ → Cmd Trace (Unit {0})
  unfolding get_reg32 usleep
  wait_set_reg32 zero reg mask = λ _. hung
  wait_set_reg32 (suc fuel) reg mask = do
    cur ← get_reg32 reg
    let again = usleep 10000 >> wait_set_reg32 fuel reg mask
    if not (bit_and cur mask == mask) then again else pure tt
