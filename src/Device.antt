-- ===== src/Device.antt =====
-- src/driver/device.h: the registers of a network card, as the driver reads and writes them.
--
-- Registers are `volatile` and belong to the card, so that a read returns what the card answers:
-- any function of the accesses before it. The state is the list of accesses, the last one first.
pub mod Flags
pub mod Wait
pub mod Tests
use ixy.Base.{
  ℕ, zero, suc, ◌-◌, ◌^◌, List, ◌∷◌, bit_and, bit_or, u32, not32, ◌==◌, if◌then◌else◌, not,
}
use ixy.Base.Outcome.{Cmd, ok, hung, ◌>>=◌, ◌>>◌, pure}

pub data Access : Type 0 where
  read : (reg value : ℕ) → Access
  write : (reg value : ℕ) → Access
  -- `usleep`, in microseconds.
  sleep : (us : ℕ) → Access

abbrev pub Trace : Type 0
Trace = List Access

-- What a read of a register returns after a trace.
abbrev pub Nic : Type 0
Nic = Trace → ℕ → ℕ

unfoldable pub set_reg32 : ℕ → ℕ → Cmd Trace (Unit {0})
set_reg32 reg value t = ok (tt, write reg (u32 value) ∷ t)

unfoldable pub usleep : ℕ → Cmd Trace (Unit {0})
usleep us t = ok (tt, sleep us ∷ t)

module _ (nic : Nic) where
  unfoldable pub get_reg32 : ℕ → Cmd Trace ℕ
  get_reg32 reg t = ok (u32 (nic t reg), read reg (u32 (nic t reg)) ∷ t)

  unfoldable pub set_flags32 : ℕ → ℕ → Cmd Trace (Unit {0})
  unfolding get_reg32 set_reg32
  set_flags32 reg flags = do v ← get_reg32 reg; set_reg32 reg (bit_or v flags)

  unfoldable pub clear_flags32 : ℕ → ℕ → Cmd Trace (Unit {0})
  unfolding get_reg32 set_reg32
  clear_flags32 reg flags = do v ← get_reg32 reg; set_reg32 reg (bit_and v (not32 flags))

  -- The loops poll every 10 ms, without a limit: `hung` is a loop that ran out of fuel.
  unfoldable pub wait_clear_reg32 : ℕ → ℕ → ℕ → Cmd Trace (Unit {0})
  unfolding get_reg32 usleep
  wait_clear_reg32 zero reg mask = λ _. hung
  wait_clear_reg32 (suc fuel) reg mask = do
    cur ← get_reg32 reg
    let again = usleep 10000 >> wait_clear_reg32 fuel reg mask
    if bit_and cur mask == 0 then pure tt else again

  unfoldable pub wait_set_reg32 : ℕ → ℕ → ℕ → Cmd Trace (Unit {0})
  unfolding get_reg32 usleep
  wait_set_reg32 zero reg mask = λ _. hung
  wait_set_reg32 (suc fuel) reg mask = do
    cur ← get_reg32 reg
    let again = usleep 10000 >> wait_set_reg32 fuel reg mask
    if bit_and cur mask == mask then pure tt else again
