-- ===== src/Device/Wait.antt =====
-- When the polling loops return.
use ixy.Base.{ℕ, zero, suc, ◌<◌, ◌≡◌, ◌≢◌, arith, ◌∷◌, bit_and, u32, ==_ne, ==_self}
use ixy.Base.Outcome.{ok}
use ixy.Device.{Trace, Nic, read, sleep, wait_set_reg32, wait_clear_reg32}

module _ (nic : Nic) (reg : ℕ) where
  -- The register's value after a trace.
  abbrev pub value_at : Trace → ℕ
  value_at t = u32 (nic t reg)

  -- The trace after `k` polls that were in vain.
  abbrev pub polls : ℕ → Trace → Trace
  polls zero t = t
  polls (suc k) t = polls k (sleep 10000 ∷ read reg (value_at t) ∷ t)

  -- `wait_set_reg32` returns at the first poll that finds every flag of the mask set, if there is
  -- one, and has read the register once for each poll, with 10 ms in between.
  pub wait_set_reg32_lem :
      (mask k fuel : ℕ) (t : Trace)
      → k < fuel
      → ((j : ℕ) → j < k → bit_and (value_at (polls j t)) mask ≢ mask)
      → bit_and (value_at (polls k t)) mask ≡ mask
      → wait_set_reg32 nic fuel reg mask t ≡ ok (tt, read reg (value_at (polls k t)) ∷ polls k t)
  unfolding wait_set_reg32
  wait_set_reg32_lem mask k zero t lt waits is_set = absurd (omega arith)
  wait_set_reg32_lem mask zero (suc fuel) t lt waits is_set = rw (is_set, ==_self mask)
  wait_set_reg32_lem mask (suc k) (suc fuel) t lt waits is_set =
      rw (==_ne _ _ (waits 0 (omega arith)))
        (wait_set_reg32_lem mask k fuel _ (omega arith) (λ j b. waits (suc j) (omega arith)) is_set)

  -- `wait_clear_reg32` returns at the first poll that finds every flag of the mask clear, if there
  -- is one, and has read the register once for each poll, with 10 ms in between.
  pub wait_clear_reg32_lem :
      (mask k fuel : ℕ) (t : Trace)
      → k < fuel
      → ((j : ℕ) → j < k → bit_and (value_at (polls j t)) mask ≢ 0)
      → bit_and (value_at (polls k t)) mask ≡ 0
      → wait_clear_reg32 nic fuel reg mask t ≡ ok (tt, read reg (value_at (polls k t)) ∷ polls k t)
  unfolding wait_clear_reg32
  wait_clear_reg32_lem mask k zero t lt waits clear = absurd (omega arith)
  wait_clear_reg32_lem mask zero (suc fuel) t lt waits clear = ground (arith, clear)
  wait_clear_reg32_lem mask (suc k) (suc fuel) t lt waits clear =
      rw (==_ne _ _ (waits 0 (omega arith))) (
        wait_clear_reg32_lem mask k fuel _ (omega arith) (λ j b. waits (suc j) (omega arith)) clear)
