-- ===== src/Ixgbe/Start/Size.antt =====
-- The guard on the number of entries of a queue.
use ixy.Base.{ℕ, suc, ◌-◌, ◌/◌, ◌%◌, ◌^◌, ◌<◌, ◌≡◌, ap, sym, ◌∙◌, arith, bit_and, sub32, ◌↔◌}
use native.Mathlib.Nat.{pow-suc, mod_self}
use native.Mathlib.Decide.{ℕ_discrete}
use ixy.Base.Bits.{halving, bit_and_mask, bit_and_digit, bit_and_self}
use ixy.Ixgbe.Ring.{IsRingSize}
use ixy.Ixgbe.Start.{size_guard}

-- A positive number that has no bit in common with the one before it is a power of two.
abbrev OnlyPowers : ℕ → Type 0
OnlyPowers n = 0 < n → bit_and n (n - 1) ≡ 0 → (k : ℕ) × (n ≡ 2 ^ k)

no_common_bit : (n : ℕ) → OnlyPowers n
no_common_bit = halving OnlyPowers (λ pos e. absurd (omega arith)) by_half
  where
    by_half : (a : ℕ) → OnlyPowers (a / 2) → OnlyPowers a
    by_half a ih pos e = elim (ℕ_discrete (a % 2) 1) [
      | yes odd ↦
          let half : (a - 1) / 2 ≡ a / 2 = omega arith in
          let same : bit_and (a / 2) ((a - 1) / 2) ≡ a / 2 =
            ap (bit_and (a / 2)) half ∙ bit_and_self (a / 2) in
          (0, omega (arith, bit_and_digit a (a - 1), same))
      | no even ↦
          let half : (a - 1) / 2 ≡ a / 2 - 1 = omega arith in
          let same : bit_and (a / 2) ((a - 1) / 2) ≡ bit_and (a / 2) (a / 2 - 1) =
            ap (bit_and (a / 2)) half in
          let (k, p) = ih (omega arith) (omega (arith, bit_and_digit a (a - 1), same)) in
          (suc k, omega (arith, pow-suc 2 k, p))
    ]

-- A positive number of entries of 16 bits passes the guard of `start_rx_queue` and `start_tx_queue`
-- exactly if it is a power of two.
pub size_guard_lem : (n : ℕ) → 0 < n → n < 2 ^ 16 → (size_guard n ≡ 0) ↔ ((k : ℕ) × (n ≡ 2 ^ k))
unfolding size_guard
size_guard_lem n pos small =
    let pred : sub32 n 1 ≡ n - 1 = omega arith in
    (
      λ e. no_common_bit n pos (ap (bit_and n) (sym pred) ∙ e),
      λ (k, p).
          ap (bit_and n) (pred ∙ ap (λ x. x - 1) p)
          ∙ bit_and_mask k n
          ∙ ap (λ x. x % 2 ^ k) p
          ∙ mod_self (2 ^ k),
    )

pub size_guard-IsRingSize : (n : ℕ) → 0 < n → n < 2 ^ 16 → size_guard n ≡ 0 → IsRingSize n
size_guard-IsRingSize n pos small e =
    let (k, p) = (size_guard_lem n pos small).0 e in record { k = k; power = p; small = small }
