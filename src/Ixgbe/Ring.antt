-- ===== src/Ixgbe/Ring.antt =====
-- The rings' index arithmetic.
use ixy.Base.{
  ℕ, zero, suc, ◌+◌, ◌-◌, ◌%◌, ◌^◌, ◌≤◌, ◌<◌, ◌≡◌, ◌≢◌, refl, arith, bit_and, u16, sub32, List, [],
  ◌∷◌, ◌++◌, ap, sym, ◌∙◌, ◌⊎◌, inl, inr, length,
}
use native.Mathlib.Nat.{mod-eq_of_lt, mod-eq-sub-mod, mod-add-mod}
use native.Mathlib.Decide.{dec_lt}
use ixy.Base.Bits.{bit_and_mask}

-- `inc_and_wrap_ring`. The operands are promoted to `int`, so that `ring_size - 1` is -1, all ones,
-- at 0.
unfoldable pub inc_and_wrap_ring : ℕ → ℕ → ℕ
inc_and_wrap_ring index ring_size = u16 (bit_and (index + 1) (sub32 ring_size 1))

-- A power of two that a `uint16_t` can hold.
pub record IsRingSize (n : ℕ) : Type 0 where
  pub k : ℕ
  pub power : n ≡ 2 ^ k
  pub small : n < 2 ^ 16

-- For a ring size that is a power of two of 16 bits, and an index in the ring, `inc_and_wrap_ring`
-- is the next index modulo the size.
pub inc_and_wrap_ring_lem : (i n : ℕ) → IsRingSize n → i < n → inc_and_wrap_ring i n ≡ (i + 1) % n
unfolding inc_and_wrap_ring
inc_and_wrap_ring_lem i n s lt =
    let mask : sub32 n 1 ≡ 2 ^ s.k - 1 = omega (arith, s.power, s.small) in
    let low : bit_and (i + 1) (sub32 n 1) ≡ (i + 1) % n =
      ap (bit_and (i + 1)) mask ∙ bit_and_mask s.k (i + 1) ∙ ap (λ t. (i + 1) % t) (sym s.power) in
    let below : (i + 1) % n < n = omega arith in omega (arith, low, below, s.small)

-- The `k` indices from `c` on, round a ring of `n`.
abbrev pub indices : ℕ → ℕ → ℕ → List ℕ
indices n c zero = []
indices n c (suc k) = c ∷ indices n ((c + 1) % n) k

-- How many entries lie between two indices.
abbrev pub distance : ℕ → ℕ → ℕ → ℕ
distance n c t = (t + n - c) % n

-- A number below twice the modulus wraps once at most.
pub wrap_once : (n x : ℕ) → x < n + n → ((x < n) × (x % n ≡ x)) ⊎ ((n ≤ x) × (x % n + n ≡ x))
wrap_once n x h = elim (dec_lt x n) [
  | yes p ↦ inl (p, mod-eq_of_lt p)
  | no p ↦ inr (
    omega arith,
    omega (
      arith,
      mod-eq-sub-mod {n = x} {m = n} (omega arith),
      mod-eq_of_lt {n = x - n} {m = n} (omega arith),
    ),
  )
]

module _ (n : ℕ) where
  pub distance-lt : (c t : ℕ) → c < n → distance n c t < n
  distance-lt c t h = omega arith

  pub add-distance : (c t : ℕ) → c < n → t < n → (c + distance n c t) % n ≡ t
  add-distance c t hc ht = omega (arith, wrap_once n (t + n - c), wrap_once n (c + distance n c t))

  pub distance-add : (c k : ℕ) → c < n → k < n → distance n c ((c + k) % n) ≡ k
  distance-add c k hc hk = omega (arith, wrap_once n (c + k), wrap_once n ((c + k) % n + n - c))

  -- Going on by `k` after one step.
  pub step-add : (c k : ℕ) → ((c + 1) % n + k) % n ≡ (c + suc k) % n
  step-add c k = mod-add-mod (c + 1) n k ∙ ap (λ x. x % n) (omega arith)

  -- Fewer than `n` steps do not come back to the start.
  pub add-ne : (c k : ℕ) → c < n → suc k < n → (c + suc k) % n ≢ c
  add-ne c k hc hk = omega (arith, wrap_once n (c + suc k))

  -- One entry more is added at the end.
  pub indices-snoc : (c k : ℕ) → c < n → indices n c (suc k) ≡ indices n c k ++ ((c + k) % n ∷ [])
  indices-snoc c zero h = ap (λ x. x ∷ []) (sym (mod-eq_of_lt h) ∙ ap (λ x. x % n) (omega arith))
  indices-snoc c (suc k) h =
      ap (λ l. c ∷ l)
        (indices-snoc ((c + 1) % n) k (omega arith)
          ∙ ap (λ x. indices n ((c + 1) % n) k ++ (x ∷ [])) (step-add c k))

  -- The indices of two stretches, one after the other.
  pub indices-add :
      (c j r : ℕ) → c < n → indices n c (j + r) ≡ indices n c j ++ indices n ((c + j) % n) r
  indices-add c zero r h =
      let here : c ≡ (c + 0) % n = sym (mod-eq_of_lt h) ∙ ap (λ x. x % n) (omega arith) in
      let none : zero + r ≡ r = omega arith in rw none (ap (λ x. indices n x r) here)
  indices-add c (suc j) r h =
      let more : suc j + r ≡ suc (j + r) = omega arith in
      rw more (
        ap (λ l. c ∷ l)
          (indices-add ((c + 1) % n) j r (omega arith)
            ∙ ap (λ x. indices n ((c + 1) % n) j ++ indices n x r) (step-add c j)))

  pub length-indices : (c k : ℕ) → length (indices n c k) ≡ k
  length-indices c zero = refl
  length-indices c (suc k) = ap suc (length-indices ((c + 1) % n) k)

  -- Two moves round the ring.
  pub add-add : (c j r : ℕ) → ((c + j) % n + r) % n ≡ (c + (j + r)) % n
  add-add c j r = mod-add-mod (c + j) n r ∙ ap (λ x. x % n) (omega arith)

  -- Fewer than `n` steps keep the distance: as many steps apart are different indices.
  pub add-injective : (c i j : ℕ) → c < n → i < j → j < n → (c + i) % n ≢ (c + j) % n
  add-injective c i j hc lt hj = omega (arith, wrap_once n (c + i), wrap_once n (c + j))

  -- A whole round.
  pub add-round : (c : ℕ) → c < n → (c + n) % n ≡ c
  add-round c h = omega (arith, wrap_once n (c + n))

-- No step.
pub add-zero : (n c : ℕ) → c < n → (c + 0) % n ≡ c
add-zero n c hc = ap (λ x. x % n) (omega arith) ∙ mod-eq_of_lt hc
