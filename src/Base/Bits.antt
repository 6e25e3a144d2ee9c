-- ===== src/Base/Bits.antt =====
-- Laws of `&` and `|` at variables. The native operations are recursions on binary digits with
-- fuel; `bit_and_digit` and `bit_or_digit` are their laws for the lowest digit.
use Prim.Native.Nat.{
  ℕ, zero, suc, ◌+◌, ◌-◌, ◌*◌, ◌/◌, ◌%◌, ◌^◌, ◌≤◌, ◌<◌, min, max, bit_and, bit_or, digits,
  bit_and-bitwise, bit_or-bitwise,
}
use mathlib.Core.Path.{◌≡◌, refl, sym, ap, ◌∙◌}
use mathlib.Core.WellFounded
use native.Mathlib.Nat.{pow-suc, one-le-pow, div-div-eq-div-mul}
use native.Mathlib.Omega.{arith}
use ixy.Base.Order.{lt_wf}

-- Any two amounts of fuel that reach the first argument give the same digits.
digits_enough :
    (z : ℕ → ℕ) (f : ℕ → ℕ → ℕ) (n m a b : ℕ) (p : a ≤ n) (q : a ≤ m)
    → digits z f n a b ≡ digits z f m a b
digits_enough z f n m zero b p q = both n m
  where
    both : (n m : ℕ) → digits z f n 0 b ≡ digits z f m 0 b
    both zero zero = refl
    both zero (suc m) = refl
    both (suc n) zero = refl
    both (suc n) (suc m) = refl
digits_enough z f zero m (suc a) b p q = absurd (omega arith)
digits_enough z f (suc n) zero (suc a) b p q = absurd (omega arith)
digits_enough z f (suc n) (suc m) (suc a) b p q =
    ap (λ t. t * 2 + f (suc a % 2) (b % 2))
      (digits_enough z f n m (suc a / 2) (b / 2) (omega arith) (omega arith))

pub bit_and_digit : (a b : ℕ) → bit_and a b ≡ bit_and (a / 2) (b / 2) * 2 + min (a % 2) (b % 2)
bit_and_digit zero b = simp bit_and-bitwise (omega arith)
bit_and_digit (suc a) b = simp bit_and-bitwise (
    omega (
      arith,
      digits_enough (λ y. 0) min a (suc a / 2) (suc a / 2) (b / 2) (omega arith) (omega arith),
    ))

pub bit_or_digit : (a b : ℕ) → bit_or a b ≡ bit_or (a / 2) (b / 2) * 2 + max (a % 2) (b % 2)
bit_or_digit zero b = simp bit_or-bitwise (omega arith)
bit_or_digit (suc a) b = simp bit_or-bitwise (
    omega (
      arith,
      digits_enough (λ y. y) max a (suc a / 2) (suc a / 2) (b / 2) (omega arith) (omega arith),
    ))

-- Induction on the binary digits of a number.
pub halving : (P : ℕ → Type 0) → P 0 → ((a : ℕ) → P (a / 2) → P a) → (a : ℕ) → P a
halving P base step a = WellFounded.induction lt_wf {C = P} a go
  where
    go : (n : ℕ) → ((m : ℕ) → m < n → P m) → P n
    go zero ih = base
    go (suc n) ih = step (suc n) (ih (suc n / 2) (omega arith))

pub bit_and-zero : (a : ℕ) → bit_and a 0 ≡ 0
bit_and-zero = halving (λ a. bit_and a 0 ≡ 0) refl (λ a ih. omega (arith, bit_and_digit a 0))

pub bit_or-zero : (a : ℕ) → bit_or a 0 ≡ a
bit_or-zero = halving (λ a. bit_or a 0 ≡ a) refl (λ a ih. omega (arith, bit_or_digit a 0))

two_times-pow : (k q : ℕ) → q * 2 ^ suc k ≡ 2 * (q * 2 ^ k)
two_times-pow k q = omega (arith, ap (λ (t : ℕ). q * t) (pow-suc 2 k))

bit_and_low : (k q r : ℕ) → r < 2 ^ k → bit_and (q * 2 ^ k + r) (2 ^ k - 1) ≡ r
bit_and_low zero q r h = rw bit_and-zero (omega arith)
bit_and_low (suc k) q r h = ground (
  arith,
  bit_and_digit (q * 2 ^ suc k + r) (2 ^ suc k - 1),
  two_times-pow k q,
  pow-suc 2 k,
  bit_and_low k q (r / 2),
)

-- `x & (2^k - 1)` is the remainder by `2^k`.
pub bit_and_mask : (k a : ℕ) → bit_and a (2 ^ k - 1) ≡ a % 2 ^ k
bit_and_mask k a = ground (arith, one-le-pow k 2, bit_and_low k (a / 2 ^ k) (a % 2 ^ k))

-- `(q << k) | r` is a sum when `r` fits below the shift.
pub bit_or_fields : (k q r : ℕ) → r < 2 ^ k → bit_or (q * 2 ^ k) r ≡ q * 2 ^ k + r
bit_or_fields zero q r h = ground (arith, bit_or-zero q)
bit_or_fields (suc k) q r h =
    ground (arith, bit_or_digit (q * 2 ^ suc k) r, two_times-pow k q, bit_or_fields k q (r / 2))

-- Setting flags sets them: `(x | f) & f` is `f`.
abbrev Sets : ℕ → Type 0
Sets f = (x : ℕ) → bit_and (bit_or x f) f ≡ f

pub bit_and-bit_or_self : (f x : ℕ) → bit_and (bit_or x f) f ≡ f
bit_and-bit_or_self =
    halving Sets (λ x. bit_and-zero _)
      λ f ih x. ground (arith, bit_and_digit (bit_or x f) f, bit_or_digit x f, ih (x / 2))

pub bit_or-lt : (k a b : ℕ) → a < 2 ^ k → b < 2 ^ k → bit_or a b < 2 ^ k
bit_or-lt zero zero zero p q = omega arith
bit_or-lt zero zero (suc b) p q = absurd (omega arith)
bit_or-lt zero (suc a) b p q = absurd (omega arith)
bit_or-lt (suc k) a b p q =
    ground (arith, bit_or_digit a b, pow-suc 2 k, bit_or-lt k (a / 2) (b / 2))

pub bit_and-le_right : (b a : ℕ) → bit_and a b ≤ b
bit_and-le_right =
    halving (λ b. (a : ℕ) → bit_and a b ≤ b) (λ a. omega (arith, bit_and-zero a))
      λ b ih a. omega (arith, bit_and_digit a b, ih (a / 2))

-- Masking twice is masking once.
pub bit_and_idem : (b a : ℕ) → bit_and (bit_and a b) b ≡ bit_and a b
bit_and_idem =
    halving (λ b. (a : ℕ) → bit_and (bit_and a b) b ≡ bit_and a b)
      (λ a. bit_and-zero (bit_and a 0) ∙ sym (bit_and-zero a))
      λ b ih a. ground (arith, bit_and_digit (bit_and a b) b, bit_and_digit a b, ih (a / 2))

-- Clearing flags clears them: `(x & (m - f)) & f` is 0, where `m` is a word of ones.
pub bit_and-complement : (k f x : ℕ) → f < 2 ^ k → bit_and (bit_and x (2 ^ k - 1 - f)) f ≡ 0
bit_and-complement zero zero x h = bit_and-zero _
bit_and-complement zero (suc f) x h = absurd (omega arith)
bit_and-complement (suc k) f x h = ground (
  arith,
  bit_and_digit (bit_and x (2 ^ suc k - 1 - f)) f,
  bit_and_digit x (2 ^ suc k - 1 - f),
  pow-suc 2 k,
  bit_and-complement k (f / 2) (x / 2),
)

-- Outside of the flags, setting them changes nothing.
pub bit_or-outside :
    (k f x : ℕ) → f < 2 ^ k → bit_and (bit_or x f) (2 ^ k - 1 - f) ≡ bit_and x (2 ^ k - 1 - f)
bit_or-outside zero f x h =
    let e : 2 ^ 0 - 1 - f ≡ 0 = omega arith in rw e (bit_and-zero _ ∙ sym (bit_and-zero x))
bit_or-outside (suc k) f x h = ground (
  arith,
  bit_and_digit (bit_or x f) (2 ^ suc k - 1 - f),
  bit_or_digit x f,
  bit_and_digit x (2 ^ suc k - 1 - f),
  pow-suc 2 k,
  bit_or-outside k (f / 2) (x / 2),
)

-- A mask that begins at bit `k` selects from there on.
pub bit_and_shifted : (k m a : ℕ) → bit_and a (m * 2 ^ k) ≡ bit_and (a / 2 ^ k) m * 2 ^ k
bit_and_shifted zero m a = ground arith
bit_and_shifted (suc k) m a =
    let half : m * 2 ^ suc k / 2 ≡ m * 2 ^ k = omega (arith, two_times-pow k m) in
    let even : m * 2 ^ suc k % 2 ≡ 0 = omega (arith, two_times-pow k m) in
    let inner : bit_and (a / 2) (m * 2 ^ suc k / 2) ≡ bit_and (a / 2 ^ suc k) m * 2 ^ k =
      ap (bit_and (a / 2)) half
      ∙ bit_and_shifted k m (a / 2)
      ∙ ap (λ x. bit_and x m * 2 ^ k)
          (div-div-eq-div-mul a 2 (2 ^ k) ∙ ap (λ x. a / x) (omega (arith, pow-suc 2 k))) in
    omega (
      arith,
      bit_and_digit a (m * 2 ^ suc k),
      inner,
      even,
      two_times-pow k (bit_and (a / 2 ^ suc k) m),
    )

pub bit_and_self : (a : ℕ) → bit_and a a ≡ a
bit_and_self = halving (λ a. bit_and a a ≡ a) refl (λ a ih. omega (arith, bit_and_digit a a, ih))

zero-bit_and : (b : ℕ) → bit_and 0 b ≡ 0
zero-bit_and =
    halving (λ b. bit_and 0 b ≡ 0) (bit_and-zero 0) (λ b ih. ground (arith, bit_and_digit 0 b, ih))

zero-bit_or : (b : ℕ) → bit_or 0 b ≡ b
zero-bit_or =
    halving (λ b. bit_or 0 b ≡ b) (bit_or-zero 0) (λ b ih. ground (arith, bit_or_digit 0 b, ih))

pub bit_and_assoc : (a b c : ℕ) → bit_and (bit_and a b) c ≡ bit_and a (bit_and b c)
bit_and_assoc =
    halving (λ a. (b c : ℕ) → bit_and (bit_and a b) c ≡ bit_and a (bit_and b c))
      (λ b c. rw (zero-bit_and b, zero-bit_and c, zero-bit_and (bit_and b c)) refl)
      λ a ih b c. ground (
        arith,
        bit_and_digit (bit_and a b) c,
        bit_and_digit a b,
        bit_and_digit a (bit_and b c),
        bit_and_digit b c,
        ih (b / 2) (c / 2),
      )

pub bit_and-bit_or : (a b c : ℕ) → bit_and (bit_or a b) c ≡ bit_or (bit_and a c) (bit_and b c)
bit_and-bit_or =
    halving (λ a. (b c : ℕ) → bit_and (bit_or a b) c ≡ bit_or (bit_and a c) (bit_and b c))
      (λ b c. rw (zero-bit_or b, zero-bit_and c) (sym (zero-bit_or (bit_and b c))))
      λ a ih b c. ground (
        arith,
        bit_and_digit (bit_or a b) c,
        bit_or_digit a b,
        bit_or_digit (bit_and a c) (bit_and b c),
        bit_and_digit a c,
        bit_and_digit b c,
        ih (b / 2) (c / 2),
      )
