-- ===== src/Base/Words.antt =====
-- Casts of C to the fixed widths, shifts, complements, and memories as functions from addresses.
use Prim.Native.Nat.{ℕ, ◌+◌, ◌-◌, ◌*◌, ◌/◌, ◌%◌, ◌^◌}
use mathlib.Core.Path.{◌≡◌, sym, ap, ◌∙◌, fun_ext}
use native.Mathlib.Decide.{ℕ_discrete}
use mathlib.Core.Logic.{◌≢◌}
use ixy.Base.Tests.{◌==◌, if◌then◌else◌, ==_self, ==_ne}

abbrev pub u16 : ℕ → ℕ
u16 n = n % 2 ^ 16

abbrev pub u32 : ℕ → ℕ
u32 n = n % 2 ^ 32

abbrev pub u64 : ℕ → ℕ
u64 n = n % 2 ^ 64

-- `a - b` on `uint32_t`, and on an `int` as its bit pattern.
abbrev pub sub32 : ℕ → ℕ → ℕ
sub32 a b = (a + 2 ^ 32 - b) % 2 ^ 32

-- `~a` on `uint32_t`.
abbrev pub not32 : ℕ → ℕ
not32 a = 2 ^ 32 - 1 - a

infixl 75 ◌<<<◌ ◌>>>◌
abbrev pub ◌<<<◌ : ℕ → ℕ → ℕ
x <<< k = x * 2 ^ k

abbrev pub ◌>>>◌ : ℕ → ℕ → ℕ
x >>> k = x / 2 ^ k

-- `*p = v` in a memory of values of one type.
unfoldable pub update {ℓ} : {A : Type ℓ} → (ℕ → A) → ℕ → A → ℕ → A
update f p v a = if a == p then v else f a

module _ {ℓ} {A : Type ℓ} (f : ℕ → A) where
  pub update_self : (p : ℕ) (v : A) → update f p v p ≡ v
  unfolding update
  update_self p v = rw (==_self p)

  pub update_ne : (p a : ℕ) (v : A) → a ≢ p → update f p v a ≡ f a
  unfolding update
  update_ne p a v h = rw (==_ne a p h)

  -- A write of what is there.
  pub update_id : (p : ℕ) (v : A) → v ≡ f p → update f p v ≡ f
  update_id p v e = fun_ext (λ a. elim (ℕ_discrete a p) [
    | yes here ↦ ap (update f p v) here ∙ update_self p v ∙ e ∙ ap f (sym here)
    | no other ↦ update_ne p a v other
  ])
