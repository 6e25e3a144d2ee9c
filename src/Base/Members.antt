-- ===== src/Base/Members.antt =====
-- Membership of numbers in a list as a test, and the removal of one.
use Prim.Native.Nat.{ℕ}
use mathlib.Core.Path.{◌≡◌, refl, sym, subst}
use mathlib.Core.Logic.{◌≢◌}
use mathlib.Core.Bool.{Bool, true, false}
use mathlib.Core.List.{List, [], ◌∷◌}
use native.Mathlib.Decide.{ℕ_discrete}
use ixy.Base.Tests.{◌==◌, if◌then◌else◌, ==_self, ==_ne}
use ixy.Base.Lists.{All, Distinct}

abbrev pub member : ℕ → List ℕ → Bool
member p [] = false
member p (q ∷ qs) = if p == q then true else member p qs

-- The list without the first `p`.
abbrev pub remove : ℕ → List ℕ → List ℕ
remove p [] = []
remove p (q ∷ qs) = if p == q then qs else q ∷ remove p qs

pub member_self : (p : ℕ) (ps : List ℕ) → member p (p ∷ ps) ≡ true
member_self p ps = rw (==_self p) refl

pub remove_self : (p : ℕ) (ps : List ℕ) → remove p (p ∷ ps) ≡ ps
remove_self p ps = rw (==_self p) refl

pub All-member {ℓ} : (P : ℕ → Type ℓ) (p : ℕ) (xs : List ℕ) → All P xs → member p xs ≡ true → P p
All-member P p [] all m = absurd (cc)
All-member P p (x ∷ xs) all m = elim (ℕ_discrete p x) [
  | yes e ↦ subst P (sym e) all.0
  | no ne ↦ All-member P p xs all.1 (rw (==_ne p x ne) at m)
]

pub All-remove {ℓ} : (P : ℕ → Type ℓ) (p : ℕ) (xs : List ℕ) → All P xs → All P (remove p xs)
All-remove P p [] all = tt
All-remove P p (x ∷ xs) all = elim (ℕ_discrete p x) [
  | yes e ↦ rw (e, ==_self x) all.1
  | no ne ↦ rw (==_ne p x ne) (all.0, All-remove P p xs all.1)
]

pub Distinct-remove : (p : ℕ) (xs : List ℕ) → Distinct xs → Distinct (remove p xs)
Distinct-remove p [] d = tt
Distinct-remove p (x ∷ xs) d = elim (ℕ_discrete p x) [
  | yes e ↦ rw (e, ==_self x) d.1
  | no ne ↦ rw (==_ne p x ne) (All-remove _ p xs d.0, Distinct-remove p xs d.1)
]

-- What was removed is not there again.
pub removed : (p : ℕ) (xs : List ℕ) → Distinct xs → All (λ y. p ≢ y) (remove p xs)
removed p [] d = tt
removed p (x ∷ xs) d = elim (ℕ_discrete p x) [
  | yes e ↦ rw (e, ==_self x) d.0
  | no ne ↦ rw (==_ne p x ne) (ne, removed p xs d.1)
]
