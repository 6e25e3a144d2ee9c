-- ===== src/Memory/Stack.antt =====
-- The live part of a free stack as a list, top first, and the lists of entry ids that a pool can
-- hold.
use native.Mathlib.Numerals.{add-one}
use ixy.Base.{
  ℕ, zero, suc, ◌+◌, ◌-◌, ◌≤◌, ◌<◌, ◌≡◌, refl, ap, ap₂, ◌≢◌, List, [], ◌∷◌, arith, length, get_or,
  set, get_or-set_self, get_or-set_ne, All, Distinct, ◌==◌, if◌then◌else◌,
}

-- The entries `stack[top - 1]`, …, `stack[0]`.
abbrev pub stack_view : List ℕ → ℕ → List ℕ
stack_view f zero = []
stack_view f (suc top) = get_or f top 0 ∷ stack_view f top

pub length-stack_view : (f : List ℕ) (top : ℕ) → length (stack_view f top) ≡ top
length-stack_view f zero = refl
length-stack_view f (suc top) = ap suc (length-stack_view f top)

-- A write above the live part does not change it.
pub stack_view-set :
    (f : List ℕ) (top i v : ℕ) → top ≤ i → stack_view (set f i v) top ≡ stack_view f top
stack_view-set f zero i v h = refl
stack_view-set f (suc top) i v h =
    ap₂ ◌∷◌ (get_or-set_ne f i top v 0 (omega arith)) (stack_view-set f top i v (omega arith))

-- A push.
pub stack_view-push :
    (f : List ℕ) (top v : ℕ)
    → top < length f
    → stack_view (set f top v) (top + 1) ≡ v ∷ stack_view f top
stack_view-push f top v h =
    rw add-one (ap₂ ◌∷◌ (get_or-set_self f top v 0 h) (stack_view-set f top top v (omega arith)))

-- A stack that is not empty shows its top first.
pub stack_view-cons :
    (f : List ℕ) (top i : ℕ) (rest : List ℕ)
    → stack_view f top ≡ i ∷ rest
    → (0 < top) × (get_or f (top - 1) 0 ≡ i) × (stack_view f (top - 1) ≡ rest)
stack_view-cons f zero i rest h = cc
stack_view-cons f (suc top) i rest h =
    let e : suc top - 1 ≡ top = omega arith in (omega arith, rw e (cc), rw e (cc))

-- `x` is not in the list.
abbrev pub NotIn : ℕ → List ℕ → Type 0
NotIn x = All (λ y. x ≢ y)

abbrev pub Below : ℕ → List ℕ → Type 0
Below n = All (λ y. y < n)

-- The list without `n`.
without : ℕ → List ℕ → List ℕ
without n [] = []
without n (x ∷ xs) = if x == n then without n xs else x ∷ without n xs

without-All : (P : ℕ → Type 0) (n : ℕ) (xs : List ℕ) → All P xs → All P (without n xs)
unfolding without
without-All P n [] h = tt
without-All P n (x ∷ xs) h = ground (arith, without-All P n xs h.1)

without-Distinct : (n : ℕ) (xs : List ℕ) → Distinct xs → Distinct (without n xs)
unfolding without
without-Distinct n [] h = tt
without-Distinct n (x ∷ xs) h =
    ground (arith, without-Distinct n xs h.1, without-All (λ y. x ≢ y) n xs h.0)

without-Below : (n : ℕ) (xs : List ℕ) → Below (suc n) xs → Below n (without n xs)
unfolding without
without-Below n [] h = tt
without-Below n (x ∷ xs) h = ground (arith, without-Below n xs h.1)

length-without-NotIn : (n : ℕ) (xs : List ℕ) → NotIn n xs → length (without n xs) ≡ length xs
unfolding without
length-without-NotIn n [] h = refl
length-without-NotIn n (x ∷ xs) h = ground (arith, length-without-NotIn n xs h.1)

length-without : (n : ℕ) (xs : List ℕ) → Distinct xs → length xs ≤ suc (length (without n xs))
unfolding without
length-without n [] h = omega arith
length-without n (x ∷ xs) h = ground (arith, length-without n xs h.1, length-without-NotIn x xs h.0)

-- There are at most `n` distinct numbers below `n`.
pub length-Distinct : (n : ℕ) (xs : List ℕ) → Below n xs → Distinct xs → length xs ≤ n
length-Distinct zero [] b d = omega arith
length-Distinct zero (x ∷ xs) b d = absurd (omega arith)
length-Distinct (suc n) xs b d = omega (
  arith,
  length-without n xs d,
  length-Distinct n (without n xs) (without-Below n xs b) (without-Distinct n xs d),
)
