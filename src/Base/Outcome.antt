-- ===== src/Base/Outcome.antt =====
-- What a call of the C code ends in, and commands over a state that may end the process.
use mathlib.Core.Path.{◌≡◌, refl}
use mathlib.Core.Option.{Option, none, some}

-- `aborted` is `error(...)`, `exited` a failed `check_err`, `fault` an access that C leaves
-- undefined (a null or dangling pointer, an index outside its array), and `hung` a loop that used
-- up its fuel.
pub data Outcome {ℓ} (A : Type ℓ) : Type ℓ where
  ok : A → Outcome A
  aborted exited fault hung : Outcome A

abbrev pub Cmd {ℓ κ} : Type ℓ → Type κ → Type (ℓ ⊔ κ)
Cmd S A = S → Outcome (A × S)

abbrev pub and_then {ℓ κ ι} :
    {S : Type ℓ} {A : Type κ} {C : Type ι} → Outcome (A × S) → (A → S → Outcome C) → Outcome C
and_then (ok (a, s)) f = f a s
and_then aborted f = aborted
and_then exited f = exited
and_then fault f = fault
and_then hung f = hung

module _ {ℓ κ ι} {S : Type ℓ} {A : Type κ} {B : Type ι} where
  infixl 5 ◌>>=◌
  abbrev pub ◌>>=◌ : Cmd S A → (A → Cmd S B) → Cmd S B
  ◌>>=◌ m f s = and_then (m s) f

infixl 5 ◌>>◌
abbrev pub ◌>>◌ {ℓ κ} : {S : Type ℓ} {B : Type κ} → Cmd S (Unit {0}) → Cmd S B → Cmd S B
◌>>◌ m k s = and_then (m s) (λ _. k)

module _ {ℓ κ} {S : Type ℓ} {A : Type κ} where
  abbrev pub pure : A → Cmd S A
  pure a s = ok (a, s)

  -- Runs `read` on the state.
  abbrev pub gets : (S → A) → Cmd S A
  gets read s = ok (read s, s)

  -- `error(...)`.
  abbrev pub abort : Cmd S A
  abort s = aborted

  -- An access that C leaves undefined.
  abbrev pub undefined : Cmd S A
  undefined s = fault

  -- An access that is undefined when there is no value.
  abbrev pub or_fault : Option A → Cmd S A
  or_fault none s = fault
  or_fault (some a) s = ok (a, s)

  -- A system call that returned -1 ends the process.
  abbrev pub check_err : Option A → Cmd S A
  check_err none s = exited
  check_err (some a) s = ok (a, s)

abbrev pub modify {ℓ} : {S : Type ℓ} → (S → S) → Cmd S (Unit {0})
modify f s = ok (tt, f s)

module _ {ℓ κ ι} {S : Type ℓ} {T : Type κ} {A : Type ι} where
  -- A command on a part of the state.
  abbrev pub put_back : (T → S) → Outcome (A × T) → Outcome (A × S)
  put_back whole (ok (a, t)) = ok (a, whole t)
  put_back whole aborted = aborted
  put_back whole exited = exited
  put_back whole fault = fault
  put_back whole hung = hung

  abbrev pub zoom : (S → T) → (S → T → S) → Cmd T A → Cmd S A
  zoom part replace c s = put_back (replace s) (c (part s))

-- A command on a part, and what follows it.
module _ {ℓ} {S T A B : Type ℓ} (whole : T → S) where
  pub and_then-put_back :
      (o : Outcome (A × T)) (f : A → Cmd S B)
      → and_then (put_back whole o) f ≡ and_then o (λ a t. f a (whole t))
  and_then-put_back (ok (a, t)) f = refl
  and_then-put_back aborted f = refl
  and_then-put_back exited f = refl
  and_then-put_back fault f = refl
  and_then-put_back hung f = refl

module _ {ℓ} {S T A B C : Type ℓ} (whole : T → S) where
  pub and_then-put_back-and_then :
      (o : Outcome (A × T)) (g : A → Cmd T B) (f : B → Cmd S C)
      → and_then (put_back whole (and_then o g)) f
        ≡ and_then o (λ a t. and_then (put_back whole (g a t)) f)
  and_then-put_back-and_then (ok (a, t)) g f = refl
  and_then-put_back-and_then aborted g f = refl
  and_then-put_back-and_then exited g f = refl
  and_then-put_back-and_then fault g f = refl
  and_then-put_back-and_then hung g f = refl
