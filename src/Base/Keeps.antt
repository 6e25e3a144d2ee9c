-- ===== src/Base/Keeps.antt =====
-- What a command keeps, if it returns.
use mathlib.Core.Path.{◌≡◌, refl, subst}
use mathlib.Core.Bool.{Bool, true, false}
use ixy.Base.Outcome.{
  Outcome, Cmd, ok, aborted, exited, fault, hung, ◌>>=◌, ◌>>◌, pure, and_then, put_back,
}
use ixy.Base.Tests.{if◌then◌else◌}

-- Every state in which the command returns has the property, if the state before it has.
pub record Keeps {S A : Type 0} (P : S → Type 0) (c : Cmd S A) : Type 0 where
  pub on : (s s' : S) (a : A) → P s → c s ≡ ok (a, s') → P s'

pub and_then-cases :
    {S A B : Type 0} {s' : S} {b : B} (o : Outcome (A × S)) (f : A → Cmd S B)
    → and_then o f ≡ ok (b, s')
    → (a : A) × (s : S) × (o ≡ ok (a, s)) × (f a s ≡ ok (b, s'))
and_then-cases (ok (a, s)) f e = (a, s, refl, e)
and_then-cases aborted f e = absurd (cc (e))
and_then-cases exited f e = absurd (cc (e))
and_then-cases fault f e = absurd (cc (e))
and_then-cases hung f e = absurd (cc (e))

pub put_back-cases :
    {S T A : Type 0} {s' : S} {a : A} (whole : T → S) (o : Outcome (A × T))
    → put_back whole o ≡ ok (a, s')
    → (t : T) × (o ≡ ok (a, t)) × (s' ≡ whole t)
put_back-cases whole (ok (a, t)) e = (t, cc (e), cc (e))
put_back-cases whole aborted e = absurd (cc (e))
put_back-cases whole exited e = absurd (cc (e))
put_back-cases whole fault e = absurd (cc (e))
put_back-cases whole hung e = absurd (cc (e))

module _ {S : Type 0} (P : S → Type 0) where
  pub bind-Keeps :
      {A B : Type 0} (c : Cmd S A) (f : A → Cmd S B)
      → Keeps P c
      → ((a : A) → Keeps P (f a))
      → Keeps P (c >>= f)
  bind-Keeps c f k next = record {
    on = λ s s' b p e.
        let (a, s1, first, rest) = and_then-cases (c s) f e in
        (next a).on s1 s' b (k.on s s1 a p first) rest;
  }

  pub then-Keeps :
      {B : Type 0} (c : Cmd S (Unit {0})) (d : Cmd S B) → Keeps P c → Keeps P d → Keeps P (c >> d)
  then-Keeps c d k next = bind-Keeps c (λ _. d) k (λ _. next)

  pub pure-Keeps : {A : Type 0} (a : A) → Keeps P (pure a)
  pure-Keeps a = record { on = λ s s' b p e. let same : s ≡ s' = cc (e) in subst P same p }

  pub if-Keeps :
      {A : Type 0} (b : Bool) (c d : Cmd S A) → Keeps P c → Keeps P d → Keeps P (if b then c else d)
  if-Keeps true c d k l = k
  if-Keeps false c d k l = l
