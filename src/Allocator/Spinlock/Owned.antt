-- ===== src/Allocator/Spinlock/Owned.antt =====
-- The slots that each thread owns, and who owns a slot.
use ixy.Base.{
  ℕ, ◌<◌, ◌≡◌, ◌≢◌, refl, ap, sym, ◌∙◌, Bool, true, false, Option, List, [], ◌∷◌, get_or, update,
  update_self, update_ne, All, All-mono, Distinct,
}
use ixy.Base.Members.{remove, All-member, All-remove, Distinct-remove, removed, member}
use ixy.Allocator.Spinlock.{
  Pc, outside, wants, tests, pops, granted, returns, pushes, stores, returned,
}

-- A thread has the lock.
abbrev pub inside : Pc → Bool
inside outside = false
inside (wants size) = false
inside (tests size) = true
inside (pops top) = true
inside (granted blk) = true
inside (returns id) = false
inside (pushes id) = true
inside (stores id top) = true
inside returned = true

-- The slots of a thread: the one that is on its way, and those it was given.
abbrev pub owned : List ℕ → Pc → List ℕ → List ℕ
owned f outside held = held
owned f (wants size) held = held
owned f (tests size) held = held
owned f (pops top) held = get_or f top 0 ∷ held
owned f (granted blk) held = held
owned f (returns id) held = id ∷ held
owned f (pushes id) held = id ∷ held
owned f (stores id top) held = id ∷ held
owned f returned held = held

pub owned_outside :
    (f g : List ℕ) (p : Pc) (held : List ℕ) → inside p ≡ false → owned f p held ≡ owned g p held
owned_outside f g outside held e = refl
owned_outside f g (wants size) held e = refl
owned_outside f g (returns id) held e = refl
owned_outside f g (tests size) held e = absurd (cc)
owned_outside f g (pops top) held e = absurd (cc)
owned_outside f g (granted blk) held e = absurd (cc)
owned_outside f g (pushes id) held e = absurd (cc)
owned_outside f g (stores id top) held e = absurd (cc)
owned_outside f g returned held e = absurd (cc)

-- The slots in a list are slots below `n` of one place, and distinct.
pub record Placed (place : ℕ → Option ℕ) (n : ℕ) (at : Option ℕ) (xs : List ℕ) : Type 0 where
  pub there : All (λ x. (x < n) × (place x ≡ at)) xs
  pub distinct : Distinct xs

module _ (place : ℕ → Option ℕ) (n : ℕ) where
  -- One slot moves: lists of other places stay as they are.
  pub Placed-elsewhere :
      (id : ℕ) (to : Option ℕ) (at : Option ℕ) (xs : List ℕ)
      → place id ≢ at
      → Placed place n at xs
      → Placed (update place id to) n at xs
  Placed-elsewhere id to at xs other p = record {
    there =
        All-mono xs
          (λ x h. (h.0, update_ne place id x to (λ e. other (ap place (sym e) ∙ h.1)) ∙ h.1))
          p.there;
    distinct = p.distinct;
  }

  -- A list without the slot that moves.
  pub Placed-tail :
      (id : ℕ) (to : Option ℕ) (at : Option ℕ) (xs : List ℕ)
      → Placed place n at (id ∷ xs)
      → Placed (update place id to) n at xs
  Placed-tail id to at xs p = record {
    there = go xs p.there.1 p.distinct.0;
    distinct = p.distinct.1;
  }
    where
      go :
          (ys : List ℕ)
          → All (λ x. (x < n) × (place x ≡ at)) ys
          → All (λ y. id ≢ y) ys
          → All (λ x. (x < n) × (update place id to x ≡ at)) ys
      go [] h d = tt
      go (y ∷ ys) h d = ((h.0.0, update_ne place id y to (λ e. d.0 (sym e)) ∙ h.0.1), go ys h.1 d.1)

  -- The list of the place that the slot moves to.
  pub Placed-cons :
      (id : ℕ) (to : Option ℕ) (xs : List ℕ)
      → id < n
      → place id ≢ to
      → Placed place n to xs
      → Placed (update place id to) n to (id ∷ xs)
  Placed-cons id to xs lt other p =
      let rest = Placed-elsewhere id to to xs other p in
      record {
        there = ((lt, update_self place id to), rest.there);
        distinct = (All-mono xs (λ x h e. other (ap place e ∙ h.1)) p.there, p.distinct);
      }

  -- A slot of a list comes first.
  pub Placed-front :
      (id : ℕ) (at : Option ℕ) (xs : List ℕ)
      → member id xs ≡ true
      → Placed place n at xs
      → Placed place n at (id ∷ remove id xs)
  Placed-front id at xs m p = record {
    there = (All-member _ id xs p.there m, All-remove _ id xs p.there);
    distinct = (removed id xs p.distinct, Distinct-remove id xs p.distinct);
  }
