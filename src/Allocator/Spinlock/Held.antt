-- ===== src/Allocator/Spinlock/Held.antt =====
-- What a thread of a shared stack allocator knows where it is, and the steps that take and give
-- back the lock.
use native.Mathlib.Decide.{ℕ_discrete}
use mathlib.Core.Path.{subst}
use ixy.Base.{
  ℕ, ◌≤◌, All-mono, ◌≡◌, ◌≢◌, refl, ap, sym, ◌∙◌, true, false, Option, none, some, List, length,
  update, update_self, update_ne, ◌==◌, ==_ne, Option-cases, inl, inr,
}
use ixy.Memory.Stack.{length-Distinct}
use ixy.Allocator.Spinlock.{Pc, outside, Spinlock, Shared, goes, take_lock, give_lock}
use ixy.Allocator.Spinlock.Owned.{inside, owned, Placed}
use ixy.Allocator.Spinlock.Valid.{
  IsSpinlock, is_at_who, Shape, Locked, IsShared, position_enter, position_leave,
}

-- A property of the state after a step, if there is one.
abbrev pub OnSome : {S : Type 0} → (S → Type 0) → Option S → Type 0
OnSome P none = Unit
OnSome P (some s) = P s

pub on_some : {S : Type 0} (P : S → Type 0) {o : Option S} {s : S} → o ≡ some s → P s → OnSome P o
on_some P e h = subst (OnSome P) (sym e) h

on_none : {S : Type 0} (P : S → Type 0) {o : Option S} → o ≡ none → OnSome P o
on_none P e = subst (OnSome P) (sym e) tt

unlocked :
    {L : Type 0} (spin : Spinlock L) (l l' : L) (who : Option ℕ)
    → Locked spin l who
    → spin.acquire l ≡ some l'
    → who ≡ none
unlocked spin l l' none h e = refl
unlocked spin l l' (some t) h e = absurd (cc)

module _ {L : Type 0} (spin : Spinlock L) (law : IsSpinlock spin) (n : ℕ) (s : Shared L)
    (v : IsShared spin n s) (t : ℕ) where
  abbrev f : List ℕ
  f = s.alloc.free_stack

  pub mine : (p : Pc) → s.pc t ≡ p → Placed v.place n (some t) (owned f p (s.held t))
  mine p e = rw e at (v.owned_placed t)

  -- For every thread, if it is so for this one and the others.
  pub each :
      (P : ℕ → Pc → Type 0) (p : Pc)
      → P t p
      → ((u : ℕ) → u ≢ t → P u (s.pc u))
      → (u : ℕ) → P u (update s.pc t p u)
  each P p here others u = elim (ℕ_discrete u t) [
    | yes same ↦ rw (same, update_self s.pc t p) here
    | no other ↦ rw (update_ne s.pc t u p other) (others u other)
  ]

  -- The lock is taken.
  pub kept_take :
      (p q : Pc)
      → s.pc t ≡ p
      → inside q ≡ true
      → owned f q (s.held t) ≡ owned f p (s.held t)
      → Shape s.alloc v.free q ≡ Shape s.alloc v.free outside
      → OnSome (IsShared spin n) (take_lock spin t q s)
  unfolding take_lock
  kept_take p q e enters same shape = elim (Option-cases (spin.acquire s.lock)) [
    | inl waits ↦ on_none (IsShared spin n) {o = take_lock spin t q s} (rw (waits, take_lock) refl)
    | inr (l, taken) ↦
        let nobody : v.who ≡ none = unlocked spin s.lock l v.who v.locked taken in
        on_some (IsShared spin n) {o = take_lock spin t q s} {s = goes t q (record s { lock = l })}
          (rw (taken, take_lock) refl)
          (record {
            who = some t;
            free = v.free;
            place = v.place;
            entries = v.entries;
            room = v.room;
            small = v.small;
            position = position_enter s.pc t q enters (λ u. rw nobody at (v.position u));
            locked = law.excludes s.lock l taken;
            stacked = rw (update_self s.pc t q, shape) (rw nobody at v.stacked);
            free_placed = v.free_placed;
            owned_placed =
                each (λ u x. Placed v.place n (some u) (owned f x (s.held u))) q
                  (rw same (mine p e)) (λ u _. v.owned_placed u);
          })
  ]

  module _ (p : Pc) (e : s.pc t ≡ p) (enters : inside p ≡ true) where
    who_is : v.who ≡ some t
    who_is = is_at_who t v.who (sym (v.position t) ∙ ap inside e ∙ enters)

    pub alone : (u : ℕ) → inside (s.pc u) ≡ (u == t)
    alone u = rw who_is at (v.position u)

    pub others_outside : (u : ℕ) → u ≢ t → inside (s.pc u) ≡ false
    others_outside u other = alone u ∙ ==_ne u t other

    pub stack_here : Shape s.alloc v.free p
    stack_here = rw (who_is, e) at v.stacked

    pub taken_here : spin.acquire s.lock ≡ none
    taken_here = rw who_is at v.locked

  -- There are at most `n` free slots.
  pub free_le : length v.free ≤ n
  free_le =
      length-Distinct n v.free (All-mono v.free (λ x h. h.0) v.free_placed.there)
        v.free_placed.distinct

  -- The lock is given back.
  pub kept_give :
      (p : Pc)
      → s.pc t ≡ p
      → inside p ≡ true
      → owned f p (s.held t) ≡ s.held t
      → Shape s.alloc v.free p ≡ Shape s.alloc v.free outside
      → OnSome (IsShared spin n) (give_lock spin t s)
  unfolding give_lock
  kept_give p e enters same shape = record {
    who = none;
    free = v.free;
    place = v.place;
    entries = v.entries;
    room = v.room;
    small = v.small;
    position = position_leave s.pc t outside refl (alone p e enters);
    locked = law.frees s.lock (taken_here p e enters);
    stacked = rw (← shape) (stack_here p e enters);
    free_placed = v.free_placed;
    owned_placed =
        each (λ u x. Placed v.place n (some u) (owned f x (s.held u))) outside
          (rw (← same) (mine p e)) (λ u _. v.owned_placed u);
  }
