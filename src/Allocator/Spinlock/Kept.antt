-- ===== src/Allocator/Spinlock/Kept.antt =====
-- Every step of a thread keeps the shared stack allocator valid.
use native.Mathlib.Decide.{ℕ_discrete}
use ixy.Base.{
  ℕ, ◌+◌, ◌<◌, ◌≡◌, ◌≢◌, refl, ap, sym, ◌∙◌, arith, true, Option, none, some, List, ◌∷◌, u32,
  length, set, length-set, update, update_self, update_ne, ==_self, lt→ltb,
}
use ixy.Base.Members.{member, remove}
use ixy.Memory.Stack.{length-stack_view, stack_view-push}
use ixy.Allocator.{MemBlk}
use ixy.Allocator.Spinlock.{
  Pc, outside, wants, tests, pops, granted, returns, pushes, stores, returned, Spinlock, Shared,
  goes, call_allocate, call_deallocate, returned_id, store, step,
}
use ixy.Allocator.Spinlock.Owned.{
  inside, owned, owned_outside, Placed, Placed-elsewhere, Placed-tail, Placed-cons, Placed-front,
}
use ixy.Allocator.Spinlock.Valid.{IsSpinlock, is_at, Stacked, IsShared, position_stay}
use ixy.Allocator.Spinlock.Held.{
  OnSome, on_some, mine, each, alone, taken_here, stack_here, free_le, kept_take, kept_give,
  others_outside,
}
use ixy.Allocator.Spinlock.Popped.{kept_test, kept_pop}

or_zero : ℕ → Option ℕ → ℕ
or_zero d none = d
or_zero d (some x) = x

some_ne : {t u : ℕ} → t ≢ u → some t ≢ some u
unfolding or_zero
some_ne h e = h (ap (or_zero 0) e)

module _ {L : Type 0} (spin : Spinlock L) (law : IsSpinlock spin) (n : ℕ) (s : Shared L)
    (v : IsShared spin n s) (t : ℕ) where
  abbrev f : List ℕ
  f = s.alloc.free_stack

  -- The increment of `deallocate`.
  kept_push : (id : ℕ) → s.pc t ≡ pushes id → OnSome (IsShared spin n) (step spin t (pushes id) s)
  unfolding step
  kept_push id e =
      let top = s.alloc.free_stack_top in
      let shape = stack_here spin law n s v t (pushes id) e refl in
      let next : u32 (top + 1) ≡ top + 1 = omega (
        arith,
        free_le spin law n s v t,
        v.small,
        length-stack_view s.alloc.free_stack top,
        ap length shape,
      ) in
      record {
        who = some t;
        free = v.free;
        place = v.place;
        entries = v.entries;
        room = v.room;
        small = v.small;
        position =
            position_stay s.pc t (stores id top) (some t) (ap inside (sym e))
              (alone spin law n s v t (pushes id) e refl);
        locked = taken_here spin law n s v t (pushes id) e refl;
        stacked = rw (update_self s.pc t (stores id top)) (next, shape);
        free_placed = v.free_placed;
        owned_placed =
            each spin law n s v t (λ u x. Placed v.place n (some u) (owned f x (s.held u)))
              (stores id top) (mine spin law n s v t (pushes id) e) (λ u _. v.owned_placed u);
      }

  -- The write of the slot's id: the slot is then free.
  kept_store : (id top : ℕ) → s.pc t ≡ stores id top → OnSome (IsShared spin n) (store t id top s)
  unfolding store
  kept_store id top e =
      let shape = stack_here spin law n s v t (stores id top) e refl in
      let own = mine spin law n s v t (stores id top) e in
      let inside_array : top < length f = omega (
        arith,
        free_le spin law n s v t,
        v.room,
        length-stack_view s.alloc.free_stack top,
        ap length shape.1,
      ) in
      let same : u32 id ≡ id = omega (arith, own.there.0.0, v.small) in
      let g : List ℕ = set s.alloc.free_stack top id in
      on_some (IsShared spin n) {o = store t id top s}
        {s = goes t returned (record s { alloc = record s.alloc { free_stack = g } })}
        (rw (lt→ltb top (length s.alloc.free_stack) inside_array, same, store) refl)
        (record {
          who = some t;
          free = id ∷ v.free;
          place = update v.place id none;
          entries = v.entries;
          room = rw (length-set s.alloc.free_stack top id) v.room;
          small = v.small;
          position =
              position_stay s.pc t returned (some t) (ap inside (sym e))
                (alone spin law n s v t (stores id top) e refl);
          locked = taken_here spin law n s v t (stores id top) e refl;
          stacked =
              rw (update_self s.pc t returned, shape.0)
                (stack_view-push s.alloc.free_stack top id inside_array ∙ ap (λ l. id ∷ l) shape.1);
          free_placed =
              Placed-cons v.place n id none v.free own.there.0.0
                (λ h. absurd (cc (h, own.there.0.1))) v.free_placed;
          owned_placed =
              each spin law n s v t
                (λ u x. Placed (update v.place id none) n (some u) (owned g x (s.held u))) returned
                (Placed-tail v.place n id none (some t) (s.held t) own)
                (λ u other.
                  rw
                    (owned_outside g s.alloc.free_stack (s.pc u) (s.held u)
                      (others_outside spin law n s v t (stores id top) e refl u other))
                    (Placed-elsewhere v.place n id none (some u)
                      (owned s.alloc.free_stack (s.pc u) (s.held u))
                      (λ h. some_ne other (sym (sym own.there.0.1 ∙ h))) (v.owned_placed u)));
        })

  -- A thread that is outside does not have the lock.
  elsewhere :
      (p : Pc) (h : ℕ → List ℕ) (who : Option ℕ)
      → s.pc t ≡ outside
      → ((u : ℕ) → inside (s.pc u) ≡ is_at u who)
      → Stacked s v.free who
      → Stacked (record s { pc = update s.pc t p; held = h }) v.free who
  elsewhere p h none e all shape = shape
  elsewhere p h (some u) e all shape = elim (ℕ_discrete u t) [
    | yes same ↦ absurd (cc (ap inside (sym e) ∙ all t, ==_self t, same))
    | no other ↦ rw (update_ne s.pc t u p other) shape
  ]

  -- A call of `allocate` and of `deallocate`.
  pub kept_allocate : (size : ℕ) → s.pc t ≡ outside → IsShared spin n (call_allocate t size s)
  unfolding call_allocate
  kept_allocate size e = record {
    who = v.who;
    free = v.free;
    place = v.place;
    entries = v.entries;
    room = v.room;
    small = v.small;
    position = position_stay s.pc t (wants size) v.who (ap inside (sym e)) v.position;
    locked = v.locked;
    stacked = elsewhere (wants size) s.held v.who e v.position v.stacked;
    free_placed = v.free_placed;
    owned_placed =
        each spin law n s v t (λ u x. Placed v.place n (some u) (owned f x (s.held u))) (wants size)
          (mine spin law n s v t outside e) (λ u _. v.owned_placed u);
  }

  pub kept_deallocate :
      (id : ℕ) (blk : MemBlk)
      → s.pc t ≡ outside
      → returned_id s.alloc blk ≡ some id
      → member id (s.held t) ≡ true
      → OnSome (IsShared spin n) (call_deallocate t blk s)
  unfolding call_deallocate
  kept_deallocate id blk e is_id has =
      let left = update s.held t (remove id (s.held t)) in
      rw (OnSome, call_deallocate, is_id)
        (record {
          who = v.who;
          free = v.free;
          place = v.place;
          entries = v.entries;
          room = v.room;
          small = v.small;
          position = position_stay s.pc t (returns id) v.who (ap inside (sym e)) v.position;
          locked = v.locked;
          stacked = elsewhere (returns id) left v.who e v.position v.stacked;
          free_placed = v.free_placed;
          owned_placed =
              each spin law n s v t (λ u x. Placed v.place n (some u) (owned f x (left u)))
                (returns id)
                (rw (update_self s.held t (remove id (s.held t))) (
                  Placed-front v.place n id (some t) (s.held t) has
                    (mine spin law n s v t outside e)))
                (λ u other.
                  rw (update_ne s.held t u (remove id (s.held t)) other) (v.owned_placed u));
        })

  -- A step of a thread.
  pub kept_step : (p : Pc) → s.pc t ≡ p → OnSome (IsShared spin n) (step spin t p s)
  unfolding step
  kept_step outside e = tt
  kept_step (wants size) e = kept_take spin law n s v t (wants size) (tests size) e refl refl refl
  kept_step (tests size) e = kept_test spin law n s v t size e
  kept_step (pops top) e = kept_pop spin law n s v t top e
  kept_step (granted blk) e = kept_give spin law n s v t (granted blk) e refl refl refl
  kept_step (returns id) e = kept_take spin law n s v t (returns id) (pushes id) e refl refl refl
  kept_step (pushes id) e = kept_push id e
  kept_step (stores id top) e = kept_store id top e
  kept_step returned e = kept_give spin law n s v t returned e refl refl refl
