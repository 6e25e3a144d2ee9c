-- ===== src/Allocator/Spinlock/Popped.antt =====
-- The steps of `allocate` while the thread has the lock keep the shared stack allocator valid.
use ixy.Base.{
  ℕ, zero, suc, ◌-◌, ◌<◌, ◌≡◌, refl, ap, sym, ◌∙◌, arith, none, some, List, ◌∷◌, length, get_or,
  update, update_self, update_ne, ◌==◌, ltb, ◌||◌, get_elem?, get_elem?-eq-get_or, Bool-cases, inl,
  inr,
}
use ixy.Memory.Stack.{length-stack_view, stack_view}
use ixy.Allocator.Spinlock.{
  tests, pops, granted, Spinlock, Shared, slot_block, goes, with_top, test_top, pop,
}
use ixy.Allocator.Spinlock.Owned.{inside, owned, Placed, Placed-elsewhere, Placed-tail, Placed-cons}
use ixy.Allocator.Spinlock.Valid.{IsSpinlock, IsShared, position_stay}
use ixy.Allocator.Spinlock.Held.{
  OnSome, on_some, mine, each, alone, taken_here, stack_here, free_le,
}

-- The top of a stack that is not empty.
stack_view-top :
    (f : List ℕ) (top : ℕ)
    → 0 < top
    → stack_view f top ≡ get_or f (top - 1) 0 ∷ stack_view f (top - 1)
stack_view-top f zero h = absurd (omega arith)
stack_view-top f (suc top) h = let e : suc top - 1 ≡ top = omega arith in rw e refl

module _ {L : Type 0} (spin : Spinlock L) (law : IsSpinlock spin) (n : ℕ) (s : Shared L)
    (v : IsShared spin n s) (t : ℕ) where
  abbrev f : List ℕ
  f = s.alloc.free_stack

  -- The test of `allocate`, and the decrement: the slot on top is then the thread's.
  pub kept_test : (size : ℕ) → s.pc t ≡ tests size → OnSome (IsShared spin n) (test_top t size s)
  unfolding test_top
  kept_test size e =
      elim (Bool-cases (s.alloc.free_stack_top == 0 || ltb s.alloc.entry_size size)) [
        | inl refused ↦
            on_some (IsShared spin n) {o = test_top t size s}
              {s = goes t (granted (record { ptr = 0; size = 0 })) s} (rw (refused, test_top) refl)
              (record {
                who = some t;
                free = v.free;
                place = v.place;
                entries = v.entries;
                room = v.room;
                small = v.small;
                position =
                    position_stay s.pc t _ (some t) (ap inside (sym e))
                      (alone spin law n s v t (tests size) e refl);
                locked = taken_here spin law n s v t (tests size) e refl;
                stacked =
                    rw (update_self s.pc t (granted (record { ptr = 0; size = 0 })))
                      (stack_here spin law n s v t (tests size) e refl);
                free_placed = v.free_placed;
                owned_placed =
                    each spin law n s v t (λ u x. Placed v.place n (some u) (owned f x (s.held u)))
                      _ (mine spin law n s v t (tests size) e) (λ u _. v.owned_placed u);
              })
        | inr has_one ↦
            let top = s.alloc.free_stack_top - 1 in
            let id = get_or s.alloc.free_stack top 0 in
            let positive : 0 < s.alloc.free_stack_top = ground (arith, has_one) in
            let free_is : v.free ≡ id ∷ stack_view s.alloc.free_stack top =
              sym (stack_here spin law n s v t (tests size) e refl)
              ∙ stack_view-top f s.alloc.free_stack_top positive in
            let front : Placed v.place n none (id ∷ stack_view s.alloc.free_stack top) =
              rw free_is at v.free_placed in
            on_some (IsShared spin n) {o = test_top t size s}
              {s = goes t (pops top) (with_top top s)} (rw (has_one, test_top) refl)
              (record {
                who = some t;
                free = stack_view s.alloc.free_stack top;
                place = update v.place id (some t);
                entries = v.entries;
                room = v.room;
                small = v.small;
                position =
                    position_stay s.pc t (pops top) (some t) (ap inside (sym e))
                      (alone spin law n s v t (tests size) e refl);
                locked = taken_here spin law n s v t (tests size) e refl;
                stacked = rw (update_self s.pc t (pops top)) (
                  refl,
                  omega (
                    arith,
                    positive,
                    free_le spin law n s v t,
                    v.entries,
                    length-stack_view f s.alloc.free_stack_top,
                    ap length (stack_here spin law n s v t (tests size) e refl),
                  ),
                  refl,
                );
                free_placed =
                    Placed-tail v.place n id (some t) none (stack_view s.alloc.free_stack top)
                      front;
                owned_placed =
                    each spin law n s v t
                      (λ u x. Placed (update v.place id (some t)) n (some u) (owned f x (s.held u)))
                      (pops top)
                      (Placed-cons v.place n id (some t) (s.held t) front.there.0.0
                        (λ h. absurd (cc (h, front.there.0.1)))
                        (mine spin law n s v t (tests size) e))
                      (λ u _.
                        Placed-elsewhere v.place n id (some t) (some u)
                          (owned s.alloc.free_stack (s.pc u) (s.held u))
                          (λ h. absurd (cc (h, front.there.0.1))) (v.owned_placed u));
              })
      ]

  -- The read of the slot's id.
  pub kept_pop : (top : ℕ) → s.pc t ≡ pops top → OnSome (IsShared spin n) (pop t top s)
  unfolding pop
  kept_pop top e =
      let id = get_or s.alloc.free_stack top 0 in
      let shape = stack_here spin law n s v t (pops top) e refl in
      let there : get_elem? s.alloc.free_stack top ≡ some id =
        get_elem?-eq-get_or s.alloc.free_stack top 0 (omega (arith, shape.1, v.entries, v.room)) in
      on_some (IsShared spin n) {o = pop t top s}
        {s = record s {
          pc = update s.pc t (granted (slot_block s.alloc id));
          held = update s.held t (id ∷ s.held t);
        }}
        (rw (there, pop) refl)
        (record {
          who = some t;
          free = v.free;
          place = v.place;
          entries = v.entries;
          room = v.room;
          small = v.small;
          position =
              position_stay s.pc t (granted (slot_block s.alloc id)) (some t) (ap inside (sym e))
                (alone spin law n s v t (pops top) e refl);
          locked = taken_here spin law n s v t (pops top) e refl;
          stacked = rw (update_self s.pc t (granted (slot_block s.alloc id)), shape.0) shape.2;
          free_placed = v.free_placed;
          owned_placed =
              each spin law n s v t
                (λ u x. Placed v.place n (some u) (owned f x (update s.held t (id ∷ s.held t) u)))
                (granted (slot_block s.alloc id))
                (rw (update_self s.held t (id ∷ s.held t)) (mine spin law n s v t (pops top) e))
                (λ u other. rw (update_ne s.held t u (id ∷ s.held t) other) (v.owned_placed u));
        })
