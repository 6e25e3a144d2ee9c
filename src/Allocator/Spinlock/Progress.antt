-- ===== src/Allocator/Spinlock/Progress.antt =====
-- A shared stack allocator never gets stuck.
use ixy.Base.{
  ℕ, ◌+◌, ◌^◌, ◌<◌, ◌≡◌, ◌≢◌, refl, ap, ◌∙◌, arith, true, false, Option, none, some, ◌==◌, ==_self,
  length, get_elem?, get_elem?-eq-get_or, lt→ltb, get_or, Bool-cases, inl, inr, ltb, ◌||◌, ◌-◌, ◌∷◌,
  update, set, u32,
}
use ixy.Memory.Stack.{length-stack_view}
use ixy.Allocator.Stack.{StackAllocator}
use ixy.Allocator.Stack.Slots.{IsValid}
use ixy.Allocator.Spinlock.{
  Pc, outside, wants, tests, pops, granted, returns, pushes, stores, returned, Spinlock, Shared,
  Reach, step, goes, with_top, slot_block, take_lock, give_lock, test_top, pop, store,
}
use ixy.Allocator.Spinlock.Owned.{inside}
use ixy.Allocator.Spinlock.Valid.{IsSpinlock, is_at, Locked, IsShared}
use ixy.Allocator.Spinlock.Held.{free_le, stack_here}
use ixy.Allocator.Spinlock.Safety.{unused, reach-IsShared}

module _ {L : Type 0} (spin : Spinlock L) (law : IsSpinlock spin) (n : ℕ) (s : Shared L)
    (v : IsShared spin n s) (t : ℕ) where
  abbrev CanGo : ℕ → Pc → Type 0
  CanGo u p = (s' : Shared L) × (step spin u p s ≡ some s')

  -- The thread that has the lock can go on.
  inside_goes : (p : Pc) → s.pc t ≡ p → inside p ≡ true → CanGo t p
  unfolding step give_lock test_top pop store
  inside_goes outside e i = absurd (cc (i))
  inside_goes (wants size) e i = absurd (cc (i))
  inside_goes (returns id) e i = absurd (cc (i))
  inside_goes (granted blk) e i = (_, refl)
  inside_goes returned e i = (_, refl)
  inside_goes (pushes id) e i = (_, refl)
  inside_goes (tests size) e i =
      elim (Bool-cases (s.alloc.free_stack_top == 0 || ltb s.alloc.entry_size size)) [
        | inl refused ↦
            (goes t (granted (record { ptr = 0; size = 0 })) s, rw (refused, test_top) refl)
        | inr has_one ↦ (
          goes t (pops (s.alloc.free_stack_top - 1)) (with_top (s.alloc.free_stack_top - 1) s),
          rw (has_one, test_top) refl,
        )
      ]
  inside_goes (pops top) e i =
      let shape = stack_here spin law n s v t (pops top) e refl in
      let there : get_elem? s.alloc.free_stack top ≡ some (get_or s.alloc.free_stack top 0) =
        get_elem?-eq-get_or s.alloc.free_stack top 0 (omega (arith, shape.1, v.entries, v.room)) in
      (
        record s {
          pc = update s.pc t (granted (slot_block s.alloc (get_or s.alloc.free_stack top 0)));
          held = update s.held t (get_or s.alloc.free_stack top 0 ∷ s.held t);
        },
        rw (there, pop) refl,
      )
  inside_goes (stores id top) e i =
      let shape = stack_here spin law n s v t (stores id top) e refl in
      let fits : top < length s.alloc.free_stack = omega (
        arith,
        free_le spin law n s v t,
        v.room,
        length-stack_view s.alloc.free_stack top,
        ap length shape.1,
      ) in
      (
        goes t returned (record s {
          alloc = record s.alloc { free_stack = set s.alloc.free_stack top (u32 id) };
        }),
        rw (lt→ltb top (length s.alloc.free_stack) fits, store) refl,
      )

  -- If the lock is free, a thread that waits for it can go on.
  waiting_goes :
      (p : Pc) (l' : L) → p ≢ outside → inside p ≡ false → spin.acquire s.lock ≡ some l' → CanGo t p
  unfolding step take_lock
  waiting_goes outside l' e i free = absurd (e refl)
  waiting_goes (wants size) l' e i free =
      (goes t (tests size) (record s { lock = l' }), rw (free, take_lock) refl)
  waiting_goes (returns id) l' e i free =
      (goes t (pushes id) (record s { lock = l' }), rw (free, take_lock) refl)
  waiting_goes (tests size) l' e i free = absurd (cc (i))
  waiting_goes (pops top) l' e i free = absurd (cc (i))
  waiting_goes (granted blk) l' e i free = absurd (cc (i))
  waiting_goes (pushes id) l' e i free = absurd (cc (i))
  waiting_goes (stores id top) l' e i free = absurd (cc (i))
  waiting_goes returned l' e i free = absurd (cc (i))

module _ {L : Type 0} (spin : Spinlock L) (law : IsSpinlock spin) (n : ℕ) (s : Shared L)
    (v : IsShared spin n s) (t : ℕ) (busy : s.pc t ≢ outside) where
  some_goes :
      (who : Option ℕ)
      → Locked spin s.lock who
      → ((u : ℕ) → inside (s.pc u) ≡ is_at u who)
      → (u : ℕ) × (s' : Shared L) × (step spin u (s.pc u) s ≡ some s')
  some_goes none free all =
      let (s', e) = waiting_goes spin law n s v t (s.pc t) free.0 busy (all t) free.1 in (t, s', e)
  some_goes (some w) taken all =
      let (s', e) = inside_goes spin law n s v w (s.pc w) refl (all w ∙ ==_self w) in (w, s', e)

module _ {L : Type 0} (spin : Spinlock L) (law : IsSpinlock spin) (a : StackAllocator) (l l' : L)
    (valid : IsValid a) (small : a.num_entries + 1 < 2 ^ 32)
    (open_lock : spin.acquire l ≡ some l') where
  -- Whatever threads do with an allocator that was valid and unused at the start, in every order of
  -- their steps, if a thread returns only blocks of slots that it was given and has not returned,
  -- the lock excludes and the slots can be counted in 32 bits, while a thread is in a function,
  -- some thread can go on: no step is an undefined access, and the allocator never gets stuck.
  pub progress :
      (s : Shared L) (t : ℕ)
      → Reach spin (unused a l) s
      → s.pc t ≢ outside
      → (u : ℕ) × (s' : Shared L) × (step spin u (s.pc u) s ≡ some s')
  progress s t r busy =
      let v = reach-IsShared spin law a l l' valid small open_lock s r in
      some_goes spin law a.num_entries s v t busy v.who v.locked v.position
