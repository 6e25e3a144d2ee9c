-- ===== src/Allocator/Spinlock/Valid.antt =====
-- The states of a shared stack allocator that its threads reach.
use native.Mathlib.Decide.{ℕ_discrete}
use ixy.Base.{
  ℕ, ◌+◌, ◌^◌, ◌<◌, ◌≡◌, ap, sym, ◌∙◌, Bool, true, false, Option, none, some, List, length, update,
  update_self, update_ne, ◌==◌, ==_self, ==_ne, ==_iff,
}
use ixy.Memory.Stack.{stack_view}
use ixy.Allocator.Stack.{StackAllocator}
use ixy.Allocator.Spinlock.{
  Pc, outside, wants, tests, pops, granted, returns, pushes, stores, returned, Spinlock, Shared,
}
use ixy.Allocator.Spinlock.Owned.{inside, owned, Placed}

-- A lock that was taken cannot be taken until it is given back.
pub record IsSpinlock {L : Type 0} (spin : Spinlock L) : Type 0 where
  pub excludes : (l l' : L) → spin.acquire l ≡ some l' → spin.acquire l' ≡ none
  pub frees : (l : L) → spin.acquire l ≡ none → (l' : L) × (spin.acquire (spin.release l) ≡ some l')

-- Thread `u` is the one that is given.
abbrev pub is_at : ℕ → Option ℕ → Bool
is_at u none = false
is_at u (some t) = u == t

-- How the allocator's stack shows the free slots while the thread that has the lock is there.
abbrev pub Shape : StackAllocator → List ℕ → Pc → Type 0
Shape a free (pops top) =
    (a.free_stack_top ≡ top) × (top < a.num_entries) × (stack_view a.free_stack top ≡ free)
Shape a free (stores id top) = (a.free_stack_top ≡ top + 1) × (stack_view a.free_stack top ≡ free)
Shape a free outside = stack_view a.free_stack a.free_stack_top ≡ free
Shape a free (wants size) = stack_view a.free_stack a.free_stack_top ≡ free
Shape a free (tests size) = stack_view a.free_stack a.free_stack_top ≡ free
Shape a free (granted blk) = stack_view a.free_stack a.free_stack_top ≡ free
Shape a free (returns id) = stack_view a.free_stack a.free_stack_top ≡ free
Shape a free (pushes id) = stack_view a.free_stack a.free_stack_top ≡ free
Shape a free returned = stack_view a.free_stack a.free_stack_top ≡ free

abbrev pub Stacked : {L : Type 0} → Shared L → List ℕ → Option ℕ → Type 0
Stacked s free none = Shape s.alloc free outside
Stacked s free (some t) = Shape s.alloc free (s.pc t)

module _ {L : Type 0} (spin : Spinlock L) where
  abbrev pub Locked : L → Option ℕ → Type 0
  Locked l none = (l' : L) × (spin.acquire l ≡ some l')
  Locked l (some t) = spin.acquire l ≡ none

  -- At most one thread has the lock; every slot is free or of one thread, and no slot is twice in
  -- the list of its place.
  pub record IsShared (n : ℕ) (s : Shared L) : Type 0 where
    pub who : Option ℕ
    pub free : List ℕ
    pub place : ℕ → Option ℕ
    pub entries : s.alloc.num_entries ≡ n
    pub room : n < length s.alloc.free_stack
    pub small : n + 1 < 2 ^ 32
    pub position : (u : ℕ) → inside (s.pc u) ≡ is_at u who
    pub locked : Locked s.lock who
    pub stacked : Stacked s free who
    pub free_placed : Placed place n none free
    pub owned_placed :
        (u : ℕ) → Placed place n (some u) (owned s.alloc.free_stack (s.pc u) (s.held u))

-- Where a thread is after one of them moved.
module _ (pc : ℕ → Pc) (t : ℕ) (p : Pc) where
  pub position_stay :
      (who : Option ℕ)
      → inside p ≡ inside (pc t)
      → ((u : ℕ) → inside (pc u) ≡ is_at u who)
      → (u : ℕ) → inside (update pc t p u) ≡ is_at u who
  position_stay who e all u = elim (ℕ_discrete u t) [
    | yes same ↦ rw (same, update_self pc t p) (e ∙ all t)
    | no other ↦ rw (update_ne pc t u p other) (all u)
  ]

  pub position_enter :
      inside p ≡ true
      → ((u : ℕ) → inside (pc u) ≡ false)
      → (u : ℕ) → inside (update pc t p u) ≡ (u == t)
  position_enter e all u = elim (ℕ_discrete u t) [
    | yes same ↦ rw (same, update_self pc t p, ==_self t) e
    | no other ↦ rw (update_ne pc t u p other, ==_ne u t other) (all u)
  ]

  pub position_leave :
      inside p ≡ false
      → ((u : ℕ) → inside (pc u) ≡ (u == t))
      → (u : ℕ) → inside (update pc t p u) ≡ false
  position_leave e all u = elim (ℕ_discrete u t) [
    | yes same ↦ rw (same, update_self pc t p) e
    | no other ↦ rw (update_ne pc t u p other) (all u ∙ ==_ne u t other)
  ]

-- The thread that has the lock.
pub is_at_who : (t : ℕ) (who : Option ℕ) → is_at t who ≡ true → who ≡ some t
is_at_who t none e = absurd (cc)
is_at_who t (some u) e = ap some (sym ((==_iff t u).0 e))
