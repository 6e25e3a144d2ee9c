-- ===== src/Allocator/Spinlock/Safety.antt =====
-- What holds whenever threads share a stack allocator, in every order of their steps.
use ixy.Base.{
  ℕ, ◌+◌, ◌^◌, ◌<◌, ◌≡◌, refl, sym, ◌∙◌, true, Option, none, some, [], ==_iff, Distinct, All-mono,
}
use mathlib.Core.Path.{subst}
use ixy.Base.Members.{member, All-member}
use ixy.Allocator.Stack.{StackAllocator}
use ixy.Allocator.Stack.Slots.{IsValid, free_slots}
use ixy.Allocator.Spinlock.{
  outside, Spinlock, Shared, Step, allocates, deallocates, goes_on, Reach, start, after,
}
use ixy.Allocator.Spinlock.Owned.{inside, owned}
use ixy.Allocator.Spinlock.Valid.{IsSpinlock, is_at, IsShared}
use ixy.Allocator.Spinlock.Held.{OnSome}
use ixy.Allocator.Spinlock.Kept.{kept_step, kept_allocate, kept_deallocate}

-- A valid allocator that no thread has used yet, with a free lock.
abbrev pub unused : {L : Type 0} → StackAllocator → L → Shared L
unused a l = record { alloc = a; lock = l; pc = λ _. outside; held = λ _. [] }

module _ {L : Type 0} (spin : Spinlock L) (law : IsSpinlock spin) (a : StackAllocator) (l l' : L)
    (valid : IsValid a) (small : a.num_entries + 1 < 2 ^ 32)
    (open_lock : spin.acquire l ≡ some l') where
  unused-IsShared : IsShared spin a.num_entries (unused a l)
  unused-IsShared = record {
    who = none;
    free = free_slots a;
    place = λ _. none;
    entries = refl;
    room = valid.room;
    small = small;
    position = λ u. refl;
    locked = (l', open_lock);
    stacked = refl;
    free_placed = record {
      there = All-mono (free_slots a) (λ x h. (h, refl)) valid.below;
      distinct = valid.distinct;
    };
    owned_placed = λ u. record { there = tt; distinct = tt };
  }

  Step-IsShared :
      (s s' : Shared L)
      → Step spin s s'
      → IsShared spin a.num_entries s
      → IsShared spin a.num_entries s'
  Step-IsShared s s' (allocates t size _ e) v = kept_allocate spin law a.num_entries s v t size e
  Step-IsShared s s' (deallocates t id blk _ _ e is_id has called) v =
      subst (OnSome (IsShared spin a.num_entries)) called
        (kept_deallocate spin law a.num_entries s v t id blk e is_id has)
  Step-IsShared s s' (goes_on t _ _ e) v =
      subst (OnSome (IsShared spin a.num_entries)) e
        (kept_step spin law a.num_entries s v t (s.pc t) refl)

  pub reach-IsShared : (s : Shared L) → Reach spin (unused a l) s → IsShared spin a.num_entries s
  reach-IsShared s start = unused-IsShared
  reach-IsShared s (after s1 _ r st) = Step-IsShared s1 s st (reach-IsShared s1 r)

  -- Whatever threads do with an allocator that was valid and unused at the start, in every order of
  -- their steps, if the lock excludes and the slots can be counted in 32 bits, at most one of them
  -- has the lock.
  pub mutual_exclusion :
      (s : Shared L) (t u : ℕ)
      → Reach spin (unused a l) s
      → inside (s.pc t) ≡ true
      → inside (s.pc u) ≡ true
      → t ≡ u
  mutual_exclusion s t u r it iu =
      let v = reach-IsShared s r in same v.who (sym (v.position t) ∙ it) (sym (v.position u) ∙ iu)
    where
      same : (who : Option ℕ) → is_at t who ≡ true → is_at u who ≡ true → t ≡ u
      same none e f = absurd (cc)
      same (some w) e f = (==_iff t w).0 e ∙ sym ((==_iff u w).0 f)

  -- Whatever threads do with an allocator that was valid and unused at the start, in every order of
  -- their steps, if a thread returns only blocks of slots that it was given and has not returned,
  -- the lock excludes and the slots can be counted in 32 bits, a slot that two threads own is owned
  -- by one thread: a slot on its way out or back, or given and not returned, is not given again, is
  -- in range, and no thread owns one twice.
  pub slots_apart :
      (s : Shared L) (t u id : ℕ)
      → Reach spin (unused a l) s
      → member id (owned s.alloc.free_stack (s.pc t) (s.held t)) ≡ true
      → member id (owned s.alloc.free_stack (s.pc u) (s.held u)) ≡ true
      → (t ≡ u) × (id < a.num_entries) × Distinct (owned s.alloc.free_stack (s.pc t) (s.held t))
  slots_apart s t u id r ht hu =
      let v = reach-IsShared s r in
      let at_t =
        All-member _ id (owned s.alloc.free_stack (s.pc t) (s.held t)) (v.owned_placed t).there
          ht in
      let at_u =
        All-member _ id (owned s.alloc.free_stack (s.pc u) (s.held u)) (v.owned_placed u).there
          hu in
      (some_injective (sym at_t.1 ∙ at_u.1), at_t.0, (v.owned_placed t).distinct)
    where
      some_injective : {x y : ℕ} → some x ≡ some y → x ≡ y
      some_injective e = cc (e)
