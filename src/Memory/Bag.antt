-- ===== src/Memory/Bag.antt =====
-- The contract of the pools of src/memory.c: which entry comes next is not part of it, so that a
-- pool is a bag of free entries.
use mathlib.Core.Quot
use mathlib.Core.Quot.{Quot, Quot-set}
use native.Mathlib.Nat.{ℕ_set}
use ixy.Base.{
  ℕ, ◌+◌, ◌*◌, ◌<◌, ◌≡◌, ◌≢◌, ==_ne, refl, sym, ap, ◌∙◌, arith, ◌⊎◌, inl, inr, List, [], ◌∷◌,
  length, ◌==◌, if◌then◌else◌,
}
use ixy.Base.Outcome.{ok, ◌>>◌}
use ixy.Memory.{Heap, Mempool, pkt_buf_alloc, pkt_buf_free}
use ixy.Memory.Stack.{NotIn, length-stack_view}
use ixy.Memory.Pool.{
  IsPool, free_ids, popped, pushed, pkt_buf_alloc_empty, pkt_buf_alloc_pop, pkt_buf_free_push,
}

abbrev pub count : ℕ → List ℕ → ℕ
count i [] = 0
count i (k ∷ ks) = (if k == i then 1 else 0) + count i ks

abbrev IsReordered : List ℕ → List ℕ → Type 0
IsReordered xs ys = (i : ℕ) → count i xs ≡ count i ys

abbrev pub Bag : Type 0
Bag = Quot IsReordered

abbrev pub of_list : List ℕ → Bag
of_list = Quot.mk

unfoldable pub times : ℕ → Bag → ℕ
times i = Quot.lift ℕ_set (count i) (λ xs ys h. h i)

unfoldable pub put : ℕ → Bag → Bag
put k =
    Quot.lift Quot-set (λ xs. of_list (k ∷ xs)) (λ xs ys h. Quot.sound (λ i. omega (arith, h i)))

-- The order in which entries are put back is forgotten.
pub put_comm : (i k : ℕ) (b : Bag) → put i (put k b) ≡ put k (put i b)
unfolding put
put_comm i k = Quot.ind (λ b. Quot-set _ _) (λ xs. Quot.sound (λ a. omega arith))

times-put_ne : (i k : ℕ) → k ≢ i → (b : Bag) → times i (put k b) ≡ times i b
unfolding times put
times-put_ne i k ne = Quot.ind (λ b. ℕ_set _ _) (λ xs. rw (==_ne k i ne) (omega arith))

count-NotIn : (i : ℕ) (xs : List ℕ) → count i xs ≡ 0 → NotIn i xs
count-NotIn i [] e = tt
count-NotIn i (k ∷ ks) e = ((λ same. ground (arith, e, same)), count-NotIn i ks (omega (arith, e)))

-- A pool at `p` of `n` entries of `size` bytes from `base` on, with the free entries `b`.
module _ (p n base size : ℕ) where
  pub record Shows (h : Heap) (b : Bag) : Type 0 where
    pub pool : Mempool
    pub valid : IsPool h p pool
    pub entries : pool.num_entries ≡ n
    pub starts : pool.base_addr ≡ base
    pub sized : pool.buf_size ≡ size
    pub free : of_list (free_ids pool) ≡ b

  abbrev pub address : ℕ → ℕ
  address i = base + i * size

  abbrev pub Allocates : Heap → Bag → Type 0
  Allocates h b =
      ((b ≡ of_list []) × (pkt_buf_alloc p h ≡ ok (0, h)))
      ⊎ ((i : ℕ) × (h' : Heap) × (left : Bag) × (i < n)
          × (b ≡ put i left)
          × (pkt_buf_alloc p h ≡ ok (address i, h'))
          × Shows h' left)

  -- A valid pool does what a bag of its free entries promises. If the bag is empty, `pkt_buf_alloc`
  -- returns `NULL` and changes nothing; otherwise it returns the address of an entry and takes it
  -- out of the bag.
  pub pkt_buf_alloc-Allocates : {h : Heap} {b : Bag} → Shows h b → Allocates h b
  unfolding put
  pkt_buf_alloc-Allocates {h} {b} s = by_free (free_ids s.pool) refl
    where
      by_free : (ids : List ℕ) → free_ids s.pool ≡ ids → Allocates h b
      by_free [] e = inl (
        sym s.free ∙ ap of_list e,
        pkt_buf_alloc_empty s.valid
            (sym (length-stack_view s.pool.free_stack s.pool.free_stack_top) ∙ ap length e),
      )
      by_free (i ∷ rest) e =
          let (allocs, lt, tail, valid) = pkt_buf_alloc_pop s.valid i rest e in
          inr (
            i,
            _,
            of_list rest,
            rw (← s.entries) lt,
            sym s.free ∙ ap of_list e,
            rw (← s.starts, ← s.sized) allocs,
            record {
              pool = popped s.pool;
              valid = valid;
              entries = s.entries;
              starts = s.starts;
              sized = s.sized;
              free = ap of_list tail;
            },
          )

  pub pkt_buf_free-put :
      {h : Heap} {b : Bag}
      → Shows h b
      → (i : ℕ) → i < n
      → times i b ≡ 0
      → (h' : Heap) × (pkt_buf_free (address i) h ≡ ok (tt, h')) × Shows h' (put i b)
  unfolding put times
  pkt_buf_free-put {h} {b} s i lt fresh =
      let unused : NotIn i (free_ids s.pool) = count-NotIn i _ (ap (times i) s.free ∙ fresh) in
      let (frees, view, valid) = pkt_buf_free_push s.valid i (rw s.entries lt) unused in
      (
        _,
        rw (← s.starts, ← s.sized) frees,
        record {
          pool = pushed s.pool i;
          valid = valid;
          entries = s.entries;
          starts = s.starts;
          sized = s.sized;
          free = ap of_list view ∙ ap (put i) s.free;
        },
      )

  -- Two entries of a valid pool that are not free can be freed in one order or the other, and the
  -- pools that this leaves are valid and have the same bag of free entries.
  pub pkt_buf_free_any_order :
      {h : Heap} {b : Bag}
      → Shows h b
      → (i k : ℕ) → i < n
      → k < n
      → i ≢ k
      → times i b ≡ 0
      → times k b ≡ 0
      → (h₁ h₂ : Heap) × (both : Bag) × ((pkt_buf_free (address i) >> pkt_buf_free (address k)) h
          ≡ ok (tt, h₁))
        × ((pkt_buf_free (address k) >> pkt_buf_free (address i)) h ≡ ok (tt, h₂))
        × Shows h₁ both
        × Shows h₂ both
  pkt_buf_free_any_order {h} {b} s i k lt_i lt_k ne free_i free_k =
      let (h₁, frees_i, s₁) = pkt_buf_free-put s i lt_i free_i in
      let (h₂, frees_k, s₂) = pkt_buf_free-put s k lt_k free_k in
      let (h₃, then_k, s₃) = pkt_buf_free-put s₁ k lt_k (times-put_ne k i ne b ∙ free_k) in
      let (h₄, then_i, s₄) =
        pkt_buf_free-put s₂ i lt_i (times-put_ne i k (λ e. ne (sym e)) b ∙ free_i) in
      (h₃, h₄, put k (put i b), rw frees_i then_k, rw frees_k then_i, s₃, rw (put_comm k i b) s₄)
