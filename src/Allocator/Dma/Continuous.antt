-- ===== src/Allocator/Dma/Continuous.antt =====
-- What the physical pages of a block decide in `allocate` of src/allocator/dma_allocator.c.
use native.Mathlib.Decide.{ℕ_discrete}
use ixy.Base.{
  ℕ, zero, suc, ◌+◌, ◌-◌, ◌*◌, ◌%◌, ◌^◌, ◌≤◌, ◌<◌, ◌≡◌, ◌≢◌, refl, sym, arith, Bool, true, false,
  some, ltb, ==_self, ==_ne, u32, u64,
}
use ixy.Base.Outcome.{ok, aborted}
use ixy.Os.{Os}
use ixy.Memory.{Heap}
use ixy.Allocator.{MemBlk}
use ixy.Allocator.Dma.{
  round_size, rounds, virt_to_phys, check_pages, is_phys_continuous, dma_allocate,
}

-- The first `n` pages of a block are translated to consecutive ones.
abbrev pub Consecutive : Os → (virt base n : ℕ) → Type 0
Consecutive os virt base n =
    (k : ℕ) (h : Heap)
    → k < n
    → virt_to_phys os (virt + k * os.page_size) h ≡ ok (u64 (base + k * os.page_size), h)

module _ (os : Os) (virt base : ℕ) (h : Heap) where
  here : virt + 0 * os.page_size ≡ virt
  here = omega arith

  offset : (j : ℕ) → virt + j * os.page_size - virt ≡ j * os.page_size
  offset j = omega arith

  next : (j : ℕ) → virt + j * os.page_size + os.page_size ≡ virt + suc j * os.page_size
  next j = omega arith

  check_pages-true :
      (n left j : ℕ)
      → j + left ≡ n
      → Consecutive os virt base n
      → check_pages os virt base left (virt + j * os.page_size) h ≡ ok (true, h)
  unfolding check_pages
  check_pages-true n zero j e all = refl
  check_pages-true n (suc left) j e all =
      rw (all j h (omega (arith, e)), offset j, ==_self (u64 (base + j * os.page_size)), next j)
        (check_pages-true n left (suc j) (omega (arith, e)) all)

  -- The page `k` is elsewhere.
  check_pages-false :
      (k phys left j : ℕ)
      → j ≤ k
      → k < j + left
      → Consecutive os virt base k
      → virt_to_phys os (virt + k * os.page_size) h ≡ ok (phys, h)
      → phys ≢ u64 (base + k * os.page_size)
      → check_pages os virt base left (virt + j * os.page_size) h ≡ ok (false, h)
  unfolding check_pages
  check_pages-false k phys zero j le lt all found other = absurd (omega arith)
  check_pages-false k phys (suc left) j le lt all found other = elim (ℕ_discrete j k) [
    | yes same ↦
        rw (same, found, offset k, ==_ne (u64 (base + k * os.page_size)) phys (λ e. other (sym e)))
          refl
    | no before ↦
        rw
          (
            all j h (omega (arith, before, le)),
            offset j,
            ==_self (u64 (base + j * os.page_size)),
            next j,
          )
          (check_pages-false k phys left (suc j) (omega (arith, before, le)) (omega arith) all found
            other)
  ]

-- The calls of `allocate` for a block succeed, and `mmap` returns an address at a page boundary.
pub record Maps (os : Os) (request virt base : ℕ) (h : Heap) : Type 0 where
  pub fd : ℕ
  pub truncated : ℕ
  pub locked : ℕ
  pub opens : os.open_huge h.huge_pg_id ≡ some fd
  pub truncates : os.ftruncate fd (round_size request) ≡ some truncated
  pub maps : os.mmap fd (round_size request) ≡ some virt
  pub locks : os.mlock virt (round_size request) ≡ some locked
  pub aligned : virt % os.page_size ≡ 0
  pub one_page : os.page_size ≤ round_size request
  pub physical : base < 2 ^ 64

module _ (os : Os) (request virt base : ℕ) (h : Heap) (m : Maps os request virt base h) where
  abbrev pub pages : ℕ
  pages = rounds (round_size request) os.page_size

  abbrev pub opened : Heap
  opened = record h { huge_pg_id = u32 (h.huge_pg_id + 1) }

  abbrev pub granted : MemBlk
  granted = record { ptr = virt; size = round_size request }

  first_page :
      virt_to_phys os (virt + 0 * os.page_size) opened ≡ ok (u64 (base + 0 * os.page_size), opened)
      → virt_to_phys os virt opened ≡ ok (base, opened)
  first_page e =
      let same : u64 (base + 0 * os.page_size) ≡ base = omega (arith, m.physical) in
      rw (here os virt base h, same) at e

  decided :
      (answer : Bool)
      → virt_to_phys os virt opened ≡ ok (base, opened)
      → check_pages os virt base pages (virt + 0 * os.page_size) opened ≡ ok (answer, opened)
      → is_phys_continuous os granted opened ≡ ok (answer, opened)
  unfolding is_phys_continuous
  decided answer first rest =
      let large : ltb (round_size request) os.page_size ≡ false = ground (arith, m.one_page) in
      rw (m.aligned, large, first) (rw (here os virt base h) at rest)

  -- If the calls of `allocate` succeed and the pages of the block, rounded up to huge pages, are
  -- translated to consecutive ones, it returns the block.
  pub dma_allocate-Consecutive :
      0 < pages → Consecutive os virt base pages → dma_allocate os request h ≡ ok (granted, opened)
  unfolding dma_allocate
  dma_allocate-Consecutive some_page all =
      rw
        (
          m.opens,
          m.truncates,
          m.maps,
          m.locks,
          decided true (first_page (all 0 opened some_page))
              (check_pages-true os virt base opened pages pages 0 (omega arith) all),
        )
        refl

  -- If the calls of `allocate` succeed but a page of the block, after consecutive ones, is
  -- translated to another than the next, it ends the process.
  pub dma_allocate_scattered :
      (k phys : ℕ)
      → 0 < k
      → k < pages
      → Consecutive os virt base k
      → virt_to_phys os (virt + k * os.page_size) opened ≡ ok (phys, opened)
      → phys ≢ u64 (base + k * os.page_size)
      → dma_allocate os request h ≡ aborted
  unfolding dma_allocate
  dma_allocate_scattered k phys later inside all found other =
      rw
        (
          m.opens,
          m.truncates,
          m.maps,
          m.locks,
          decided false (first_page (all 0 opened later)) (
              check_pages-false os virt base opened k phys pages 0 (omega arith)
                (omega (arith, inside)) all found other),
        )
        refl
