-- ===== src/Allocator/Dma/Tests.antt =====
-- Blocks at 0x200000 whose pages are in a row, or in an even frame each.
use ixy.Base.{
  ℕ, ◌+◌, ◌*◌, ◌/◌, ◌%◌, ◌<◌, ◌≤◌, ◌≡◌, refl, arith, true, some, bit_and, ==_ne, if◌then◌else◌, ltb,
}
use ixy.Base.Bits.{bit_and_mask}
use ixy.Base.Outcome.{ok, aborted}
use ixy.Os.{Os}
use ixy.Memory.{Heap}
use ixy.Memory.Tests.{empty}
use ixy.Allocator.Dma.{round_size, virt_to_phys, dma_allocate}
use ixy.Allocator.Dma.Continuous.{
  Consecutive, Maps, dma_allocate-Consecutive, dma_allocate_scattered,
}

-- Page `p` is in the frame `p + 0x300`, but from page `limit` on in the one after.
abbrev pub paged : ℕ → Os
paged limit = record {
  page_size = 4096;
  pagemap = λ at. some (at / 8 + (if ltb (at / 8) limit then 0x300 else 0x301));
  open_huge = λ id. some 3;
  ftruncate = λ fd size. some 0;
  mmap = λ fd size. some 0x200000;
  mlock = λ virt size. some 0;
  malloc = λ n size. 100;
}

pub paged-Maps :
    (limit request : ℕ) (h : Heap)
    → 4096 ≤ round_size request
    → Maps (paged limit) request 0x200000 0x500000 h
paged-Maps limit request h large = record {
  fd = 3;
  truncated = 0;
  locked = 0;
  opens = refl;
  truncates = refl;
  maps = refl;
  locks = refl;
  aligned = refl;
  one_page = large;
  physical = omega arith;
}

pub paged-Consecutive :
    (limit n : ℕ)
    → n + 0x200 < limit + 1
    → n < 0x1000
    → Consecutive (paged limit) 0x200000 0x500000 n
unfolding virt_to_phys
paged-Consecutive limit n h small k heap lt =
    let page : (0x200000 + k * 4096) / 4096 * 8 / 8 ≡ k + 0x200 = omega arith in
    let low : ltb (k + 0x200) limit ≡ true = ground arith in
    let frame : bit_and (k + 0x200 + 0x300) 0x7fffffffffffff ≡ k + 0x500 =
      omega (arith, bit_and_mask 55 (k + 0x200 + 0x300)) in
    let rest : (0x200000 + k * 4096) % 4096 ≡ 0 = omega arith in
    let sum : (k + 0x500) * 4096 + 0 ≡ 0x500000 + k * 4096 = omega arith in
    rw (page, low, ==_ne (k + 0x200 + 0x300) 0 (omega arith), frame, rest, sum) refl

dma_allocate-Consecutive_example :
    dma_allocate (paged 0x1000) 4096 empty
    ≡ ok (record { ptr = 0x200000; size = 0x200000 }, record empty { huge_pg_id = 1 })
unfolding round_size
dma_allocate-Consecutive_example =
    dma_allocate-Consecutive (paged 0x1000) 4096 0x200000 0x500000 empty
      (paged-Maps 0x1000 4096 empty (omega arith)) (omega arith)
      (paged-Consecutive 0x1000 512 (omega arith) (omega arith))

dma_allocate_scattered_example : dma_allocate (paged 0x202) 4096 empty ≡ aborted
unfolding virt_to_phys round_size
dma_allocate_scattered_example =
    dma_allocate_scattered (paged 0x202) 4096 0x200000 0x500000 empty
      (paged-Maps 0x202 4096 empty (omega arith)) 2 0x503000 (omega arith) (omega arith)
      (paged-Consecutive 0x202 2 (omega arith) (omega arith)) refl (λ e. omega (arith, e))
