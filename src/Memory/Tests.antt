-- ===== src/Memory/Tests.antt =====
-- A pool of two entries, and an operating system that grants every request.
use ixy.Base.{
  ℕ, zero, suc, ◌+◌, ◌*◌, ◌%◌, ◌/◌, ◌<◌, ◌≤◌, ◌^◌, ◌≡◌, refl, arith, none, some, [], ◌∷◌, update,
}
use ixy.Base.Outcome.{ok, ◌>>◌}
use ixy.Os.{Os}
use ixy.Memory.{
  PktBuf, Mempool, Heap, put_pool, pkt_buf_free, round_up_2mb, virt_to_phys, memory_allocate_dma,
  memory_allocate_mempool, default_entry_size, malloc,
}
use ixy.Memory.Pool.{IsPool, HasHeader, free_ids, pushed, pkt_buf_free_push}
use ixy.Memory.Bag.{
  Bag, of_list, times, Shows, Allocates, pkt_buf_alloc-Allocates, pkt_buf_free_any_order,
}
use ixy.Memory.Dma.{round_up_2mb_bounds}
use ixy.Memory.New.{IsFullPool, memory_allocate_mempool-IsFullPool}

-- Entry `i` of the pool.
abbrev pub entry : ℕ → PktBuf
entry i = record {
  buf_addr_phy = 0x500000 + i * 2048;
  mempool = 100;
  mempool_idx = i;
  size = 0;
  payload = λ _. 0;
}

-- The pool with the first `top` ids of the stack free.
abbrev pub two_entries : ℕ → Mempool
two_entries top = record {
  base_addr = 0x200000;
  base_addr_phy = 0x500000;
  buf_size = 2048;
  num_entries = 2;
  free_stack_top = top;
  free_stack = 0 ∷ 1 ∷ 0 ∷ [];
}

abbrev pub heap : ℕ → Heap
heap top = record {
  huge_pg_id = 0;
  mallocs = 0;
  pools = update (λ _. none) 100 (some (two_entries top));
  bufs = update (update (λ _. none) 0x200000 (some (entry 0))) 0x200800 (some (entry 1));
}

two_headers : (top i : ℕ) → i < 2 → HasHeader (heap top) 100 (two_entries top) i
unfolding update
two_headers top zero lt = record { buf = entry 0; here = refl; pool = refl; idx = refl; phy = refl }
two_headers top (suc zero) lt = record {
  buf = entry 1;
  here = refl;
  pool = refl;
  idx = refl;
  phy = refl;
}
two_headers top (suc (suc i)) lt = absurd (omega arith)

-- With both entries free, with entry 0 free, and with none.
pub both_free-IsPool : IsPool (heap 2) 100 (two_entries 2)
unfolding update
both_free-IsPool = record {
  here = refl;
  room = omega arith;
  fits = omega arith;
  positive = omega arith;
  below = (omega arith, (omega arith, tt));
  distinct = (((λ e. omega (arith, e)), tt), (tt, tt));
  headers = two_headers 2;
}

pub one_free-IsPool : IsPool (heap 1) 100 (two_entries 1)
unfolding update
one_free-IsPool = record {
  here = refl;
  room = omega arith;
  fits = omega arith;
  positive = omega arith;
  below = (omega arith, tt);
  distinct = (tt, tt);
  headers = two_headers 1;
}

pub none_free-IsPool : IsPool (heap 0) 100 (two_entries 0)
unfolding update
none_free-IsPool = record {
  here = refl;
  room = omega arith;
  fits = omega arith;
  positive = omega arith;
  below = tt;
  distinct = tt;
  headers = two_headers 0;
}

pkt_buf_free_push_example :
    (pkt_buf_free 0x200800 (heap 1) ≡ ok (tt, put_pool 100 (pushed (two_entries 1) 1) (heap 1)))
    × (free_ids (pushed (two_entries 1) 1) ≡ 1 ∷ 0 ∷ [])
    × IsPool (put_pool 100 (pushed (two_entries 1) 1) (heap 1)) 100 (pushed (two_entries 1) 1)
pkt_buf_free_push_example =
    pkt_buf_free_push one_free-IsPool 1 (omega arith) ((λ e. omega (arith, e)), tt)

one_free-Shows : Shows 100 2 0x200000 2048 (heap 1) (of_list (0 ∷ []))
one_free-Shows = record {
  pool = two_entries 1;
  valid = one_free-IsPool;
  entries = refl;
  starts = refl;
  sized = refl;
  free = refl;
}

pkt_buf_alloc-Allocates_example : Allocates 100 2 0x200000 2048 (heap 1) (of_list (0 ∷ []))
pkt_buf_alloc-Allocates_example = pkt_buf_alloc-Allocates 100 2 0x200000 2048 one_free-Shows

none_free-Shows : Shows 100 2 0x200000 2048 (heap 0) (of_list [])
none_free-Shows = record {
  pool = two_entries 0;
  valid = none_free-IsPool;
  entries = refl;
  starts = refl;
  sized = refl;
  free = refl;
}

pkt_buf_free_any_order_example :
    (h₁ h₂ : Heap) × (both : Bag) × ((pkt_buf_free 0x200000 >> pkt_buf_free 0x200800) (heap 0)
      ≡ ok (tt, h₁))
    × ((pkt_buf_free 0x200800 >> pkt_buf_free 0x200000) (heap 0) ≡ ok (tt, h₂))
    × Shows 100 2 0x200000 2048 h₁ both
    × Shows 100 2 0x200000 2048 h₂ both
unfolding times
pkt_buf_free_any_order_example =
    pkt_buf_free_any_order 100 2 0x200000 2048 none_free-Shows 0 1 (omega arith) (omega arith)
      (λ e. omega (arith, e)) refl refl

-- Virtual addresses are mapped 0x300000 above themselves.
abbrev pub granting : Os
granting = record {
  page_size = 4096;
  pagemap = λ at. some (at / 8 + 0x300 + 2 ^ 63);
  open_huge = λ id. some 3;
  ftruncate = λ fd size. some 0;
  mmap = λ fd size. some 0x200000;
  mlock = λ virt size. some 0;
  malloc = λ n size. 100;
}

abbrev pub empty : Heap
empty = record { huge_pg_id = 0; mallocs = 0; pools = λ _. none; bufs = λ _. none }

round_up_2mb_bounds_example :
    (0x200001 ≤ round_up_2mb 0x200001)
    × (round_up_2mb 0x200001 < 0x200001 + 2 ^ 21)
    × (round_up_2mb 0x200001 % 2 ^ 21 ≡ 0)
round_up_2mb_bounds_example = round_up_2mb_bounds 0x200001 (omega arith)

memory_allocate_mempool-IsFullPool_example :
    (h' : Heap) × (m : Mempool) × (memory_allocate_mempool granting 2 0 empty ≡ ok (100, h'))
    × IsFullPool (record { virt = 0x200000; phy = 0x500000 }) 2 2048 h' 100 m
unfolding round_up_2mb memory_allocate_dma default_entry_size malloc virt_to_phys
memory_allocate_mempool-IsFullPool_example =
    memory_allocate_mempool-IsFullPool granting 2 0 100 empty (record empty { mallocs = 1 })
      (record empty { mallocs = 1; huge_pg_id = 1 }) (record { virt = 0x200000; phy = 0x500000 })
      (omega arith) (omega arith) refl (λ e. omega (arith, e)) refl
