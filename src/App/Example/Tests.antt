-- ===== src/App/Example/Tests.antt =====
-- The example in a process that has no memory in use, on a system whose pages are in a row.
use ixy.Base.{true, false, ℕ, ◌*◌, ◌<◌, ◌≤◌, ◌≡◌, refl, arith, [], Option, some}
use ixy.Base.Outcome.{ok}
use ixy.Memory.{Heap}
use ixy.Memory.Tests.{empty}
use ixy.Allocator.Dma.{round_size, rounds}
use ixy.Allocator.Dma.Tests.{paged, paged-Maps, paged-Consecutive}
use ixy.Allocator.Malloc.{Arena}
use ixy.Allocator.Malloc.Tests.{pages, fresh}
use ixy.Allocator.Spinlock.Tests.{flag, flag-IsSpinlock}
use ixy.App.Example.{run_example}
use ixy.App.Example.Dma.{GrantsBlock}
use ixy.App.Example.Runs.{run_example-returns}

abbrev unmapped : ℕ → ℕ → Option ℕ
unmapped p size = some 0

paged-GrantsBlock :
    (request : ℕ) (h : Heap)
    → 4096 ≤ round_size request
    → 0 < rounds (round_size request) 4096
    → rounds (round_size request) 4096 < 0xE00
    → GrantsBlock (paged 0x1000) unmapped request h
paged-GrantsBlock request h large some_page few = record {
  virt = 0x200000;
  base = 0x500000;
  maps = paged-Maps 0x1000 request h large;
  some_page = some_page;
  in_row = paged-Consecutive 0x1000 _ (omega (arith, few)) (omega (arith, few));
  freed = 0;
  unmaps = refl;
}

run_example-returns_example :
    (a' : Arena) × (run_example pages flag false (paged 0x1000) unmapped (fresh, empty)
      ≡ ok (tt, (a', record empty { huge_pg_id = 3 })))
    × (a'.live ≡ [])
unfolding round_size flag
run_example-returns_example =
    run_example-returns pages (λ k size e. omega (arith, e)) flag flag-IsSpinlock false true refl
      (paged 0x1000) unmapped
      (λ h. paged-GrantsBlock 4096 h (omega arith) (omega arith) (omega arith))
      (λ h. paged-GrantsBlock (4 * 1024 * 1024) h (omega arith) (omega arith) (omega arith))
      (λ h. paged-GrantsBlock (8 * 1024 * 1024) h (omega arith) (omega arith) (omega arith)) fresh
      empty
