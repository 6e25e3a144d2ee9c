-- ===== src/Allocator/Malloc/Tests.antt =====
-- A `malloc` that returns the address 0x1000 for its first call.
use ixy.Base.{ℕ, ◌+◌, ◌*◌, []}
use ixy.Allocator.{MemBlk}
use ixy.Allocator.Malloc.{Arena}

abbrev pub pages : ℕ → ℕ → ℕ
pages n size = 0x1000 + n * 0x100000

abbrev pub fresh : Arena
fresh = record { calls = 0; live = [] }

abbrev one_block : MemBlk
one_block = record { ptr = 0x1000; size = 64 }
