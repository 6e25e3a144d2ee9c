-- ===== src/Os.antt =====
-- What the code takes from the operating system and the C library. None of it is code of the
-- repository: it is a parameter of the functions that call it. `none` is a call that returned -1.
use ixy.Base.{ℕ, Option}

pub record Os : Type 0 where
  -- `sysconf(_SC_PAGESIZE)`.
  pub page_size : ℕ
  -- The 64-bit word at a byte offset of /proc/self/pagemap: `open`, `lseek` and `read`.
  pub pagemap : ℕ → Option ℕ
  -- `open` of the file of a huge page by the number in its path, `ftruncate`, `mmap` and `mlock`.
  pub open_huge : ℕ → Option ℕ
  pub ftruncate : ℕ → ℕ → Option ℕ
  pub mmap : ℕ → ℕ → Option ℕ
  pub mlock : ℕ → ℕ → Option ℕ
  -- What the n-th `malloc` or `calloc` of the process returns for a size: 0 is `NULL`.
  pub malloc : ℕ → ℕ → ℕ
