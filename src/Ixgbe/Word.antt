-- ===== src/Ixgbe/Word.antt =====
-- The 16-bit fields of a 64-bit word of memory.
use ixy.Base.{ℕ, ◌+◌, ◌%◌, ◌^◌, u16, ◌<<<◌, ◌>>>◌}

-- A `uint16_t` at bit `k` of a word.
abbrev pub get16 : ℕ → ℕ → ℕ
get16 k w = u16 (w >>> k)

abbrev pub put16 : ℕ → ℕ → ℕ → ℕ
put16 k w v = (w >>> (k + 16)) <<< (k + 16) + v <<< k + w % 2 ^ k
