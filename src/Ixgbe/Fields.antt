-- ===== src/Ixgbe/Fields.antt =====
-- The `uint16_t` fields that share a word of a queue's struct.
use ixy.Base.{ℕ, ◌^◌, ◌<◌, ◌≡◌, arith}
use ixy.Ixgbe.Word.{get16, put16}

-- Writing one of the three fields changes it and no other.
pub put16_low :
    (w v : ℕ)
    → v < 2 ^ 16
    → (get16 16 (put16 16 w v) ≡ v)
      × (get16 0 (put16 16 w v) ≡ get16 0 w)
      × (get16 32 (put16 16 w v) ≡ get16 32 w)
put16_low w v h = (omega arith, omega arith, omega arith)

pub put16_high :
    (w v : ℕ)
    → v < 2 ^ 16
    → (get16 32 (put16 32 w v) ≡ v)
      × (get16 0 (put16 32 w v) ≡ get16 0 w)
      × (get16 16 (put16 32 w v) ≡ get16 16 w)
put16_high w v h = (omega arith, omega arith, omega arith)

-- A field written with what it has stays.
pub put16-get16 : (w : ℕ) → put16 16 w (get16 16 w) ≡ w
put16-get16 w = omega arith

-- A struct's first field, and its second set to 0 after it.
pub put16_first : (w v : ℕ) → v < 2 ^ 16 → get16 0 (put16 16 (put16 0 w v) 0) ≡ v
put16_first w v h = omega arith

pub put16_second : (w v : ℕ) → v < 2 ^ 16 → get16 16 (put16 16 (put16 0 w v) 0) ≡ 0
put16_second w v h = omega arith
