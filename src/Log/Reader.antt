-- ===== src/Log/Reader.antt =====
-- A reader of the text of src/log.h's `hexdump`, like `xxd -r`: it finds the bytes by the hexadecimal
-- columns, and does not use the offsets or the characters beside them.
use ixy.Base.{
  ℕ, ◌+◌, ◌-◌, ◌*◌, ◌/◌, ◌%◌, ◌<◌, ◌≡◌, ◌∙◌, refl, arith, inl, inr, Bool-cases, ==_ne, ◌≢◌, All,
  List, [], ◌∷◌, ◌++◌, ltb, ◌==◌, if◌then◌else◌,
}
use ixy.Log.{hex_digit, hex2, gap}

-- Where the reader is in a line: in the offset, behind its colon, before column `j` or a space, in
-- that column behind its first digit, at a gap before column `j`, or behind the columns.
pub data Mode : Type 0 where
  offset blank : Mode
  column : (j : ℕ) → Mode
  second : (j high : ℕ) → Mode
  at_gap : (j : ℕ) → Mode
  text : Mode

digit_value : ℕ → ℕ
digit_value c = if ltb c b'a' then c - b'0' else c - b'a' + 10

abbrev next : Mode → ℕ → Mode
next offset c = if c == b':' then blank else offset
next blank c = column 0
next (column j) c = if c == b' ' then text else second j (digit_value c)
next (second j high) c = if j % 2 == 0 then column (j + 1) else at_gap (j + 1)
next (at_gap j) c = column j
next text c = if c == b'\n' then offset else text

abbrev byte_before : Mode → ℕ → List ℕ → List ℕ
byte_before (second j high) c rest = (high * 16 + digit_value c) ∷ rest
byte_before _ c rest = rest

unfoldable pub undump : Mode → List ℕ → List ℕ
unfolding digit_value
undump m [] = []
undump m (c ∷ cs) = byte_before m c (undump (next m c) cs)

digit_value-hex_digit : (d : ℕ) → d < 16 → digit_value (hex_digit d) ≡ d
unfolding hex_digit digit_value
digit_value-hex_digit d lt = ground arith

pub hex_digit_ne : (d : ℕ) → hex_digit d ≢ b':'
unfolding hex_digit
hex_digit_ne d = ground arith

pub undump-offset :
    (cs rest : List ℕ) (c : ℕ)
    → All (λ d. d ≢ b':') cs
    → undump offset (cs ++ (b':' ∷ c ∷ rest)) ≡ undump (column 0) rest
unfolding undump
undump-offset [] rest c h = refl
undump-offset (d ∷ cs) rest c h = rw (==_ne d b':' h.0) (undump-offset cs rest c h.1)

-- The reader reads a byte, and the gap behind it.
module _ (v j : ℕ) (rest : List ℕ) (lt : v < 256) where
  undump_first :
      (cs : List ℕ) → undump (column j) (hex_digit (v / 16) ∷ cs) ≡ undump (second j (v / 16)) cs
  unfolding undump hex_digit digit_value
  undump_first cs = ground arith

  undump_second :
      undump (second j (v / 16)) (hex_digit (v % 16) ∷ gap j ++ rest)
      ≡ v ∷ undump (column (j + 1)) rest
  unfolding undump
  undump_second =
      let value : v / 16 * 16 + digit_value (hex_digit (v % 16)) ≡ v =
        rw (digit_value-hex_digit (v % 16) (omega arith)) (omega arith) in
      rw value (elim (Bool-cases (j % 2 == 0)) [ inl even ↦ rw even refl | inr odd ↦ rw odd refl ])

  pub undump-hex2 : undump (column j) (hex2 v ++ gap j ++ rest) ≡ v ∷ undump (column (j + 1)) rest
  undump-hex2 = undump_first _ ∙ undump_second

-- No byte of a list ends the line.
abbrev pub IsInLine : List ℕ → Type 0
IsInLine cs = All (λ c. c ≢ b'\n') cs

pub undump-text :
    (cs rest : List ℕ) → IsInLine cs → undump text (cs ++ (b'\n' ∷ rest)) ≡ undump offset rest
unfolding undump
undump-text [] rest h = refl
undump-text (c ∷ cs) rest h = rw (==_ne c b'\n' h.0) (undump-text cs rest h.1)
