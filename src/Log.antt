-- ===== src/Log.antt =====
-- `hexdump` of src/log.h. What it prints is the bytes that go to the standard output.
pub mod Reader
pub mod Row
pub mod RoundTrip
mod Tests
use ixy.Base.{
  ℕ, zero, suc, ◌+◌, ◌-◌, ◌/◌, ◌%◌, ◌^◌, Bool, List, [], ◌∷◌, ◌++◌, ◌&&◌, ltb, leb, ◌==◌,
  if◌then◌else◌, u32,
}
use ixy.Base.Outcome.{Cmd, hung, ◌>>◌, modify, pure}

-- A digit of "%x".
unfoldable pub hex_digit : ℕ → ℕ
hex_digit d = if ltb d 10 then b'0' + d else b'a' + (d - 10)

-- "%02x" of a byte.
abbrev pub hex2 : ℕ → List ℕ
hex2 v = hex_digit (v / 16) ∷ hex_digit (v % 16) ∷ []

-- The digits of "%06x" before the sixth from the right, of a `uint32_t`.
abbrev pub hex_front : ℕ → List ℕ
hex_front i =
    if ltb i (2 ^ 24)
    then []
    else if ltb i (2 ^ 28)
    then hex_digit (i / 2 ^ 24) ∷ []
    else hex2 (i / 2 ^ 24)

-- "%06x".
abbrev pub hex6 : ℕ → List ℕ
hex6 i = hex_front i ++ hex2 (i / 2 ^ 16 % 256) ++ hex2 (i / 2 ^ 8 % 256) ++ hex2 (i % 256)

-- `isprint` in the locale that a program starts with, and no function of the repository changes.
abbrev is_print : ℕ → Bool
is_print c = leb 32 c && leb c 126

-- What `ascii` shows for a byte.
unfoldable pub shown : ℕ → ℕ
shown v = if is_print v then v else b'.'

-- The space behind every second column.
abbrev pub gap : ℕ → List ℕ
gap j = if j % 2 == 0 then [] else b' ' ∷ []

-- What the first inner loop prints, what it writes to `ascii`, and the `j` that it stops at.
pub record Columns : Type 0 where
  pub printed : List ℕ
  pub ascii : List ℕ
  pub stop : ℕ

-- The first inner loop from `j` on; `left` is `16 - j`. `ptr` is the memory at `void_ptr`.
unfoldable pub columns : (ℕ → ℕ) → ℕ → ℕ → ℕ → ℕ → Columns
columns ptr len i zero j = record { printed = []; ascii = []; stop = j }
columns ptr len i (suc left) j =
    let rest = columns ptr len i left (j + 1) in
    let byte = ptr (u32 (i + j)) in
    if ltb (u32 (i + j)) len
    then record {
      printed = hex2 byte ++ gap j ++ rest.printed;
      ascii = shown byte ∷ rest.ascii;
      stop = rest.stop;
    }
    else record { printed = []; ascii = []; stop = j }

-- The second inner loop from `j` on, under its guard; `left` is `16 - j`.
unfoldable pub padding : ℕ → ℕ → List ℕ
padding zero j = []
padding (suc left) j = b' ' ∷ b' ' ∷ gap j ++ padding left (j + 1)

-- A round of the outer loop.
unfoldable pub dump_line : (ℕ → ℕ) → ℕ → ℕ → List ℕ
dump_line ptr len i =
    let row = columns ptr len i 16 0 in
    hex6 i
    ++ (b':' ∷ b' ' ∷ [])
    ++ row.printed
    ++ padding (16 - row.stop) row.stop
    ++ (b' ' ∷ b' ' ∷ row.ascii)
    ++ (b'\n' ∷ [])

-- The outer loop from `i` on. The state is what was printed.
unfoldable pub dump_lines : ℕ → (ℕ → ℕ) → ℕ → ℕ → Cmd (List ℕ) (Unit {0})
dump_lines zero ptr len i = λ _. hung
dump_lines (suc fuel) ptr len i =
    let rest = dump_lines fuel ptr len (u32 (i + 16)) in
    if ltb i len then modify (λ out. out ++ dump_line ptr len i) >> rest else pure tt

abbrev pub hexdump : ℕ → (ℕ → ℕ) → ℕ → Cmd (List ℕ) (Unit {0})
hexdump fuel ptr len = dump_lines fuel ptr len 0
