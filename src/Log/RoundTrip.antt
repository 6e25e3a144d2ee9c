-- ===== src/Log/RoundTrip.antt =====
-- `hexdump` of src/log.h and the reader of its text: the lines one after the other.
use mathlib.Core.List.{append-nil, append_assoc}
use ixy.Base.{
  ℕ, zero, suc, ◌+◌, ◌-◌, ◌*◌, ◌%◌, ◌^◌, ◌≤◌, ◌<◌, ◌≡◌, refl, ap, ap₂, ◌∙◌, arith, Bool-cases,
  false, inl, inr, List, [], ◌∷◌, ◌++◌, ltb, ◌==◌, ltb→lt, lt→ltb, u32,
}
use ixy.Base.Outcome.{ok}
use ixy.Log.{hex6, columns, gap, padding, dump_line, dump_lines, hexdump}
use ixy.Log.Row.{bytes_at, hex6_digits, AreColumns, columns-AreColumns}
use ixy.Log.Reader.{undump, offset, column, undump-offset, undump-text, IsInLine}

padding-IsInLine : (left j : ℕ) → IsInLine (padding left j)
unfolding padding
padding-IsInLine zero j = tt
padding-IsInLine (suc left) j =
    let later = padding-IsInLine left (j + 1) in
    elim (Bool-cases (j % 2 == 0)) [
      | inl even ↦ rw even (ground arith, (ground arith, later))
      | inr odd ↦ rw odd (ground arith, (ground arith, (ground arith, later)))
    ]

append-IsInLine : (xs ys : List ℕ) → IsInLine xs → IsInLine ys → IsInLine (xs ++ ys)
append-IsInLine [] ys h k = k
append-IsInLine (x ∷ xs) ys h k = (h.0, append-IsInLine xs ys h.1 k)

-- The reader skips what stands behind the last byte of a line.
undump-padding :
    (left j from : ℕ) (ascii rest : List ℕ)
    → IsInLine ascii
    → undump (column from) (padding left j ++ (b' ' ∷ b' ' ∷ ascii) ++ (b'\n' ∷ rest))
      ≡ undump offset rest
unfolding undump padding
undump-padding zero j from ascii rest h = undump-text (b' ' ∷ ascii) rest (ground arith, h)
undump-padding (suc left) j from ascii rest h =
    let later =
      append-IsInLine (padding (suc left) j) (b' ' ∷ b' ' ∷ ascii) (padding-IsInLine (suc left) j)
        (ground arith, (ground arith, h)) in
    undump-text (b' ' ∷ gap j ++ padding left (j + 1) ++ (b' ' ∷ b' ' ∷ ascii)) rest later.1

bytes_at-append :
    (ptr : ℕ → ℕ) (n m a b k : ℕ)
    → b ≡ a + n
    → k ≡ n + m
    → bytes_at ptr a n ++ bytes_at ptr b m ≡ bytes_at ptr a k
bytes_at-append ptr zero m a b k e f = ap₂ (bytes_at ptr) (omega (arith, e)) (omega (arith, f))
bytes_at-append ptr (suc n) m a b k e f =
    let size : k ≡ suc (n + m) = omega (arith, f) in
    rw size
      (ap (λ bs. ptr a ∷ bs) (bytes_at-append ptr n m (a + 1) b (n + m) (omega (arith, e)) refl))

line_assoc :
    (a b c d rest : List ℕ)
    → a ++ (b':' ∷ b' ' ∷ []) ++ b ++ c ++ d ++ (b'\n' ∷ []) ++ rest
      ≡ a ++ (b':' ∷ b' ' ∷ (b ++ (c ++ d ++ (b'\n' ∷ rest))))
line_assoc a b c d rest = simp append_assoc

module _ (ptr : ℕ → ℕ) (bytes : (a : ℕ) → ptr a < 256) (len : ℕ) where
  undump-dump_line :
      (i n : ℕ) (rest : List ℕ) (small : i + 16 ≤ 2 ^ 32)
      → AreColumns ptr bytes len i small 16 0 n (columns ptr len i 16 0)
      → undump offset (dump_line ptr len i ++ rest) ≡ bytes_at ptr i n ++ undump offset rest
  unfolding dump_line
  undump-dump_line i n rest small row =
      let here : i + 0 ≡ i = omega arith in
      let line = columns ptr len i 16 0 in
      ap (undump offset) (line_assoc (hex6 i) _ _ _ rest)
      ∙ undump-offset (hex6 i) _ b' ' (hex6_digits i)
      ∙ row.reads _
      ∙ ap₂ (λ a back. bytes_at ptr a n ++ back) here
          (undump-padding (16 - line.stop) line.stop line.stop line.ascii rest row.in_line)

  -- The rounds from `i` on print text that is read as the bytes that are left.
  abbrev AreLines : ℕ → ℕ → List ℕ → Type 0
  AreLines fuel i out =
      (printed : List ℕ) × (dump_lines fuel ptr len i out ≡ ok (tt, out ++ printed))
      × (undump offset printed ≡ bytes_at ptr i (len - i))

  AreLines-end : (fuel i : ℕ) (out : List ℕ) → len ≤ i → AreLines (suc fuel) i out
  unfolding dump_lines undump
  AreLines-end fuel i out le =
      let done : ltb i len ≡ false = ground (arith, le) in
      let none_left : len - i ≡ 0 = omega (arith, le) in
      ([], rw (done, append-nil) refl, rw none_left refl)

  AreLines-step :
      (fuel i n : ℕ) (out : List ℕ) (small : i + 16 ≤ 2 ^ 32)
      → AreColumns ptr bytes len i small 16 0 n (columns ptr len i 16 0)
      → i < len
      → i + 16 < 2 ^ 32
      → AreLines fuel (i + 16) (out ++ dump_line ptr len i)
      → AreLines (suc fuel) i out
  unfolding dump_lines
  AreLines-step fuel i n out small row lt fits (later, e, read) =
      let same : u32 (i + 16) ≡ i + 16 = omega (arith, fits) in
      let left : bytes_at ptr i n ++ bytes_at ptr (i + 16) (len - (i + 16))
          ≡ bytes_at ptr i (len - i) =
        elim row.last [
          | inl whole ↦
              bytes_at-append ptr n _ i _ _ (omega (arith, whole))
                (omega (arith, whole, row.inside))
          | inr short ↦
              let none_left : len - (i + 16) ≡ 0 = omega (arith, short, row.fits) in
              rw (none_left, append-nil) (ap (bytes_at ptr i) (omega (arith, short)))
        ] in
      (
        dump_line ptr len i ++ later,
        rw (lt→ltb i len lt, same) (e ∙ ap (λ t. ok (tt, t)) (append_assoc out _ later)),
        undump-dump_line i n later small row ∙ ap (λ bs. bytes_at ptr i n ++ bs) read ∙ left,
      )

  module _ (small : len + 16 ≤ 2 ^ 32) where
    undump-dump_lines :
        (fuel i : ℕ) (out : List ℕ) → i < len + 16 → len ≤ i + fuel * 16 → AreLines (suc fuel) i out
    undump-dump_lines zero i out near enough = AreLines-end 0 i out (omega (arith, enough))
    undump-dump_lines (suc fuel) i out near enough = elim (Bool-cases (ltb i len)) [
      | inl more ↦
          let lt : i < len = ltb→lt i len more in
          let (n, row) =
            columns-AreColumns ptr bytes len i (omega (arith, lt, small)) 16 0 refl
              (omega (arith, lt)) in
          AreLines-step (suc fuel) i n out _ row lt (omega (arith, lt, small))
            (undump-dump_lines fuel (i + 16) _ (omega (arith, lt)) (omega (arith, enough)))
      | inr done ↦ AreLines-end (suc fuel) i out (ground (arith, done))
    ]

    -- `hexdump` of a memory of bytes ends, if its length is at most 2^32 - 16, after a round for
    -- every 16 bytes and one more, and the reader finds in what it prints the bytes, in order.
    pub undump-hexdump :
        (fuel : ℕ) (out : List ℕ)
        → len ≤ fuel * 16
        → (printed : List ℕ) × (hexdump (suc fuel) ptr len out ≡ ok (tt, out ++ printed))
          × (undump offset printed ≡ bytes_at ptr 0 len)
    undump-hexdump fuel out enough =
        let (printed, e, read) =
          undump-dump_lines fuel 0 out (omega arith) (omega (arith, enough)) in
        (printed, e, read ∙ ap (bytes_at ptr 0) (omega arith))
