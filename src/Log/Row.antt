-- ===== src/Log/Row.antt =====
-- `hexdump` of src/log.h: what the loops over the columns of a line print, as the reader finds it.
use mathlib.Core.List.{append_assoc}
use ixy.Base.{
  ℕ, zero, suc, ◌+◌, ◌/◌, ◌%◌, ◌^◌, ◌≤◌, ◌<◌, ◌≡◌, ◌≢◌, refl, ap, ◌∙◌, arith, Bool-cases, inl, inr,
  ◌⊎◌, List, [], ◌∷◌, ◌++◌, ltb, ltb→lt, u32, All,
}
use ixy.Log.{hex6, hex2, shown, gap, columns, Columns}
use ixy.Log.Reader.{undump, column, hex_digit_ne, undump-hex2, IsInLine}

-- The `n` bytes of a memory from `a` on.
abbrev pub bytes_at : (ℕ → ℕ) → ℕ → ℕ → List ℕ
bytes_at ptr a zero = []
bytes_at ptr a (suc n) = ptr a ∷ bytes_at ptr (a + 1) n

pub hex6_digits : (i : ℕ) → All (λ d. d ≢ b':') (hex6 i)
hex6_digits i =
    let ne = hex_digit_ne in
    let six : All (λ d. d ≢ b':')
        (hex2 (i / 2 ^ 16 % 256) ++ hex2 (i / 2 ^ 8 % 256) ++ hex2 (i % 256)) =
      (ne _, (ne _, (ne _, (ne _, (ne _, (ne _, tt)))))) in
    elim (Bool-cases (ltb i (2 ^ 24))) [
      | inl short ↦ rw short six
      | inr long ↦ rw long (elim (Bool-cases (ltb i (2 ^ 28))) [
        | inl seven ↦ rw seven (ne _, six)
        | inr eight ↦ rw eight (ne _, (ne _, six))
      ])
    ]

shown_ne : (v : ℕ) → shown v ≢ b'\n'
unfolding shown
shown_ne v = ground arith

row_assoc :
    (a b : ℕ) (c d rest : List ℕ)
    → (a ∷ b ∷ []) ++ c ++ d ++ rest ≡ (a ∷ b ∷ []) ++ c ++ (d ++ rest)
row_assoc a b c d rest = simp append_assoc

module _ (ptr : ℕ → ℕ) (bytes : (a : ℕ) → ptr a < 256) (len i : ℕ) (small : i + 16 ≤ 2 ^ 32) where
  -- `n` columns from `j` on are the bytes from `i + j` on, and the loop stops behind them.
  pub record AreColumns (left j n : ℕ) (row : Columns) : Type 0 where
    pub reads :
        (rest : List ℕ)
        → undump (column j) (row.printed ++ rest)
          ≡ bytes_at ptr (i + j) n ++ undump (column row.stop) rest
    pub in_line : IsInLine row.ascii
    pub fits : n ≤ left
    pub inside : i + j + n ≤ len
    pub last : (n ≡ left) ⊎ (i + j + n ≡ len)
    pub stops : row.stop ≡ j + n

  -- One more column in front.
  AreColumns-step :
      (left j n : ℕ) (row : Columns)
      → AreColumns left (j + 1) n row
      → AreColumns (suc left) j (suc n) (record {
        printed = hex2 (ptr (i + j)) ++ gap j ++ row.printed;
        ascii = shown (ptr (i + j)) ∷ row.ascii;
        stop = row.stop;
      })
  AreColumns-step left j n row later =
      let shift : i + (j + 1) ≡ i + j + 1 = omega arith in
      record {
        reads = λ rest.
            ap (undump (column j)) (row_assoc _ _ (gap j) row.printed rest)
            ∙ undump-hex2 (ptr (i + j)) j _ (bytes (i + j))
            ∙ ap (λ bs. ptr (i + j) ∷ bs) (later.reads rest ∙ rw shift refl);
        in_line = (shown_ne (ptr (i + j)), later.in_line);
        fits = omega (arith, later.fits);
        inside = omega (arith, later.inside);
        last = elim later.last [ inl e ↦ inl (omega (arith, e)) | inr e ↦ inr (omega (arith, e)) ];
        stops = omega (arith, later.stops);
      }

  AreColumns-none :
      (left j : ℕ)
      → i + j ≤ len
      → (0 ≡ left) ⊎ (i + j ≡ len)
      → AreColumns left j 0 (record { printed = []; ascii = []; stop = j })
  AreColumns-none left j le last = record {
    reads = λ rest. refl;
    in_line = tt;
    fits = omega arith;
    inside = omega arith;
    last = elim last [ inl e ↦ inl e | inr e ↦ inr (omega (arith, e)) ];
    stops = omega arith;
  }

  pub columns-AreColumns :
      (left j : ℕ)
      → left + j ≡ 16
      → i + j ≤ len
      → (n : ℕ) × AreColumns left j n (columns ptr len i left j)
  unfolding columns
  columns-AreColumns zero j e le = (0, AreColumns-none 0 j le (inl refl))
  columns-AreColumns (suc left) j e le =
      let same : u32 (i + j) ≡ i + j = omega (arith, small) in
      rw same (elim (Bool-cases (ltb (i + j) len)) [
        | inl more ↦
            let (n, later) =
              columns-AreColumns left (j + 1) (omega arith) (omega (arith, ltb→lt _ _ more)) in
            rw more (suc n, AreColumns-step left j n _ later)
        | inr done ↦ rw done (0, AreColumns-none (suc left) j le (inr (ground arith)))
      ])
