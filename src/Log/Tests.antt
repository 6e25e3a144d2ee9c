-- ===== src/Log/Tests.antt =====
-- Two lines, the second of which is short.
use ixy.Base.{ℕ, ◌*◌, ◌%◌, ◌≡◌, arith, List, [], ◌++◌}
use ixy.Base.Outcome.{ok}
use ixy.Log.{hexdump}
use ixy.Log.Row.{bytes_at}
use ixy.Log.Reader.{undump, offset}
use ixy.Log.RoundTrip.{undump-hexdump}

abbrev memory : ℕ → ℕ
memory a = a * 13 % 256

undump-hexdump_example :
    (printed : List ℕ) × (hexdump 3 memory 19 [] ≡ ok (tt, [] ++ printed))
    × (undump offset printed ≡ bytes_at memory 0 19)
undump-hexdump_example =
    undump-hexdump memory (λ a. omega arith) 19 (omega arith) 2 [] (omega arith)
