-- ===== src/Ixgbe/Start/Firsts.antt =====
-- Which buffers a receive queue gets from a new pool.
use ixy.Base.{
  ℕ, zero, suc, ◌+◌, ◌-◌, ◌*◌, ◌≤◌, ◌<◌, ◌≡◌, refl, ap, arith, List, [], ◌∷◌, ◌++◌, length,
}
use ixy.Memory.{DmaMemory}
use ixy.Memory.New.{countdown}
use ixy.Ixgbe.{RxDesc, sizeof_desc}
use ixy.Ixgbe.Rx.{virtual_address}
use ixy.Ixgbe.Start.Fill.{AreFilled, fresh_desc}

-- The first `k` of `n - 1`, …, 0.
unfoldable pub firsts : ℕ → ℕ → List ℕ
firsts zero n = []
firsts (suc k) zero = []
firsts (suc k) (suc n) = n ∷ firsts k n

pub countdown-firsts :
    (k r n : ℕ) → n ≡ k + r → (countdown n ≡ firsts k n ++ countdown r) × (length (firsts k n) ≡ k)
unfolding firsts
countdown-firsts zero r n e = (ap countdown (omega arith), refl)
countdown-firsts (suc k) r zero e = absurd (omega arith)
countdown-firsts (suc k) r (suc n) e =
    let (split, count) = countdown-firsts k r n (omega arith) in
    (ap (λ xs. n ∷ xs) split, ap suc count)

-- Position `i + j` has the entry that is `j` below the last one.
pub firsts-AreFilled :
    (mem : DmaMemory) (size q ring : ℕ) (words : ℕ → ℕ) (descs : ℕ → RxDesc) (k n i j : ℕ)
    → AreFilled mem size q ring words descs i (firsts k n)
    → j < k
    → k ≤ n
    → (virtual_address words q (i + j) ≡ mem.virt + (n - 1 - j) * size)
      × (descs (ring + (i + j) * sizeof_desc) ≡ fresh_desc (mem.phy + (n - 1 - j) * size))
unfolding firsts
firsts-AreFilled mem size q ring words descs zero n i j f lt le = absurd (omega arith)
firsts-AreFilled mem size q ring words descs (suc k) zero i j f lt le = absurd (omega arith)
firsts-AreFilled mem size q ring words descs (suc k) (suc n) i zero (a, d, f) lt le =
    let here : i + 0 ≡ i = omega arith in
    let last : suc n - 1 - 0 ≡ n = omega arith in rw (here, last) (a, d)
firsts-AreFilled mem size q ring words descs (suc k) (suc n) i (suc j) (a, d, f) lt le =
    let here : i + suc j ≡ i + 1 + j = omega arith in
    let below : suc n - 1 - suc j ≡ n - 1 - j = omega arith in
    rw (here, below)
      (firsts-AreFilled mem size q ring words descs k n (i + 1) j f (omega arith) (omega arith))
