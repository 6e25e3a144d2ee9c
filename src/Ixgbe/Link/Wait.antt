-- ===== src/Ixgbe/Link/Wait.antt =====
-- `wait_for_link` ends whatever the card answers.
use ixy.Base.{
  ℕ, zero, suc, ◌-◌, ◌*◌, ◌≤◌, ◌<◌, ◌≡◌, ◌≢◌, ◌⊎◌, inl, inr, refl, ap, arith, ◌∷◌, u32, ◌==◌, ==_ne,
  lt→ltb, Bool-cases,
}
use native.Mathlib.Decide.{ℕ_discrete}
use ixy.Base.Outcome.{ok}
use ixy.Device.{Trace, Nic, read, sleep}
use ixy.Regs.{links}
use ixy.Ixgbe.Link.{link_speed, poll_interval, get_link_speed, poll_link, wait_for_link}

module _ (nic : Nic) where
  -- A read of LINKS, and the speed that it tells.
  abbrev pub looked : Trace → Trace
  looked t = read links (u32 (nic t links)) ∷ t

  abbrev pub speed_at : Trace → ℕ
  speed_at t = link_speed (u32 (nic t links))

  -- The trace after `k` polls that found no link.
  abbrev pub link_polls : ℕ → Trace → Trace
  link_polls zero t = t
  link_polls (suc k) t = link_polls k (sleep poll_interval ∷ looked t)

  -- The first look and the later ones.
  down_until :
      (t : Trace)
      → speed_at t ≡ 0
      → (k : ℕ) → ((j : ℕ) → j < k → speed_at (link_polls j (sleep poll_interval ∷ looked t)) ≡ 0)
      → (j : ℕ) → j < suc k
      → speed_at (link_polls j t) ≡ 0
  down_until t down k later zero lt = down
  down_until t down k later (suc j) lt = later j (omega arith)

  poll_link_lem :
      (left fuel : ℕ) (t : Trace)
      → left < fuel
      → (k : ℕ) × (k ≤ left)
        × (poll_link nic fuel (left * poll_interval) t ≡ ok (tt, looked (link_polls k t)))
        × ((j : ℕ) → j < k → speed_at (link_polls j t) ≡ 0)
        × ((k ≡ left) ⊎ (speed_at (link_polls k t) ≢ 0))
  unfolding poll_link
  poll_link_lem left zero t lt = absurd (omega arith)
  poll_link_lem zero (suc fuel) t lt = (
    zero,
    omega arith,
    elim (Bool-cases (speed_at t == 0)) [ inl e ↦ rw e refl | inr e ↦ rw e refl ],
    (λ j lt. absurd (omega arith)),
    inl refl,
  )
  poll_link_lem (suc left) (suc fuel) t lt = elim (ℕ_discrete (speed_at t) 0) [
    | yes down ↦
        let (k, le, run, downs, why) =
          poll_link_lem left fuel (sleep poll_interval ∷ looked t) (omega arith) in
        let shorter : suc left * poll_interval - poll_interval ≡ left * poll_interval =
          omega arith in
        (
          suc k,
          omega (arith, le),
          rw (down, lt→ltb 0 (suc left * poll_interval) (omega arith), shorter) run,
          down_until t down k downs,
          elim why [ inl e ↦ inl (ap suc e) | inr ne ↦ inr ne ],
        )
    | no up ↦ (zero, omega arith, rw (==_ne _ _ up) refl, (λ j lt. absurd (omega arith)), inr up)
  ]

  -- Whatever the card answers, `wait_for_link` returns, after at most 100 sleeps of 100 ms, with a
  -- read of LINKS before each and one after the last: the sleeps end at the first of these reads
  -- that tells a speed other than 0, or when there were 100. LINKS is then read once more.
  pub wait_for_link_lem :
      (t : Trace)
      → (k : ℕ) × (k ≤ 100)
        × (wait_for_link nic t ≡ ok (tt, looked (looked (link_polls k t))))
        × ((j : ℕ) → j < k → speed_at (link_polls j t) ≡ 0)
        × ((k ≡ 100) ⊎ (speed_at (link_polls k t) ≢ 0))
  unfolding wait_for_link get_link_speed
  wait_for_link_lem t =
      let (k, le, run, downs, why) = poll_link_lem 100 101 t (omega arith) in
      (k, le, rw run refl, downs, why)
