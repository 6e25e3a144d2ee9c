-- ===== src/Ixgbe/Tx/Clean.antt =====
-- What the loop of step 1 of `ixgbe_tx_packet` does, for a ring in a valid state.
use ixy.Base.{
  ℕ, zero, suc, ◌+◌, ◌*◌, ◌%◌, ◌≤◌, ◌<◌, ◌≡◌, ◌≢◌, refl, ap, sym, ◌∙◌, arith, Bool, true, false,
  not, List, [], ◌∷◌, map, bit_and, ◌==◌, if◌then◌else◌, ==_self, ==_ne, Bool-cases, inl, inr,
}
use ixy.Base.Outcome.{
  Outcome, Cmd, ok, and_then, ◌>>◌, pure, and_then-put_back, and_then-put_back-and_then,
}
use ixy.Memory.{Heap, pkt_buf_free}
use ixy.Regs.Bits.{advtxd_stat_dd}
use ixy.Ixgbe.{wb_status, sizeof_desc, Device, Machine, on_heap}
use ixy.Ixgbe.Ring.{IsRingSize, inc_and_wrap_ring_lem, indices, step-add, add-ne, add-zero}
use ixy.Ixgbe.Tx.{descriptors, num_entries, virtual_address, clean}

-- Frees buffers in order.
unfoldable pub free_all : List ℕ → Cmd Heap (Unit {0})
free_all [] = pure tt
free_all (b ∷ bs) = pkt_buf_free b >> free_all bs

-- Of the `k` entries from `c` on, how many are done before the first that is not.
unfoldable pub sent : (ℕ → Bool) → ℕ → ℕ → ℕ → ℕ
sent done n c zero = 0
sent done n c (suc k) = if done c then suc (sent done n ((c + 1) % n) k) else 0

sent_done :
    (done : ℕ → Bool) (n c k : ℕ)
    → done c ≡ true
    → sent done n c (suc k) ≡ suc (sent done n ((c + 1) % n) k)
unfolding sent
sent_done done n c k e = rw e

sent_zero : (done : ℕ → Bool) (n c : ℕ) → sent done n c 0 ≡ 0
unfolding sent
sent_zero done n c = refl

pub sent_waits : (done : ℕ → Bool) (n c k : ℕ) → done c ≡ false → sent done n c (suc k) ≡ 0
unfolding sent
sent_waits done n c k e = rw e

pub sent-le : (done : ℕ → Bool) (n c k : ℕ) → sent done n c k ≤ k
unfolding sent
sent-le done n c zero = omega arith
sent-le done n c (suc k) = ground (arith, sent-le done n ((c + 1) % n) k)

module _ (done : ℕ → Bool) (n : ℕ) where
  at_start : (c : ℕ) → c < n → done ((c + 0) % n) ≡ done c
  at_start c hc = ap done (add-zero n c hc)

  -- The entries counted are done.
  pub sent_are_done : (k c i : ℕ) → c < n → i < sent done n c k → done ((c + i) % n) ≡ true
  sent_are_done zero c i hc lt = absurd (omega (arith, sent_zero done n c))
  sent_are_done (suc k) c i hc lt = elim (Bool-cases (done c)) [
    | inl yes_done ↦
        counted_done k c i hc (rw (sent_done done n c k yes_done) at lt) yes_done
          (sent_are_done k ((c + 1) % n))
    | inr not_done ↦ absurd (omega (arith, sent_waits done n c k not_done))
  ]
    where
      counted_done :
          (k c i : ℕ)
          → c < n
          → i < suc (sent done n ((c + 1) % n) k)
          → done c ≡ true
          → ((i : ℕ)
              → (c + 1) % n < n
              → i < sent done n ((c + 1) % n) k
              → done (((c + 1) % n + i) % n) ≡ true)
          → done ((c + i) % n) ≡ true
      counted_done k c zero hc lt e later = at_start c hc ∙ e
      counted_done k c (suc i) hc lt e later =
          ap done (sym (step-add n c i)) ∙ later i (omega arith) (omega arith)

  -- The entry after them is not.
  pub next_is_not_done :
      (k c : ℕ) → c < n → sent done n c k < k → done ((c + sent done n c k) % n) ≡ false
  next_is_not_done zero c hc lt = absurd (omega arith)
  next_is_not_done (suc k) c hc lt = elim (Bool-cases (done c)) [
    | inl yes_done ↦
        let e = sent_done done n c k yes_done in
        rw e (
          ap done (sym (step-add n c (sent done n ((c + 1) % n) k)))
          ∙ next_is_not_done k ((c + 1) % n) (omega arith) (omega (arith, e)))
    | inr not_done ↦ rw (sent_waits done n c k not_done) (at_start c hc ∙ not_done)
  ]

-- The card has set the flag DD of the descriptor at an index.
abbrev pub is_done : Device → ℕ → ℕ → Bool
is_done dev q i = not (
    bit_and (wb_status (dev.tx_descs (descriptors dev.tx_queues q + i * sizeof_desc)))
      advtxd_stat_dd
    == 0)

-- The buffers of the `k` entries from `c` on.
abbrev pub pending : Device → ℕ → ℕ → ℕ → List ℕ
pending dev q c k =
    map (virtual_address dev.tx_queues q) (indices (num_entries dev.tx_queues q) c k)

-- Frees the buffers of the first `j` of the entries from `c` on, and returns the index after them.
abbrev pub free_sent : Device → ℕ → ℕ → ℕ → Cmd Machine ℕ
free_sent dev q c j =
    on_heap (free_all (pending dev q c j)) >> pure ((c + j) % num_entries dev.tx_queues q)

module _ (dev : Device) (q : ℕ) (size : IsRingSize (num_entries dev.tx_queues q)) where
  abbrev n : ℕ
  n = num_entries dev.tx_queues q

  -- No entry is freed.
  stop : (c : ℕ) (m : Machine) → c < n → pure c m ≡ free_sent dev q c 0 m
  unfolding free_all
  stop c m hc = ap (λ (x : ℕ). ok (x, m)) (sym (add-zero n c hc))

  -- One entry is freed, then others.
  free_sent-suc :
      (c j : ℕ) (h : Heap)
      → and_then
          (pkt_buf_free (virtual_address dev.tx_queues q c) h)
          (λ _ h'. free_sent dev q ((c + 1) % n) j (record { heap = h'; dev = dev }))
        ≡ free_sent dev q c (suc j) (record { heap = h; dev = dev })
  unfolding free_all
  free_sent-suc c j h =
      sym (
        and_then-put_back-and_then (λ h'. record { heap = h'; dev = dev })
          (pkt_buf_free (virtual_address dev.tx_queues q c) h)
          (λ _. free_all (pending dev q ((c + 1) % n) j)) (λ _. pure (((c + 1) % n + j) % n)))
      ∙ ap
          (λ (x : ℕ).
            (on_heap (free_all (pending dev q c (suc j))) >> pure x)
              (record { heap = h; dev = dev }))
          (step-add n c j)

  counted :
      (c : ℕ) (h : Heap) {j k : ℕ} {o : Outcome (ℕ × Machine)}
      → j ≡ k
      → o ≡ free_sent dev q c j (record { heap = h; dev = dev })
      → o ≡ free_sent dev q c k (record { heap = h; dev = dev })
  counted c h e p = p ∙ ap (λ j. free_sent dev q c j (record { heap = h; dev = dev })) e

  -- In a ring whose size is a power of two, with `k` entries in flight, fewer than the size, and
  -- more fuel than that, the loop that cleans the ring does what freeing the buffers of the entries
  -- done before the first that is not does, in order and no others, and stops at the index after
  -- them.
  pub clean_lem :
      (fuel k c t : ℕ) (h : Heap)
      → c < n
      → k < n
      → (c + k) % n ≡ t
      → k < fuel
      → clean fuel q c t (record { heap = h; dev = dev })
        ≡ free_sent dev q c (sent (is_done dev q) n c k) (record { heap = h; dev = dev })
  unfolding clean
  clean_lem zero k c t h hc hk e lt = absurd (omega arith)
  clean_lem (suc fuel) zero c t h hc hk e lt =
      let here : c ≡ t = sym (add-zero n c hc) ∙ e in
      rw (← here, ==_self c) (counted c h (sym (sent_zero (is_done dev q) n c)) (stop c _ hc))
  clean_lem (suc fuel) (suc k) c t h hc hk e lt =
      elim (Bool-cases (bit_and status advtxd_stat_dd == 0)) [
        | inl waits ↦
            rw (==_ne c t away, waits)
              (counted c h (sym (sent_waits (is_done dev q) n c k (ap not waits))) (stop c _ hc))
        | inr done ↦
            rw (==_ne c t away, done, inc_and_wrap_ring_lem c n size hc)
              (counted c h (sym (sent_done (is_done dev q) n c k (ap not done))) (
                and_then-put_back (λ h'. record { heap = h'; dev = dev }) first
                  (λ _. clean fuel q ((c + 1) % n) t)
                ∙ ap (and_then first) (λ i _ h'.
                  clean_lem fuel k ((c + 1) % n) t h' (omega arith) (omega arith)
                    (step-add n c k ∙ e) (omega arith) i)
                ∙ free_sent-suc c (sent (is_done dev q) n ((c + 1) % n) k) h))
      ]
    where
      status : ℕ
      status = wb_status (dev.tx_descs (descriptors dev.tx_queues q + c * sizeof_desc))

      away : c ≢ t
      away r = add-ne n c k hc hk (e ∙ sym r)

      first : Outcome (Unit {0} × Heap)
      first = pkt_buf_free (virtual_address dev.tx_queues q c) h
