-- ===== src/Ixgbe/Tx/Queue.antt =====
-- The struct of a transmit queue as its four fields, and what the writes of `ixgbe_tx_packet` do
-- to them.
use ixy.Base.{
  ℕ, zero, suc, ◌+◌, ◌%◌, ◌^◌, ◌<◌, ◌≡◌, ◌≢◌, refl, ap, ap₂, sym, ◌∙◌, arith, ◌∷◌, map, update,
  update_self, update_ne,
}
use native.Mathlib.Nat.{mod-eq_of_lt}
use ixy.Ixgbe.{get16}
use ixy.Ixgbe.Fields.{put16_low, put16_high}
use ixy.Ixgbe.Ring.{indices, step-add}
use ixy.Ixgbe.Tx.{
  tx_queue_at, descriptors, num_entries, clean_index, tx_index, virtual_address, virtual_address_at,
  set_clean_index, set_tx_index, set_virtual_address,
}

-- The fields of the struct at `q`.
pub record HasFields (w : ℕ → ℕ) (q d n c t : ℕ) : Type 0 where
  pub descs : descriptors w q ≡ d
  pub num : num_entries w q ≡ n
  pub clean : clean_index w q ≡ c
  pub tail : tx_index w q ≡ t

module _ (w : ℕ → ℕ) (q : ℕ) {d n c t : ℕ} (f : HasFields w q d n c t) where
  pub set_clean_index-HasFields : (v : ℕ) → v < 2 ^ 16 → HasFields (set_clean_index w q v) q d n v t
  set_clean_index-HasFields v small =
      let self = update_self w (tx_queue_at q + 1) _ in
      let put = put16_low (w (tx_queue_at q + 1)) v small in
      record {
        descs = update_ne w _ _ _ (omega arith) ∙ f.descs;
        num = ap (get16 0) self ∙ put.1 ∙ f.num;
        clean = ap (get16 16) self ∙ put.0;
        tail = ap (get16 32) self ∙ put.2 ∙ f.tail;
      }

  pub set_tx_index-HasFields : (v : ℕ) → v < 2 ^ 16 → HasFields (set_tx_index w q v) q d n c v
  set_tx_index-HasFields v small =
      let self = update_self w (tx_queue_at q + 1) _ in
      let put = put16_high (w (tx_queue_at q + 1)) v small in
      record {
        descs = update_ne w _ _ _ (omega arith) ∙ f.descs;
        num = ap (get16 0) self ∙ put.1 ∙ f.num;
        clean = ap (get16 16) self ∙ put.2 ∙ f.clean;
        tail = ap (get16 32) self ∙ put.0;
      }

  pub set_virtual_address-HasFields : (i p : ℕ) → HasFields (set_virtual_address w q i p) q d n c t
  set_virtual_address-HasFields i p =
      let word = update_ne w (virtual_address_at w q i) (tx_queue_at q + 1) p (omega arith) in
      record {
        descs = update_ne w _ _ _ (omega arith) ∙ f.descs;
        num = ap (get16 0) word ∙ f.num;
        clean = ap (get16 16) word ∙ f.clean;
        tail = ap (get16 32) word ∙ f.tail;
      }

module _ (w : ℕ → ℕ) (q : ℕ) where
  -- Writes to the fields leave the array.
  pub virtual_address-set_index :
      (v i : ℕ) → virtual_address (update w (tx_queue_at q + 1) v) q i ≡ virtual_address w q i
  virtual_address-set_index v i = update_ne w _ _ v (omega arith)

  pub virtual_address-set_self : (i p : ℕ) → virtual_address (set_virtual_address w q i p) q i ≡ p
  virtual_address-set_self i p = update_self w _ p

  pub virtual_address-set_ne :
      (i j p : ℕ)
      → j ≢ i
      → virtual_address (set_virtual_address w q i p) q j ≡ virtual_address w q j
  virtual_address-set_ne i j p h = update_ne w _ _ p (λ e. h (omega arith))

-- Two arrays that agree on the indices hold the same buffers.
pub map-indices :
    (f g : ℕ → ℕ) (n c k : ℕ)
    → c < n
    → ((j : ℕ) → j < k → f ((c + j) % n) ≡ g ((c + j) % n))
    → map f (indices n c k) ≡ map g (indices n c k)
map-indices f g n c zero hc h = refl
map-indices f g n c (suc k) hc h =
    let here : (c + 0) % n ≡ c = ap (λ x. x % n) (omega arith) ∙ mod-eq_of_lt hc in
    ap₂ ◌∷◌ (ap f (sym here) ∙ h 0 (omega arith) ∙ ap g here) (
      map-indices f g n ((c + 1) % n) k (omega arith)
        (λ j lt. ap f (step-add n c j) ∙ h (suc j) (omega arith) ∙ ap g (sym (step-add n c j))))
