-- ===== src/Cpp/Agrees/Packets.antt =====
-- `rx_packet` and `tx_packet` of src/driver/ixgbe.cpp and of src/driver/ixgbe.c.
use ixy.Base.{ℕ, zero, suc, ◌+◌, ◌*◌, ◌≡◌, refl, ap, bit_and, ◌==◌, Bool-cases, inl, inr}
use ixy.Base.Outcome.{and_then}
use ixy.Memory.{pkt_buf_free}
use ixy.Device.{set_reg32}
use ixy.Regs.Bits.{advtxd_stat_dd, rxdadv_stat_dd, rxdadv_stat_eop}
use ixy.Ixgbe.{wb_status, status_error, sizeof_desc, Machine, on_heap}
use ixy.Ixgbe.Ring.{inc_and_wrap_ring}
use ixy.Ixgbe.Rx.{descriptors, rx_index, rx_packet, take_packet}
use ixy.Ixgbe.Tx.{
  descriptors as tx_descriptors, num_entries, virtual_address, clean, enqueue, tx_packet, tx_desc,
  cmd_type_len,
}
use ixy.Cpp.Registers.{set_reg32 as cpp_set_reg32}
use ixy.Cpp.Rx.{
  rx_packet as cpp_rx_packet, take_packet as cpp_take_packet,
  inc_and_wrap_ring as cpp_inc_and_wrap_ring,
}
use ixy.Cpp.Tx.{
  clean as cpp_clean, enqueue as cpp_enqueue, tx_packet as cpp_tx_packet, tx_desc as cpp_tx_desc,
}

rx_packet-rx_packet : (q : ℕ) (m : Machine) → cpp_rx_packet q m ≡ rx_packet q m
unfolding cpp_rx_packet rx_packet cpp_take_packet take_packet cpp_inc_and_wrap_ring
    inc_and_wrap_ring cpp_set_reg32 set_reg32
rx_packet-rx_packet q m = elim (Bool-cases (bit_and status rxdadv_stat_dd == 0)) [
  | inl idle ↦ rw idle refl
  | inr done ↦ elim (Bool-cases (bit_and status rxdadv_stat_eop == 0)) [
    | inl part ↦ rw (done, part) refl
    | inr whole ↦ rw (done, whole) refl
  ]
]
  where
    status : ℕ
    status =
        status_error (
          m.dev.rx_descs (descriptors m.dev.rx_queues q + rx_index m.dev.rx_queues q * sizeof_desc))

clean-clean : (fuel q c t : ℕ) (m : Machine) → cpp_clean fuel q c t m ≡ clean fuel q c t m
unfolding cpp_clean clean cpp_inc_and_wrap_ring inc_and_wrap_ring
clean-clean zero q c t m = refl
clean-clean (suc fuel) q c t m = elim (Bool-cases (c == t)) [
  | inl here ↦ rw here refl
  | inr away ↦ elim (Bool-cases (bit_and status advtxd_stat_dd == 0)) [
    | inl waits ↦ rw (away, waits) refl
    | inr done ↦
        rw (away, done)
          (ap (and_then (on_heap (pkt_buf_free (virtual_address m.dev.tx_queues q c)) m))
            (λ i _ m'. clean-clean fuel q next t m' i))
  ]
]
  where
    next : ℕ
    next = inc_and_wrap_ring c (num_entries m.dev.tx_queues q)

    status : ℕ
    status = wb_status (m.dev.tx_descs (tx_descriptors m.dev.tx_queues q + c * sizeof_desc))

same_clean : cpp_clean ≡ clean
same_clean i fuel q c t m = clean-clean fuel q c t m i

tx_packet-tx_packet : (q buf : ℕ) (m : Machine) → cpp_tx_packet q buf m ≡ tx_packet q buf m
unfolding cpp_tx_packet tx_packet cpp_inc_and_wrap_ring inc_and_wrap_ring enqueue cpp_enqueue
    set_reg32 cpp_set_reg32 tx_desc cpp_tx_desc cmd_type_len
tx_packet-tx_packet q buf m = rw same_clean refl

-- For every state, queue and packet, the C++ `rx_packet` and `tx_packet` have the outcome of the C
-- functions and leave the same state.
pub packets_agree :
    (q buf : ℕ) (m : Machine)
    → (cpp_rx_packet q m ≡ rx_packet q m) × (cpp_tx_packet q buf m ≡ tx_packet q buf m)
packets_agree q buf m = (rx_packet-rx_packet q m, tx_packet-tx_packet q buf m)
