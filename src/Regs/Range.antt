-- ===== src/Regs/Range.antt =====
-- The registers that the driver uses are aligned and in the part of the resource up to EEC, the last
-- of them, for queues up to 63.
use ixy.Base.{
  ℕ, ◌+◌, ◌*◌, ◌%◌, ◌≤◌, ◌<◌, ◌≡◌, arith, refl, if◌then◌else◌, ltb, leb, lt→ltb, Bool-cases, inl,
  inr, leb→le,
}
use ixy.Regs.{
  rdbal, rdbah, rdlen, rdh, rdt, rxdctl, srrctl, dca_rxctrl, rxpbsize, tdbal, tdbah, tdlen, tdh,
  tdt, txdctl, txpbsize,
}

-- The first byte behind EEC.
abbrev pub range_end : ℕ
range_end = 0x10014

pub record IsReg (reg : ℕ) : Type 0 where
  pub aligned : reg % 4 ≡ 0
  pub in_range : reg + 4 ≤ range_end

-- The registers of packet buffers 0 to 7.
pub rxpbsize-IsReg : (i : ℕ) → i < 8 → IsReg (rxpbsize i)
rxpbsize-IsReg i lt = record { aligned = omega arith; in_range = omega arith }

pub txpbsize-IsReg : (i : ℕ) → i < 8 → IsReg (txpbsize i)
txpbsize-IsReg i lt = record { aligned = omega arith; in_range = omega arith }

module _ (i : ℕ) (lt : i < 64) where
  -- Registers that are 0x40 apart, the first of them at `base`.
  spaced : (base : ℕ) → base % 4 ≡ 0 → base + 0xFC4 ≤ range_end → IsReg (base + i * 0x40)
  spaced base e h = record { aligned = omega arith; in_range = omega arith }

  lower :
      (base other : ℕ)
      → base % 4 ≡ 0
      → base + 0xFC4 ≤ range_end
      → IsReg (if ltb i 64 then base + i * 0x40 else other)
  lower base other e h = rw (lt→ltb i 64 lt) (spaced base e h)

  -- The first 16 of them are elsewhere, 4 bytes apart.
  moved :
      (low base other : ℕ)
      → low % 4 ≡ 0
      → low + 64 ≤ range_end
      → base % 4 ≡ 0
      → base + 0xFC4 ≤ range_end
      → IsReg (if leb i 15 then low + i * 4 else if ltb i 64 then base + i * 0x40 else other)
  moved low base other e h f k = elim (Bool-cases (leb i 15)) [
    | inl first ↦
        let small = leb→le i 15 first in
        rw first (record { aligned = omega arith; in_range = omega (arith, small) })
    | inr later ↦ rw later (lower base other f k)
  ]

  pub rdbal-IsReg : IsReg (rdbal i)
  rdbal-IsReg = lower _ _ refl (omega arith)

  pub rdbah-IsReg : IsReg (rdbah i)
  rdbah-IsReg = lower _ _ refl (omega arith)

  pub rdlen-IsReg : IsReg (rdlen i)
  rdlen-IsReg = lower _ _ refl (omega arith)

  pub rdh-IsReg : IsReg (rdh i)
  rdh-IsReg = lower _ _ refl (omega arith)

  pub rdt-IsReg : IsReg (rdt i)
  rdt-IsReg = lower _ _ refl (omega arith)

  pub rxdctl-IsReg : IsReg (rxdctl i)
  rxdctl-IsReg = lower _ _ refl (omega arith)

  pub srrctl-IsReg : IsReg (srrctl i)
  srrctl-IsReg = moved _ _ _ refl (omega arith) refl (omega arith)

  pub dca_rxctrl-IsReg : IsReg (dca_rxctrl i)
  dca_rxctrl-IsReg = moved _ _ _ refl (omega arith) refl (omega arith)

  pub tdbal-IsReg : IsReg (tdbal i)
  tdbal-IsReg = spaced _ refl (omega arith)

  pub tdbah-IsReg : IsReg (tdbah i)
  tdbah-IsReg = spaced _ refl (omega arith)

  pub tdlen-IsReg : IsReg (tdlen i)
  tdlen-IsReg = spaced _ refl (omega arith)

  pub tdh-IsReg : IsReg (tdh i)
  tdh-IsReg = spaced _ refl (omega arith)

  pub tdt-IsReg : IsReg (tdt i)
  tdt-IsReg = spaced _ refl (omega arith)

  pub txdctl-IsReg : IsReg (txdctl i)
  txdctl-IsReg = spaced _ refl (omega arith)
