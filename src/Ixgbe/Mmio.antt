-- ===== src/Ixgbe/Mmio.antt =====
-- The driver of src/driver/ixgbe.c accesses aligned registers in the mapped resource only: the
-- commands of src/driver/device.h, and those that only access registers.
pub mod Init
pub mod Start
pub mod Packets
pub mod Session
mod Tests
use ixy.Base.{
  if◌then◌else◌, ℕ, zero, suc, ◌+◌, ◌-◌, ◌%◌, ◌≤◌, ◌<◌, ◌==◌, ◌&&◌, ltb, bit_and, if◌then◌else◌,
  refl, arith, Bool, true, false, Option, [], ◌∷◌,
}
use mathlib.Core.Path.{◌≡◌, subst, sym}
use ixy.Base.Outcome.{Outcome, Cmd, ok, aborted, hung, and_then}
use ixy.Base.Keeps.{
  and_then-cases, put_back-cases, Keeps, bind-Keeps, then-Keeps, pure-Keeps, if-Keeps,
}
use ixy.Device.{
  Trace, Nic, Access, read, write, sleep, get_reg32, set_reg32, set_flags32, clear_flags32, usleep,
  wait_set_reg32, wait_clear_reg32,
}
use ixy.Memory.{Heap}
use ixy.Regs.Range.{IsReg, range_end}
use ixy.Ixgbe.{Machine, on_regs, on_heap, with_trace}
use ixy.Ixgbe.Link.{
  get_link_speed, init_link, set_promisc, max_wait, poll_interval, poll_link, wait_for_link,
}
use ixy.Ixgbe.Stats.{DeviceStats, read_stats}
use ixy.Regs.{autoc, links, fctrl, gprc, gptc, gorcl, gorch, gotcl, gotch}

-- All accesses are of registers.
abbrev pub AreRegs : Trace → Type 0
AreRegs [] = Unit
AreRegs (read reg value ∷ t) = IsReg reg × AreRegs t
AreRegs (write reg value ∷ t) = IsReg reg × AreRegs t
AreRegs (sleep us ∷ t) = AreRegs t

-- A command that makes these accesses and then returns.
returned :
    {A : Type 0} {t' : Trace} (s : Trace) (a b : A)
    → AreRegs s
    → ◌≡◌ {A = Outcome (A × Trace)} (ok (a, s)) (ok (b, t'))
    → AreRegs t'
returned {t'} s a b h e = let same : s ≡ t' = cc (e) in subst AreRegs same h

pub set_reg32-Keeps : (reg value : ℕ) → IsReg reg → Keeps AreRegs (set_reg32 reg value)
unfolding set_reg32
set_reg32-Keeps reg value r = record { on = λ s s' b p e. returned _ _ b (r, p) e }

pub usleep-Keeps : (us : ℕ) → Keeps AreRegs (usleep us)
unfolding usleep
usleep-Keeps us = record { on = λ s s' b p e. returned _ _ b p e }

module _ (nic : Nic) where
  pub get_reg32-Keeps : (reg : ℕ) → IsReg reg → Keeps AreRegs (get_reg32 nic reg)
  unfolding get_reg32
  get_reg32-Keeps reg r = record { on = λ s s' b p e. returned _ _ b (r, p) e }

  pub set_flags32-Keeps : (reg flags : ℕ) → IsReg reg → Keeps AreRegs (set_flags32 nic reg flags)
  unfolding set_flags32
  set_flags32-Keeps reg flags r = record { on = λ s s' b p e. returned _ _ b (r, (r, p)) e }

  pub clear_flags32-Keeps :
      (reg flags : ℕ) → IsReg reg → Keeps AreRegs (clear_flags32 nic reg flags)
  unfolding clear_flags32
  clear_flags32-Keeps reg flags r = record { on = λ s s' b p e. returned _ _ b (r, (r, p)) e }

  pub wait_set_reg32-Keeps :
      (fuel reg mask : ℕ) → IsReg reg → Keeps AreRegs (wait_set_reg32 nic fuel reg mask)
  unfolding wait_set_reg32
  wait_set_reg32-Keeps zero reg mask r = record { on = λ s s' b p e. absurd (cc (e)) }
  wait_set_reg32-Keeps (suc fuel) reg mask r = bind-Keeps AreRegs _ _ (get_reg32-Keeps reg r) λ cur.
      if-Keeps AreRegs (bit_and cur mask == mask) _ _ (pure-Keeps AreRegs tt)
        (then-Keeps AreRegs _ _ (usleep-Keeps 10000) (wait_set_reg32-Keeps fuel reg mask r))

  pub wait_clear_reg32-Keeps :
      (fuel reg mask : ℕ) → IsReg reg → Keeps AreRegs (wait_clear_reg32 nic fuel reg mask)
  unfolding wait_clear_reg32
  wait_clear_reg32-Keeps zero reg mask r = record { on = λ s s' b p e. absurd (cc (e)) }
  wait_clear_reg32-Keeps (suc fuel) reg mask r =
      bind-Keeps AreRegs _ _ (get_reg32-Keeps reg r) λ cur.
        if-Keeps AreRegs (bit_and cur mask == 0) _ _ (pure-Keeps AreRegs tt)
          (then-Keeps AreRegs _ _ (usleep-Keeps 10000) (wait_clear_reg32-Keeps fuel reg mask r))

  links-IsReg : IsReg links
  links-IsReg = record { aligned = refl; in_range = omega arith }

  autoc-IsReg : IsReg autoc
  autoc-IsReg = record { aligned = refl; in_range = omega arith }

  fctrl-IsReg : IsReg fctrl
  fctrl-IsReg = record { aligned = refl; in_range = omega arith }

  pub get_link_speed-Keeps : Keeps AreRegs (get_link_speed nic)
  unfolding get_link_speed
  get_link_speed-Keeps = record { on = λ s s' b p e. returned _ _ b (links-IsReg, p) e }

  pub init_link-Keeps : Keeps AreRegs (init_link nic)
  unfolding init_link set_flags32
  init_link-Keeps =
      let r = autoc-IsReg in
      record { on = λ s s' b p e. returned _ _ b (r, (r, (r, (r, (r, (r, p)))))) e }

  pub set_promisc-Keeps : (enabled : Bool) → Keeps AreRegs (set_promisc nic enabled)
  unfolding set_promisc
  set_promisc-Keeps true = set_flags32-Keeps _ _ fctrl-IsReg
  set_promisc-Keeps false = clear_flags32-Keeps _ _ fctrl-IsReg

  poll_link-Keeps : (fuel wait : ℕ) → Keeps AreRegs (poll_link nic fuel wait)
  unfolding poll_link
  poll_link-Keeps zero wait = record { on = λ s s' b p e. absurd (cc (e)) }
  poll_link-Keeps (suc fuel) wait = bind-Keeps AreRegs _ _ get_link_speed-Keeps λ speed.
      if-Keeps AreRegs (speed == 0 && ltb 0 wait) _ _
        (then-Keeps AreRegs _ _ (usleep-Keeps poll_interval)
          (poll_link-Keeps fuel (wait - poll_interval)))
        (pure-Keeps AreRegs tt)

  pub wait_for_link-Keeps : Keeps AreRegs (wait_for_link nic)
  unfolding wait_for_link
  wait_for_link-Keeps =
      then-Keeps AreRegs _ _ (poll_link-Keeps 101 max_wait)
        (bind-Keeps AreRegs _ _ get_link_speed-Keeps λ speed. pure-Keeps AreRegs tt)

  pub read_stats-Keeps : (stats : Option DeviceStats) → Keeps AreRegs (read_stats nic stats)
  unfolding read_stats
  read_stats-Keeps stats =
      let r : (reg : ℕ) → reg % 4 ≡ 0 → reg + 4 ≤ range_end → IsReg reg =
        λ reg a b. record { aligned = a; in_range = b } in
      record {
        on = λ s s' b p e.
            returned _ _ b
              (
                r gotch refl (omega arith),
                (
                  r gotcl refl (omega arith),
                  (
                    r gorch refl (omega arith),
                    (
                      r gorcl refl (omega arith),
                      (r gptc refl (omega arith), (r gprc refl (omega arith), p)),
                    ),
                  ),
                ),
              )
              e;
      }

-- At most 64 queues of each kind, and accesses of registers only.
pub record IsSafe (m : Machine) : Type 0 where
  pub rx : m.dev.num_rx_queues ≤ 64
  pub tx : m.dev.num_tx_queues ≤ 64
  pub regs : AreRegs m.dev.trace

-- Every state in which an outcome returns is safe.
pub record Leaves {A : Type 0} (o : Outcome (A × Machine)) : Type 0 where
  pub on : (a : A) (m : Machine) → o ≡ ok (a, m) → IsSafe m

pub Leaves-ok : {A : Type 0} (a : A) (m : Machine) → IsSafe m → Leaves (ok (a, m))
Leaves-ok a m s = record { on = λ b m' e. let same : m ≡ m' = cc (e) in subst IsSafe same s }

pub Leaves-abort : {A : Type 0} → Leaves {A = A} aborted
Leaves-abort = record { on = λ b m' e. absurd (cc (e)) }

pub Leaves-hung : {A : Type 0} → Leaves {A = A} hung
Leaves-hung = record { on = λ b m' e. absurd (cc (e)) }

pub Leaves-then :
    {A B : Type 0} (o : Outcome (A × Machine)) (f : A → Cmd Machine B)
    → Leaves o
    → ((a : A) (m : Machine) → IsSafe m → Leaves (f a m))
    → Leaves (and_then o f)
Leaves-then o f l next = record {
  on = λ b m' e.
      let (a, m, first, rest) = and_then-cases o f e in (next a m (l.on a m first)).on b m' rest;
}

-- A command on the registers or on the heap, and what follows it.
pub regs_step :
    {A B : Type 0} (c : Cmd Trace A) (f : A → Cmd Machine B) (m : Machine)
    → Keeps AreRegs c
    → AreRegs m.dev.trace
    → ((a : A) (t : Trace) → AreRegs t → Leaves (f a (with_trace m t)))
    → Leaves (and_then (on_regs c m) f)
regs_step c f m k h next = record {
  on = λ b m' e.
      let (a, m1, first, rest) = and_then-cases (on_regs c m) f e in
      let (t, run, same) = put_back-cases (with_trace m) (c m.dev.trace) first in
      (next a t (k.on m.dev.trace t a h run)).on b m' (rw same at rest);
}

pub regs_end :
    {A : Type 0} (c : Cmd Trace A) (m : Machine)
    → Keeps AreRegs c
    → AreRegs m.dev.trace
    → ((t : Trace) → AreRegs t → IsSafe (with_trace m t))
    → Leaves (on_regs c m)
regs_end c m k h next = record {
  on = λ a m' e.
      let (t, run, same) = put_back-cases (with_trace m) (c m.dev.trace) e in
      subst IsSafe (sym same) (next t (k.on m.dev.trace t a h run));
}

pub heap_step :
    {A B : Type 0} (c : Cmd Heap A) (f : A → Cmd Machine B) (m : Machine)
    → ((a : A) (h : Heap) → Leaves (f a (record m { heap = h })))
    → Leaves (and_then (on_heap c m) f)
heap_step c f m next = record {
  on = λ b m' e.
      let (a, m1, first, rest) = and_then-cases (on_heap c m) f e in
      let (h, run, same) = put_back-cases (λ h. record m { heap = h }) (c m.heap) first in
      (next a h).on b m' (rw same at rest);
}

pub Leaves-if :
    {A : Type 0} (b : Bool) (c d : Cmd Machine A) (m : Machine)
    → Leaves (c m)
    → Leaves (d m)
    → Leaves ((if b then c else d) m)
Leaves-if true c d m k l = k
Leaves-if false c d m k l = l
