-- ===== src/Ixgbe/Init/Returns.antt =====
-- Commands that only access registers, and return whatever the card answers.
use ixy.Base.{Option, ℕ, zero, suc, ◌+◌, ◌<◌, ◌≡◌, ◌≢◌, refl, Bool, true, false, bit_and}
use ixy.Base.Outcome.{Outcome, Cmd, ok, and_then}
use ixy.Os.{Os}
use ixy.Device.{
  Trace, Nic, get_reg32, set_reg32, set_flags32, clear_flags32, usleep, wait_set_reg32,
  wait_clear_reg32,
}
use ixy.Device.Wait.{value_at, polls, wait_set_reg32_lem, wait_clear_reg32_lem}
use ixy.Ixgbe.{Machine, on_regs, with_trace}
use ixy.Ixgbe.Link.{init_link, set_promisc, wait_for_link}
use ixy.Ixgbe.Stats.{DeviceStats, read_stats}
use ixy.Ixgbe.Link.Wait.{wait_for_link_lem}
use ixy.Ixgbe.Init.{clear_sizes, clear_dca}

pub record Returns {A : Type 0} (c : Cmd Trace A) : Type 0 where
  pub on : (t : Trace) → (a : A) × (t' : Trace) × (c t ≡ ok (a, t'))

-- The first poll of a register that finds the bits of the mask as they should be is one of `fuel`.
pub record Polled (nic : Nic) (fuel reg mask bits : ℕ) : Type 0 where
  pub at :
      (t : Trace)
      → (k : ℕ) × (k < fuel)
        × ((j : ℕ) → j < k → bit_and (value_at nic reg (polls nic reg j t)) mask ≢ bits)
        × (bit_and (value_at nic reg (polls nic reg k t)) mask ≡ bits)

-- A command that returns, in a state with a property.
pub record Ends {A : Type 0} (P : Machine → Type 0) (o : Outcome (A × Machine)) : Type 0 where
  pub value : A
  pub state : Machine
  pub runs : o ≡ ok (value, state)
  pub holds : P state

-- A command on the registers leaves all but the accesses to what follows it.
pub regs_then :
    {A B : Type 0} {P : Machine → Type 0} (c : Cmd Trace A) (f : A → Cmd Machine B) (m : Machine)
    → Returns c
    → ((a : A) (t : Trace) → Ends P (f a (with_trace m t)))
    → Ends P (and_then (on_regs c m) f)
regs_then c f m r next =
    let (a, t, e) = r.on m.dev.trace in
    let rest = next a t in
    record { value = rest.value; state = rest.state; runs = rw e rest.runs; holds = rest.holds }

pub regs_last :
    {A : Type 0} {P : Machine → Type 0} (c : Cmd Trace A) (m : Machine)
    → Returns c
    → ((t : Trace) → P (with_trace m t))
    → Ends P (on_regs c m)
regs_last c m r h =
    let (a, t, e) = r.on m.dev.trace in
    record { value = a; state = with_trace m t; runs = rw e refl; holds = h t }

-- What follows a command that ends.
pub ends_then :
    {A B : Type 0} {P Q : Machine → Type 0} (o : Outcome (A × Machine)) (f : A → Cmd Machine B)
    → Ends P o
    → ((a : A) (m : Machine) → P m → Ends Q (f a m))
    → Ends Q (and_then o f)
ends_then o f e next =
    let rest = next e.value e.state e.holds in
    record {
      value = rest.value;
      state = rest.state;
      runs = rw e.runs rest.runs;
      holds = rest.holds;
    }

pub set_reg32-Returns : (reg value : ℕ) → Returns (set_reg32 reg value)
unfolding set_reg32
set_reg32-Returns reg value = record { on = λ t. (_, _, refl) }

pub usleep-Returns : (us : ℕ) → Returns (usleep us)
unfolding usleep
usleep-Returns us = record { on = λ t. (_, _, refl) }

pub clear_sizes-Returns : (reg : ℕ → ℕ) (left i : ℕ) → Returns (clear_sizes reg left i)
unfolding clear_sizes set_reg32
clear_sizes-Returns reg zero i = record { on = λ t. (_, _, refl) }
clear_sizes-Returns reg (suc left) i = record {
  on = λ t. (clear_sizes-Returns reg left (i + 1)).on _;
}

module _ (nic : Nic) where
  pub get_reg32-Returns : (reg : ℕ) → Returns (get_reg32 nic reg)
  unfolding get_reg32
  get_reg32-Returns reg = record { on = λ t. (_, _, refl) }

  pub set_flags32-Returns : (reg flags : ℕ) → Returns (set_flags32 nic reg flags)
  unfolding set_flags32
  set_flags32-Returns reg flags = record { on = λ t. (_, _, refl) }

  pub clear_flags32-Returns : (reg flags : ℕ) → Returns (clear_flags32 nic reg flags)
  unfolding clear_flags32
  clear_flags32-Returns reg flags = record { on = λ t. (_, _, refl) }

  pub wait_set_reg32-Returns :
      (fuel reg mask : ℕ)
      → Polled nic fuel reg mask mask
      → Returns (wait_set_reg32 nic fuel reg mask)
  wait_set_reg32-Returns fuel reg mask p = record {
    on = λ t.
        let (k, lt, waits, is_set) = p.at t in
        (_, _, wait_set_reg32_lem nic reg mask k fuel t lt waits is_set);
  }

  pub wait_clear_reg32-Returns :
      (fuel reg mask : ℕ)
      → Polled nic fuel reg mask 0
      → Returns (wait_clear_reg32 nic fuel reg mask)
  wait_clear_reg32-Returns fuel reg mask p = record {
    on = λ t.
        let (k, lt, waits, clear) = p.at t in
        (_, _, wait_clear_reg32_lem nic reg mask k fuel t lt waits clear);
  }

  pub clear_dca-Returns : (os : Os) (left i : ℕ) → Returns (clear_dca os nic left i)
  unfolding clear_dca clear_flags32
  clear_dca-Returns os zero i = record { on = λ t. (_, _, refl) }
  clear_dca-Returns os (suc left) i = record { on = λ t. (clear_dca-Returns os left (i + 1)).on _ }

  pub init_link-Returns : Returns (init_link nic)
  unfolding init_link set_flags32
  init_link-Returns = record { on = λ t. (_, _, refl) }

  pub set_promisc-Returns : (enabled : Bool) → Returns (set_promisc nic enabled)
  unfolding set_promisc
  set_promisc-Returns true = set_flags32-Returns _ _
  set_promisc-Returns false = clear_flags32-Returns _ _

  pub wait_for_link-Returns : Returns (wait_for_link nic)
  wait_for_link-Returns = record {
    on = λ t. let (k, le, run, downs, why) = wait_for_link_lem nic t in (_, _, run);
  }

  pub read_stats-Returns : (stats : Option DeviceStats) → Returns (read_stats nic stats)
  unfolding read_stats
  read_stats-Returns stats = record { on = λ t. (_, _, refl) }
