-- ===== src/Cpp/Agrees/Control.antt =====
-- What the C++ driver does with the registers and the queues, where it agrees with the C driver:
-- src/driver/ixgbe.cpp and src/driver/ixgbe.c.
use ixy.Base.{
  ℕ, zero, suc, ◌+◌, ◌-◌, ◌≡◌, refl, ap, sym, ◌∙◌, bit_and, ◌==◌, Bool, true, false, Bool-cases,
  inl, inr, Option, none, some, u32, ltb, ◌&&◌, ◌<<<◌,
}
use ixy.Base.Outcome.{Cmd, and_then, ◌>>◌, pure}
use ixy.Os.{Os}
use ixy.Device.{
  Trace, Nic, get_reg32, set_reg32, set_flags32, clear_flags32, wait_set_reg32, usleep,
}
use ixy.Ixgbe.{Machine}
use ixy.Ixgbe.Link.{
  speed_switch, link_speed, get_link_speed, set_promisc, poll_link, wait_for_link, poll_interval,
}
use ixy.Ixgbe.Start.{size_guard, fill_entry, fill_entries, start_rx_queue, start_tx_queue}
use ixy.Ixgbe.Init.{clear_sizes, clear_dca, init_rx_queue, init_rx_queues, init_rx}
use ixy.Ixgbe.Stats.{DeviceStats, read_stats}
use ixy.Regs.{links, rxpbsize, dca_rxctrl}
use ixy.Ixgbe.Stats.{add_stats}
use ixy.Cpp.Registers.{
  get_reg32 as cpp_get_reg32, set_reg32 as cpp_set_reg32, set_flags32 as cpp_set_flags32,
  clear_flags32 as cpp_clear_flags32, wait_set_reg32 as cpp_wait_set_reg32,
}
use ixy.Cpp.Link.{
  link_speed as cpp_link_speed, get_link_speed as cpp_get_link_speed,
  set_promisc as cpp_set_promisc, poll_link as cpp_poll_link, wait_for_link as cpp_wait_for_link,
  do_read_stats,
}
use ixy.Cpp.Start.{
  fill_entry as cpp_fill_entry, fill_entries as cpp_fill_entries,
  start_rx_queue as cpp_start_rx_queue, start_tx_queue as cpp_start_tx_queue,
}
use ixy.Cpp.Init.{for_each, init_rx_queue as cpp_init_rx_queue, init_rx as cpp_init_rx}

module _ (nic : Nic) where
  wait_set-wait_set :
      (fuel reg mask : ℕ) (t : Trace)
      → cpp_wait_set_reg32 nic fuel reg mask t ≡ wait_set_reg32 nic fuel reg mask t
  unfolding cpp_wait_set_reg32 wait_set_reg32 cpp_get_reg32 get_reg32
  wait_set-wait_set zero reg mask t = refl
  wait_set-wait_set (suc fuel) reg mask t =
      elim (Bool-cases (bit_and (u32 (nic t reg)) mask == mask)) [
        | inl set ↦ rw set refl
        | inr clear ↦ rw clear (wait_set-wait_set fuel reg mask _)
      ]

  same_wait_set : cpp_wait_set_reg32 nic ≡ wait_set_reg32 nic
  same_wait_set i fuel reg mask t = wait_set-wait_set fuel reg mask t i

  poll_link-poll_link :
      (fuel wait : ℕ) (t : Trace) → cpp_poll_link nic fuel 100000 wait t ≡ poll_link nic fuel wait t
  unfolding cpp_poll_link poll_link cpp_get_link_speed get_link_speed cpp_get_reg32 get_reg32
      cpp_link_speed link_speed speed_switch usleep
  poll_link-poll_link zero wait t = refl
  poll_link-poll_link (suc fuel) wait t =
      elim (Bool-cases (link_speed (u32 (nic t links)) == 0 && ltb 0 wait)) [
        | inl down ↦ rw down (poll_link-poll_link fuel (wait - poll_interval) _)
        | inr up ↦ rw up refl
      ]

  same_poll_link : (fuel : ℕ) → cpp_poll_link nic fuel 100000 ≡ poll_link nic fuel
  same_poll_link fuel i wait t = poll_link-poll_link fuel wait t i

fill_entries-fill_entries :
    (q left j : ℕ) (m : Machine) → cpp_fill_entries q left j m ≡ fill_entries q left j m
unfolding cpp_fill_entries fill_entries cpp_fill_entry fill_entry
fill_entries-fill_entries q zero j m = refl
fill_entries-fill_entries q (suc left) j m =
    ap (and_then (fill_entry q j m)) (λ i _ m'. fill_entries-fill_entries q left (j + 1) m' i)

same_fill_entries : cpp_fill_entries ≡ fill_entries
same_fill_entries i q left j m = fill_entries-fill_entries q left j m i

-- A loop of the C driver that runs a body is the C++ driver's.
for_each-loop {ℓ} :
    {S : Type ℓ} (body : ℕ → Cmd S (Unit {0})) (loop : ℕ → ℕ → Cmd S (Unit {0}))
    → ((i : ℕ) → loop 0 i ≡ pure tt)
    → ((left i : ℕ) → loop (suc left) i ≡ (body i >> loop left (i + 1)))
    → (left i : ℕ) (s : S) → for_each body left i s ≡ loop left i s
unfolding for_each
for_each-loop body loop stop go zero i s = ap (λ f. f s) (sym (stop i))
for_each-loop body loop stop go (suc left) i s =
    ap (and_then (body i s)) (λ k _ s'. for_each-loop body loop stop go left (i + 1) s' k)
    ∙ ap (λ f. f s) (sym (go left i))

same_sizes : (reg : ℕ → ℕ) → for_each (λ k. cpp_set_reg32 (reg k) 0) ≡ clear_sizes reg
unfolding clear_sizes cpp_set_reg32 set_reg32
same_sizes reg j left i t =
    for_each-loop (λ k. cpp_set_reg32 (reg k) 0) (clear_sizes reg) (λ _. refl) (λ _ _. refl) left i
      t j

module _ (os : Os) (nic : Nic) where
  same_dca : for_each (λ k. cpp_clear_flags32 nic (dca_rxctrl k) (1 <<< 12)) ≡ clear_dca os nic
  unfolding clear_dca cpp_clear_flags32 clear_flags32 cpp_get_reg32 get_reg32 cpp_set_reg32
      set_reg32
  same_dca j left i t =
      for_each-loop (λ k. cpp_clear_flags32 nic (dca_rxctrl k) (1 <<< 12)) (clear_dca os nic)
        (λ _. refl) (λ _ _. refl) left i t j

  same_rx_queues : for_each (cpp_init_rx_queue os nic) ≡ init_rx_queues os nic
  unfolding init_rx_queues cpp_init_rx_queue init_rx_queue cpp_get_reg32 get_reg32 cpp_set_reg32
      set_reg32 cpp_set_flags32 set_flags32
  same_rx_queues j left i m =
      for_each-loop (cpp_init_rx_queue os nic) (init_rx_queues os nic) (λ _. refl) (λ _ _. refl)
        left i m j

  init_rx-init_rx : (m : Machine) → cpp_init_rx os nic m ≡ init_rx os nic m
  unfolding cpp_init_rx init_rx cpp_clear_flags32 clear_flags32 cpp_get_reg32 get_reg32
      cpp_set_reg32 set_reg32 cpp_set_flags32 set_flags32
  init_rx-init_rx m = rw (same_sizes rxpbsize, same_rx_queues, same_dca) refl

  start_rx_queue-start_rx_queue :
      (fuel q : ℕ) (m : Machine)
      → cpp_start_rx_queue os nic fuel q m ≡ start_rx_queue os nic fuel q m
  unfolding cpp_start_rx_queue start_rx_queue size_guard cpp_get_reg32 get_reg32 cpp_set_reg32
      set_reg32 cpp_set_flags32 set_flags32
  start_rx_queue-start_rx_queue fuel q m = rw (same_fill_entries, same_wait_set nic) refl

  start_tx_queue-start_tx_queue :
      (fuel q : ℕ) (m : Machine) → cpp_start_tx_queue nic fuel q m ≡ start_tx_queue nic fuel q m
  unfolding cpp_start_tx_queue start_tx_queue size_guard cpp_get_reg32 get_reg32 cpp_set_reg32
      set_reg32 cpp_set_flags32 set_flags32
  start_tx_queue-start_tx_queue fuel q m = rw (same_wait_set nic) refl

  wait_for_link-wait_for_link : (t : Trace) → cpp_wait_for_link nic t ≡ wait_for_link nic t
  unfolding cpp_wait_for_link wait_for_link cpp_get_link_speed get_link_speed cpp_get_reg32
      get_reg32 cpp_link_speed link_speed speed_switch
  wait_for_link-wait_for_link t = rw (same_poll_link nic 101) refl

  pub read_stats-read_stats :
      (s : Option DeviceStats) (t : Trace) → do_read_stats nic s t ≡ read_stats nic s t
  unfolding do_read_stats read_stats add_stats cpp_get_reg32 get_reg32
  read_stats-read_stats none t = refl
  read_stats-read_stats (some s) t = refl

  set_promisc-set_promisc : (b : Bool) (t : Trace) → cpp_set_promisc nic b t ≡ set_promisc nic b t
  unfolding cpp_set_promisc set_promisc cpp_clear_flags32 clear_flags32 cpp_get_reg32 get_reg32
      cpp_set_reg32 set_reg32 cpp_set_flags32 set_flags32
  set_promisc-set_promisc true t = refl
  set_promisc-set_promisc false t = refl

  -- For every card and every state, the C++ `init_rx`, `start_rx_queue`, `start_tx_queue`,
  -- `set_promisc`, `wait_for_link` and `do_read_stats` have the outcome of the C functions, make
  -- the same accesses and leave the same state.
  pub control_agrees :
      (fuel q : ℕ) (enabled : Bool) (stats : Option DeviceStats) (m : Machine) (t : Trace)
      → (cpp_init_rx os nic m ≡ init_rx os nic m)
        × (cpp_start_rx_queue os nic fuel q m ≡ start_rx_queue os nic fuel q m)
        × (cpp_start_tx_queue nic fuel q m ≡ start_tx_queue nic fuel q m)
        × (cpp_set_promisc nic enabled t ≡ set_promisc nic enabled t)
        × (cpp_wait_for_link nic t ≡ wait_for_link nic t)
        × (do_read_stats nic stats t ≡ read_stats nic stats t)
  control_agrees fuel q enabled stats m t = (
    init_rx-init_rx m,
    start_rx_queue-start_rx_queue fuel q m,
    start_tx_queue-start_tx_queue fuel q m,
    set_promisc-set_promisc enabled t,
    wait_for_link-wait_for_link t,
    read_stats-read_stats stats t,
  )
