-- ===== src/Cpp/Link.antt =====
-- src/driver/ixgbe.cpp: the link, the promiscuous mode and the counters.
pub mod Mode
use ixy.Base.{
  ℕ, zero, suc, ◌+◌, ◌-◌, bit_and, bit_or, not32, u64, Bool, ◌==◌, ◌&&◌, if◌then◌else◌, ltb, not,
  Option, none, some, ◌<<<◌,
}
use ixy.Base.Outcome.{Cmd, hung, ◌>>=◌, ◌>>◌, pure}
use ixy.Device.{Trace, Nic, usleep}
use ixy.Regs.{links, autoc, fctrl, gprc, gptc, gorcl, gorch, gotcl, gotch}
use ixy.Regs.Bits.{
  links_up, links_speed_82599, links_speed_100_82599, links_speed_1g_82599, links_speed_10g_82599,
  autoc_lms_mask, autoc_lms_10g_serial, autoc_10g_pma_pmd_mask, autoc_10g_xaui, autoc_an_restart,
  fctrl_mpe, fctrl_upe,
}
use ixy.Ixgbe.Stats.{DeviceStats}
use ixy.Cpp.Registers.{get_reg32, set_reg32, set_any_reg32, set_flags32, clear_flags32}

-- The value of `get_link_speed` for a value of the register LINKS.
unfoldable pub link_speed : ℕ → ℕ
link_speed value =
    let mode = bit_and value links_speed_82599 in
    if bit_and value links_up == 0
    then 0
    else if mode == links_speed_100_82599
    then 100
    else if mode == links_speed_1g_82599
    then 1000
    else if mode == links_speed_10g_82599
    then 10000
    else 0

module _ (nic : Nic) where
  unfoldable pub get_link_speed : Cmd Trace ℕ
  get_link_speed = do value ← get_reg32 nic links; pure (link_speed value)

  unfoldable pub set_promisc : Bool → Cmd Trace (Unit {0})
  set_promisc enabled =
      if enabled
      then set_flags32 nic fctrl (bit_or fctrl_mpe fctrl_upe)
      else clear_flags32 nic fctrl (bit_or fctrl_mpe fctrl_upe)

  -- The first call has its arguments in the other order: the computed value is the register, and 0
  -- is what is written. `mapped` is the size of the mapped resource.
  unfoldable pub init_link : ℕ → Cmd Trace (Unit {0})
  init_link mapped = do
    first ← get_reg32 nic 0
    set_any_reg32 mapped (bit_or (bit_and first (not32 autoc_lms_mask)) autoc_lms_10g_serial) 0
    media ← get_reg32 nic autoc
    set_reg32 autoc (bit_or (bit_and media (not32 autoc_10g_pma_pmd_mask)) autoc_10g_xaui)
    set_flags32 nic autoc autoc_an_restart

  -- The loop of `wait_for_link`, with `max_wait` microseconds to go and steps of `poll_interval`.
  unfoldable pub poll_link : ℕ → ℕ → ℕ → Cmd Trace (Unit {0})
  poll_link zero poll_interval max_wait = λ _. hung
  poll_link (suc fuel) poll_interval max_wait = do
    speed ← get_link_speed
    let again = usleep poll_interval >> poll_link fuel poll_interval (max_wait - poll_interval)
    if speed == 0 && ltb 0 max_wait then again else pure tt

  unfoldable pub wait_for_link : Cmd Trace (Unit {0})
  wait_for_link = do poll_link 101 100000 10000000; _ ← get_link_speed; pure tt

  -- As in C, the order in which the two words of a byte counter are read is left open: here the low
  -- word is read first.
  unfoldable pub do_read_stats : Option DeviceStats → Cmd Trace (Option DeviceStats)
  do_read_stats stats = do
    rx_pkts ← get_reg32 nic gprc
    tx_pkts ← get_reg32 nic gptc
    rx_low ← get_reg32 nic gorcl
    rx_high ← get_reg32 nic gorch
    tx_low ← get_reg32 nic gotcl
    tx_high ← get_reg32 nic gotch
    pure (elim stats [
      | none ↦ none
      | some s ↦ some (record {
        rx_pkts = u64 (s.rx_pkts + rx_pkts);
        tx_pkts = u64 (s.tx_pkts + tx_pkts);
        rx_bytes = u64 (s.rx_bytes + u64 (rx_low + rx_high <<< 32));
        tx_bytes = u64 (s.tx_bytes + u64 (tx_low + tx_high <<< 32));
      })
    ])
