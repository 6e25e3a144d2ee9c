-- ===== src/Ixgbe/Link.antt =====
-- src/driver/ixgbe.c: the link and the promiscuous mode, as accesses of registers.
pub mod Speed
pub mod Promisc
pub mod Wait
pub mod Mode
mod Tests
use ixy.Base.{ℕ, zero, suc, ◌-◌, bit_and, bit_or, not32, Bool, ◌==◌, ◌&&◌, if◌then◌else◌, ltb}
use ixy.Base.Outcome.{Cmd, hung, ◌>>=◌, ◌>>◌, pure}
use ixy.Device.{Trace, Nic, get_reg32, set_reg32, set_flags32, clear_flags32, usleep}
use ixy.Regs.{links, autoc, fctrl}
use ixy.Regs.Bits.{
  links_up, links_speed_82599, links_speed_100_82599, links_speed_1g_82599, links_speed_10g_82599,
  autoc_lms_mask, autoc_lms_10g_serial, autoc_10g_pma_pmd_mask, autoc_10g_xaui, autoc_an_restart,
  fctrl_mpe, fctrl_upe,
}

-- The speed in Mbit/s for the speed bits, and for a value, of the register LINKS.
unfoldable pub speed_switch : ℕ → ℕ
speed_switch mode =
    if mode == links_speed_100_82599
    then 100
    else if mode == links_speed_1g_82599
    then 1000
    else if mode == links_speed_10g_82599
    then 10000
    else 0

unfoldable pub link_speed : ℕ → ℕ
link_speed value =
    if bit_and value links_up == 0 then 0 else speed_switch (bit_and value links_speed_82599)

-- The longest time to wait for the link, and the time between two polls, in microseconds.
abbrev pub max_wait : ℕ
max_wait = 10000000

abbrev pub poll_interval : ℕ
poll_interval = 100000

module _ (nic : Nic) where
  unfoldable pub get_link_speed : Cmd Trace ℕ
  unfolding get_reg32
  get_link_speed = do value ← get_reg32 nic links; pure (link_speed value)

  unfoldable pub set_promisc : Bool → Cmd Trace (Unit {0})
  set_promisc enabled =
      if enabled
      then set_flags32 nic fctrl (bit_or fctrl_mpe fctrl_upe)
      else clear_flags32 nic fctrl (bit_or fctrl_mpe fctrl_upe)

  -- The link mode is set to 10 Gbit/s serial, the interface to XAUI, and negotiation is restarted.
  unfoldable pub init_link : Cmd Trace (Unit {0})
  unfolding get_reg32 set_reg32
  init_link = do
    mode ← get_reg32 nic autoc
    set_reg32 autoc (bit_or (bit_and mode (not32 autoc_lms_mask)) autoc_lms_10g_serial)
    media ← get_reg32 nic autoc
    set_reg32 autoc (bit_or (bit_and media (not32 autoc_10g_pma_pmd_mask)) autoc_10g_xaui)
    set_flags32 nic autoc autoc_an_restart

  -- The loop of `wait_for_link`.
  unfoldable pub poll_link : ℕ → ℕ → Cmd Trace (Unit {0})
  unfolding get_link_speed usleep
  poll_link zero wait = λ _. hung
  poll_link (suc fuel) wait = do
    speed ← get_link_speed
    let again = usleep poll_interval >> poll_link fuel (wait - poll_interval)
    if speed == 0 && ltb 0 wait then again else pure tt

  -- There are at most 100 sleeps. The speed is read once more for the log.
  unfoldable pub wait_for_link : Cmd Trace (Unit {0})
  unfolding get_link_speed poll_link
  wait_for_link = do poll_link 101 max_wait; _ ← get_link_speed; pure tt
