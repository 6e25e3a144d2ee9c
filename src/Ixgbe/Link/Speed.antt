-- ===== src/Ixgbe/Link/Speed.antt =====
-- The link speed by the fields of the register LINKS.
use ixy.Base.{
  ℕ, zero, suc, ◌*◌, ◌/◌, ◌%◌, ◌^◌, ◌<◌, ◌≡◌, refl, ap, ◌∙◌, arith, bit_and, ◌==◌, if◌then◌else◌,
  ◌∷◌, u32,
}
use ixy.Base.Bits.{bit_and_mask, bit_and_shifted}
use ixy.Base.Outcome.{ok}
use ixy.Device.{Trace, Nic, read}
use ixy.Regs.{links}
use ixy.Regs.Bits.{links_up, links_speed_82599}
use ixy.Ixgbe.Link.{speed_switch, link_speed, get_link_speed}

-- In Mbit/s, by the bit that tells that the link is up and the two bits of the speed.
unfoldable pub speed_of : ℕ → ℕ → ℕ
speed_of zero mode = 0
speed_of (suc up) zero = 0
speed_of (suc up) (suc zero) = 100
speed_of (suc up) (suc (suc zero)) = 1000
speed_of (suc up) (suc (suc (suc mode))) = 10000

up_field : (v : ℕ) → bit_and v links_up ≡ v / 2 ^ 30 % 2 * 2 ^ 30
up_field v = bit_and_shifted 30 1 v ∙ ap (λ x. x * 2 ^ 30) (bit_and_mask 1 (v / 2 ^ 30))

speed_field : (v : ℕ) → bit_and v links_speed_82599 ≡ v / 2 ^ 28 % 4 * 2 ^ 28
speed_field v = bit_and_shifted 28 3 v ∙ ap (λ x. x * 2 ^ 28) (bit_and_mask 2 (v / 2 ^ 28))

switch_fields :
    (up mode : ℕ)
    → up < 2
    → mode < 4
    → (if up * 2 ^ 30 == 0 then 0 else speed_switch (mode * 2 ^ 28)) ≡ speed_of up mode
unfolding speed_switch speed_of
switch_fields zero mode h k = refl
switch_fields (suc zero) zero h k = refl
switch_fields (suc zero) (suc zero) h k = refl
switch_fields (suc zero) (suc (suc zero)) h k = refl
switch_fields (suc zero) (suc (suc (suc zero))) h k = refl
switch_fields (suc zero) (suc (suc (suc (suc mode)))) h k = absurd (omega arith)
switch_fields (suc (suc up)) mode h k = absurd (omega arith)

-- `ixgbe_get_link_speed` reads LINKS once, and its result is the speed by bit 30, the link is up,
-- and bits 28 and 29 of the value: 0, 100, 1000 or 10000.
pub get_link_speed_lem :
    (nic : Nic) (t : Trace)
    → let v = u32 (nic t links) in
      get_link_speed nic t ≡ ok (speed_of (v / 2 ^ 30 % 2) (v / 2 ^ 28 % 4), read links v ∷ t)
unfolding get_link_speed link_speed
get_link_speed_lem nic t =
    let v = u32 (nic t links) in
    ap (λ (x : ℕ). ok (x, read links v ∷ t))
      (rw (up_field v, speed_field v)
        (switch_fields (v / 2 ^ 30 % 2) (v / 2 ^ 28 % 4) (omega arith) (omega arith)))
