-- ===== src/Ixgbe/Link/Tests.antt =====
-- A card whose link comes up at 10 Gbit/s after the first poll.
use ixy.Base.{◌<◌, ℕ, ◌≡◌, ◌≢◌, ◌≤◌, ◌⊎◌, [], ◌∷◌}
use ixy.Base.Outcome.{ok}
use ixy.Device.{Nic, read, write}
use ixy.Regs.{links}
use ixy.Ixgbe.Link.{get_link_speed, wait_for_link}
use ixy.Ixgbe.Link.Speed.{speed_of, get_link_speed_lem}
use ixy.Ixgbe.Link.Wait.{looked, speed_at, link_polls, wait_for_link_lem}

abbrev card : Nic
card [] reg = 0
card (a ∷ t) reg = 0x70000000

get_link_speed_lem_example :
    get_link_speed card (write 0 0 ∷ []) ≡ ok (10000, read links 0x70000000 ∷ write 0 0 ∷ [])
unfolding speed_of
get_link_speed_lem_example = get_link_speed_lem card (write 0 0 ∷ [])

wait_for_link_lem_example :
    (k : ℕ) × (k ≤ 100)
    × (wait_for_link card [] ≡ ok (tt, looked card (looked card (link_polls card k []))))
    × ((j : ℕ) → j < k → speed_at card (link_polls card j []) ≡ 0)
    × ((k ≡ 100) ⊎ (speed_at card (link_polls card k []) ≢ 0))
wait_for_link_lem_example = wait_for_link_lem card []
