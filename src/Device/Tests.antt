-- ===== src/Device/Tests.antt =====
-- A card that answers every read with a number, and one whose register counts the accesses.
use ixy.Base.{◌≡◌, refl, [], ◌∷◌, length}
use ixy.Base.Outcome.{ok}
use ixy.Device.{Nic, read, sleep, wait_set_reg32}

abbrev pub five : Nic
five t reg = 5

abbrev counter : Nic
counter t reg = length t

second_poll : wait_set_reg32 counter 2 4 2 [] ≡ ok (tt, read 4 2 ∷ sleep 10000 ∷ read 4 0 ∷ [])
unfolding wait_set_reg32
second_poll = refl
