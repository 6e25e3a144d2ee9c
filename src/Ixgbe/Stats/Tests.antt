-- ===== src/Ixgbe/Stats/Tests.antt =====
-- A card whose registers answer with the number of the accesses before.
use ixy.Base.{◌≡◌, some, [], length}
use ixy.Base.Outcome.{ok}
use ixy.Device.{Nic}
use ixy.Ixgbe.Stats.{DeviceStats}
use ixy.Ixgbe.Stats.Sum.{read_times, after, IsSum, read_stats-IsSum}

abbrev counter : Nic
counter t reg = length t

abbrev start : DeviceStats
start = record { rx_pkts = 1; tx_pkts = 2; rx_bytes = 3; tx_bytes = 4 }

read_stats-IsSum_example :
    (s' : DeviceStats) × (read_times counter 2 (some start) [] ≡ ok (some s', after counter 2 []))
    × IsSum counter start s' 2 []
read_stats-IsSum_example = read_stats-IsSum counter 1 start []
