-- ===== src/Ixgbe/Start/Tests.antt =====
-- A receive queue of two entries, its ring at 0x1000, and a card that enables it at once.
use ixy.Base.{ℕ, ◌≡◌, ◌^◌, ◌↔◌, refl, arith, [], ◌∷◌, get_or}
use ixy.Base.Outcome.{ok}
use ixy.Memory.{Mempool, malloc, memory_allocate_dma, virt_to_phys, round_up_2mb}
use ixy.Memory.Pool.{IsPool, free_ids}
use ixy.Memory.New.{countdown}
use ixy.Memory.Tests.{granting, empty, heap}
use ixy.Device.{Nic, write}
use ixy.Regs.{rdt, rdh}
use ixy.Ixgbe.{Machine, Device}
use ixy.Ixgbe.Start.{size_guard, start_rx_queue}
use ixy.Ixgbe.Start.Firsts.{firsts}
use ixy.Ixgbe.Start.Size.{size_guard_lem}
use ixy.Ixgbe.Start.Fill.{AreFilled, HasBlock}
use ixy.Ixgbe.Rx.{descriptors, mempool}
use ixy.Ixgbe.Start.Rx.{IsSameAround, ready, start_rx_queue_lem, start_rx_queue_overlap}

abbrev words : ℕ → ℕ
words i = get_or (0x1000 ∷ 100 ∷ 2 ∷ []) i 0

abbrev device : Device
device = record {
  num_rx_queues = 1;
  num_tx_queues = 1;
  rx_queues = words;
  tx_queues = λ _. 0;
  rx_descs = λ _. record { pkt_addr = 0; hdr_addr = 0 };
  tx_descs = λ _. record { buffer_addr = 0; cmd_type_len = 0; olinfo_status = 0 };
  trace = [];
}

abbrev with_pool : Machine
with_pool = record { heap = heap 2; dev = device }

abbrev new : Machine
new = record { heap = empty; dev = device }

abbrev card : Nic
card t reg = 0x02000000

size_guard_lem_example : (size_guard 8 ≡ 0) ↔ ((k : ℕ) × (8 ≡ 2 ^ k))
size_guard_lem_example = size_guard_lem 8 (omega arith) (omega arith)

start_rx_queue_lem_example :
    (m' : Machine) × (pool : Mempool) × (start_rx_queue granting card 1 0 new ≡ ok (tt, m'))
    × IsPool m'.heap 100 pool
    × (free_ids pool ≡ countdown 4094)
    × AreFilled
        (record { virt = 0x200000; phy = 0x500000 })
        2048
        0
        0x1000
        m'.dev.rx_queues
        m'.dev.rx_descs
        0
        (4095 ∷ 4094 ∷ [])
    × (m'.dev.trace ≡ write (rdt 0) 1 ∷ write (rdh 0) 0 ∷ ready granting card 1 0 new 0)
    × (mempool m'.dev.rx_queues 0 ≡ 100)
    × IsSameAround 0 device m'.dev
    × HasBlock (record { virt = 0x200000; phy = 0x500000 }) 2048 4096 pool
unfolding malloc memory_allocate_dma virt_to_phys round_up_2mb size_guard firsts
start_rx_queue_lem_example =
    start_rx_queue_lem granting card 1 0 new (record { virt = 0x200000; phy = 0x500000 }) 100
      (record empty { mallocs = 1 }) (record empty { mallocs = 1; huge_pg_id = 1 }) refl
      (λ e. omega (arith, e)) refl (omega arith) 0 (omega arith) (λ j lt. absurd (omega arith)) refl
      refl (omega arith) (omega arith)

start_rx_queue_overlap_example :
    (m' : Machine) × (start_rx_queue granting card 1 0 new ≡ ok (tt, m'))
    × (descriptors m'.dev.rx_queues 1 ≡ 0x9ff800)
    × (mempool m'.dev.rx_queues 1 ≡ 0x9ff000)
unfolding malloc memory_allocate_dma virt_to_phys round_up_2mb size_guard
start_rx_queue_overlap_example =
    start_rx_queue_overlap granting card 1 0 new (record { virt = 0x200000; phy = 0x500000 }) 100
      (record empty { mallocs = 1 }) (record empty { mallocs = 1; huge_pg_id = 1 }) refl
      (λ e. omega (arith, e)) refl (omega arith) 0 (omega arith) (λ j lt. absurd (omega arith)) refl
      refl (omega arith) (omega arith)
