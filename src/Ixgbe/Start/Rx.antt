-- ===== src/Ixgbe/Start/Rx.antt =====
-- `start_rx_queue` as a whole.
use ixy.Base.{
  ℕ, ◌+◌, ◌-◌, ◌≤◌, ◌*◌, ◌<◌, ◌≡◌, ◌≢◌, refl, ap, sym, ◌∙◌, arith, ◌∷◌, bit_and, bit_or, update,
  update_self, update_ne, u32, sub32,
}
use ixy.Base.Outcome.{ok}
use ixy.Os.{Os}
use ixy.Memory.{
  Heap, Mempool, DmaMemory, malloc, memory_allocate_dma, memory_allocate_mempool, sizeof_mempool,
  default_entry_size,
}
use ixy.Memory.Pool.{IsPool, free_ids}
use ixy.Memory.New.{countdown, memory_allocate_mempool-IsFullPool}
use ixy.Device.{Trace, Nic, read, write, set_flags32, set_reg32}
use ixy.Device.Wait.{value_at, polls, wait_set_reg32_lem}
use ixy.Regs.{rdh, rdt, rxdctl}
use ixy.Regs.Bits.{rxdctl_enable}
use ixy.Ixgbe.{Device, Machine, get16, with_trace}
use ixy.Ixgbe.Rx.{rx_queue_at, descriptors, mempool, num_entries}
use ixy.Ixgbe.Start.{size_guard, fill_entries, start_rx_queue}
use ixy.Ixgbe.Start.Firsts.{firsts, countdown-firsts, firsts-AreFilled}
use ixy.Ixgbe.Start.Fill.{AreFilled, HasBlock, IsSameElsewhere, fill_entries_lem}

-- Of the struct of queue `q` only the pool changed, and below it nothing did, nor did the transmit
-- queues and the numbers of queues.
pub record IsSameAround (q : ℕ) (d d' : Device) : Type 0 where
  pub word :
      (a : ℕ) → a < rx_queue_at q + 3 → a ≢ rx_queue_at q + 1 → d'.rx_queues a ≡ d.rx_queues a
  pub elsewhere : IsSameElsewhere d d'

-- The pool of a receive queue.
module _ (os : Os) (nic : Nic) (fuel q : ℕ) (m : Machine) where
  abbrev n : ℕ
  n = num_entries m.dev.rx_queues q

  abbrev reg : ℕ
  reg = rxdctl q

  -- The trace after the queue was enabled.
  abbrev pub enabled : Trace
  enabled =
      write reg (u32 (bit_or (u32 (nic m.dev.trace reg)) rxdctl_enable))
      ∷ read reg (u32 (nic m.dev.trace reg))
      ∷ m.dev.trace

  -- The trace after `k` polls in vain and one that found it enabled, and after the head and the tail
  -- were set.
  abbrev pub ready : ℕ → Trace
  ready k = read reg (value_at nic reg (polls nic reg k enabled)) ∷ polls nic reg k enabled

  abbrev pub started : ℕ → Trace
  started k = write (rdt q) (u32 (sub32 n 1)) ∷ write (rdh q) 0 ∷ ready k

  module _ (mem : DmaMemory) (p : ℕ) (h1 h2 : Heap)
      (alloc : malloc os (sizeof_mempool + 4096 * 4) m.heap ≡ ok (p, h1)) (nonnull : p ≢ 0)
      (dma : memory_allocate_dma os (4096 * 2048) h1 ≡ ok (mem, h2)) (pos : 0 < mem.virt) where
    abbrev with_pool : Heap → Machine
    with_pool h = record m {
      heap = h;
      dev = record m.dev { rx_queues = update m.dev.rx_queues (rx_queue_at q + 1) p };
    }

    -- The card enables the queue at poll `k`.
    module _ (k : ℕ) (lt : k < fuel)
        (waits : (j : ℕ)
          → j < k
          → bit_and (value_at nic reg (polls nic reg j enabled)) rxdctl_enable ≢ rxdctl_enable)
        (is_set : bit_and (value_at nic reg (polls nic reg k enabled)) rxdctl_enable
          ≡ rxdctl_enable)
        (guard : size_guard n ≡ 0) where
      start_rx_queue-started :
          (h' : Heap) (m1 : Machine)
          → memory_allocate_mempool os 4096 2048 m.heap ≡ ok (p, h')
          → fill_entries q n 0 (with_pool h') ≡ ok (tt, m1)
          → m1.dev.trace ≡ m.dev.trace
          → num_entries m1.dev.rx_queues q ≡ n
          → start_rx_queue os nic fuel q m ≡ ok (tt, with_trace m1 (started k))
      unfolding start_rx_queue set_flags32 set_reg32
      start_rx_queue-started h' m1 run filled same kept' =
          let kept : num_entries (with_pool h').dev.rx_queues q ≡ n =
            ap (get16 0) (update_ne m.dev.rx_queues _ _ _ (omega arith)) in
          let waited = wait_set_reg32_lem nic reg rxdctl_enable k fuel enabled lt waits is_set in
          rw (run, kept, guard, filled, same, waited, kept') refl

      -- If the pool of 4096 buffers can be allocated, not at address 0, the number of entries
      -- passes the guard, is positive and is at most 4096, and the card enables the queue at poll
      -- `k`, then `start_rx_queue` returns. The array of buffers has the addresses of the last
      -- entries of the new pool, the last one first, and the descriptors the physical address of
      -- the pool's block plus the offset of the same entry in it; the others are free, and the pool
      -- is valid, with 4096 entries of 2048 bytes in the block. Last, the head is set to 0 and the
      -- tail to the last entry. The queue has the pool, its other fields stay, and so do the
      -- structs of the queues before it, the transmit queues and the numbers of queues.
      pub start_rx_queue_lem :
          0 < n
          → n ≤ 4096
          → (m' : Machine) × (pool : Mempool) × (start_rx_queue os nic fuel q m ≡ ok (tt, m'))
            × IsPool m'.heap p pool
            × (free_ids pool ≡ countdown (4096 - n))
            × AreFilled mem 2048 q
                (descriptors m.dev.rx_queues q)
                m'.dev.rx_queues
                m'.dev.rx_descs
                0
                (firsts n 4096)
            × (m'.dev.trace ≡ write (rdt q) (n - 1) ∷ write (rdh q) 0 ∷ ready k)
            × (mempool m'.dev.rx_queues q ≡ p)
            × IsSameAround q m.dev m'.dev
            × HasBlock mem 2048 4096 pool
      unfolding default_entry_size
      start_rx_queue_lem some_entry few =
          let (split, count) = countdown-firsts n (4096 - n) 4096 (omega (arith, few)) in
          let last : u32 (sub32 n 1) ≡ n - 1 = omega (arith, some_entry, few) in
          let (h', pool0, run, full) =
            memory_allocate_mempool-IsFullPool os 4096 2048 p m.heap h1 h2 mem (omega arith)
              (omega arith) alloc nonnull dma in
          let (m1, pool1, fills, valid, free, same, all, (base, phy, spacing, entries)) =
            fill_entries_lem q p (descriptors m.dev.rx_queues q) (firsts n 4096)
              (countdown (4096 - n)) 0 (with_pool h') pool0
              (update_self m.dev.rx_queues _ _, update_ne m.dev.rx_queues _ _ _ (omega arith))
              full.valid (rw full.block pos) (full.all_free ∙ split) in
          let kept : num_entries m1.dev.rx_queues q ≡ n =
            ap (get16 0)
              (same.word _ (omega arith) ∙ update_ne m.dev.rx_queues _ _ _ (omega arith)) in
          (
            with_trace m1 (started k),
            pool1,
            start_rx_queue-started h' m1 run
                (ap (λ x. fill_entries q x 0 (with_pool h')) (sym count) ∙ fills) same.trace kept,
            valid,
            free,
            rw (full.block, full.block_phy, full.spacing) at all,
            rw last refl,
            same.word _ (omega arith) ∙ update_self m.dev.rx_queues _ _,
            record {
              word =
                  λ a lt ne. same.word a (omega (arith, lt)) ∙ update_ne m.dev.rx_queues _ _ _ ne;
              elsewhere = same.elsewhere;
            },
            (
              base ∙ full.block,
              phy ∙ full.block_phy,
              spacing ∙ full.spacing,
              entries ∙ full.entries,
            ),
          )

      -- If the pool of 4096 buffers can be allocated, not at address 0, the number of entries
      -- passes the guard, is two at least and is at most 4096, and the card enables the queue at
      -- poll `k`, then after `start_rx_queue` the struct of the next queue lies over the array of
      -- buffers: its ring is the address of the first buffer, entry 4095 of the block, and its pool
      -- that of the second, entry 4094.
      pub start_rx_queue_overlap :
          1 < n
          → n ≤ 4096
          → (m' : Machine) × (start_rx_queue os nic fuel q m ≡ ok (tt, m'))
            × (descriptors m'.dev.rx_queues (q + 1) ≡ mem.virt + 4095 * 2048)
            × (mempool m'.dev.rx_queues (q + 1) ≡ mem.virt + 4094 * 2048)
      start_rx_queue_overlap two few =
          let (m', pool, run, valid, free, filled, trace, own, same, block) =
            start_rx_queue_lem (omega (arith, two)) few in
          let at =
            firsts-AreFilled mem 2048 q (descriptors m.dev.rx_queues q) m'.dev.rx_queues
              m'.dev.rx_descs n 4096 0 in
          let first = (at 0 filled (omega (arith, two)) few).0 in
          let second = (at 1 filled two few).0 in
          (
            m',
            run,
            ap m'.dev.rx_queues (omega arith) ∙ first,
            ap m'.dev.rx_queues (omega arith) ∙ second,
          )
