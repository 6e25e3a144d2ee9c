-- ===== src/Ixgbe/Init/Ready.antt =====
-- `reset_and_init` of src/driver/ixgbe.c as a whole, for one queue of each kind.
use ixy.Base.{ℕ, ◌+◌, ◌-◌, ◌*◌, ◌<◌, ◌≡◌, refl, ap, sym, ◌∙◌, arith, [], true, none}
use mathlib.Core.Path.{subst}
use ixy.Base.Outcome.{ok, and_then, ◌>>◌}
use ixy.Os.{Os}
use ixy.Memory.{Mempool, DmaMemory}
use ixy.Memory.Pool.{IsPool, free_ids}
use ixy.Memory.New.{countdown}
use ixy.Device.{Trace, Nic}
use ixy.Regs.{eimc, ctrl, eec, rdrxctl, rxdctl, txdctl, tdh, tdt}
use ixy.Regs.Bits.{ctrl_rst_mask, eec_ard, rdrxctl_dmaidone, rxdctl_enable, txdctl_enable}
use ixy.Ixgbe.{Machine, on_regs, with_trace, sizeof_desc, get16}
use ixy.Ixgbe.Ring.{IsRingSize}
use ixy.Ixgbe.Rx.{descriptors, mempool, num_entries, rx_index, virtual_address}
use ixy.Ixgbe.Tx.{num_entries as tx_num_entries}
use ixy.Ixgbe.Tx.Queue.{HasFields}
use ixy.Ixgbe.Tx.InFlight.{IsTxQueue, in_flight, HasFields-IsTxQueue, in_flight_of}
use ixy.Ixgbe.Link.{set_promisc, wait_for_link}
use ixy.Ixgbe.Start.{size_guard, start_rx_queue, start_tx_queue}
use ixy.Ixgbe.Start.Fill.{AreFilled, HasBlock, fresh_desc}
use ixy.Ixgbe.Start.Firsts.{firsts, firsts-AreFilled}
use ixy.Ixgbe.Start.Rx.{start_rx_queue_lem}
use ixy.Ixgbe.Init.{reset_and_init, start_rx_queues, start_tx_queues}
use ixy.Ixgbe.Init.Grants.{Grants, IsTranslated, Grants-dma, Grants-malloc}
use ixy.Ixgbe.Init.Queues.{HasStructs, init_rx-Ends, init_tx-Ends}
use ixy.Ixgbe.Init.Returns.{
  Polled, Ends, regs_then, regs_last, ends_then, set_reg32-Returns, set_flags32-Returns,
  usleep-Returns, wait_set_reg32-Returns, wait_clear_reg32-Returns, init_link-Returns,
  read_stats-Returns, set_promisc-Returns, wait_for_link-Returns,
}

-- What the driver polls for happens: the reset ends, the EEPROM is read, DMA is initialised, and
-- both queues are enabled.
pub record Responds (nic : Nic) (fuel : ℕ) : Type 0 where
  pub reset : Polled nic fuel ctrl ctrl_rst_mask 0
  pub eeprom : Polled nic fuel eec eec_ard eec_ard
  pub dma : Polled nic fuel rdrxctl rdrxctl_dmaidone rdrxctl_dmaidone
  pub rx : Polled nic fuel (rxdctl 0) rxdctl_enable rxdctl_enable
  pub tx : Polled nic fuel (txdctl 0) txdctl_enable txdctl_enable

-- The queues are ready. The block of the pool is at the physical address to which its first byte is
-- translated. The receive ring of 1024 entries has at position `i` entry `4095 - i` of a
-- valid pool with the other 3072 entries free, and the transmit ring of 1024 entries is empty.
pub record IsReady (os : Os) (m : Machine) : Type 0 where
  pub pool : Mempool
  pub mem : DmaMemory
  pub valid : IsPool m.heap (mempool m.dev.rx_queues 0) pool
  pub block : HasBlock mem 2048 4096 pool
  pub translated : IsTranslated os mem
  pub nonnull : 0 < pool.base_addr
  pub free : free_ids pool ≡ countdown 3072
  pub rx_entries : num_entries m.dev.rx_queues 0 ≡ 1024
  pub index : rx_index m.dev.rx_queues 0 ≡ 0
  pub buffers :
      (i : ℕ) → i < 1024 → virtual_address m.dev.rx_queues 0 i ≡ mem.virt + (4095 - i) * 2048
  pub descs :
      (i : ℕ)
      → i < 1024
      → m.dev.rx_descs (descriptors m.dev.rx_queues 0 + i * sizeof_desc)
        ≡ fresh_desc (mem.phy + (4095 - i) * 2048)
  pub tx : IsTxQueue m.dev 0
  pub tx_entries : tx_num_entries m.dev.tx_queues 0 ≡ 1024
  pub idle : in_flight m.dev 0 ≡ []

-- What `start_rx_queue` leaves.
pub record IsStarted (os : Os) (m : Machine) : Type 0 where
  pub one_tx : m.dev.num_tx_queues ≡ 1
  pub pool : Mempool
  pub mem : DmaMemory
  pub valid : IsPool m.heap (mempool m.dev.rx_queues 0) pool
  pub block : HasBlock mem 2048 4096 pool
  pub translated : IsTranslated os mem
  pub nonnull : 0 < pool.base_addr
  pub free : free_ids pool ≡ countdown 3072
  pub rx_entries : num_entries m.dev.rx_queues 0 ≡ 1024
  pub index : rx_index m.dev.rx_queues 0 ≡ 0
  pub given :
      AreFilled mem 2048 0
        (descriptors m.dev.rx_queues 0)
        m.dev.rx_queues
        m.dev.rx_descs
        0
        (firsts 1024 4096)
  pub ring : ℕ
  pub tx : HasFields m.dev.tx_queues 0 ring 1024 0 0

-- Accesses of registers leave it.
with_trace-IsStarted :
    (os : Os) (m : Machine) (t : Trace) → IsStarted os m → IsStarted os (with_trace m t)
with_trace-IsStarted os m t s = record {
  one_tx = s.one_tx;
  pool = s.pool;
  mem = s.mem;
  valid = s.valid;
  block = s.block;
  translated = s.translated;
  nonnull = s.nonnull;
  free = s.free;
  rx_entries = s.rx_entries;
  index = s.index;
  given = s.given;
  ring = s.ring;
  tx = record { descs = s.tx.descs; num = s.tx.num; clean = s.tx.clean; tail = s.tx.tail };
}

pub ring_1024 : IsRingSize 1024
ring_1024 = record { k = 10; power = refl; small = omega arith }

guard_1024 : size_guard 1024 ≡ 0
unfolding size_guard
guard_1024 = refl

IsStarted-IsReady : (os : Os) (m : Machine) → IsStarted os m → IsReady os m
IsStarted-IsReady os m s = record {
  pool = s.pool;
  mem = s.mem;
  valid = s.valid;
  block = s.block;
  translated = s.translated;
  nonnull = s.nonnull;
  free = s.free;
  rx_entries = s.rx_entries;
  index = s.index;
  buffers = λ i lt. (at i lt).0;
  descs = λ i lt. (at i lt).1;
  tx = HasFields-IsTxQueue m.dev 0 s.tx ring_1024 (omega arith) (omega arith);
  tx_entries = s.tx.num;
  idle = in_flight_of m.dev 0 0 s.tx (omega arith) (omega arith) refl;
}
  where
    at :
        (i : ℕ)
        → i < 1024
        → (virtual_address m.dev.rx_queues 0 i ≡ s.mem.virt + (4095 - i) * 2048)
          × (m.dev.rx_descs (descriptors m.dev.rx_queues 0 + i * sizeof_desc)
              ≡ fresh_desc (s.mem.phy + (4095 - i) * 2048))
    at i lt =
        let first : 0 + i ≡ i = omega arith in
        rw first at (
          firsts-AreFilled s.mem 2048 0 (descriptors m.dev.rx_queues 0) m.dev.rx_queues
            m.dev.rx_descs 1024 4096 0 i s.given lt (omega arith))

module _ (os : Os) (nic : Nic) (fuel : ℕ) (g : Grants os) (r : Responds nic fuel) where
  start_rx_queue-Ends :
      (m : Machine) → HasStructs m → Ends (IsStarted os) (start_rx_queue os nic fuel 0 m)
  start_rx_queue-Ends m s =
      let (p, h1, alloc, nonnull) = Grants-malloc os g _ m.heap in
      let (mem, h2, dma, pos, small, there) = Grants-dma os g (4096 * 2048) h1 in
      let (k, lt, waits, is_set) = r.rx.at _ in
      let (m', pool, run, valid, free, given, trace, own, same, block) =
        start_rx_queue_lem os nic fuel 0 m mem p h1 h2 alloc nonnull dma pos k lt waits is_set
          (ap size_guard s.entries ∙ guard_1024) (omega (arith, s.entries))
          (omega (arith, s.entries)) in
      record {
        value = tt;
        state = m';
        runs = run;
        holds = record {
          one_tx = same.elsewhere.2 ∙ s.one_tx;
          pool = pool;
          mem = mem;
          valid = subst (λ a. IsPool m'.heap a pool) (sym own) valid;
          block = block;
          translated = there;
          nonnull = rw (block.0) pos;
          free = free ∙ ap (λ n. countdown (4096 - n)) s.entries;
          rx_entries = ap (get16 0) (same.word 2 (omega arith) (λ e. omega (arith, e))) ∙ s.entries;
          index = ap (get16 16) (same.word 2 (omega arith) (λ e. omega (arith, e))) ∙ s.index;
          given =
              subst
                (λ d. AreFilled mem 2048 0 d m'.dev.rx_queues m'.dev.rx_descs 0 (firsts 1024 4096))
                (sym (same.word 0 (omega arith) (λ e. omega (arith, e))))
                (subst
                  (λ k.
                    AreFilled mem 2048 0 (descriptors m.dev.rx_queues 0) m'.dev.rx_queues
                      m'.dev.rx_descs 0 (firsts k 4096))
                  s.entries given);
          ring = s.ring;
          tx = subst (λ w. HasFields w 0 s.ring 1024 0 0) (sym same.elsewhere.0) s.tx;
        };
      }

  start_rx_queues-Ends :
      (m : Machine)
      → HasStructs m
      → Ends (IsStarted os) (start_rx_queues os nic fuel m.dev.num_rx_queues 0 m)
  unfolding start_rx_queues
  start_rx_queues-Ends m s =
      subst (λ n. Ends (IsStarted os) (start_rx_queues os nic fuel n 0 m)) (sym s.one_rx)
        (ends_then _ _ (start_rx_queue-Ends m s)
          λ _ m1 h. record { value = tt; state = m1; runs = refl; holds = h })

  start_tx_queue-Ends :
      (m : Machine) → IsStarted os m → Ends (IsStarted os) (start_tx_queue nic fuel 0 m)
  unfolding start_tx_queue
  start_tx_queue-Ends m s =
      rw (s.tx.num, guard_1024)
        (regs_then _ _ _ (set_reg32-Returns (tdh 0) _) λ _ _.
          regs_then _ _ _ (set_reg32-Returns (tdt 0) _) λ _ _.
            regs_then _ _ _ (set_flags32-Returns nic (txdctl 0) _) λ _ _.
              regs_last _ _ (wait_set_reg32-Returns nic fuel (txdctl 0) _ r.tx)
                λ t. with_trace-IsStarted os m t s)

  start_tx_queues-Ends :
      (m : Machine)
      → IsStarted os m
      → Ends (IsStarted os) (start_tx_queues os nic fuel m.dev.num_tx_queues 0 m)
  unfolding start_tx_queues
  start_tx_queues-Ends m s =
      subst (λ n. Ends (IsStarted os) (start_tx_queues os nic fuel n 0 m)) (sym s.one_tx)
        (ends_then _ _ (start_tx_queue-Ends m s)
          λ _ m1 h. record { value = tt; state = m1; runs = refl; holds = h })

  started :
      (m : Machine)
      → HasStructs m
      → Ends (IsReady os) (
          and_then (start_rx_queues os nic fuel m.dev.num_rx_queues 0 m) (λ _ m1.
            and_then
              (start_tx_queues os nic fuel m1.dev.num_tx_queues 0 m1)
              (λ _. on_regs (set_promisc nic true) >> on_regs (wait_for_link nic))))
  started m s = ends_then _ _ (start_rx_queues-Ends m s) λ _ m1 s1.
      ends_then _ _ (start_tx_queues-Ends m1 s1) λ _ m2 s2.
        regs_then _ _ _ (set_promisc-Returns nic true) λ _ _.
          regs_last _ _ (wait_for_link-Returns nic)
            λ t. IsStarted-IsReady os _ (with_trace-IsStarted os m2 t s2)

  -- If no system call fails and the card does what the driver polls for, `reset_and_init` returns
  -- for a device with one queue of each kind and a cleared transmit queue. Both queues are then
  -- ready: the receive ring has 1024 buffers of a valid pool and begins at index 0, the other 3072
  -- buffers are free, and the transmit ring of 1024 entries is valid and has no packet in flight.
  pub reset_and_init-IsReady :
      (m : Machine)
      → m.dev.num_rx_queues ≡ 1
      → m.dev.num_tx_queues ≡ 1
      → m.dev.tx_queues 1 ≡ 0
      → (m' : Machine) × (reset_and_init os nic fuel m ≡ ok (tt, m')) × IsReady os m'
  unfolding reset_and_init
  reset_and_init-IsReady m one_rx one_tx clear = let e = whole in (e.state, e.runs, e.holds)
    where
      whole : Ends (IsReady os) (reset_and_init os nic fuel m)
      whole = regs_then _ _ _ (set_reg32-Returns eimc _) λ _ _.
          regs_then _ _ _ (set_reg32-Returns ctrl _) λ _ _.
            regs_then _ _ _ (wait_clear_reg32-Returns nic fuel ctrl _ r.reset) λ _ _.
              regs_then _ _ _ (usleep-Returns 10000) λ _ _.
                regs_then _ _ _ (set_reg32-Returns eimc _) λ _ _.
                  regs_then _ _ _ (wait_set_reg32-Returns nic fuel eec _ r.eeprom) λ _ _.
                    regs_then _ _ _ (wait_set_reg32-Returns nic fuel rdrxctl _ r.dma) λ _ _.
                      regs_then _ _ _ (init_link-Returns nic) λ _ _.
                        regs_then _ _ _ (read_stats-Returns nic none) λ _ t.
                          ends_then _ _ (init_rx-Ends os nic g (with_trace m t) one_rx one_tx)
                            λ _ m1 h1.
                              ends_then _ _ (init_tx-Ends os nic g m.dev.tx_queues m1 clear h1)
                                λ _ m2 h2. started m2 h2
