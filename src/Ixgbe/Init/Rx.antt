-- ===== src/Ixgbe/Init/Rx.antt =====
-- What `init_rx` leaves for a queue.
use ixy.Base.{
  ℕ, ◌+◌, ◌*◌, ◌%◌, ◌^◌, ◌<◌, ◌≡◌, refl, ap, ◌∙◌, arith, ◌∷◌, bit_and, bit_or, not32, u32, ◌>>>◌,
  update_self, update_ne,
}
use ixy.Base.Bits.{bit_and_mask}
use ixy.Base.Outcome.{ok}
use ixy.Os.{Os}
use ixy.Memory.{Heap, DmaMemory, memory_allocate_dma}
use ixy.Device.{Trace, Nic, read, write, get_reg32, set_reg32, set_flags32}
use ixy.Regs.{srrctl, rdbal, rdbah, rdlen, rdh, rdt}
use ixy.Regs.Bits.{srrctl_drop_en, srrctl_desctype_adv_onebuf, srrctl_desctype_mask}
use ixy.Ixgbe.{Machine, get16, put16}
use ixy.Ixgbe.Fields.{put16_first, put16_second}
use ixy.Ixgbe.Rx.{rx_queue_at, descriptors, num_entries, rx_index}
use ixy.Ixgbe.Start.Fill.{IsSameElsewhere}
use ixy.Ixgbe.Init.{num_rx_queue_entries, fill_ring, rx_ones, init_rx_struct, init_rx_queue}

module _ (w : ℕ → ℕ) (i ring : ℕ) where
  last_word :
      init_rx_struct w i ring (rx_queue_at i + 2)
      ≡ put16 16 (put16 0 (w (rx_queue_at i + 2)) num_rx_queue_entries) 0
  last_word =
      update_ne _ (rx_queue_at i) (rx_queue_at i + 2) ring (omega arith)
      ∙ update_self _ (rx_queue_at i + 2) _
      ∙ ap (λ x. put16 16 x 0) (update_self w (rx_queue_at i + 2) _)

  init_rx_struct-fields :
      (descriptors (init_rx_struct w i ring) i ≡ ring)
      × (num_entries (init_rx_struct w i ring) i ≡ num_rx_queue_entries)
      × (rx_index (init_rx_struct w i ring) i ≡ 0)
  init_rx_struct-fields = (
    update_self _ (rx_queue_at i) ring,
    ap (get16 0) last_word ∙ put16_first _ num_rx_queue_entries (omega arith),
    ap (get16 16) last_word ∙ put16_second _ num_rx_queue_entries (omega arith),
  )

module _ (nic : Nic) (i : ℕ) (m : Machine) where
  -- The trace after the type of the descriptors was set, and after packets are dropped when there
  -- is none.
  abbrev typed : Trace
  typed =
      write (srrctl i) (
        u32 (
          bit_or (bit_and (u32 (nic m.dev.trace (srrctl i))) (not32 srrctl_desctype_mask))
            srrctl_desctype_adv_onebuf))
      ∷ read (srrctl i) (u32 (nic m.dev.trace (srrctl i)))
      ∷ m.dev.trace

  abbrev pub configured : Trace
  configured =
      write (srrctl i) (u32 (bit_or (u32 (nic typed (srrctl i))) srrctl_drop_en))
      ∷ read (srrctl i) (u32 (nic typed (srrctl i)))
      ∷ typed

  -- With the ring at `mem`.
  abbrev pub ring_given : (phy : ℕ) → Trace
  ring_given phy =
      write (rdt i) 0
      ∷ write (rdh i) 0
      ∷ write (rdlen i) 16384
      ∷ write (rdbah i) (u32 (phy >>> 32))
      ∷ write (rdbal i) (u32 (bit_and phy 0xFFFFFFFF))
      ∷ configured

  abbrev initialised : DmaMemory → Heap → Machine
  initialised mem h = record m {
    heap = h;
    dev = record m.dev {
      rx_queues = init_rx_struct m.dev.rx_queues i mem.virt;
      rx_descs = fill_ring m.dev.rx_descs mem.virt num_rx_queue_entries rx_ones;
      trace = ring_given mem.phy;
    };
  }

  -- If the ring can be allocated, at a physical address of 64 bits, a round of `init_rx` for queue
  -- `i` leaves its struct with the ring, 1024 entries and index 0. Its last accesses give the card
  -- the physical address of the ring, split in two halves, its size of 16384 bytes, and 0 as head
  -- and as tail. The heap is that after the allocation, and the transmit queues and the numbers of
  -- queues stay.
  pub init_rx_queue_lem :
      (os : Os) (mem : DmaMemory) (h : Heap)
      → memory_allocate_dma os 16384 m.heap ≡ ok (mem, h)
      → mem.phy < 2 ^ 64
      → (m' : Machine) × (low : ℕ) × (high : ℕ) × (init_rx_queue os nic i m ≡ ok (tt, m'))
        × (descriptors m'.dev.rx_queues i ≡ mem.virt)
        × (num_entries m'.dev.rx_queues i ≡ num_rx_queue_entries)
        × (rx_index m'.dev.rx_queues i ≡ 0)
        × (m'.dev.trace
            ≡ write (rdt i) 0
              ∷ write (rdh i) 0
              ∷ write (rdlen i) 16384
              ∷ write (rdbah i) high
              ∷ write (rdbal i) low
              ∷ configured)
        × (low < 2 ^ 32)
        × (high * 2 ^ 32 + low ≡ mem.phy)
        × (m'.heap ≡ h)
        × IsSameElsewhere m.dev m'.dev
  unfolding init_rx_queue set_reg32 get_reg32 set_flags32
  init_rx_queue_lem os mem h alloc small =
      let low_half : bit_and mem.phy 0xFFFFFFFF ≡ mem.phy % 2 ^ 32 = bit_and_mask 32 mem.phy in
      let (ring, entries, index) = init_rx_struct-fields m.dev.rx_queues i mem.virt in
      (
        initialised mem h,
        u32 (bit_and mem.phy 0xFFFFFFFF),
        u32 (mem.phy >>> 32),
        rw alloc refl,
        ring,
        entries,
        index,
        refl,
        omega arith,
        omega (arith, low_half, small),
        refl,
        (refl, refl, refl),
      )
