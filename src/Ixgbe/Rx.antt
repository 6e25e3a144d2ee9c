-- ===== src/Ixgbe/Rx.antt =====
-- src/driver/ixgbe.c: the receive queue and `ixgbe_rx_packet`.
--
-- `dev->rx_queues` is cast to `struct ixgbe_rx_queue*` before `queue_id` is added, and the struct
-- ends in a flexible array, so that its size does not count the array: the structs of the queues
-- are 24 bytes, three words, apart. The words of struct `q` are its descriptors, its mempool, and
-- `num_entries` with `rx_index` in the low half of the third; then the array begins.
pub mod Packet
pub mod Tests
use ixy.Base.{ℕ, ◌+◌, ◌*◌, Option, none, some, bit_and, ◌==◌, if◌then◌else◌, update, u64}
use ixy.Base.Outcome.{Cmd, ◌>>=◌, ◌>>◌, pure, gets, abort, modify}
use ixy.Memory.{Heap, PktBuf, load_buf, put_buf, pkt_buf_alloc}
use ixy.Device.{set_reg32}
use ixy.Regs.{rdt}
use ixy.Regs.Bits.{rxdadv_stat_dd, rxdadv_stat_eop}
use ixy.Ixgbe.{
  RxDesc, status_error, wb_length, sizeof_desc, Machine, on_heap, on_regs, set_rx_queues,
  put_rx_desc, get16, put16,
}
use ixy.Ixgbe.Ring.{inc_and_wrap_ring}

-- `sizeof(struct ixgbe_rx_queue)`, in words.
abbrev pub rx_queue_words : ℕ
rx_queue_words = 3

-- Where the fields of the struct at `queue_id` are, in words.
abbrev pub rx_queue_at : ℕ → ℕ
rx_queue_at queue_id = queue_id * rx_queue_words

module _ (w : ℕ → ℕ) (queue_id : ℕ) where
  abbrev pub descriptors : ℕ
  descriptors = w (rx_queue_at queue_id)

  abbrev pub mempool : ℕ
  mempool = w (rx_queue_at queue_id + 1)

  abbrev pub num_entries : ℕ
  num_entries = get16 0 (w (rx_queue_at queue_id + 2))

  abbrev pub rx_index : ℕ
  rx_index = get16 16 (w (rx_queue_at queue_id + 2))

  abbrev pub virtual_address_at : ℕ → ℕ
  virtual_address_at i = rx_queue_at queue_id + rx_queue_words + i

  abbrev pub virtual_address : ℕ → ℕ
  virtual_address i = w (virtual_address_at i)

  -- `queue->rx_index = v`.
  abbrev pub set_rx_index : ℕ → ℕ → ℕ
  set_rx_index v = update w (rx_queue_at queue_id + 2) (put16 16 (w (rx_queue_at queue_id + 2)) v)

-- `offsetof(struct pkt_buf, data)`: the array is aligned to 64.
abbrev pub pkt_buf_data : ℕ
pkt_buf_data = 64

-- `buf->size = v`.
unfoldable pub set_size : ℕ → ℕ → Cmd Heap (Unit {0})
unfolding load_buf
set_size buf v = do b ← load_buf buf; modify (put_buf buf (record b { size = v }))

-- The part of `ixgbe_rx_packet` for a finished descriptor at `rx_index`.
unfoldable pub take_packet : ℕ → RxDesc → ℕ → ℕ → Cmd Machine ℕ
unfolding load_buf set_size
take_packet queue_id desc desc_ptr index = do
  w ← gets (λ m. m.dev.rx_queues)
  let buf = virtual_address w queue_id index
  on_heap (set_size buf (wb_length desc))
  new_buf ← on_heap (pkt_buf_alloc (mempool w queue_id))
  if new_buf == 0 then abort else do
    b ← on_heap (load_buf new_buf)
    put_rx_desc desc_ptr (record { pkt_addr = u64 (b.buf_addr_phy + pkt_buf_data); hdr_addr = 0 })
    set_rx_queues (set_rx_index w queue_id (inc_and_wrap_ring index (num_entries w queue_id)))
    on_regs (set_reg32 (rdt queue_id) index)
    pure buf

-- `NULL`, 0, if no packet is there.
unfoldable pub rx_packet : ℕ → Cmd Machine ℕ
unfolding take_packet
rx_packet queue_id = do
  w ← gets (λ m. m.dev.rx_queues)
  let index = rx_index w queue_id
  let desc_ptr = descriptors w queue_id + index * sizeof_desc
  desc ← gets (λ m. m.dev.rx_descs desc_ptr)
  if bit_and (status_error desc) rxdadv_stat_dd == 0
      then pure 0
      else if bit_and (status_error desc) rxdadv_stat_eop == 0
      then abort
      else take_packet queue_id desc desc_ptr index
