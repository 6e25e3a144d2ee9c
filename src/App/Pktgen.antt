-- ===== src/App/Pktgen.antt =====
-- src/app/ixy-pktgen.c: the pool of packets and the loop that sends them.
pub mod Fill
pub mod Loop
mod Tests
use ixy.Base.{ℕ, zero, suc, List, [], ◌∷◌, ltb, ◌==◌, if◌then◌else◌}
use ixy.Base.Outcome.{Cmd, hung, ◌>>=◌, ◌>>◌, pure, modify, gets}
use ixy.Os.{Os}
use ixy.Memory.{
  PktBuf, Heap, load_buf, put_buf, pkt_buf_alloc, pkt_buf_free, memory_allocate_mempool,
}
use ixy.Ixgbe.{Machine, on_heap}
use ixy.Ixgbe.Tx.{tx_packet}

abbrev pub pkt_size : ℕ
pkt_size = 60

abbrev pub num_bufs : ℕ
num_bufs = 2048

-- A buffer with the template of a packet.
abbrev pub filled : PktBuf → PktBuf
filled b = record b { size = pkt_size; payload = λ i. if ltb i pkt_size then 0xFF else b.payload i }

unfoldable pub fill_buf : ℕ → Cmd Heap (Unit {0})
fill_buf buf = do b ← load_buf buf; modify (put_buf buf (filled b))

-- The first loop: the array `bufs`.
unfoldable pub fill_bufs : ℕ → ℕ → Cmd Heap (List ℕ)
fill_bufs mempool zero = pure []
fill_bufs mempool (suc left) = do
  buf ← pkt_buf_alloc mempool
  fill_buf buf
  bufs ← fill_bufs mempool left
  pure (buf ∷ bufs)

-- The second loop.
unfoldable pub free_bufs : List ℕ → Cmd Heap (Unit {0})
free_bufs [] = pure tt
free_bufs (buf ∷ bufs) = pkt_buf_free buf >> free_bufs bufs

unfoldable pub init_mempool : Os → Cmd Heap ℕ
init_mempool os = do
  mempool ← memory_allocate_mempool os num_bufs 0
  bufs ← fill_bufs mempool num_bufs
  free_bufs bufs
  pure mempool

-- The loop that waits for room in the queue.
unfoldable pub send : ℕ → ℕ → Cmd Machine (Unit {0})
send zero buf = λ _. hung
send (suc fuel) buf = do
  sent ← tx_packet 0 buf
  let again = send fuel buf
  if sent == 0 then again else pure tt

-- One round of the endless loop, without the statistics. The result of the allocation is not
-- tested.
unfoldable pub generate_one : ℕ → ℕ → Cmd Machine (Unit {0})
generate_one fuel mempool = do buf ← on_heap (pkt_buf_alloc mempool); send fuel buf
