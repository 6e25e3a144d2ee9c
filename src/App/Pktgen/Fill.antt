-- ===== src/App/Pktgen/Fill.antt =====
-- What `init_mempool` of src/app/ixy-pktgen.c does with a new pool.
use native.Mathlib.Decide.{ℕ_discrete}
use ixy.Base.{
  ℕ, zero, suc, ◌+◌, ◌*◌, ◌<◌, ◌≡◌, ◌≢◌, refl, ap, sym, ◌∙◌, arith, List, [], ◌∷◌, map, some,
  length, update, update_self, update_ne, All, All-mono, Distinct,
}
use ixy.Base.Outcome.{ok}
use ixy.Os.{Os}
use ixy.Memory.New.{
  IsFullPool, memory_allocate_mempool-IsFullPool, countdown, countdown-Below, countdown-Distinct,
}
use ixy.Memory.{
  DmaMemory, malloc, sizeof_mempool, memory_allocate_dma, default_entry_size,
  memory_allocate_mempool, PktBuf, Mempool, Heap, load_buf, put_buf, put_pool,
}
use ixy.Memory.Stack.{NotIn, Below, length-stack_view}
use ixy.Memory.Pool.{
  IsPool, HasHeader, free_ids, entry_addr, popped, pushed, pkt_buf_alloc_pop, pkt_buf_free_push,
}
use ixy.Ixgbe.Tx.Freed.{AreInUse, pushed_all}
use ixy.App.Pktgen.{num_bufs, init_mempool, pkt_size, filled, fill_buf, fill_bufs, free_bufs}

-- A template keeps the headers of a pool.
filled-HasHeader :
    {h : Heap} {p : ℕ} {m : Mempool} (a : ℕ) (b : PktBuf) (i : ℕ)
    → h.bufs a ≡ some b
    → HasHeader h p m i
    → HasHeader (put_buf a (filled b) h) p m i
filled-HasHeader {h} {p} {m} a b i e hd = elim (ℕ_discrete (entry_addr m i) a) [
  | yes same ↦
      let is_b : hd.buf ≡ b = cc (hd.here, e, same) in
      record {
        buf = filled b;
        here = ap (update h.bufs a (some (filled b))) same ∙ update_self h.bufs a _;
        pool = ap (λ x. x.mempool) (sym is_b) ∙ hd.pool;
        idx = ap (λ x. x.mempool_idx) (sym is_b) ∙ hd.idx;
        phy = ap (λ x. x.buf_addr_phy) (sym is_b) ∙ hd.phy;
      }
  | no other ↦ record {
    buf = hd.buf;
    here = update_ne h.bufs a (entry_addr m i) _ other ∙ hd.here;
    pool = hd.pool;
    idx = hd.idx;
    phy = hd.phy;
  }
]

filled-IsPool :
    {h : Heap} {p : ℕ} {m : Mempool} (a : ℕ) (b : PktBuf)
    → h.bufs a ≡ some b
    → IsPool h p m
    → IsPool (put_buf a (filled b) h) p m
filled-IsPool a b e v = record {
  here = v.here;
  room = v.room;
  fits = v.fits;
  positive = v.positive;
  below = v.below;
  distinct = v.distinct;
  headers = λ i lt. filled-HasHeader a b i e (v.headers i lt);
}

-- The buffer at an address has the template.
abbrev pub IsTemplate : Heap → ℕ → Type 0
IsTemplate h a =
    (b : PktBuf) × (h.bufs a ≡ some b)
    × (b.size ≡ pkt_size)
    × ((i : ℕ) → i < pkt_size → b.payload i ≡ 0xFF)

IsTemplate-self : (h : Heap) (a : ℕ) (b : PktBuf) → IsTemplate (put_buf a (filled b) h) a
IsTemplate-self h a b = (filled b, update_self h.bufs a _, refl, λ i lt. ground arith)

-- The pool after every entry was taken.
abbrev pub emptied : Mempool → Mempool
emptied m = record m { free_stack_top = 0 }

-- Later buffers keep a template, or fill it once more.
IsTemplate-kept :
    (h : Heap) (c a : ℕ) (b : PktBuf) → IsTemplate h a → IsTemplate (put_buf c (filled b) h) a
IsTemplate-kept h c a b t = elim (ℕ_discrete a c) [
  | yes same ↦ rw same (IsTemplate-self h c b)
  | no other ↦ (t.0, update_ne h.bufs c a _ other ∙ t.1, t.2, t.3)
]

empty_is : (m : Mempool) → free_ids m ≡ [] → emptied m ≡ m
empty_is m e =
    ap (λ x. record m { free_stack_top = x })
      (omega (arith, length-stack_view m.free_stack m.free_stack_top, ap length e))

fill_bufs-IsPool :
    {h : Heap} {p : ℕ} {m : Mempool} (v : IsPool h p m) (ids : List ℕ)
    → free_ids m ≡ ids
    → (h' : Heap) × (fill_bufs p (length ids) h ≡ ok (map (entry_addr m) ids, h'))
      × IsPool h' p (emptied m)
      × ((a : ℕ) → IsTemplate h a → IsTemplate h' a)
      × All (λ i. IsTemplate h' (entry_addr m i)) ids
unfolding fill_bufs fill_buf load_buf
fill_bufs-IsPool {h} {p} {m} v [] e = (h, refl, rw (empty_is m e) v, λ a t. t, tt)
fill_bufs-IsPool {h} {p} {m} v (i ∷ ids) e =
    let (alloc, lt, tail, valid) = pkt_buf_alloc_pop v i ids e in
    let h1 = put_pool p (popped m) h in
    let hd = valid.headers i lt in
    let h2 = put_buf (entry_addr m i) (filled hd.buf) h1 in
    let (h', rest, valid', keep, all) =
      fill_bufs-IsPool {h = h2} {p = p} {m = popped m}
        (filled-IsPool (entry_addr m i) hd.buf hd.here valid) ids tail in
    (
      h',
      rw (alloc, hd.here, rest) refl,
      valid',
      λ a t. keep a (IsTemplate-kept h1 (entry_addr m i) a hd.buf t),
      (keep (entry_addr m i) (IsTemplate-self h1 (entry_addr m i) hd.buf), all),
    )

-- Entries in use of one pool can all be freed, without a change of their buffers.
free_bufs-IsPool :
    {h : Heap} {p : ℕ} {m : Mempool} (v : IsPool h p m) (ids : List ℕ)
    → AreInUse m.num_entries (free_ids m) ids
    → (h' : Heap) × (m' : Mempool) × (free_bufs (map (entry_addr m) ids) h ≡ ok (tt, h'))
      × IsPool h' p m'
      × (free_ids m' ≡ pushed_all (free_ids m) ids)
      × ((a : ℕ) → h'.bufs a ≡ h.bufs a)
unfolding free_bufs
free_bufs-IsPool {h} {p} {m} v [] used = (h, m, refl, v, refl, λ a. refl)
free_bufs-IsPool {h} {p} {m} v (i ∷ ids) (lt, fresh, used) =
    let (frees, view, valid) = pkt_buf_free_push v i lt fresh in
    let (h', m', all, valid', view', same) =
      free_bufs-IsPool {h = put_pool p (pushed m i) h} {m = pushed m i} valid ids (rw view used) in
    (h', m', rw frees all, valid', rw view at view', same)

Distinct-AreInUse :
    (n : ℕ) (free ids : List ℕ)
    → Below n ids
    → Distinct ids
    → All (λ x. NotIn x free) ids
    → AreInUse n free ids
Distinct-AreInUse n free [] below distinct fresh = tt
Distinct-AreInUse n free (i ∷ ids) below distinct fresh = (
  below.0,
  fresh.0,
  Distinct-AreInUse n (i ∷ free) ids below.1 distinct.1 (both ids distinct.0 fresh.1),
)
  where
    both :
        (xs : List ℕ)
        → All (λ y. i ≢ y) xs
        → All (λ x. NotIn x free) xs
        → All (λ x. NotIn x (i ∷ free)) xs
    both [] d f = tt
    both (x ∷ xs) d f = ((λ e. d.0 (sym e), f.0), both xs d.1 f.1)

none_free : (ids : List ℕ) → All (λ x. NotIn x []) ids
none_free [] = tt
none_free (i ∷ ids) = (tt, none_free ids)

length-countdown : (n : ℕ) → length (countdown n) ≡ n
length-countdown zero = refl
length-countdown (suc n) = ap suc (length-countdown n)

module _ (os : Os) (h h1 : Heap) (p : ℕ) (m : Mempool) (mem : DmaMemory) (size : ℕ) where
  init_mempool-IsPool :
      memory_allocate_mempool os num_bufs 0 h ≡ ok (p, h1)
      → IsFullPool mem num_bufs size h1 p m
      → (h' : Heap) × (m' : Mempool) × (init_mempool os h ≡ ok (p, h'))
        × IsPool h' p m'
        × (free_ids m' ≡ pushed_all [] (countdown num_bufs))
        × All (λ i. IsTemplate h' (mem.virt + i * size)) (countdown num_bufs)
  unfolding init_mempool
  init_mempool-IsPool granted full =
      let v = full.valid in
      let (h2, fills, emptied_valid, keep, all) =
        fill_bufs-IsPool v (countdown num_bufs) full.all_free in
      let used : AreInUse m.num_entries [] (countdown num_bufs) =
        Distinct-AreInUse m.num_entries [] (countdown num_bufs)
          (countdown-Below num_bufs m.num_entries (omega (arith, full.entries)))
          (countdown-Distinct num_bufs) (none_free (countdown num_bufs)) in
      let (h3, m3, frees, valid, view, same) =
        free_bufs-IsPool emptied_valid (countdown num_bufs) used in
      (
        h3,
        m3,
        rw (granted, rw (length-countdown num_bufs) at fills, frees) refl,
        valid,
        view,
        All-mono {P = λ i. IsTemplate h2 (entry_addr m i)}
            {Q = λ i. IsTemplate h3 (mem.virt + i * size)} (countdown num_bufs)
            (λ i t. rw (← full.block, ← full.spacing) (t.0, same (entry_addr m i) ∙ t.1, t.2, t.3))
            all,
      )

-- If `malloc` returns memory and the DMA allocation succeeds, `init_mempool` returns a valid pool
-- with all 2048 entries free, entry 0 on top, and every buffer has size 60 and 60 bytes of 0xFF.
pub init_mempool_lem :
    (os : Os) (p : ℕ) (h h1 h2 : Heap) (mem : DmaMemory)
    → malloc os (sizeof_mempool + num_bufs * 4) h ≡ ok (p, h1)
    → p ≢ 0
    → memory_allocate_dma os (num_bufs * default_entry_size 0) h1 ≡ ok (mem, h2)
    → (h' : Heap) × (m : Mempool) × (init_mempool os h ≡ ok (p, h'))
      × IsPool h' p m
      × (free_ids m ≡ pushed_all [] (countdown num_bufs))
      × All (λ i. IsTemplate h' (mem.virt + i * default_entry_size 0)) (countdown num_bufs)
unfolding default_entry_size
init_mempool_lem os p h h1 h2 mem alloc there dma =
    let (h3, m, granted, full) =
      memory_allocate_mempool-IsFullPool os num_bufs 0 p h h1 h2 mem (omega arith) (omega arith)
        alloc there dma in
    init_mempool-IsPool os h h3 p m mem (default_entry_size 0) granted full
