-- ===== src/App/Pktgen/Tests.antt =====
-- `init_mempool` in an empty process.
use ixy.Base.{◌+◌, ◌*◌, ◌≡◌, refl, arith, [], All}
use ixy.Base.Outcome.{ok}
use ixy.Memory.{
  Mempool, Heap, malloc, memory_allocate_dma, round_up_2mb, virt_to_phys, default_entry_size,
}
use ixy.Memory.New.{countdown}
use ixy.Memory.Pool.{IsPool, free_ids}
use ixy.Memory.Tests.{granting, empty}
use ixy.Ixgbe.Tx.Freed.{pushed_all}
use ixy.App.Pktgen.{num_bufs, init_mempool}
use ixy.App.Pktgen.Fill.{IsTemplate, init_mempool_lem}

init_mempool_lem_example :
    (h' : Heap) × (m : Mempool) × (init_mempool granting empty ≡ ok (100, h'))
    × IsPool h' 100 m
    × (free_ids m ≡ pushed_all [] (countdown num_bufs))
    × All (λ i. IsTemplate h' (0x200000 + i * default_entry_size 0)) (countdown num_bufs)
unfolding round_up_2mb memory_allocate_dma default_entry_size malloc virt_to_phys
init_mempool_lem_example =
    init_mempool_lem granting 100 empty (record empty { mallocs = 1 })
      (record empty { mallocs = 1; huge_pg_id = 1 }) (record { virt = 0x200000; phy = 0x500000 })
      refl (λ e. omega (arith, e)) refl
