-- ===== src/Lib.antt =====
-- ixy, a userspace driver for network cards of the ixgbe family.
--
-- The program's parts and the files that model them:
--
-- Base and its children: numbers with Boolean tests, lists, words of 16, 32 and 64 bits, and the
--   outcomes of a call. `aborted` is `error(...)` of src/log.h, `exited` is a failed `check_err`,
--   `fault` an access that C leaves undefined, and `hung` a loop whose fuel is used up.
-- Os: the system calls and the C library, as parameters.
-- Memory: src/memory.h and src/memory.c. `Heap` has the pools (`struct mempool`) and the packet
--   buffers (`struct pkt_buf`) by address, and `huge_pg_id`. The functions keep their names:
--   `virt_to_phys`, `memory_allocate_dma`, `memory_allocate_mempool`, `pkt_buf_alloc` and
--   `pkt_buf_free`. Memory/Stack and Memory/Pool have the valid pools, Memory/Bag what they
--   promise: a bag of free entries, as a quotient of lists.
-- Device: src/driver/device.h. The state is the list of register accesses; what a card answers to a
--   read is an arbitrary function of the accesses before it.
-- Regs and Regs/Bits: the registers and flags of src/driver/ixgbe_type.h that the driver uses.
-- Ixgbe: src/driver/ixgbe.c. `Machine` is the heap with the `Device` (`struct ixy_device`, its
--   queues, its descriptor rings and its register accesses). Ixgbe/Ring has `inc_and_wrap_ring`,
--   Ixgbe/Rx `ixgbe_rx_packet` (`rx_packet`), and Ixgbe/Tx `ixgbe_tx_packet` (`tx_packet`; `clean` is
--   its step 1 and `enqueue` its step 2). Ixgbe/Link has the link and the promiscuous mode,
--   Ixgbe/Start `start_rx_queue` and `start_tx_queue`, Ixgbe/Init `init_rx`, `init_tx` and `reset_and_init`, and
--   Ixgbe/Stats `ixgbe_read_stats` with src/stats.h and `stats_init` of src/stats.c. Ixgbe/New has
--   `ixgbe_init`. Initialisation as a whole is about a system that grants what is asked for (`Grants`
--   of Ixgbe/Init/Grants) and a card that does what is polled for (`Responds` of Ixgbe/Init/Ready).
-- Regs/Range and Ixgbe/Mmio: the registers in the mapped resource, and which of them each function
--   accesses. `Session` of Ixgbe/Mmio/Session is a program that calls the driver in any order.
-- Log: `hexdump` of src/log.h, and a reader of what it prints.
-- Pci: src/pci.c, with the files of sysfs as a parameter, and the configuration space and the position
--   in its file as its state.
-- Cpp: the C++ driver, src/driver/ixgbe.cpp, ixgbe.hpp and device.hpp. Its functions are translated on
--   their own (Cpp/Registers, Cpp/Rx, Cpp/Tx, Cpp/Link, Cpp/Start, Cpp/Init, Cpp/New) on the state of
--   the C driver, whose structs it has too. Cpp/Agrees compares them with the C functions; `init_link`
--   and `init_tx` differ.
--
-- Allocator: the interface of src/allocator/allocator.h. Allocator/Stack, Allocator/Fallback,
--   Allocator/Dma and Allocator/Malloc are stack_allocator.c, fallback_allocator.c, dma_allocator.c,
--   and mallocator.c with null_allocator.c of src/allocator. Allocator/Stack/New makes and frees a
--   stack allocator, for any parent, and Allocator/Fallback/New a fallback allocator.
-- Allocator/Spinlock: src/allocator/spinlock_stack_allocator.c as a step relation. `Pc` is where a
--   thread is, `step` its next access of the lock or of the shared stack, and `Reach` every order of
--   the steps of any number of threads. `IsShared` of Allocator/Spinlock/Valid is the invariant.
--   The spinlock of src/allocator/rte_spinlock.h, a copy of a header of DPDK, is a parameter. Threads
--   return only slots that they were given and have not returned.
-- App/Pktgen: src/app/ixy-pktgen.c, its pool and its loop. App/Example: src/app/allocator-example.c;
--   its one thread goes through the steps of Allocator/Spinlock to their end. App/Forward: the loops
--   of src/app/ixy-fwd.c and, in App/Forward/Cpp, of src/app/ixy-cpp-fwd.cpp.
--
-- The driver takes packet buffers from the pools of Memory and gives them back; it reaches the card by
-- Device and by the descriptor rings. A ring is memory that the card writes as well: a command reads
-- what the card left there. The applications call the driver on a heap that all cards share. A buffer
-- is a record with the header's fields. The first round of a receive ring has packets written from the
-- header on; App/Forward/First takes what such a packet leaves for another, arbitrary header.
--
-- The arrays of queues are 64-bit words, since the C code places the struct of queue `q` at
-- `q * sizeof(struct)`, and the struct ends in a flexible array that its size does not count. The
-- fields of a struct are read from these words, so that queues overlap as they do in C.
--
-- Loops on fuel: `clean` has one round for each entry of the ring and one more, which is enough since
-- fewer than `num_entries` entries are in flight. `wait_set_reg32` and `wait_clear_reg32` poll without
-- a limit in C; here their fuel bounds the polls. `poll_link` gets 101 rounds: `max_wait` is 100 times
-- `poll_interval`. `send` of App/Pktgen waits without a limit in C for room in the ring.
-- `check_pages` of Allocator/Dma has one round for each page of the block, and `dump_lines` of Log one
-- for every 16 bytes and one more. `finish` of App/Example has five rounds: a function has four steps.
--
-- Not modelled: what is printed, but for `hexdump`, with `print_stats` and `print_stats_diff`;
-- src/libseccomp_init.c, which only calls libseccomp; the arguments of the programs; the functions
-- that copy the DMA, malloc and null allocators, which keep no state; the registers of
-- src/driver/ixgbe_type.h that the driver does not use; the headers of DPDK. A pool and a queue are
-- used by one thread, as the code asks for.
pub mod Allocator
pub mod App
pub mod Base
pub mod Cpp
pub mod Device
pub mod Ixgbe
pub mod Log
pub mod Memory
pub mod Os
pub mod Pci
pub mod Regs
