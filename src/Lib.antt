-- ===== src/Lib.antt =====
-- yaos: the memory management with the page tables, the threads, the timers and the formatted output of the kernel.
--
-- The program is a kernel for x86_64. Three allocators stand on one another: pages of 2M
-- (arch/x86_64/phymem.c), the kernel heap on top of them (kernel/kheap.c), and what is carved from
-- the heap.
--
-- Prelude holds the shared names. A kernel routine is an action on a state that returns, halts (a
-- failed ASSERT, which is compiled in, or a panic) or spins (a loop that does not end, or the wait
-- for a lock that is held).
--
-- Bitmap: arch/x86_64/include/asm/bitops.h on arrays of 64-bit words.
-- Phymem: arch/x86_64/phymem.c. The state has the bitmap, the pointers pnow and pmax as indices, and
-- the count of free pages. alloc_phy_page runs on a number of rounds: one is enough unless the loop
-- never ends.
-- Holes: the lists of free regions that kernel/kheap.c keeps, on a fixed array of nodes. Pointers to
-- nodes are the nodes' indices in the array.
-- Kheap: kernel/kheap.c and include/yaos/kheap.h. The refill loop runs on a number of rounds; the
-- table has 10 nodes, so 11 rounds are enough. Interrupts and other processors are not modelled: the
-- routines run one at a time, and the locks are kept to see who leaves one held.
-- Vm: kernel/vm.c. alloc_linear, free_linear and init_vm keep the same kind of list for virtual pages of
--   2M. Vm.Area has alloc_vm, free_vm and their twins for stacks, over that list, the page allocator and the
--   page tables; one round for each page and one more are enough for the loops.
-- Pgtable: arch/x86_64/pgtable.c, on the memory by words of 8 bytes. The allocator of the tables is a
--   parameter, with a stock from which it serves calls; Pgtable.Heap fills it with the kernel heap, whose stock
--   is what its holes hold (Kheap.Supply). The loop of ioremap_nocache runs on a number
--   of rounds, and one for each page and one more are enough. Pgtable.Init has init_pml4: the addresses of
--   the static tables are a record, and its loop over the memory above 4G runs on a number of rounds.
-- Boot: arch/x86_64/multiboot.c, with the page allocator, the heap and the page tables below it.
--   on_mem, deal_reverse and on_iomem work on the map of memory as a list of entries; their recursion runs on a
--   number of rounds. A panic is a halt.
-- Slub: module/mm/slub.c and module/mm/slub.h: the size classes, with fls of bitops.h; the free list
--   that slub_add_page makes of a page (512 rounds are enough, as the smallest object has 8 bytes);
--   the caches, page_bits and the allocation and release of blocks, over a heap that is a parameter. The
--   walk over a large block in __kmfree runs on a number of pages.
-- Timer: kernel/timer.c, for one processor. The callbacks and yaos_malloc are parameters.
--   run_timer_softirq calls itself after a batch of ten, on a number of rounds: with callbacks that
--   arm nothing that is due already, as test_timeout of kernel/kthread.c, one for each ten due timeouts and one
--   more is enough; callbacks that arm timeouts already due can keep it going for ever.
-- Thread: kernel/kthread.c, the switches between the threads of one processor. The pages mapped are a
--   parameter; the walk along the parents in wake_up_thread runs on a number of links.
-- Softirq: kernel/tasklet.c and include/yaos/tasklet.h. The queues are the linked lists of the source,
--   with the tail pointer as a slot. The functions of the tasklets, the handlers of other files and what
--   happens between wake_up_thread's switch and the return of control are parameters. tasklet_action
--   runs on a number of links, one more than the tasklets in the queue; 33 tests of the 32 pending bits
--   are enough. tasklet_count is kept one higher than in the source.
-- Loader: kernel/module.c. The handlers of the modules are a parameter; the rounds are the ten of the
--   source. percpu_status is kept for one processor, with each module.
-- Print: number and vsprintf of kernel/printk.c. The arguments are a list of words and strings; the
--   loop over the format runs on a number of rounds, and one for each byte is enough.
--
-- Not modelled: the device drivers, the interrupt controllers and the virtio queues, which work on device
-- registers; of the boot code, init_page_map, init_phy_mem and the start of the other processors; the callbacks
-- of sched.c and the table of kernel calls; what the routines print for debugging; the copy of musl under extern
-- and libs/string, which is another project's library; and the user programs.
pub mod Bitmap
pub mod Boot
pub mod Holes
pub mod Kheap
pub mod Loader
pub mod Pgtable
pub mod Phymem
pub mod Prelude
pub mod Print
pub mod Slub
pub mod Softirq
pub mod Thread
pub mod Timer
pub mod Vm
