-- ===== src/Lib.antt =====
-- A verification library for the kernel of this repository, a small operating system kernel for
-- 64-bit RISC-V.
--
-- Parts and files. Paths are from the repository's root.
-- Common has shared names, 64-bit words (Word), masks as arithmetic (Bits), the page and address
--   macros of kernel/include/kmem.h and kernel/include/vmem.h in Sv39 mode (Page), and the outcome
--   of code that may call `panic` of kernel/signal.c, which never returns (Effects).
-- Bitmap is the bit maps over an array of bytes of kernel/utilities/bytes.c, and Bytes its reversals of
--   bytes.
-- LinkedList is kernel/utilities/algorithm/list.c, the doubly linked lists whose nodes lie inside
--   the objects that they link; Chain says which nodes a head stands for.
-- Memory is the model of the routines on raw memory of kernel/utilities/string.c.
-- Bootmem is kernel/memory/bootmem.c, the page allocator of the boot. It uses Bitmap for its page
--   map and Memory to clear what it hands out. Scan and Place hold the two halves of
--   `bootmem_alloc`; Used says which bytes of the node are in use.
-- Buddy is kernel/memory/buddy.c, the page allocator after the boot. It uses LinkedList for the
--   lists of free blocks and Bitmap for its maps. Blocks, Lists and Moves say which blocks are free;
--   Parity is about the bits of the pairs of buddies; Split, Alloc and Give are
--   `kmem_alloc_pages`; Free, Coalesce and Release are `kmem_free_page` and `kmem_free_pages`; Init is
--   the loop of `kmem_page_manager_init` that frees what the boot left, once the maps are there.
--   The spinlock makes each operation one step. How `kmem_page_manager_init` gets the maps from the
--   boot allocator is not modelled: they are functions of their own.
-- Object is kernel/memory/object.c: objects of one size in blocks of pages from Buddy, with LinkedList's lists
--   (Headers). Slots is about one block, Fresh, Create and Grow about a new one; Managed is all blocks of a manager,
--   Search, Alloc and Manage are `kmem_object_alloc`, Free is `kmem_object_free`, and Disjoint is about the memory of
--   objects. Universal is `kmem_alloc` and `kmem_init` of kernel/memory/kmem.c. Locks make each operation one step.
-- Hart is kernel/asm/hart.c, the nesting of interrupt disabling on one hart. Spinlock is
--   kernel/spinlock.c, one lock under every interleaving of the accesses of any number of harts, and in Held
--   whole calls of one hart.
-- Vmem is kernel/memory/vmem.c, page tables in Sv39 mode, whose tables come from Buddy. Tree says what
--   a page table is and Leaf, Grow and Extend how it changes; Space is an address space with its
--   entries; Walk, Map and Range are `vm_walk` and `vm_mappages`, Unmap and Translate the routines of
--   these names, and Copyout is `vm_memcpyout`. Teardown makes and reaps address spaces and Fork is `vm_uvmcpy`. Setup is
--   kernel/boot/setup_mmu.c, the page table of the boot, and Giga says what it maps.
-- Sort is kernel/utilities/algorithm/qsort.c, for any type with its comparison.
-- Text is the rest of kernel/utilities/string.c, on strings in the memory of the module Memory.
-- Console is kernel/console/print.c: numbers, formats and dumps as lists of characters; Readback joins
--   it with `strtoul` of Text.
-- Uart is kernel/device/drivers/ns16550a/ns16550a.c, the ring buffers of the serial port, over a device
--   that answers in any way. Locks make each operation one step; a call that would sleep has no result.
-- Ram is kernel/device/memory.c: the walk over the device tree, whose library is a parameter, and the sweep that
--   finds the available segments, with Sort. Counts and Events are about sorted begins and ends, Settled and
--   Sweeping about the loop.
-- Hal is kernel/device/hal/trap.c, kernel/device/hal/uart_io.c and kernel/device/drivers/drivers.c, the
--   registries of devices and the dispatch of interrupts to the handlers of Uart and its kin.
-- Process is kernel/proc/proc.c and what kernel/proc/scheduler.c does to the states of processes.
--   Found is about lists of processes. Exit is `proc_exit` with its lock, through Spinlock. Wait is a round of
--   `syscall_wait` of kernel/proc/syscall.c, on Vmem and Object (Children, Round), and Memory is stack, heap and teardown of one
--   process with `syscall_sbrk`, on the page tables of Vmem.
-- Trap is kernel/trap/trap.c: what the handlers call for each cause, with the calls as parameters.
-- Sleeplock is kernel/sleeplock.c, locks on which processes of Process sleep.
--
-- State is passed explicitly: an operation takes the state and returns the new one, in an
-- `Outcome` where it may panic. Memory is a function from addresses; a bit map and the fields of list
-- nodes are functions of their own, apart from the rest of memory. Words are native numbers with
-- the wrap-around written out. A loop is a recursion on the rounds left, which its bounds determine.
-- Native numbers stand for addresses and page numbers; the node of Buddy ends below page 2 ^ 25, half
-- of what Sv39 maps for the kernel. The loop over the orders has 11 rounds, one for each.
-- A loop that ends at a NUL byte has fuel, more than the length of the string; the sorting has fuel
-- for the depth of its calls, more than the length of the array.
--
-- Not modelled: the routines of vmem.c that switch the page table of the kernel,
-- the creation of processes and their context switch, the table of system calls, the registers
-- that traps save, the other drivers and the
-- device tables; libfdt (kernel/device/libfdt), a copy of another project; the virtio driver, which is
-- unfinished; assembly and firmware calls.
pub mod Common
pub mod Bitmap
pub mod LinkedList
pub mod Memory
pub mod Bootmem
pub mod Buddy
pub mod Object
pub mod Hart
pub mod Spinlock
pub mod Vmem
pub mod Sort
pub mod Text
pub mod Console
pub mod Uart
pub mod Ram
pub mod Hal
pub mod Process
pub mod Trap
pub mod Sleeplock
pub mod Bytes
