-- ===== src/Lib.antt =====
-- A model of the core of the kernel: process scheduling, sleeping and waking, signals, process exit
-- and waiting, the process ids behind them, virtual memory areas, page tables, and the allocators of
-- memory at the start, of pages and of small objects.
--
-- Parts, the code they model, and the files:
-- - Bits, Bitmap: the bit array of lib/data_structs/bitmap, over a list of bytes.
-- - IdManager: src/utils/id_manager.c, the process ids, over the bitmap.
-- - Proc: the state of src/proc/task.c as the record `Sys`, with the ready queue of
--   src/proc/scheduler.c (Proc/Sched), src/proc/waitqueue.c (Proc/WaitQueue), src/proc/timer.c
--   (Proc/Timer), src/proc/signal.c and src/syscalls/kill.c (Proc/Signal), and
--   src/syscalls/exit.c and waitpid.c (Proc/Exit). Proc/Invariant holds the invariant of the queues
--   and Proc/Keeps what an operation leaves alone.
--
-- The timer interrupt wakes sleepers and calls the scheduler; sleeping, waiting and exiting take a
-- task off the ready queue by wait queues and call the scheduler; signals wake what may be
-- interrupted. All of them change the same `Sys` and keep the same invariant.
--
-- Numbers are natural numbers; a 32-bit value that can wrap is written with `% 2 ^ 32`. Tasks are
-- their addresses, 0 is NULL. An intrusive circular list is the list of its entries; a node knows by
-- `wq_link` in which list it stands. `schedule` ends where it switches stacks; a `kpanic` is a value.
--
-- Vma models src/memory/vma.c with src/syscalls/mmap.c and munmap.c, Buddy src/memory/buddy.c, and
-- Libk lib/libk. The areas take pages from the allocator through a parameter. The loops on strings
-- have a bound on their rounds, which the theorems compare with the length of the string.
--
-- Vmm models the page tables of src/memory/vmm.c and the checks of src/memory/usercopy.c: `Tables` gives
-- the entry of a table, by its physical address, at an index. The page for a new table (0 where there
-- is none) and the current directory are arguments. Boot models src/memory/boot_allocator.c: an array
-- of regions with its count is the list of its regions. Slab models the caches of src/memory/slab.c:
-- the three lists of a cache are lists of slabs, and the chain of free objects of a slab the list of
-- their addresses; that the owner of an object does not write to it once it is freed is assumed.
-- Tty models the frame buffer and the cursor of src/drivers/tty/tty.c and src/drivers/vga/vga.c, a
-- function from offsets to entries; the loops that wrap the cursor and a tab have a bound on their
-- rounds that a byte does not pass. Numbers are printed as the list of their characters.
--
-- Life models the memory of a task: src/proc/task.c where it makes, clones, cleans up and releases a
-- task, src/proc/userspace.c, src/proc/section.c, src/syscalls/fork.c and execve.c. What it calls of
-- src/memory/kmalloc.c and of the buddy allocator is an interface of four functions on a state of
-- their own, Life/Memory, of which nothing is asked; Life/Tests/Heaps fills it with the models of Buddy
-- and Slab. A `Machine` is that state, the ids and the list of all tasks, and counts for each address
-- how often it was taken and how often given back: what is held is the difference. Whether a page can
-- be mapped is an argument. A page directory is here the list of its tables, which the mapping of
-- pages takes and `vmm_destroy_user_pd` gives back, in the order of the list; their entries are those
-- of Vmm.
--
-- Pages models src/memory/page.c: the descriptors of Buddy by number of the page, their start from the
-- zones of Boot, and the search for a free page. The search runs over the pages that are left.
--
-- Boot gives the free zones from which Buddy starts; Buddy gives the pages for tables, areas and
-- slabs, by parameters.
--
-- Loops over lists recurse on what is left of the list. `wq_wake_all` runs for as many rounds as its
-- queue has tasks, and each round takes one off. The loops of the bitmap run over the bytes that are
-- left, and that of `signal_dequeue_yield` over the 31 signals. The splitting of a region over zones
-- has three rounds, one for each zone, and `size_to_cache_size` 28 tests, enough up to 2 ^ 31.
--
-- In the other parts memory that functions take from `kmalloc` is a parameter. Not modelled: assembly, port input and
-- output, the hardware cursor, the shell, and the set-up of descriptor tables.
pub mod Bitmap
pub mod Bits
pub mod Boot
pub mod Buddy
pub mod IdManager
pub mod Libk
pub mod Life
pub mod Pages
pub mod Prelude
pub mod Proc
pub mod Slab
pub mod Tty
pub mod Vma
pub mod Vmm
