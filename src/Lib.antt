-- ===== src/Lib.antt =====
-- Verification of the operating-system simulator: processors take processes from a multi-level
-- queue, in time slots that a timer gives out, and run their instructions, which allocate, free,
-- read and write memory behind five-level page tables, with swapping. A loader reads the processes
-- from files. The configuration is that of include/os-cfg.h: MLQ_SCHED with 140 levels, MM_PAGING,
-- MM_FIXED_MEMSZ and MM64.
--
-- How the parts interact. A timer holds the loader and every processor at the end of a time slot
-- until all of them have come there. The loader makes a process from its file and adds it to a
-- ready queue when its time has come. A processor calls the scheduler for a process and then `run`.
-- An instruction calls liballoc, libfree, libread, libwrite or libsyscall. Allocation searches the
-- free regions of the one memory area; when it finds none it makes system call 17, which looks its
-- caller up in the scheduler's queues and grows the area: frames come from the memory device and
-- go into the page tables. Reading and writing find the page's frame, after another page has been
-- moved to swap space if the page is absent.
--
-- Files, and the code that they model:
--   Base        tests on numbers, lists, faults, machine words and bit fields
--   Queue       src/queue.c: enqueue, dequeue, purgequeue; Queue/Order is the list in the order of
--               service that the array stands for
--   Sched       src/sched.c: get_mlq_proc, put_mlq_proc, add_mlq_proc, the slots; Sched/Fifo is the
--               mode without MLQ_SCHED
--   Memphy      src/mm-memphy.c: cells and free frames of a device
--   Pte         include/mm.h, include/bitops.h: fields of page-table entries and addresses
--   Mm          include/os-mm.h, and the list operations of src/mm64.c, src/mm-vm.c, src/libmem.c
--   PageTable   src/mm64.c: indices, walks, pte_set_fpn, pte_set_swap, vmap_page_range
--   Kernel      include/common.h: instructions, processes, the kernel structure
--   Vm          src/mm-vm.c, and alloc_pages_range, vm_map_ram, __swap_cp_page of src/mm64.c
--   Syscall     src/libstd.c, src/syscall.c, src/sys_mem.c
--   Alloc       src/libmem.c: get_free_vmrg_area, __alloc, __free, liballoc, libfree;
--               Alloc/Collect is free_pcb_memph
--   Access      src/libmem.c: pg_getpage, pg_getval, pg_setval, __read, __write
--   Cpu         src/cpu.c: run
--   Processor   src/os.c: one round of cpu_routine
--   Timer       src/timer.c: the barrier of the time slots, as steps of its threads
--   Loader      src/loader.c: get_opcode, load
--   Machine     src/os.c: the loader, the processors and the timer in any order of steps
--   Config      src/os.c: read_config
--   Legacy      src/mem.c, and alloc, free_data, read, write of src/cpu.c: the mode without MM_PAGING
--   Flat        src/mm.c: page-table entries in the mode without MM64
--   Examples    concrete states on which the theorems are applied
-- A file's children hold the proofs about it and are named for what they prove.
--
-- How the code is modelled. The state is a record that each operation takes and returns: the
-- scheduler's static variables (Sched), a device (Memphy), the memory description (Mm), and the
-- kernel structure with the heap of process control blocks (Kernel). A C function keeps its name,
-- without the prefix MEMPHY_ or underscores. `Option` is undefined behaviour: an index outside an
-- array, a NULL or freed pointer. Result codes are values (Status, or an inner Option). Integers
-- are natural numbers with their wrap-around written out: `u32`, `u64`, and `through_int` for an
-- `addr_t` that is passed as an `int`. Linked lists are lists, page-table pages are functions of
-- the index with `none` for a NULL slot. Each operation that holds a lock is one step.
--
-- An area is called separate (Alloc/Separate) when it is the only one and numbered 0, no address
-- belongs to two regions, live or free, none to a region at or above the break, the table of
-- symbols has its 30 entries, every region starts no later than it ends, below 2 ^ 63, and the
-- break is below 2 ^ 31.
--
-- Bounds. Loops over arrays and lists are structural recursion. The one loop on fuel is that of
-- MEMPHY_mv_csr, with one round more than the device has cells, which is enough: the cursor never
-- goes further than the offset. Loops over the 140 levels, the cells of a frame and the pages of a
-- table count down the rounds that are left.
--
-- Threads. A run is a sequence of steps of the threads (Timer/Steps, Machine/Steps), and a theorem
-- on all states that can be reached holds for every interleaving of steps. Between two steps any
-- other thread may run: load, add_proc, next_slot, detach_event, put_proc or free, get_proc, an
-- instruction, `done = 1` and what the timer does under one lock are steps of their own. An
-- instruction that allocates, frees, reads or writes holds mmvm_lock for all that it does to the
-- memory; a SYSCALL takes no lock and is one step all the same. A thread that waits on a condition
-- variable has no step. Slots are counted modulo 2 ^ 64, as the time is.
--
-- Libraries. The functions of stdio that load and read_config call are the records Loader.Stdio and
-- Config.Input, and what they read from a text are the records Loader/Text.Printed and
-- Config/Text.Listing, which the theorems on reading take; what malloc'ed memory holds is a
-- parameter too, and its address is one at which no process is.
--
-- Other modes. Sched/Fifo, Legacy, Flat and Alloc/Collect model code that the configuration above
-- leaves out or does not call; no step of the machine runs it.
--
-- Not modelled: printing, but for the lines of dump in src/mem.c; the functions of src/mm.c that
-- only print that they are deprecated; the locks themselves; the command line; failure of `malloc`;
-- src/paging.c, a program of its own that only prints.
pub mod Base
pub mod Queue
pub mod Sched
pub mod Memphy
pub mod Pte
pub mod Mm
pub mod PageTable
pub mod Kernel
pub mod Vm
pub mod Syscall
pub mod Alloc
pub mod Access
pub mod Cpu
pub mod Processor
pub mod Timer
pub mod Loader
pub mod Machine
pub mod Config
pub mod Legacy
pub mod Flat
pub mod Examples
