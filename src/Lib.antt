-- ===== src/Lib.antt =====
-- Maturin, a kernel for RISC-V in Rust: parts of it as functions, and what they guarantee.
--
-- The parts and their files:
-- - Range: modules/range-action-map/src, the map of ranges that holds the areas of an address
--   space. `Segment` is the trait `Segment` with the laws that its implementations keep;
--   Range/Area is `RangeArea`, Range/Ram is `RangeActionMap` (`mmap_fixed`, `mmap_anywhere`,
--   `unmap`, `mprotect`, `find`, `find_free_area`), Range/Tree the BTreeMap under it, as a sorted
--   list. Range/Seg is the implementation of `Segment` in modules/range-action-map-test/src, which
--   owns page frames.
-- - File: File/VirtFile is `VirtFileInner` of kernel/src/file/vfs/virt_file.rs, a file in page
--   frames; File/Ring is `RingBuffer` of kernel/src/file/pipe.rs on such a file; File/Pipe is
--   `Pipe`, the ends that share a ring buffer. A read or write that waits lets other tasks run: what
--   they do in each wait is an argument, as a list of calls on the same ring buffer.
-- - Fd: `FdManager` of kernel/src/file/fd_manager.rs and `FdAllocator` of
--   kernel/src/memory/allocator/fd.rs. The bitmap is the library bitmap-allocator, an argument with
--   the laws `IsLawful`; the files are values of any type.
-- - Time: modules/timer/src/lib.rs, and Time/Stat is `TimeStat` of kernel/src/task/time_stat.rs. The
--   clock is an argument of each call.
-- - Net: kernel/src/file/socket/loopback.rs, the data that wait at the loopback ports.
-- - Futex: kernel/src/syscall/futex/waiting_board.rs and waiter.rs, the threads that wait.
-- - Signal: modules/bitset/src/lib.rs and kernel/src/signal, the signals that a thread has received
--   and masks, the actions, and the table `TID2SIGNALS`.
-- - Task: kernel/src/task with the calls of kernel/src/syscall/process.rs that make a task, end it and
--   wait for it. Task is `TaskControlBlock` and the operations on one task; Task/Kernel is the state
--   that the tasks share, with the queue of scheduler.rs: tasks, memories, descriptors and handlers
--   are numbered, and an `Arc` is a number. Task/Cpu is cpu_local.rs, where `enter` and `leave` are
--   the two halves of a turn of `run_tasks`, before and after the switch; Task/Clone is
--   `from_clone` and `sys_clone`, Task/Wait `waitpid` and `sys_wait4`, Task/Handling
--   `handle_signals` and `signal_return`, Task/Futex `sys_futex` of kernel/src/syscall/futex.
--   Task/Moves says who holds a task, and how it changes hands; Task/Refine, Task/Steps and
--   Task/Calls find these moves in the operations, and Task/Reach runs the cpus in any order. The memory and the descriptors of a task, the loader and the ids of
--   threads are arguments (`Env`), and so are two constants of the build, the number of cpus and
--   `IS_TEST_ENV`: the theorems are for both values of it, and constants.rs has it true. A file that
--   the loader does not accept, and the log, are left out.
-- - Poll: modules/poll, modules/select and modules/epoll. Poll/Loop is the loop that the three share;
--   what stands at a descriptor at each turn, how it is ready, and the clock are arguments. The sets of
--   select stand in the memory of the user, by words (`ShadowBitset` of modules/bitset).
-- - Memory: kernel/src/memory. Memory/Addr is addr.rs; Memory/Entry and Memory/Table are
--   `PageTableEntry` and `PageTable` of page_table.rs. The table's pages stand in a memory, and the
--   frame allocator is the list of the frames that are free; Memory/Table/Tree says when the pages
--   are a tree. Memory/Area is `VmArea` of areas/mod.rs, over the trait `PmArea` (Memory/Pma), whose
--   implementations are Memory/Pma/Lazy (`PmAreaLazy`) and Memory/Pma/Fixed (`PmAreaFixed`);
--   Memory/Area/Synced has the laws that `VmArea` relies on, and says when a page table agrees with
--   an area. Memory/Backend is `BackEndFile` of kernel/src/file/backend.rs, over files that are an
--   argument. Memory/Area/Seg is `impl Segment for VmArea`, and Memory/Area/Segments says in which
--   sense it keeps the laws of Range/Segment; Memory/Set is `MemorySet` of vmm.rs, over the map of
--   Range. The frames of areas and those of table pages come from two supplies. The theorems are on
--   areas below 2 ^ 39, which the three levels of the table (Sv39) tell apart.
--
-- State is a record and an operation is a function to the new state; an operation that can panic
-- returns an Option, whose `none` is the panic. Page frames come from a supply, a list of frames
-- that hold any bytes, which stands for the frame allocator; `none` is also the supply running out.
-- Numbers are natural numbers. Where the code may pass the end of a `usize` the wrap at 2 ^ 64 is
-- written out, or, for the positions in files, ring buffers and ranges, a theorem has the bound as a
-- condition. Locks are not here: each operation runs under the lock of its object, so calls are one
-- after another.
--
-- The loops are recursions on lists (areas, pages, descriptors, children), on the number of pages of a
-- range or of bits of a word; the two waits of a pipe are counted down from 2, the number of waits
-- that the code allows. Fuel is given in two places: where `get_one_signal` is called until it
-- returns nothing 64 calls are enough, for 64 signals; and the loops of Poll have fuel for their
-- turns, of which n + 1 are enough where the turn n ends the loop. `run_tasks` is not a loop here: a
-- step of a cpu is one half of its turn.
--
-- Not modelled: the other system calls, exec, the trap handler, the copies between the kernel and
-- user memory, the registers and the TLB behind a page table, reading and writing the bytes of an
-- area and its copy for fork, sockets but for the loopback ports, the FAT file system and the
-- drivers, and the user programs. Floating-point times are left out of Time, `seek` and `get_stat`
-- out of File/VirtFile, `LongBitset` out of Signal.
--
-- Prelude holds the names that all files share: tests on numbers and lemmas on lists.
pub mod Prelude
pub mod Range
pub mod File
pub mod Fd
pub mod Time
pub mod Net
pub mod Futex
pub mod Signal
pub mod Memory
pub mod Task
pub mod Poll
