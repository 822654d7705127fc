-- ===== src/Lib.antt =====
-- The kernel of NKU_OS_Lab, the uCore operating system of the course's labs, in the version of
-- Lab8/code: what it does with free pages, page tables, memory areas, strings, open files, free blocks, timers,
-- processes that are to run, processes that wait, and processes that are forked, end and are waited for.
--
-- The parts and how they meet:
-- * Base holds what the others share: numbers and lists, a memory as a function of its addresses,
--   and `Outcome`, the result of code that can fail an assertion (`panic`) and, where a loop has no
--   evident end, run out of fuel (`out_of_fuel`).
-- * ListEntry is Lab8/code/libs/list.h, the circular doubly linked lists that every list of the kernel
--   is made of. `Links` gives `prev` and `next` of every entry, and each operation is the
--   sequence of assignments that the C function makes, in its order. `IsRing` is a ring without
--   repetition.
-- * Pmm is Lab8/code/kern/mm/default_pmm.c, the first-fit allocator of physical pages, on
--   ListEntry: a page descriptor is known by the number of its page, 0 is the head of the free
--   list, and `Pmm` holds the descriptors (`struct Page`), the links and `nr_free`. `nr_free` and
--   `property` are 32-bit numbers and wrap around. Pmm.Blocks is the abstract view, a list of free
--   blocks in the order of their addresses, and Pmm.Represents says when a state has that
--   view. Pmm.Alloc and Pmm.Free compare the code with it, Pmm.Boot is the initialisation, and
--   Pmm.Tail and Pmm.Twice are about the loop that links in a block above all the others.
-- * Text is Lab8/code/libs/string.c on a memory of bytes: `char` is unsigned, as it is on RISC-V,
--   and a pointer is an address that does not wrap around. Results that are differences are integers.
-- * Files is Lab8/code/kern/fs/file.c and file.h, the table of open files of a process. The virtual
--   file system below it is the record `Vfs` of Files.Interface, a parameter of every call: any
--   functions may stand for it, so that nothing is assumed of what it answers. Files.Calls has
--   the calls, and Files.Parts what several of them do in the same way
--   (`during`, `move_bytes`, `consult`). A `struct file *` is an index of the table, and an
--   `off_t` the pattern of its 64 bits. `nentry` is FILES_STRUCT_NENTRY.
-- * Buffer is Lab8/code/kern/fs/iobuf.c, the transfers between such a buffer of the file system and
--   the memory beside it, with `memmove` and `memset` of Text.
-- * Timers is the list of timers of Lab8/code/kern/schedule/sched.c, as the list of its timers in the
--   order of the ring. Timers.Deadlines is the abstract view, the ticks from now to each of
--   them, and Timers.Run is the tick, which calls `wakeup_proc` and the scheduling class of Sched.
-- * Vma is the list of memory areas of Lab8/code/kern/mm/vmm.c, with its cache, and the copies
--   between a process and the kernel on the memory of Text. An area is given by its contents, since
--   it does not change in the list. Whether `kmalloc` and `copy_range` succeed is a parameter.
-- * SkewHeap is Lab8/code/libs/skew_heap.h: SkewHeap.Entries on the pointers `parent`, `left` and
--   `right` of every entry, and SkewHeap on the tree that they make, the abstract view, with
--   SkewHeap.Counts and SkewHeap.Order for its entries and their order. SkewHeap.Refines compares the two.
-- * Sched is the scheduler of Lab8/code/kern/schedule/sched.c and sched.h, over a record of the
--   functions of a scheduling class. Sched.Laws says what the scheduler relies on in a class,
--   and Sched.RoundRobin is default_sched.c, which fills it. Sched.Stride is
--   default_sched_stride.c, on the tree of the skew heap. `proc_run`, `do_yield` and `lab6_set_priority`
--   are those of kern/process/proc.c.
-- * Bitmap is the bitmap of free blocks of Lab8/code/kern/fs/sfs/bitmap.c. Whether `kmalloc` gives
--   memory is a parameter.
-- * Sync is Lab8/code/kern/sync/wait.c and sem.c, on the scheduler of Sched. `__down` is split in two,
--   `down_begin` and `down_finish`, between which the process may sleep; Sync.Runs puts the steps
--   in any order. The value of a semaphore is the pattern of the 32 bits of an `int`.
-- * Pid is `get_pid` of Lab8/code/kern/process/proc.c, with its static variables `last_pid` and
--   `next_safe` as arguments and results. A walk along the list ends, or goes back to `repeat`.
-- * Process is the rest of proc.c that links processes together: the family (`Links`), the hash table,
--   `do_fork`, `do_exit`, `do_wait` and `do_kill`, over the scheduler of Sched. `do_exit` and `do_wait`
--   are split at their calls of `schedule`. Process.Family is the abstract view, the list of the
--   children of every process.
-- * Paging is the page tables of Lab8/code/kern/mm/pmm.c and pmm.h. A page is known by its number, as in
--   Pmm, and the 512 entries of a table are the words of its page. The allocator is the record
--   `PmmManager`, as `struct pmm_manager` is in C, and Paging.Tree says what is relied on in it;
--   Paging.FirstFit is the allocator of Pmm, which fills it.
--   `IsTree` labels the pages that are tables with the indices that lead to them, and `mapped` is
--   the abstract view, the page that an address leads to.
--
-- Bounds and fuel. The searches of the free list take the number of free blocks plus one as fuel,
-- and the loops that link a block in take two more, since they can pass a block twice. The loops of
-- string.c that stop at a null byte take fuel of their own; as much as the strings are long, the
-- null byte included, is enough. The loop of `user_mem_check` takes the number of areas plus two. The
-- loops of `wakeup_queue` have one step for each wait in the queue. The merge of two skew heaps takes
-- the number of their entries plus one. `get_pid` has twice MAX_PID
-- walks, and the loops of `do_exit` and `do_wait` one round for each child. All else is recursion on a count
-- that the C code counts too, or on the list, or the tree, that it walks through.
--
-- What is left out. The calls of a process on its open files are taken one after the other: no other
-- thread shares the table during a call. `open_count` does not overflow. Assertions that compare
-- pointers with NULL are kept where the model has a null. `proc_run` switches no context. The
-- counters `runs` and `proc_num`, and the value of a semaphore, wrap around at 32 bits. `do_exit` releases no memory and no open files, and
-- `do_fork` takes what `alloc_proc`, `setup_kstack`, `copy_mm` and `copy_files` answer as arguments.
-- Monitors, the loading of programs, the loops over ranges of pages, the heap, the file systems and the
-- earlier labs have no model yet; the drivers, start-up, traps and user programs are input, output
-- and glue.
pub mod Base
pub mod ListEntry
pub mod Pmm
pub mod Bitmap
pub mod Files
pub mod Buffer
pub mod Timers
pub mod Vma
pub mod SkewHeap
pub mod Sched
pub mod Sync
pub mod Pid
pub mod Process
pub mod Paging
pub mod Text
