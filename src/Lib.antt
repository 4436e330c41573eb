-- ===== src/Lib.antt =====
-- The pipe of an xv6 kernel in eight versions, the processes that use it, and the scheduler that runs
-- them.
--
-- The program. `kernel/pipe.c` holds eight versions of the pipe, chosen by PIPE_VERSION: byte by byte
-- (v1), in bulk (v2), four buffers of 512 bytes (v3), a page of its own (v4), wake-ups only where a
-- peer may sleep (v5), a boost of the woken process (v6), counters on cache lines of their own (v7,
-- v8). `pipewrite` and `piperead` hold the lock of the pipe, copy from and to the memory of the
-- process by `copyin` and `copyout` (kernel/vm.c), and call `sleep` and `wakeup` (kernel/proc.c) on the
-- addresses of the two counters. `scheduler` (kernel/proc.c) goes round the process table before v6
-- and picks the highest priority from v6 on. `sys_pipe` (kernel/sysfile.c) makes a pipe by `pipealloc`
-- from two entries of the table of open files (kernel/file.c) and one or two pages (kernel/kalloc.c).
-- Below them lie the locks (kernel/spinlock.c, kernel/sleeplock.c) and kernel/string.c; beside them
-- the console and the log.
--
-- The files.
--   Base        Boolean tests, lists, 32-bit and 64-bit words and C's `int`.
--   User        The interface of `copyin` and `copyout`: a parameter of all that copies.
--   Pipe        `struct pipe` and one round of the loops of `pipewrite` and `piperead`. A version is a
--               value of `Version`, an `#if` a clause on it. `write_iter` is a round of the loop of
--               `pipewrite`; `read_wait` a test of the first loop of `piperead`, `read_iter` a round of
--               the second. A round ends at the loop's test, in `sleep`, or with a return; its result
--               names the bytes that moved.
--   Pipe/...    Ring: offsets in `data`. Contents: the bytes in a pipe as a list. Chunk, Bounds: sizes of
--               the copies. Write, Read: a round against a queue of bytes. Outcome: why a round ends.
--               Calls: whole calls, up to a sleep.
--   Layout      Offsets of the fields of `struct pipe`, and with them the two channels.
--   Proc        The process table: `sleep`, `wakeup`, `yield`, `kkill`, `scheduler`. Waking, Asleep,
--               Choice: lemmas and theorems on them.
--   Ipc         Processes on one pipe as a step relation: each round is a step of a process that has
--               the lock; others close the pipe, kill, schedule and preempt between. Inv, Keep, Writer,
--               Reader, Steps: an invariant of it. Ends: nobody sleeps at a
--               closed pipe. Schedule, LostWakeup: runs. Safety: what follows.
--   Locks       `kernel/spinlock.c`: Nesting of `push_off` and `pop_off`; Inv and Exclusion: one lock and
--               any number of processors, as a step relation.
--   Sleeplocks  `kernel/sleeplock.c` as a step relation over the process table; Exclusion: its invariant.
--   Strings     `kernel/string.c`: Move, Compare, Copy.
--   Kalloc      The free pages of `kernel/kalloc.c`, and FreeList: the chain as a list of pages.
--   Files       `filealloc`, `filedup` and `fileclose` of `kernel/file.c`, `pipealloc` and `pipeclose`.
--               Table: entries; Alloc: what `pipealloc` takes; Close: what closing gives back. What
--               `fileclose` does to an inode is the parameter `put`.
--   Descriptors `sys_pipe` of `kernel/sysfile.c` with `argfd`, `fdalloc` and `sys_dup`; PipeCall: the whole
--               call, on `Files` and `Space`. FdCopy: the copies to the user in it.
--   Console     The input ring of `kernel/console.c`: Input for `consoleintr`, Read for `consoleread`.
--   Log         `begin_op`, `log_write` and `end_op` of `kernel/log.c`; Space: what they reserve.
--   Vm          Page tables of `kernel/vm.c` in a memory of bytes, with the allocator: `walk`, `walkaddr`,
--               `mappages`, `uvmunmap`. Bytes: words. Tree: which page serves which part of which table,
--               and the map that a table is. Pages, Supply: taking and using pages. Kept, Graft, Walk,
--               Leaf: what `walk` finds and adds. Map, Rest, Mappages; Same, Unmap, Unmapped, UnmapRest,
--               Uvmunmap: the two loops.
--   Space       The memory of a process in `kernel/vm.c`: `uvmalloc`, `uvmdealloc`, `uvmcopy`, `uvmfree`.
--               Access: `vmfault`, `copyin`, `copyout`, `copyinstr`. Place, Process, Fault, Reach: a page
--               that is reached or allocated. View: what a process sees. Reads, Copyin; Put, Copyout,
--               Copies; RoundTrip: the copies. Interface: they fill `User`.
--               PipeRounds: the rounds of `Pipe` on them.
--   Life        The life of a process in `kernel/proc.c`: `allocproc`, `freeproc` and the page tables of
--               them. Calls: `growproc`, `kfork`, `reparent`, `kexit`, a round of `kwait`. Orphans, Exits:
--               what an exit leaves; Waits: when `kwait` sleeps. Syscalls: the arguments of
--               `kernel/syscall.c` and the calls of `kernel/sysproc.c`; Size: `sbrk`, on
--               Space/Sizes. A pid is a number without a bound, where
--               the code has an `int`; `idup`, `iput` and the inode part of `fileclose` are parameters.
--   Tests       The theorems at concrete inputs.
--
-- Bounds and fuel. The counters are 32-bit words and wrap; `n` is a C `int`, and `n - i` is computed
-- where `i < n` holds. `write_until` and `read_until` take fuel: a round that goes on moves at least
-- one byte, so `n - i + 1` rounds are enough. `free_from` has one round for each page below the end of
-- memory, `kill_from` one for each character of the line that is being edited. The process table has
-- NPROC entries. One process at a time is in a step; what runs under the lock of the pipe is not
-- divided further than into rounds, and `sleep` and `wakeup` are atomic, as the locks of the
-- processes make them.
--
-- Not modelled: the trace prints of PIPE_TRACE; bytes as values below 256; the locks of single
-- processes; the TLB and the address space of the kernel; files on disk, the table of system
-- calls, traps and devices.
pub mod Base
pub mod User
pub mod Vm
pub mod Space
pub mod Life
pub mod Locks
pub mod Strings
pub mod Kalloc
pub mod Pipe
pub mod Layout
pub mod Proc
pub mod Sleeplocks
pub mod Log
pub mod Console
pub mod Files
pub mod Descriptors
pub mod Ipc
mod Tests
