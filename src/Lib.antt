-- ===== src/Lib.antt =====
-- A verification library for the programs of this repository.
--
-- The parts and their models, with paths from the repository's root:
-- - Kalloc: the physical page allocator, xv6 Memory sub-system/part_a/kernel/kalloc.c (`kinit` in
--   Kalloc/Boot, `kfree`, `kalloc`, `dump_allocated`) and the one that draws pages at random,
--   xv6 Memory sub-system/part_b/kernel/kalloc.c (Kalloc/Random). A free list is threaded through the
--   pages: the model has the map from addresses to their first word, and the specification is a list
--   of pages (Kalloc/Pages, Kalloc/Valid). Rand is rand.c, which part_b calls.
-- - Proc: the process table of xv6 Scheduler/kernel/proc.c. Proc/Sched is `getheight`, `scheduler` and
--   `boostproc`; Proc/Life is `allocproc`, `fork`, `sleep`, `wakeup1`, `kill`; Proc/Death is `exit` and
--   `wait`. Calls into memory and files go through the record `Services`.
-- - Fs: xv6 Scheduler/kernel/fs.c. Fs has the blocks and the bitmap, Fs/Inode and Fs/Content the
--   inodes and their bytes, Fs/Cache the cache of inodes, Fs/Dir directories, Fs/Path paths. A disk is
--   a map from blocks to bytes; Fs/Valid and Fs/Mapping say when it and a file on it are sound. The
--   loops of `readi` and `writei` have fuel for one byte a round, those of `balloc` and of directories
--   for one block a round, and `namex` for one element a byte of the path.
-- - File: the reference counts of xv6 Scheduler/kernel/file.c; File/Refs compares them with a list of
--   the references that exist.
-- - Bcache: `binit`, `bget` and `brelse` of xv6 Scheduler/kernel/bio.c, on maps for the links of the
--   buffers. Bcache/Ring is the list that the ring stands for, Bcache/Runs the steps of the cache; a
--   search has fuel for all the buffers and the head, and a ring has no more.
-- - Shell: Unix shell/smash.c. Shell/Syntax has `checksyntax`, Shell/Run the body of the main loop for
--   one line, with what it does outside the process as a list of events. A write outside an array is
--   a fault, as is the read of a slot that has no value, of a missing node, or in front of a string.
-- - Fsck: File System Checker/xfsck.c. Fsck/Image decodes the image, Fsck/Blocks checks addresses,
--   Fsck/Walk and Fsck/Dirs directories, and Fsck/Main has the loops of `main` and its verdict. A read
--   behind the end of the mapping gives a byte that is not determined; a write outside an array is a
--   fault. The walk to the root takes fuel, since it may not end.
-- - Tar: UnixFunctions/wis-tar.c and wis-untar.c; Tar/Field has the fields of an entry, Tar/Trip the
--   way through both programs. Grep: UnixFunctions/wis-grep.c. An index that leaves the range of an
--   `int` ends both in an outcome of its own.
-- - Spinlock: xv6 Scheduler/kernel/spinlock.c. Spinlock/Nesting has the matched sequences of
--   `pushcli` and `popcli` as an indexed type.
-- - MapReduce: the key lists, the emitters, the reducer's getter, the default partitioner and the
--   division of work of MapReduce/mapreduce.c. A chain of nodes is a list; MapReduce/Lookup is the
--   map from keys to values that it stands for.
-- - Pipe: `struct pipe`, `pipewrite`, `piperead` and `pipeclose` of xv6 Scheduler/kernel/pipe.c, with
--   counters modulo 2^32. A sleeping call's rounds are functions on the pipe, one for each sleep.
-- - Kstring: the routines of xv6 Scheduler/kernel/string.c on a map of bytes; `strlen` takes fuel,
--   one more than the distance of the first zero byte.
-- - Common: the shared names, lists under native indices, 32-bit arithmetic, and the type of outcomes
--   with `panic` and machine faults.
--
-- Bounds and fuel: a loop over a list of pages has fuel for one page more than the table of frames
-- holds, and a valid state has no more free pages; `kinit` has fuel for 4097 rounds, and there are
-- 4096 pages below PHYSTOP. Running out of fuel is a fault, and the theorems say that the result is
-- none. `strlen` and the mapper's loop take fuel, and their theorems name how much is enough. Fuel in
-- the other models is named with them above; loops without it are recursions on a list or a count.
--
-- Not modelled: context switches, the interrupt flag outside of Spinlock, page tables, system calls,
-- drivers, the threads and semaphores of MapReduce, the processes that the shell starts, the
-- contents of pages, and of buffers in Bcache. They are input and output, or concern other parts of
-- the state than these models have. Of the heap allocator the repository has the tests only.
pub mod Bcache
pub mod Common
pub mod File
pub mod Fs
pub mod Fsck
pub mod Grep
pub mod Kalloc
pub mod Kstring
pub mod MapReduce
pub mod Pipe
pub mod Proc
pub mod Rand
pub mod Shell
pub mod Spinlock
pub mod Tar
