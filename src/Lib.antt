-- ===== src/Lib.antt =====
-- Laboratorios de Sistemas Operativos: the kernel xv6 and the programs of the labs.
--
-- The kernel's parts: the process table (xv6/proc.c) forks, runs and buries processes and carries
-- every sleep and wakeup; pipes (xv6/pipe.c) pass bytes between processes and sleep through it;
-- the log (xv6/log.c) puts the writes of each system call on the disk together, through the buffer
-- cache (xv6/bio.c); `exit` calls the log and the files in turn; the page allocator (xv6/kalloc.c)
-- gives kernel stacks, page tables and pipes their memory. The string routines of xv6/string.c
-- serve all of them. xv6/grep.c and the programs of the labs run above the kernel.
--
-- Which file models what:
-- - Proc: xv6/proc.c with the states of xv6/proc.h: allocproc, userinit, fork, exit, wait,
--   sleep, wakeup1, kill, yield, the scheduler's scan. `Table` is `ptable` with `initproc` and
--   `nextpid`. Proc/System has the processors and their steps, in any interleaving; a step is
--   what runs under `ptable.lock` between two switches. `fork` lets go of the lock in its
--   course, and is three steps: the claim of a slot, which is EMBRYO from then on; what it
--   writes to the slot without the lock; and the last, which makes it RUNNABLE. The calls that
--   `exit` makes first, their sleeps and the files and the directory that they give up are steps
--   of their own, before the one under its last lock, which then finds nothing left of these.
--   Proc/Family, Proc/Waiting, Proc/Running, Proc/Pids, Proc/Kill and Proc/Schedule have the
--   invariants. The files and the inode of a process are handled by calls that a step lists, not
--   by their code.
-- - Log: xv6/log.c, every function. Log/Disk is what it sees of bread and bwrite of xv6/bio.c:
--   blocks of 128 words, in the cache and on the disk, and a power failure after any number of
--   writes to the disk. Log/Crash, Log/Again and Log/Atomic are about commits and recoveries
--   that the power cuts short; Log/Space and Log/Overrun about the room in the log, where
--   Log/Space counts the different blocks that each call has written. The log's lock is left
--   out: an operation is one step between sleeps.
-- - Bcache: bget, brelse and binit of xv6/bio.c: which buffer has which block, the counts and the
--   list. It and Log/Disk are two views of the cache: here the contents are left out, and there
--   the buffers.
-- - Pipe: xv6/pipe.c: pipewrite, piperead, pipeclose and the ring. A step is a run under `p->lock`
--   up to a return or a sleep; Pipe/Stream has their histories.
-- - Kalloc: kalloc, kfree and freerange of xv6/kalloc.c, with the free list in the words of the
--   free pages.
-- - Files: filealloc, filedup and fileclose of xv6/file.c; Files/References has the references
--   that are held to each open file.
-- - Fs: xv6/fs.c over the blocks and their bytes. Fs has the block allocator with its map; Fs/Inode
--   bmap, iupdate and ilock; Fs/Content itrunc, readi and writei; Fs/Icache the cache of inodes with
--   ialloc, iget, idup and iput; Fs/Dir namecmp and dirlookup; Fs/Path skipelem; Fs/Namex namex.
--   The blocks are what the code sees of them through bread within one transaction; that the
--   changes reach the disk together is Log's. fileclose and exit, of Files and Proc, list their
--   calls of iput.
-- - CString: xv6/string.c, every routine, with stosb and stosl of xv6/x86.h.
-- - Grep: match, matchhere and matchstar of xv6/grep.c.
-- - Buf: producer and consumer of lab-05/buf.c, as threads whose steps interleave.
-- - Args: fetchint, fetchstr, argint, argptr and argstr of xv6/syscall.c.
-- - Sysfile: argfd, fdalloc, sys_dup and sys_close of xv6/sysfile.c, over Args and Files.
-- - Sim: lab-07/sim.c, both loops of `main` and what they start from.
-- - Prelude: shared names and lemmas.
--
-- Integers: an `int` or `uint` is a natural number, with `% 2 ^ 32` written out where a counter
-- can wrap (the counters of the pipe, `nextpid`, addresses in Kalloc and Args). Loops over arrays are
-- recursion on the number of rounds left. Fuel stands in `free_from`, which spends one unit a page
-- and so needs no more than the address where it stops, and in `strlen_from`, which spends one
-- unit a byte and so needs no more than one above the length. The loops of readi and writei move a
-- byte a round at least, and so get `n` rounds; the loop of balloc over the map gets one for each
-- block of the disk. The loop of namex gets one more round than the path has bytes (Fs/Namex/Fuel).
--
-- Not modelled: interrupts, spin locks and sleep locks (xv6/spinlock.c, xv6/sleeplock.c) and the
-- saved contexts of processes; virtual memory and exec (xv6/vm.c, xv6/exec.c); dirlink, stati and
-- the set-up of xv6/fs.c; the calls of xv6/sysfile.c on paths, pipes and contents; the image that
-- xv6/mkfs.c builds; the drivers; the shells and the other user programs, which are input and
-- output; the allocator of user memory (xv6/umalloc.c) and the user threads (xv6/uthreadlib.c).
pub mod Prelude
pub mod Args
pub mod Bcache
pub mod Buf
pub mod CString
pub mod Files
pub mod Fs
pub mod Grep
pub mod Kalloc
pub mod Log
pub mod Pipe
pub mod Proc
pub mod Sim
pub mod Sysfile
