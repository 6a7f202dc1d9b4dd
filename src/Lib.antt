-- ===== src/Lib.antt =====
-- The programs of an operating systems course. The largest is xv6, a small Unix kernel in xv6/, which
-- the later laboratories (lab-06, lab-07, lab-08) extend; the others are user programs. The files
-- here model the parts of the kernel that keep state for all processes, the library of user
-- threads, the parser of the shell, and the simulator of paging of lab-07.
--
-- The parts and how they meet:
--   * Kernel/Log.antt models xv6/log.c, the redo log under the file system. A system call that writes
--     brackets its writes by begin_op and end_op; log_write pins a changed block in the buffer cache
--     and enters it in the header; the last end_op calls commit, which copies the blocks to the log,
--     writes the header, installs the blocks and clears the header. initlog recovers at the start.
--     end_op is two operations, as the lock is free while it commits.
--     bread and bwrite stand for those of xv6/bio.c with the pinned blocks. All disk writes go into
--     a history, from which the disk after a power failure at any point is read off.
--   * Kernel/Pipe.antt models xv6/pipe.c: the ring of 512 bytes and its counters of 32 bits, which
--     wrap around. A call ends done, failed or asleep with the bytes that are left.
--   * Kernel/Proc.antt models xv6/proc.c: the table of 64 processes as a function from indices to
--     entries, with one function for each of allocproc, fork, exit, wait, sleep, wakeup1, yield, kill,
--     sys_pscnt and a turn of the scheduler. A pointer to an entry is its index. fork and sleep are two
--     steps each, as other processes run between the two.
--   * Kernel/Kalloc.antt models xv6/kalloc.c: the free list through the memory of words itself. The
--     address `end`, placed by the linker, is a parameter.
--   * Kernel/FileTable.antt models the reference counts of xv6/file.c and the descriptors of
--     xv6/sysfile.c, with the loops over descriptors of fork and exit in xv6/proc.c. fileclose says what it
--     releases: a pipe end (Kernel/Pipe) or an inode.
--   * Kernel/Spinlock.antt models xv6/spinlock.c: one lock and the interrupt flags of the processors, with
--     each xchg of the loop in acquire as a step.
--   * Kernel/Sleeplock.antt models xv6/sleeplock.c: one sleep lock and its processes, each of them outside,
--     asleep on the lock, woken or inside.
--   * Kernel/Strings.antt models the copies and comparisons of xv6/string.c over a memory of bytes.
--   * Uthread.antt models xv6/uthreadlib.c: the table of eight user threads and its scheduler.
--   * Kernel/Fs.antt models xv6/fs.c on the blocks of one disk: Kernel/Fs/Disk.antt the bitmap with balloc
--     and bfree and the words of a block, Kernel/Fs/Inode.antt bmap with the indirect block, readi, writei
--     and iupdate. A block is a function from offsets to bytes, and the inode in memory a record. The
--     caller is taken to be in a transaction with room in the log, so that log_write changes the block.
--   * Shell.antt models the parser of xv6/sh.c, a function for each function there; `*ps` is the rest of
--     the line, which every parser returns with its command.
--   * PageSim.antt models lab-07/sim.c: the tables of the processes, the frames and the swap, and the ways
--     in which a page gets a frame; PageSim/Loop.antt one access (acceso), and the loop of main on the
--     list of the integers read (principal).
--   * Common.antt holds the shared names: Boolean tests, arrays as lists, functions changed at a point.
-- Under each of these files, one module states the invariant or the abstract view, others the effect of
-- each operation, and Tests the runs at concrete states.
--
-- The parts but Kernel/Spinlock do not mention spin locks: what the code does under one lock is one
-- operation, and the relations named Step put operations of all processes in every order. A sleep
-- ends an operation; the call that is woken tests its condition again, as the loops in the code do.
--
-- Loops run on rounds, each bound by the array that it walks (nproc, nofile, nfile, MAX_THREAD, the n of
-- the log header) or by the number of bytes asked for; freerange gets a round for each page below
-- its end, and readi and writei one for each byte asked for, as each round copies a byte at least. The
-- shell's parsers get a round for each character of the line and one more, since each of their rounds
-- takes a token. The rounds are thus those of the source's own conditions.
--
-- Not modelled: of xv6/fs.c directories, path names, the inode cache and itrunc, the buffer cache's
-- replacement (xv6/bio.c), page tables (xv6/vm.c), program loading (xv6/exec.c) and the calls that only
-- pass arguments on; the drivers, the boot code and the assembly, which read and write hardware; the
-- execution of the shell's commands; the other user programs of xv6 and of lab-01 to lab-08, which
-- mostly call the operating system and print. In the parts that are modelled, messages and debugging
-- fields (names of locks, saved program counters) are left out.
pub mod Common
pub mod Kernel
pub mod Uthread
pub mod PageSim
pub mod Shell
