-- ===== src/Lib.antt =====
-- A verification of the xv6 kernel of this repository (C), with its changed scheduler.
--
-- The kernel runs processes on a machine with a disk. A system call (syscall.c, sysproc.c, sysfile.c) fetches its
-- arguments from the memory of the process and calls the part that does the work: the process table and scheduler
-- (proc.c), pipes and files (pipe.c, file.c), and the file system (fs.c), which changes blocks through the log
-- (log.c) over the buffer cache (bio.c) over the disk. A process that must wait sleeps on a channel in the process
-- table, and what it waits for calls wakeup; so pipes and the log rest on the scheduler. The programs in user space
-- have the matcher of grep.c and the string functions of ulib.c.
--
-- The files:
--   Prelude (Tests, Lists, Failure): Boolean tests, lists measured by native numbers, and the outcome of kernel
--     code: a value, or the panic, null pointer, bad index or spent fuel that stopped it.
--   Proc: proc.c, proc.h. Table has struct proc and ptable; ReadyLists has AddFreeList, RemoveFreeList,
--     AddReadyList, RemoveReadyList, GetReady, ResetPriority and setpriority; Sched has allocproc, wakeup1, kill,
--     yield, sleep and a turn of the scheduler; Life has userinit, fork, exit, wait and getProcInfo. View says what
--     the linked lists stand for: three queues of the runnable entries and a stack of the unused. The other files
--     are the lemmas and theorems, by operation.
--   Pipe: pipe.c. Ring has pipewrite, piperead and pipeclose, Contents the bytes in the ring as a list, Order a
--     writer and readers in turn.
--   Log: log.c. Commit has write_log, write_head, install_trans, commit and recover_from_log on a disk that loses
--     power after any number of writes; Ops has begin_op, log_write and end_op, and how operations interleave; Full
--     reaches the panic of log_write that begin_op allows.
--   Fs: fs.c, fs.h. Blocks has the free map with balloc and bfree; Inode has bmap, itrunc, readi and writei; Dinode
--     the inodes on the disk with iupdate and ialloc; Icache has iget, ilock, iput and the others on the inode
--     cache; Paths has skipelem, Dirs directories and namex. FreeMap, Mapping, OnDisk, Elements and Cached have the
--     theorems, the other files their lemmas.
--   Files: file.c, sysfile.c. Ftable has the table of open files, argfd, fdalloc, sys_dup and sys_close; Counted
--     and Descriptors are about the reference counts.
--   Spinlock: spinlock.c. Lock has acquire, release and holding as steps of processors that interleave, Cli pushcli
--     and popcli; Holders has the invariant of a lock.
--   Printf: printf.c, console.c. Format has printint, printf and cprintf.
--   Syscall: syscall.c. Args has fetchint, fetchstr, argint, argptr and argstr.
--   Kalloc: kalloc.c. Free has kfree and kalloc, Pages the list of free pages; the address where the kernel ends,
--     which the linker gives, is a parameter.
--   Console: console.c. Input has consoleintr and consoleread, Lines what the input buffer stands for.
--   Text: string.c, ulib.c. Memory has memset, memcmp and memmove of string.c, Strings the functions on strings.
--   Grep: grep.c. Matcher has match, matchhere and matchstar; Language says what a pattern means.
-- Each part has a file Tests with runs on concrete data.
--
-- How the state corresponds: a struct is a record with its fields; a fixed array is a function of its index; a
-- pointer to an entry of the process table is the entry's index, and null is `none`; an int or uint is the pattern
-- of its 32 bits, so -1 is 2 ^ 32 - 1, and a sum that can wrap is taken modulo 2 ^ 32; a string is the bytes in a
-- memory up to a NUL, and for the matcher the list of the characters in front of it.
--
-- Locks: each operation is one step, with nothing of another processor in between. ftable.lock, cons.lock,
-- kmem.lock, a pipe's lock and the log's lock are held across the operation that is modelled, and ptable.lock
-- across most of those of the process table; allocproc gives it up before it allocates the stack and puts an entry
-- back without it, fork works on the new entry without it, and setpriority and getProcInfo do not take it, so what
-- is said of these four is of runs that nothing interrupts. So it is of log_write, whose two tests stand in front
-- of its acquire, and of ilock and iput, which give up icache.lock on their way. sleep gives up the lock, so it
-- ends a step: a pipe's run ends asleep and the next run goes on with the bytes left, and begin_op takes no step
-- while it must wait. What the locks themselves do is in Spinlock.
--
-- Bounds and fuel: a walk along a list of the process table takes at most NPROC + 1 rounds (walk_fuel), which is
-- enough for a well-formed table, whose lists have no entry twice; spent fuel is a stop, so what is said of a
-- result includes that there is one. A loop that runs to a NUL takes rounds as an argument, and more rounds than
-- characters are enough. C('U') has one round more than the buffer has characters. The other loops are structural.
--
-- A panic is a stop, and so is a read or write through a null pointer, although page 0 of a process may be mapped
-- while the kernel runs for it; the code then goes on with what stands there.
--
-- Assumed of code that is not modelled: bread gives the newest contents of a block, and bwrite puts one block on
-- the disk at once (bio.c, ide.c); Log.Device has this contract, and a block that log_write marks stays in the
-- cache until its commit. The string instructions of the processor do what their manual says.
--
-- The file system sees the disk as the buffer cache and the log show it: a block is what was last written to it,
-- and the marks that log_write makes are left to Log. The disk is one device and its block numbers are below 2 ^
-- 31; an entry of the inode cache has its device number. A run that meets an inode that another process has locked
-- ends asleep, and it goes on with what it has left. kalloc, setupkvm and copyuvm enter the process table as the
-- values that they return.
--
-- Not modelled: devices, boot code, traps and the switch of contexts, which are registers and assembly; the buffer
-- cache, the page tables, the output to the screen and the shell, which are parts of their own; the other system
-- calls of sysfile.c, memset and memmove of ulib.c, the device branches of readi and writei, and the user programs
-- that only call the system.
pub mod Prelude
pub mod Proc
pub mod Pipe
pub mod Log
pub mod Fs
pub mod Files
pub mod Spinlock
pub mod Text
pub mod Printf
pub mod Grep
pub mod Syscall
pub mod Console
pub mod Kalloc
