-- ===== src/Lib.antt =====
-- The kernel of this repository, xv6 with selectable schedulers, as definitions and theorems. The
-- program is C on the x86: every `uint` is a number below 2 ^ 32 whose wrap-around is written out,
-- and an `int` is the 32-bit pattern the machine holds (Base/Words).
--
-- The parts, and how they interact:
-- * log.c, the redo log under the file system (Log). The file system brackets its calls by
--   `begin_op` and `end_op` and passes every block it changes to `log_write`; `commit` writes the
--   blocks to the log, then the header, then the blocks to their places; `initlog` recovers at
--   start-up. Log/Device is what bio.c shows of the disk: the content that `bread` returns, and
--   what `bwrite` has put on the disk. A machine that stops is a number of writes that still reach
--   the disk, so that a theorem for every number is a theorem for every place of a crash. Log/Header
--   is the header block, Log/Commit the writes, Log/Ops the reservations and the calls that sleep.
-- * pipe.c (Pipe): the ring between a writer and a reader. A call that sleeps returns what it has
--   still to do, and is made again on that.
-- * proc.c and proc.h (Proc): the process table. Proc/Types has the records, Proc/Create `allocproc`,
--   `fork` and `growproc`, Proc/Exit `exit`, `wait` and `waitx`, Proc/Sleep `sleep`, `wakeup`, `yield`
--   and `kill`, Proc/Scheduler the five policies of `scheduler`. A pointer to a process is its
--   index in the table, a null pointer is `none`. Where the source gives up the processor (`sched`),
--   the model has one definition up to the switch and one from it on; `swtch` itself is a parameter
--   of the scheduler. What the table calls of memory, files and inodes is the record `Services`, a
--   parameter of every function that calls it. `ptable.lock` makes each definition one step, and
--   interleavings are sequences of such steps. `allocproc` and `fork` give the lock up while they
--   call `Services` (kalloc, copyuvm, filedup), and `exit` closes its files before it takes the lock:
--   the model makes each of them one step all the same, in which no other process comes between.
-- * kalloc.c (Memory): the page allocator, whose free list runs through the free pages themselves.
-- * sysproc.c, the counters and the arguments of syscall.c, `get_uncle_count` of proc.c and the timer
--   interrupt of trap.c (Syscall): what a user sees of the processes.
-- * file.c and `pipealloc` of pipe.c (File): the table of open files with its reference counts, and
--   `filewrite`, which splits a write into transactions that fit in the log. A `struct file*` is
--   an index of the table; the inode layer (`readi`, `writei`) and `kalloc` are parameters, and
--   File/Inodes fills the one of `filewrite` with the `writei` of fs.c.
-- * string.c (Strings): the routines on memory and strings, over a function from addresses to bytes.
-- * spinlock.c (Locks): `pushcli` and `popcli`, and `acquire` and `release` cut at the places where
--   another processor can see them, with any number of processors.
-- * fs.c, over the blocks that the buffers show (Fs). Fs/Disk has the bytes of a block and the
--   numbers in them, Fs/Bitmap `balloc` and `bfree`, Fs/Inode `bmap`, `iupdate`, `readi` and
--   `writei`, Fs/Truncate `itrunc`, Fs/Cache the inode cache with its sleep locks (sleeplock.c),
--   Fs/Path `skipelem`, Fs/Directory `dirlookup`, Fs/Linking `dirlink`. Each runs in a transaction
--   of the log, so that it is one step on the disk, and `logged` lists the blocks that it passes to
--   `log_write`. A file is the function `content` from offsets to bytes (Fs/Content), and `Owns`
--   (Fs/Blocks) says that its blocks are in use and no two the same. A device's functions are
--   outside the model: a call of them is the result `to_device`. A panic is a result of its own, or
--   `none`.
-- * grep.c (Grep): the matcher and the loop that cuts what it reads into lines. Grep/Meaning has the
--   relation that the matcher decides.
--
-- The loops are structural in a list or a number, but for those that run on fuel. The digit loop of
-- `sys_find_digit_root` has `2 * num + 1` rounds: each makes `2 * num + root` smaller. The loop of
-- `freerange` has one round more than there are whole pages below its end, and stops by its own
-- test before they are used up. Those of `filewrite`, `readi` and `writei` have a round for each
-- byte, and each moves one at least. The outer loop of `balloc` has one round more than the bitmap
-- has full blocks, those of `dirlookup` and `dirlink` one more than there are whole entries, the
-- inner loop of `grep` one for each byte of the buffer. `strlen` takes its fuel as an argument, for
-- the source sets no bound: a string's length and one more is enough. A loop over the process table
-- runs over the list of its slots.
--
-- Not modelled: the buffer cache under the log (bio.c), `readsb`, `stati` and `namex` of fs.c and
-- the system calls of sysfile.c, virtual memory and exec (vm.c, exec.c), the user library and the
-- user programs but grep; nor the console, the device drivers, start-up and the assembly files,
-- which are device registers and machine code. `mycpu`, `cpuid` and `myproc` are the argument `me`;
-- the debug output is left out. The models of the other parts make a critical section of a spin
-- lock one step.
mod Base
pub mod Log
pub mod Pipe
pub mod Proc
pub mod Syscall
pub mod Memory
pub mod Strings
pub mod File
pub mod Locks
pub mod Grep
pub mod Fs
