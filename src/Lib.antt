-- ===== src/Lib.antt =====
-- The kernel's processes, signals, locks, memory allocator, pipes, log, file system and system call
-- arguments, and the matcher of grep, modelled and verified.
--
-- Parts and files. Paths are from the repository's root.
--   Base      numbers, lists, bits, results: what the modules share; no code of the kernel.
--   Machine   x86.h's `struct trapframe`, 32-bit sums, and memory as a function from addresses to
--             bytes. Machine/Memory and Machine/Frame: what is read back after a write.
--   Kalloc    kalloc.c: `kalloc`, `kfree`, `freerange`. The free list is a list of page addresses.
--   Proc      proc.h's `struct proc` and the signal numbers of types.h.
--   Proc/Signal  proc.c: `kill`, `sigprocmask`, `sigaction`, and `sigkill_handler`,
--             `sigstop_handler`, `sigcont_handler` for `SIGKILL_handler` and its siblings.
--   Proc/Runner  proc.c: `sig_handler_runner` and `sigret`. `run_signals` is the loop, `run_signal`
--             one round of it, `dispatch` and `handle` the branches, `deliver` the last one, which
--             builds the user stack of a handler.
--   Proc/Table  proc.c: `allocproc`, `wakeup1`, one round of `wait` (`wait_round`) and the locked
--             part of `exit` (`exit_table`), on the table and `nextpid`.
--   Proc/Sched  proc.c: what `scheduler` does at one entry (`visit`), with the test of `freeze`.
--   Proc/Exit  proc.c: `exit` as a whole.
--   Proc/Fork  proc.c: `fork`, and `sleep`, `wakeup` and `yield` up to and from the switch.
--   Syscall   syscall.c: the fetching of arguments and `syscall`; sysproc.c: the calls on signals.
--   Trap      trap.c: `trap`; the routines that it calls are events.
--   Lock      spinlock.c, where an attempt to acquire is one step, and sleeplock.c.
--   Text      string.c, on memory; Text/Copy the copying, Text/Terminated the strings that end in NUL.
--   Fs        fs.h and file.h: the superblock and the inode; the monad of the file system's routines.
--   Fs/Bitmap  fs.c: `balloc`, `bfree`.  Fs/Inodes  fs.c: the inode cache, `iupdate`, `itrunc`, `bmap`.
--   Fs/Content  fs.c: `readi`, `writei`, directories, `namex`.  Fs/Path  fs.c: `skipelem`.
--   File      file.c: the file table, and reading and writing through it.
--   Sysfile   sysfile.c: the calls on descriptors; Sysfile/Paths and Sysfile/Calls those on paths.
--   Console   console.c: the screen, the line editor, `consoleread`.
--   Print     printf.c, console.c and ulib.c: `printf`, `cprintf`, `atoi`.
--   Umalloc   umalloc.c: `malloc` and `free`; Umalloc/Free and Umalloc/Take prove them in parts.
--   Vm        vm.c: the page tables of a process; proc.c: `growproc`.
--   Vm/Copy   vm.c: `setupkvm`, `copyuvm`, `inituvm`.
--   Bio       bio.c: the buffer cache, with memide.c's `iderw`.
--   Ide       ide.c: the queue of requests to the disk.
--   Sh        sh.c: the parser of command lines.
--   Grep      grep.c: `match` and its helpers, and a round of the loop over the input.
--   Pipe      pipe.c: `pipewrite` and `piperead` up to their return or next sleep, `pipeclose`, and
--             the fields that `pipealloc` sets.
--   Log       log.c: `commit` and `recover_from_log` over a disk, with a crash before any write.
--             Log/Space: `begin_op`, `end_op`, `log_write`. Log/Install, Log/Commit and
--             Log/Recovery follow a transaction; Log/Finish counts writes.
-- Below each, files named for what they prove, and Tests with runs on concrete input.
--
-- How they interact. A trap's return runs `sig_handler_runner` on the current process and its
-- memory; `kill` sets the bits that it reads, `sigaction` the handlers, and the scheduler's `visit`
-- reads the `freeze` flag that it sets. `allocproc` takes its stack from `kalloc` and `wait_round`
-- gives it back with `kfree`. A pipe's sections wake readers and writers by channel. A system call
-- takes its arguments from user memory through Syscall and, when it returns, stores its result in
-- the frame that `sig_handler_runner` then may save. `fork` builds on `allocproc` and gives the
-- child references to files (File) and to an inode (Fs). File reads and writes through Fs/Content
-- and Pipe; what Fs writes to a block becomes, in Log, a block of a transaction. Sysfile takes its
-- arguments through Syscall and works on the files, the inodes and the caller's descriptors.
--
-- Conventions. Numbers are natural numbers; where the code's `uint` wraps around, `% 2 ^ 32` is
-- written out. A pointer to a process is its index, null is `none` or 0. `Result` has `ok`,
-- `panic` for a call of `panic`, and `fault` for an access outside an object. A section under a
-- lock is one step; an interleaving is a sequence of steps. Locks as such are in Lock only;
-- printing and the filling of freed pages are left out.
--
-- Fuel. `freerange_from` has fuel `vend / 4096 + 1`: each round moves one page up and the loop
-- ends past `vend`. `scan_map` has fuel for each bitmap block of the disk; `read_loop`,
-- `write_loop` and `write_parts` one for each byte, since a round copies at least one;
-- `lookup_from`, `empty_from` and `empty_dir_from` one for each entry of the directory and two
-- more; `kill_line` one for each character that is being typed; `namex_from` one for each byte of
-- the path and one more, since each element takes a byte; `scan_lines` and the shell's loops one
-- for each byte and one more, and its recursion three for each byte and three more, since a block,
-- a pipeline and a line can stand between two bytes; `strlen` what its caller gives. In Vm the
-- loops over pages have one for each page of the range and two more, since a round moves at least
-- one page up, and `copyout` one for each byte. `free` and `malloc` have the fuel that they are
-- given; two rounds for each free block and two more are enough for `free`. No other loop has
-- fuel: the 32 signals, the entries of the table, the bytes of a pipe call and the blocks of a
-- transaction bound the others.
--
-- Parameters. `code` is the text of implicit_sigret.S as assembled, `kend` the linker's symbol
-- `end`, `kdata` its `data`, `cont` the address of `SIGCONT_handler`; `freevm` and `copyuvm`, in
-- Proc, are vm.c's functions of these names, `devsw` the table of the drivers' read and write
-- functions, `syscalls` the table of system calls, `text` the string at each address, `page` what
-- `kalloc` gives `pipealloc`, `sbrk` the system call as Umalloc describes it, `run` whether the
-- routines that `trap` calls panic, and what becomes of the current process in them.
--
-- Not modelled: the other devices, segmentation, `loaduvm`, `exec`, the running of
-- commands by the shell, the other user programs, assembly.
pub mod Base
pub mod Machine
pub mod Kalloc
pub mod Proc
pub mod Pipe
pub mod Log
pub mod Text
pub mod Grep
pub mod Ide
pub mod Fs
pub mod Syscall
pub mod Lock
pub mod File
pub mod Bio
pub mod Sh
pub mod Sysfile
pub mod Umalloc
pub mod Trap
pub mod Print
pub mod Console
pub mod Vm
