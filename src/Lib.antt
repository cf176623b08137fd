-- ===== src/Lib.antt =====
-- xv6 for RISC-V: the kernel in xv6-riscv/kernel, part by part, and the matcher of user/grep.c.
--
-- Prelude: what the other modules share: tests on numbers, lists, signed integers, `update` of a
-- family at one index (a store to memory or to an array).
--
-- Strings: kernel/string.c over memory as a byte at each address. `memset`, `memcmp`, `memmove`,
-- `memcpy`, `strncmp`, `strncpy`, `safestrcpy` and `strlen` have the names of the source. Loops with a
-- count recur on the rounds left; `strlen` runs on fuel, and more fuel than the string is long is
-- enough. Addresses are unbounded numbers.
--
-- Buffers: what the buffer cache of kernel/bio.c is to its clients: contents, disk, pins. A block is
-- its 32-bit words, and a disk write is whole or not done. The `history` of a view is the list of the
-- disks that the writes leave, which are those that a crash can leave.
--
-- Bio: kernel/bio.c, with the sleep lock of each buffer as the pid of its holder. The list that the
-- source links through the buffers is a list of records; a buffer is named by a number, its address.
-- `bread` ends with a panic, with the buffer on whose lock the caller sleeps, or with the locked buffer;
-- `acquiresleep` and `fill` are what is left to do for a caller that slept. The disk is a block for
-- each device and block number.
--
-- Log: kernel/log.c over Buffers. `begin_op` and `end_op` are what these functions do between
-- acquiring and releasing `log.lock`; `end_commit` is the part of `end_op` that commits. A panic is
-- `none`. Log.Crash has crashes and recoveries, Log.Reserve concurrent file-system calls.
--
-- Pipe: kernel/pipe.c. A run, from an entry or the return of `sleep` to the exit or the next `sleep`,
-- is one function; Pipe.Fifo has the interleavings of runs.
--
-- Spin: kernel/spinlock.c. `acquire` and `release` are cut into the pieces between which another CPU can
-- act; Spin.System runs any number of CPUs over one lock, each at one of the points of the two
-- functions. Memory is sequentially consistent.
--
-- Kalloc: kernel/kalloc.c over the memory of Strings: the free list is linked through the first bytes of
-- the free pages. The linker's symbol `end` is a parameter. `freerange_loop` runs on fuel, and more than
-- the number of pages is enough.
--
-- Vm: kernel/vm.c over the memory of Kalloc: a page table is 512 entries of 8 bytes in a page. A function
-- is a step of the state monad of Prelude, `none` a panic; the address of an entry is a number, 0 where
-- the source has a null pointer. `walk_loop` recurs on the level. `copyin_loop`, `copyout_loop` and
-- `copyinstr_loop` run on fuel; each round takes a byte at least, so the length is enough. The loops over
-- pages recur on their number of rounds, and `freewalk` on the depth of the table. Vm.Translate reads the
-- tables as a map from addresses to entries. The flush of the TLB is not modelled.
--
-- Fs: kernel/fs.c over Buffers and Log, in the same monad. There is one device, the one that the view
-- shows. The calls run one after another: `none` is a panic, or that the caller would sleep for
-- the lock of an inode, which is the pid of its holder. bread and brelse of one block within a function
-- are the contents of that block. A block is its 32-bit words; Fs.Alloc.Bits has its bytes and bits.
-- Fs.Alloc is the bitmap, Fs.Inodes the table of inodes and their blocks, Fs.Directories the entries of a
-- directory, Fs.Paths the path names, as lists of characters before the terminating zero. `either_copyin`
-- and `either_copyout` of proc.c are parameters of readi and writei. `namex_loop` runs on fuel: skipelem
-- shortens the path, so its length is enough. Messages are left out.
--
-- Proc: kernel/proc.c. Proc has the process table: a process is its index, the state of the kernel's processes
-- is a row for each, and a function is what it does under its locks. Proc.System has the interleavings of
-- these; the calls of sleep but that of wait are on objects that are no processes. Proc.Lifecycle and
-- Proc.Fork are the same functions with page tables and open files, as calls that run to their end or to sched.
-- The table of the kernel (kvmmake of kernel/vm.c) is there too. Register-level code (sched's swtch, forkret)
-- is not modelled.
--
-- File: kernel/file.c, and pipealloc of kernel/pipe.c, over Fs, Pipe and Kalloc. The memory of the caller, the
-- devices and whether the caller is killed are parameters. `filewrite_loop` runs on fuel; a round writes a
-- byte at least, so the number of bytes is enough.
--
-- Calls: kernel/sysfile.c over Proc and File, for the arguments that kernel/syscall.c fetches; Calls.Args is that
-- file, with the array of calls as an argument of the dispatch, and Calls.Process kernel/sysproc.c. sys_uptime is
-- not modelled.
--
-- Exec: `exec` and `loadseg` of kernel/exec.c over the state that Proc.Lifecycle has for processes, memory
-- and files. The labels and gotos of `exec` are the functions `with_...` and `bad_image`; each error path
-- gives up what it holds in the order of the source. A round of `loadseg_loop` is a page, and one of
-- `push_args` an argument. Calls.Exec has `sys_exec`, in 32 rounds.
--
-- Console: the input of kernel/console.c, in runs between sleeps. `kill_line` runs on fuel; the size of the
-- buffer is enough. Console.Lines says what keys and reads do without a ring, and
-- Console.Lines.Runs runs both. Of the output, Uart has the transmit buffer.
--
-- Sleep: the lock of kernel/sleeplock.c by itself, with the steps of processes that acquire it, sleep, wake
-- and release it; Bio and Fs have it as a field of what it protects.
--
-- Virtio: descriptors, requests and interrupts of kernel/virtio_disk.c. The addresses in the descriptors
-- are symbols for the three things that they point to. Virtio.System has the steps: processes that begin
-- and end requests, interrupts, and the device, which writes any status; the used ring is an argument of
-- `virtio_disk_intr`. A chain of descriptors is shorter than the fuel of `free_chain`, as the runs show;
-- the index of the used ring has 16 bits, so 2 ^ 16 rounds are enough for the interrupt.
--
-- Uart: the transmit buffer of kernel/uart.c. The device is a number of times that it is idle.
--
-- Grep: the matcher of user/grep.c over strings as lists of characters. Grep.Lines has
-- the loop over the reads of a file; a round takes a byte of it, so one more than its length is enough.
--
-- Shell: the lexer and the parser of user/sh.c. A pointer into the line is the list of the characters from
-- there to its end, so a token is a list and `nulterminate`, which puts zeros behind the tokens, is not
-- there. Each function of the parser has its own name; their results are a command and the rest of the
-- line, a syntax error, or a want of fuel, which never comes: the fuel of a loop is one more than the
-- text is long. Shell.Parser.Print writes commands out, to be read back.
--
-- Printf: `printint` of kernel/printf.c, with what it prints as a list of characters; `fill_buf` is the
-- part that fills `buf`. `printint`, and so `printf`, has no result where more is stored than the 16 bytes
-- of `buf`. 64 rounds are enough for 64 bits. Printf.Format has the loop of printf, whose fuel is the length
-- of the format, since each round takes one of its characters at least. Printf.Numbers, Printf.Format.Pointers
-- and Printf.Format.Output read the output back.
--
-- UserPrintf: `printint`, `printptr` and `vprintf` of user/printf.c in the same way, where `buf` has room for
-- each `int`; the pieces of formats are those of Printf.Format.
--
-- Not modelled: device registers, with virtio_disk_init and the traps of kernel/trap.c; assembly and boot
-- code; of user/sh.c what runs the commands, which is system calls; user/ulib.c, whose string functions
-- are those of kernel/string.c again; user/umalloc.c; the tests; the short programs over system calls;
-- and what the paragraphs above leave out.
pub mod Prelude
pub mod Strings
pub mod Buffers
pub mod Bio
pub mod Log
pub mod Pipe
pub mod Spin
pub mod Kalloc
pub mod Grep
pub mod Printf
pub mod Vm
pub mod Fs
pub mod Proc
pub mod File
pub mod Calls
pub mod Console
pub mod Uart
pub mod Shell
pub mod Virtio
pub mod Exec
pub mod Sleep
pub mod UserPrintf
