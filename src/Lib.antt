-- ===== src/Lib.antt =====
-- Verification of ApnaOS, a small 32-bit kernel.
--
-- The program's parts. `kernel.c` starts the machine and runs a shell on the screen; the shell's
-- commands call the file system (`filesystem/filesystem.c`), which keeps inodes, a directory, a
-- block bitmap and the blocks in memory, and which uses the string routines of `keyboard/string.c`.
-- The shell's input is the line that the interrupt handler of the keyboard (`keyboard/keyboard.c`)
-- has collected. `memory/memory.c` is the heap of the kernel, in pages; the processes of `process/`
-- live on it.
--
-- Which file models what.
-- - Prelude: tests on numbers, C arrays as functions from the index, signed integers, counted
--   searches, a pigeonhole lemma, and `Run`: a run of stateful code is `done` with a result and a
--   state, `fault` (an access outside an array), or `out_of_fuel`. `Returns Q c` says that a run
--   ends as `done` in a result and a state with `Q`, and `Ends F Q c` that it ends so or, for a
--   reason `F`, as `fault`.
-- - Text: `keyboard/string.c` (`strlen`, `memcpy`, `memset`, `strcmp`, `strncmp`, `strncpy`, the
--   loop of `strchr`). Children: Copy (`memcpy`, `memset`, `strncpy`), Compare (`strlen`,
--   `strncmp`, `strcmp`), Tokens (`strtok`, with the line and its static pointer as the state),
--   Words (proofs). A pointer is the memory from it on, a function from the offset.
-- - Disk: `filesystem/filesystem.c`. State has the structures, the globals as one record `Fs` and
--   `format_disk`; Alloc has `allocate_inode`, `allocate_block`, `allocate_blocks` and
--   `check_permissions`; Files has `create_file`, `delete_file`, `chmod_file` and `list_files`;
--   Transfer has `read_file`, `write_file` and `append_to_file`. Valid has the invariant: a block
--   that an inode holds is marked in the bitmap and no other place holds it, an inode's blocks
--   stand in front and reach as far as its size, directory entries and inodes in use correspond
--   one to one, and the count of free blocks is that of the bitmap. The other children are the
--   proofs: Blocks, Grow, Reserve (allocation), Read, Write, Store, Append, Extend, Fill, Release
--   (the loops), Lookup, RoundTrip, Create, Delete, Refuse, Format (the operations), Session
--   (sequences of calls).
-- - Memory: `memory/memory.c` (`memory_init`, `allocate_pages`, `kmalloc`, `kfree`). A pointer into
--   `kernel_memory` is its offset, the null pointer `none`. Search is about the loop of
--   `allocate_pages`, Pages about what it marks, Free about `kfree`, Heap about `kmalloc`, Restore
--   about the shape of the page table, Calls about sequences of calls.
-- - Keyboard: `keyboard/keyboard.c`, the interrupt handler, whose line the shell reads. Editor is a
--   line editor on lists, Handler the refinement, Capitals is about shift and caps lock.
-- - Descriptors: `keyboard/gdt.c` and `interrupts/idt.c`, the tables of segments and interrupt
--   gates; Fields puts the fields of an entry together again.
-- - Numbers: the conversions of `kernel.c` (`atoi`, `int_to_hex`, `int_to_dec`); Hex and Decimal
--   have their proofs.
-- - Screen: the text screen of `kernel.c`; Scroll is about the bytes that scrolling moves, Grid
--   about the screen as a grid of characters.
-- - Interrupts: `interrupts/interrupts.c`, `interrupts/pic.c` and `init_keyboard`. Dispatch is
--   about what an interrupt does, and about those of the keyboard; Table about the gates. The
--   writes of `pic_remap` are listed.
-- - Process: `process/process.c`, the process control block and the queues of processes, which
--   live on the kernel's heap. Chain says which list a queue stands for, Links is about writes to
--   links, Insert about `enqueue_process`, Serve about `dequeue_process`, Queue about an urgent
--   process.
-- - RbTree: `process/rbtree.c` and `process/rbtree.h`, and `cfs_enqueue` and `cfs_dequeue_min`.
--   Shape says which tree the nodes stand for, Turn and Rotate are about `rb_rotate_left`, Sides
--   and Mirror about both rotations, Way, Rehang and Place about a place in the tree and the
--   rotations there, Colour and Paint about the colours. Settle, Round, Fixup and Loop follow
--   `rb_insert_color`, Graft the walk of `cfs_enqueue`, Linked `rb_link_node`, Enqueue puts them
--   together, and First is about `rb_first`. Erase has `rb_erase` and `cfs_dequeue_min`; Short,
--   Sibling and Close are about the cases of the loop in `rb_erase`.
-- - Scheduler: the rest of `process/process.c` on one state `Kernel` of the heap, the blocks, the
--   queue, the current process, the process table and the next number. Live says which blocks are
--   in use, Keep what is in the bytes of a block while others are allocated, Invariant what holds
--   between two calls, Ready is about the queue in that state, Requeue and Schedule about
--   `schedule`, Pending about a process in the making, Stack about its stack, Create about
--   `create_process`, whose writes to that stack are a `fault` where they lie past the end of
--   `kernel_memory`. Where `schedule` leaves to is its result.
-- - Syscalls: `process/syscall.c` and the two copies of `memory/memory.c`, where an access through
--   the null pointer or outside `kernel_memory` is a `fault`. Copy is about `copy_memory`, Child
--   about the child while it is made, Fork and Exit about `fork_syscall` and `exit_syscall`,
--   Zombie about the search of `wait_syscall`, Session about sequences of calls.
-- - Shell: `read_line` and `cli_loop` of `kernel.c` on one state of the parts that the shell
--   calls. Files has the `file` commands, Commands the `process` commands and the first word of a
--   line. Line is about the shell's buffer, Reads about its words, Sound about the calls of the
--   other parts, Requests about the `file` commands, Rounds about a whole line.
--
-- Bounds and fuel. The constants are those of the source. An `int` result that is -1 on failure is
-- an option; a `uint32_t` wraps where the code can make it wrap (`% 2 ^ 32`). `for` loops are
-- recursion on the rounds that are left. The `while` loops of `read_file` and `append_to_file`
-- copy at least one byte in each round, so as many rounds as bytes and one more test are enough;
-- the theorems below that say that a call ends include that the fuel is enough. The loop of the
-- keyboard's handler that hands a line over makes at most as many rounds as the buffer has bytes,
-- which its own test says. `strlen` and `strcmp` take their fuel as an argument, and the theorems
-- on them say how much is enough. The loop of `enqueue_process` takes its fuel as an argument too;
-- as many rounds as the queue has blocks are enough. `schedule` and the calls that enter the queue
-- take that fuel along, and `find_zombie_child` needs as many rounds as the process table has
-- blocks. The loops on the red-black tree take their fuel as an argument; more rounds than the
-- tree has nodes are enough for the two of `cfs_enqueue`.
--
-- A process's block is a record at its address; the bytes of the heap that hold the block are not
-- modelled besides, and neither is a freed block that is still in use.
--
-- Not modelled: the messages on the serial line, the ports, assembly, the test processes, the
-- start of the kernel in `kernel.c`. `read_line` is modelled from the moment on at which the
-- keyboard's handler has handed a line over. Interrupt handlers call neither the file system nor
-- the scheduler, so no call is interrupted by another.
pub mod Prelude
pub mod Text
pub mod Disk
pub mod Memory
pub mod Keyboard
pub mod Descriptors
pub mod Process
pub mod RbTree
pub mod Interrupts
pub mod Numbers
pub mod Screen
pub mod Scheduler
pub mod Syscalls
pub mod Shell
