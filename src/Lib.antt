-- ===== src/Lib.antt =====
-- The kernel of 0s, a small teaching operating system for the i386: its lists, scheduler,
-- semaphores, memory management, file system, devices, system calls, screen, the library of its
-- programs, and the tool that builds its image.
--
-- The parts and how they interact. The clock interrupt and the system calls act on one kernel
-- state. The scheduler (sched.c) keeps every task in one of several linked lists
-- (include/list.h): the run queue, the free queue, the queue of the tasks that wait for the
-- keyboard, and one queue for each semaphore. The semaphore calls of sys.c move tasks between
-- them. A file channel of a task leads to an entry of a shared table (channel.c), and from
-- there to a device (devices.c): the console, the keyboard with its circular buffer
-- (circbuff.c), or the file system in memory (fat.c). Frames and pages are in mm.c, copies and
-- pointer checks in utils.c, text in kernutil.c. A program reaches the calls through libc.c, a
-- trap, and the table of entry.S. system.c starts all of it, from an image that build.c joins.
--
-- Which file models which part:
--   Base      numbers, Boolean tests, integers, arrays as functions, bounded loops and searches
--   Build     build.c, the tool that joins the images: Host is the calls of its system. Disk
--             has what those calls promise, and Image what is written
--   Kernutil  kernutil.c: strings are lists of characters, or arrays with a '\0'
--   Utils     utils.c: copies between arrays, and access_ok with its 32-bit sum
--   ListHead  include/list.h: Heap holds the next and prev fields by address. Links says that
--             the nodes of a list stand in a heap in order; Queues says it of a family of lists
--             that share no node
--   CircBuff  circbuff.c
--   Mm        mm.c: the byte map of frames, the page table, and the start of paging; Segments
--             has the descriptor and the segment of the task state
--   Sched     sched.c and include/sched.h: Sched holds the tasks, the heap of their queues and
--             the page table. Task i's queue field is the address i + 1, and the list heads
--             have addresses from 11 on. task_switch makes another task the current one. Inv
--             has the invariant, Turns follows sequences of ticks, and Block and Wake say what
--             it is to block and to wake a task
--   Sem       sem.c and the semaphore calls of sys.c. Inv has the invariant of the kernel's
--             tasks
--   Fat       fat.c and include/fat.h. Calls has the functions that the other files call; Chain
--             has the invariant: each file's blocks and the free blocks are chains that share
--             no block
--   Channel   channel.c and include/channel.h
--   Sys       sys.c and devices.c: the calls on files, channels and processes, and the drivers.
--             Memory has what a task sees of the frames. Trap has the table of the calls and
--             the trap of entry.S. Pages, Clone and Fork follow sys_fork, Loops and Exit follow sys_exit, Keyboard a read of the
--             keyboard, and Stored what is written to a file and read back
--   Interrupt interrupt.c: the routines of the clock and of the keyboard; Gates has the
--             descriptor table and the routines of the exceptions. Serve, Waiting and Typing
--             follow a task that waits for keys
--   Screen    io.c: the cursor and the cells of the screen
--   Libc      libc.c: Process is a program's view, the kernel and errno
--   Hardware  hardware.c, and the writes of mm.c to control registers: what the instructions do
--             to the processor; Gate has the change of privilege
--   System    system.c, init_task0 of sched.c and init_devices of devices.c: boot is what main
--             does to the kernel's data, and Main has all of main, on the processor, the tables
--             and the console. Enter follows main to the user's program, and Run has the runs
--             of the kernel from there on
--
-- Memory is by frames: Kernel has what each frame of physical memory holds, and a task reads and
-- writes at an address through the frames that its structure lists for its data pages; the pages
-- of the kernel and the code pages lead to the frames of their own numbers, for every task
-- (Sys.Memory). Two tasks with the same frame see each other's writes. The page table of mm.c
-- is modelled beside that; the copies go by the structure's list, which task_switch puts into
-- the table. The kernel's own variables are fields of the model, and so theorems about a
-- block that is written ask for one in the data pages.
--
-- A C int that can be negative is an integer, and an unsigned int that is counted keeps its
-- wrap-around, and so does the value of a semaphore at the greatest int; the text of a number is
-- of bytes; a C array is a function from the index. A call that ends with another task on
-- the processor has no result of its own. An error is the negative number that the code
-- answers.
--
-- Loops with a constant bound are recursions on that bound. The loop of sys_sem_destroy has
-- fuel 11: no more than 10 tasks can wait. The loops of fat_read, fat_write, sys_read_file and
-- sys_write_file have one unit of fuel for each byte and one more: a round moves at least one
-- byte. Sys.Ends follows the last two on more fuel. strcmp and strcat recurse on their strings.
-- The loop of build.c over a file has a unit for each byte left. The digits of itoa are counted
-- with the number itself as fuel. The loop of printc over the columns has fuel 256: its x is a
-- byte, which comes back to 0 by then.
--
-- Parameters: where the linker puts the page table, the guard pages, the user's program and the
-- texts (Image, and the arguments of perror), the addresses of the handlers, of the tables and
-- of the first task's stack, and the word that the image builder leaves for return_gate
-- (Layout), what the registers hold that a call does not use, what the arrays of a routine hold
-- before it writes them, the task that the call of set_default_std_in_out_err without an
-- argument works on, and the calls of the system that build.c runs on (Host).
--
-- Not modelled: the stack frames and registers that task_switch restores, of which only the
-- result of a call is kept; the flags that compiled code changes, the translation buffer that a
-- write of cr3 empties, port access in io.c, and an interrupt between enable_int and the user's
-- program; the boot sector, 16-bit assembly around calls of the BIOS; the user program user.c;
-- what build.c says on standard error. An index outside an array reads the function there, where
-- C reads other memory: the theorems are about states and arguments where none occurs. The one
-- such read that is modelled is that of fat_close for the number 10. The text of
-- the clock's time has room for 10000 minutes, and what is written behind it is not modelled.
pub mod Base
pub mod Build
pub mod Kernutil
pub mod Utils
pub mod ListHead
pub mod CircBuff
pub mod Mm
pub mod Sched
pub mod Sem
pub mod Fat
pub mod Channel
pub mod Sys
pub mod Interrupt
pub mod Screen
pub mod Libc
pub mod Hardware
pub mod System
