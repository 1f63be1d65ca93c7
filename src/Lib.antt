-- ===== src/Lib.antt =====
-- s-kernel, a small real-time kernel for aarch64: preemptive threads with 32 priorities, timers, and
-- objects over which threads communicate.
--
-- A thread (thread/thread.c, include/kernel/sched.h) has a node `tlist`, which stands in the ready
-- list of its priority, in the list of an object that it waits for, or in no list. The scheduler
-- (thread/schedule.c) keeps the 32 ready lists and a word with one bit for each that is not empty,
-- and runs a thread of the highest priority. The objects (ipc/) suspend the calling thread in a list
-- of their own, start its timer (init/sys_tick.c) for a time-out, and call the scheduler; the call
-- that makes the object available resumes the first thread of the list and calls the scheduler. The
-- serial driver keeps received bytes in a ring buffer (common/ring_buffer.c). Kernel objects have a
-- name under which a registry finds them (init/kobj.c), devices are such objects (init/device.c), and
-- the memory of what is created comes from an allocator of pages and of zones of small chunks
-- (mem/slab.c). A console prints on a device (driver/serial/console.c), a shell reads lines from it and
-- calls commands (common/shell.c), and a table of handlers takes the interrupts of the controller
-- (arch/aarch64/src/interrupt.c, arch/aarch64/src/trap.c).
--
-- Which file models which part:
--
-- - Common: Boolean tests on numbers, lists, integers, 32-bit words as sets of bits, the error codes
--   and `__sk_ffs` of include/kernel/base_def.h.
-- - Memory: `sk_memset` … `sk_strlen` of include/kernel/base_def.h on a memory of bytes. Copying,
--   Comparing, Strings: what they do.
-- - Klist: include/kernel/klist.h on the pointers of the nodes. Chain and Rings relate a circular
--   list to the list of its nodes.
-- - RingBuffer: common/ring_buffer.c, one definition for each function. Its children: the invariant
--   and the contents of a ring as a list (Inv), writing (Put), reading (Get), single bytes (Chars),
--   writing over the oldest bytes (Force), and `sk_ring_buffer_create` and `sk_ring_buffer_destroy`
--   over Slab (Storage).
-- - Slab: mem/slab.c. Pages: `sk_page_init`, `sk_page_alloc`, `sk_page_free` on the list of free
--   blocks of pages; Freeing and Taking are about them. Zones: `zone_index` and the chunks of a zone;
--   Classes and Chunks are about them. Heap: `sk_system_mem_init`, `sk_malloc`, `sk_free` on the whole
--   state of the file; Blocks is about it.
-- - Kernel: the state, with the list functions of include/kernel/klist.h as functions on lists of
--   threads. Timers: init/sys_tick.c. Sched: thread/schedule.c. Threads: thread/thread.c. Ticks: what
--   the timer interrupt does, `sk_tick_increase` and `sk_timer_check` of init/sys_tick.c; Walk, Due
--   and Slice are about it. Inv, Highest, Switch, Choice: the invariant of the lists and what
--   `sk_schedule` does. Blocking: suspension, resumption and time-out of a thread. Stack:
--   `__thread_stack_init`. Creating: threads and timers as objects, over Object and Slab.
--   Callbacks: what the timers call.
-- - Ipc: the objects. Base: ipc/ipc_base.c, and the sequence that blocks the caller, which all
--   objects share. Waiting, Waking, Blocked, Parked: what it means for a thread to wait in a list.
--   Notified: the wake-up that mailboxes and message queues share. Semaphore, Mutex, Event, Mailbox,
--   MsgQueue, with their children: ipc/semaphore.c, ipc/mutex.c, ipc/event.c, ipc/mailbox.c,
--   ipc/msg_queue.c. Completion: common/completion.c. Steps: the calls of threads,
--   of timers and of the objects, the creation of threads and the timer interrupt in any order, as a
--   relation between states.
-- - Object: init/kobj.c, over Slab and Memory. Finding: lookup by name.
-- - Device: init/device.c, with the functions of a driver as parameters. Counting: opening and
--   closing. Naming: registration. Storage: `sk_device_create` and `sk_device_destroy`.
-- - Serial: driver/serial/serial.c over RingBuffer, with the functions of a port as parameters. Writing
--   and Receiving are about it.
-- - Vfs: fs/vfs/vfs.c, with the lock a mutex of Ipc. Calls: fs/vfs/vfs_fs.c, `sk_fd_is_open` and
--   fs/vfs/vfs_file.c, with the functions of a file system as parameters. Descriptors and Removing are
--   about them.
-- - Console: driver/serial/console.c; numbers and formats are text in the memory of Memory. Digits and
--   Numbers are about the conversion of numbers.
-- - Shell: common/shell.c, with `struct shell_cmd` in Shell and its arrays in the memory of Memory. Keys:
--   the loop of `shell_thread_entry`, a definition for each key. Setup: the device and the start. Inv,
--   History, Editing and Typing: what holds between two characters and that each key keeps it.
--   Session, Recall and Commands: sequences of keys, the history, and the choice of a command.
-- - Interrupt: arch/aarch64/src/interrupt.c and `sk_hw_trap_irq` of arch/aarch64/src/trap.c, as writes to
--   registers. Starting and Dispatch are about them. Ticking: `sk_hw_timer_isr` and
--   `sk_hw_timer_init` of init/sys_tick.c, and init/irq.c.
-- - Uart: bsp/driver/drv_uart.c as a port of Serial; registers are written as a sequence of writes.
--   Sending is about what `sk_serial_write` writes to them.
-- - Startup: init/startup.c from the timers on, over Kernel, Object and Slab; what
--   `sk_system_component_init` finds in the table of the linker is a parameter. Order and
--   Started are about it, with Kernel/Starting, the state before there is a current thread.
-- - Tests: concrete inputs.
--
-- How the code is rendered. A function that works on the shared state takes the state last and
-- returns the new one behind its result. The parts between `hw_interrupt_disable` and
-- `hw_interrupt_enable` are one step each, and the tick that could come between two such parts of a
-- call is not interleaved. The switch of the processor's registers is no part of the state: `current`
-- says who runs. A call that blocks ends at its `sk_schedule`; what it does when its thread runs
-- again is a definition of its own where it does more than return a code. `stat` is a phase and the
-- YIELD bit, pointers to threads are numbers with 0 for SK_NULL, and the lists of an object have its
-- number. Integers of the C code wrap where the code can make them (`% 2 ^ 16`, `% 2 ^ 15`); a
-- tick count has 32 bits.
--
-- Fuel. `__ipc_list_resume_all` loops until the list is empty; its model takes one round for each
-- thread of the list, which is enough when all of them are suspended (Waking). `sk_strlen` and
-- `sk_strcpy` loop until a terminating byte; more rounds than the string has bytes are enough
-- (Strings). The loop of `sk_free` that takes a zone out of its list needs one round more than zones
-- stand in front of it; `sk_timer_check` needs at most two rounds for each timer if one is due (Due);
-- `sk_hw_serial_isr` one for each byte and one more (Receiving); the loop of `sk_system_mem_init` that
-- doubles the zone size needs two. The loops of `gic_dist_init` take as many rounds as there are
-- interrupts (Starting), those of `sk_itoa` one for each digit (Digits); more than 80 for a
-- string are enough for the line of the shell (Editing).
--
-- Memory. Addresses are numbers and do not wrap. The bytes that callers write, the heads of zones and
-- of blocks of pages, the links of free chunks and the fields of objects other than their names are
-- separate parts of the state, so that writing behind the end of a block is not modelled.
--
-- Not modelled: assembly and the exception vectors (arch/), `sk_hw_trap_error`, which loops for ever,
-- bsp/driver/board.c and `sk_hw_uart_init`, the registers of the hardware timer (init/sys_tick.c),
-- `sk_hw_serial_register`, which sets pointers and registers the device (driver/serial/serial.c), the
-- commands of common/cmd.c, which print, `sk_vfs_init` of fs/vfs/vfs.c, which goes through SK_NULL, the
-- loop of the idle thread (thread/thread.c), and `sk_hw_board_init` and the drivers of the board, which
-- init/startup.c calls first.
pub mod Common
pub mod Memory
pub mod Klist
pub mod RingBuffer
pub mod Slab
pub mod Kernel
pub mod Ipc
pub mod Object
pub mod Device
pub mod Serial
pub mod Vfs
pub mod Console
pub mod Shell
pub mod Interrupt
pub mod Startup
pub mod Uart
pub mod Tests
