-- ===== src/Lib.antt =====
-- A model of the aioncore kernel, a small real-time operating system kernel for 32-bit x86, and the
-- theorems that make its parts correct.
--
-- The parts, and the files that model them:
--
--   Pmm.antt       mm/pmm.c and include/kernel/pmm.h, the allocator of 4 KB frames. Pmm is the state:
--                  the bitmap and the counters. Pmm/Init.antt is pmm_init. Pmm/Bitmap, Pmm/Alloc,
--                  Pmm/Reserve and Pmm/Init/Boot prove what each operation does, Pmm/Owners what
--                  holds under every sequence of calls.
--   Task.antt      the task control block of include/kernel/task.h.
--   Sched.antt     core/scheduler.c and include/kernel/scheduler.h. Kernel is the state: the control
--                  block at each address, the scheduler, the idle task and the kernel stack pointer
--                  of the task state segment. Sched/Run.antt has the entry points. Sched/Invariant
--                  reads the linked control blocks as one sequence of addresses per priority, and
--                  Sched/Run/Events takes the scheduler through every sequence of its events.
--   Percpu.antt    core/percpu.c and include/kernel/percpu.h, the data of each processor with its
--                  trace buffer, which Percpu/Trace reads as a bounded queue.
--   Gdt.antt       arch/x86/gdt.c and include/kernel/gdt.h, the segment descriptors; Gdt/Decode says
--                  what the processor reads from them.
--   Idt.antt       arch/x86/idt.c, the interrupt gates, the interrupt controller and the dispatch of
--                  interrupts, which calls the scheduler; Idt/Gates says what the processor reads.
--   Mmu.antt       arch/x86/mmu.c and include/kernel/mmu.h, page tables in frames of the frame
--                  allocator. Mmu is the state: the allocator, physical memory, the control
--                  registers. Mmu/Walk says which entry the processor finds for a page; Mmu/Map,
--                  Mmu/Create, Mmu/Destroy and Mmu/Boot prove what each operation does to it.
--   Syscall.antt   core/syscall.c and include/kernel/syscall.h, with task_exit and task_yield of
--                  core/task.c; Syscall/Served says what the calls do to the scheduler.
--   Tasks.antt     the rest of core/task.c, creation and destruction of tasks. Machine joins the
--                  scheduler's state with that of the page tables. Tasks/Stack is the first stack of
--                  a thread; Tasks/Create, Tasks/Destroy and Tasks/Init prove what the operations do.
--   Str.antt       lib/string.c, over memory as a function from addresses to bytes.
--   Console.antt   core/console.c and include/kernel/console.h, the multiplexer of output, whose array
--                  Console/Registry reads as a list.
--   Vga.antt       drivers/vga/vga_text.c and include/drivers/vga.h, the text screen. Vga is the state.
--                  Vga/Rows is about its loops, Vga/Cursor, Vga/Typing and Vga/Putchar take the cursor
--                  as one position, Vga/Reach follows every sequence of driver calls, and Vga/Driver
--                  has the calls of drivers/vga/vga.c through the driver pointer.
--   Number.antt    utoa, itoa, utoa64 and itoa64 of drivers/vga/vga.c, over the bytes of the buffer.
--                  Number/Digits and Number/Reverse are about their loops, Number/Convert and
--                  Number/Signed read the buffer back.
--   Kprintf.antt   kprintf of drivers/vga/vga.c. Printer is the state of a call; Kprintf/Counts and
--                  Kprintf/Format follow what is printed and counted, Kprintf/Plain and
--                  Kprintf/Padding say what certain formats print.
--   Serial.antt    drivers/serial/uart.c, the serial port; Serial/Write follows what is sent.
--   Hal.antt       arch/x86/hal.c and the inline functions of include/kernel/idt.h, the hardware layer.
--                  Cpu is the state: the tables, the flags, and how often a port and the time stamp
--                  counter have been read. Hal/Ready joins what Gdt and Idt say of their tables, and
--                  Hal/Masks is about the masks of the interrupt lines.
--   Timer.antt     arch/x86/timer.c, the interval timer. Timer/Divisor says what it is set to,
--                  Timer/Counter and Timer/Wait follow the wait for its ticks, Timer/Start the
--                  calibration as a whole, Timer/Reading the time in microseconds, and
--                  Timer/Interrupt goes from the interrupt through the handler to the scheduler.
--   Output.antt    drivers/vga/vga_console.c and drivers/serial/serial_console.c, the adapters between
--                  the console and its devices, with the part of core/init.c that registers them;
--                  Output/Both follows text to both devices.
--   User.antt      core/user.c and include/kernel/user.h, user tasks, on the state of Tasks.
--                  User/Copy follows the copy of the code through the page tables, User/Progress,
--                  User/Program, User/Create and User/Build go through the steps of
--                  task_create_user, User/Parts says what they come to, User/Whole what the
--                  function returns, and User/Scheduled puts the task among others.
--   Base.antt      shared helpers: Boolean tests, words, bits, sequences and linked neighbours.
--
-- How the parts meet: the scheduler links the control blocks that the task table owns, and stores
-- the top of the next task's kernel stack where gdt_set_kernel_stack does. Address spaces take their
-- directories and tables from the frame allocator, tasks their control blocks and stacks. On an interrupt, irq_handler
-- calls schedule if a reschedule was asked for; the timer's handler counts the tick and asks. A user
-- task takes its pages from the frame allocator, is mapped in the kernel's address space, and waits in a
-- run queue like any other. The frame allocator, the
-- trace buffers, the descriptors and the string functions are used by the rest of the kernel through
-- the operations modelled here.
--
-- Conventions. A definition has the name of the function that it models; a helper that stands for a
-- part of a function names the part. Numbers are natural numbers, and each operation on a machine
-- word writes out its wrap-around; size_t and addresses have 32 bits. NULL is 0, and a store has a
-- cell at every address, so that a read through NULL reads the cell 0; the invariants exclude it. A
-- loop with a bound is structural recursion. The walk over the boot loader's memory map and the
-- loops up to a string's terminator are on fuel: Walk-bounded bounds the walk by the bytes of the
-- map, and for strings fuel above the length is enough. The digits of a
-- number of w bits take at most w rounds, and kprintf takes at most a round for each character of the
-- format. The wait for the serial port is on fuel, which has to reach the next time it is ready, and the wait
-- for the interval timer on fuel that has to reach the reading by which the ticks have passed. The hardware
-- that User/Copy writes through is the walk of Mmu/Walk; a byte is a part of a word of physical memory.
--
-- Parameters: the argument words of kprintf, the answers of the serial port and of the
-- other ports, the bounds of the built-in user program, the memory map that the
-- boot loader leaves, the bounds of the linked kernel image, the addresses of static tables and of
-- functions, what a thread's entry point does, the results of console backends' init functions, the
-- effects of interrupt handlers, the addresses of assembly stubs, the number of the running
-- processor and its time stamp counter.
--
-- The words of a control block's page are not followed: memset and the stores in it change the store of
-- control blocks alone. Control blocks, page directories and page tables are reached at their physical
-- addresses, as if every frame were mapped to itself; mmu_init maps the first 16 MB, so this leaves out
-- the page fault on a frame beyond them. The width of a kprintf directive is unbounded.
--
-- Not modelled: the messages that the parts print, assembly (the context switch, loading of tables,
-- halting, flushing), and the assertions, which a release build compiles out. Of the hardware layer, word
-- ports, the stubs without an effect and the table of function pointers have no model; the interrupt
-- flag is part of Cpu alone. Of start-up (core/init.c), which calls the initialisation of the other parts
-- in order and prints between the calls, the start of the console alone has a model.
pub mod Base
pub mod Pmm
pub mod Task
pub mod Sched
pub mod Percpu
pub mod Gdt
pub mod Str
pub mod Console
pub mod Idt
pub mod Syscall
pub mod Tasks
pub mod Mmu
pub mod Vga
pub mod Number
pub mod Kprintf
pub mod Serial
pub mod Hal
pub mod Timer
pub mod User
pub mod Output
