-- ===== src/Syscall/Tests.antt =====
-- System calls at a concrete state: task 0x100 runs, and the idle task 0x200 waits.
use aioncore.Base.{◌≢◌, arith}
use aioncore.Sched.{scheduler_enqueue, set_priority_bit, append_task}
use aioncore.Sched.Run.{scheduler_init}
use aioncore.Idt.Samples.{machine, idle_only, initial-IsScheduled, idle-HasRoom}
use aioncore.Syscall.{syscall_handler}
use aioncore.Syscall.Served.{Served, syscall_handler-Served}

busy : machine.kernel.sched.current_task ≢ machine.kernel.idle_task
unfolding scheduler_init scheduler_enqueue set_priority_bit append_task
busy = omega arith

-- exit with the code 7
syscall_handler-Served_example :
    Served 1 7 machine.kernel idle_only (syscall_handler 1 7 machine.kernel)
syscall_handler-Served_example =
    syscall_handler-Served 1 7 machine.kernel idle_only initial-IsScheduled idle-HasRoom busy
