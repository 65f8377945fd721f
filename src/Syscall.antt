-- ===== src/Syscall.antt =====
-- core/syscall.c and include/kernel/syscall.h, with `task_exit` and `task_yield` of core/task.c. A
-- result is the bit pattern of a 32-bit `long`.
pub mod Served
mod Tests
use aioncore.Base.{
  ℕ, ◌+◌, ◌-◌, ◌≤◌, ◌≡◌, ◌≢◌, refl, Bool, true, false, not, ◌&&◌, ◌||◌, ◌==◌, ==_iff, leb,
  if◌then◌else◌, update, arith, ◌⊎◌, inl, inr, Bool-cases,
}
use aioncore.Base.Words.{u32_mod}
use aioncore.Task.{Task, TaskState}
use aioncore.Sched.{Kernel, Scheduler, put_task, set_state}
use aioncore.Sched.Invariant.{Queues}
use aioncore.Sched.Run.{schedule}
use aioncore.Sched.Run.Switch.{IsScheduled, HasRoom}
use aioncore.Sched.Run.Schedule.{rescheduled}
use aioncore.Sched.Run.Events.{Step, Reach, Reach-IsScheduled}

abbrev pub enosys : ℕ
enosys = 38

abbrev pub max_syscalls : ℕ
max_syscalls = 256

-- what the caller gets: a value, or control never comes back to it
pub data SysResult : Type 0 where
  returned : ℕ → SysResult
  gone : SysResult

-- `task_exit`, up to the switch away from the task.
unfoldable pub task_exit : (exit_code : ℕ) → Kernel → Kernel
task_exit exit_code k =
    let t = k.tasks k.sched.current_task in
    (schedule (
      put_task k k.sched.current_task
        (record t { state = TaskState.zombie; exit_code = exit_code }))).0

unfoldable pub task_yield : Kernel → Kernel
task_yield k = (schedule k).0

unfoldable pub sys_exit : (arg0 : ℕ) → Kernel → Kernel × SysResult
sys_exit arg0 k = (task_exit arg0 k, SysResult.gone)

unfoldable pub sys_yield : Kernel → Kernel × SysResult
sys_yield k = (task_yield k, SysResult.returned 0)

unfoldable pub sys_getpid : Kernel → Kernel × SysResult
sys_getpid k =
    let s = k.sched in
    if s.current_task == 0
    then (k, SysResult.returned (u32_mod - 1))
    else (k, SysResult.returned (k.tasks s.current_task).task_id)

unfoldable pub sys_sleep_us : Kernel → Kernel × SysResult
sys_sleep_us k = (k, SysResult.returned (u32_mod - enosys))

-- The table is written out as the tests on the number.
unfoldable pub syscall_handler : (syscall_num arg0 : ℕ) → Kernel → Kernel × SysResult
syscall_handler syscall_num arg0 k =
    if leb max_syscalls syscall_num
    then (k, SysResult.returned (u32_mod - enosys))
    else if syscall_num == 1
    then sys_exit arg0 k
    else if syscall_num == 2
    then sys_yield k
    else if syscall_num == 3
    then sys_getpid k
    else if syscall_num == 4
    then sys_sleep_us k
    else (k, SysResult.returned (u32_mod - enosys))
