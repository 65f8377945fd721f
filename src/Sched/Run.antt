-- ===== src/Sched/Run.antt =====
-- The entry points of core/scheduler.c: picking the next task, `schedule`, the timer tick and
-- `scheduler_init`, and the inline functions of include/kernel/scheduler.h.
pub mod Pick
pub mod Switch
pub mod Schedule
pub mod Start
pub mod Events
pub mod Fresh
use mathlib.Core.List.{[]}
use aioncore.Base.{
  ℕ, zero, suc, ◌+◌, ◌-◌, ◌*◌, ◌/◌, ◌%◌, Bool, true, false, not, ◌&&◌, ◌||◌, Option, none, some,
  ◌==◌, ltb, if◌then◌else◌, update, List, ◌∷◌,
}
use aioncore.Base.Words.{inc64, add32}
use aioncore.Task.{Task, TaskState, CpuContext, is_ready, is_running, is_zombie}
use aioncore.Sched.{
  Kernel, Scheduler, TaskQueue, queue, put_task, set_state, sched_idle_priority,
  find_highest_priority, scheduler_enqueue, scheduler_dequeue,
}

-- `task_get_idle()` is the field `idle_task`.
unfoldable pub scheduler_pick_next : Kernel → ℕ
scheduler_pick_next k =
    let next = (queue k (find_highest_priority k.sched)).head in
    if next == 0 then k.idle_task else next

-- "Handle current task state": a RUNNING task becomes READY, a ZOMBIE leaves the run queue.
unfoldable pub retire_current : Kernel → ℕ → Kernel
retire_current k current =
    let state = (k.tasks current).state in
    if is_running state
    then set_state k current TaskState.ready
    else if is_zombie state
    then scheduler_dequeue k current
    else k

-- "Dequeue next task and mark as RUNNING"
unfoldable pub install_next : Kernel → ℕ → Kernel
install_next k next = set_state (scheduler_dequeue k next) next TaskState.running

-- "Re-enqueue current task if still READY"
unfoldable pub requeue_current : Kernel → ℕ → Kernel
requeue_current k current =
    if is_ready (k.tasks current).state then scheduler_enqueue k current else k

-- "Update scheduler state"
unfoldable pub make_current : Kernel → ℕ → Kernel
make_current k next =
    let s = k.sched in
    record k {
      sched = record s {
        current_task = next;
        context_switches = inc64 s.context_switches;
        need_resched = false;
      };
    }

-- `gdt_set_kernel_stack(kernel_stack_top)`
unfoldable pub set_kernel_stack : Kernel → ℕ → Kernel
set_kernel_stack k next =
    let t = k.tasks next in
    if not (t.kernel_stack == 0) && ltb 0 t.kernel_stack_size
    then record k { esp0 = add32 t.kernel_stack t.kernel_stack_size }
    else k

-- All of `schedule` up to `context_switch`, for two different tasks.
unfoldable pub switch_to : Kernel → (current next : ℕ) → Kernel
switch_to k current next =
    let k = requeue_current (install_next (retire_current k current) next) current in
    set_kernel_stack (make_current k next) next

-- The new state, and the two tasks whose contexts `context_switch` is called on, if it is. The
-- interrupt flag, which is off from the first line to the last, is not part of the state.
unfoldable pub schedule : Kernel → Kernel × Option (ℕ × ℕ)
schedule k =
    let s = k.sched in
    let next = scheduler_pick_next k in
    if s.current_task == next
    then (record k { sched = record s { need_resched = false } }, none)
    else (switch_to k s.current_task next, some (s.current_task, next))

-- `g_scheduler.ticks++`, and the accounting of the current task.
unfoldable pub count_tick : Kernel → Kernel
count_tick k =
    let s = k.sched in
    let k = record k { sched = record s { ticks = inc64 s.ticks } } in
    let t = k.tasks s.current_task in
    if s.current_task == 0
    then k
    else put_task k s.current_task (record t { cpu_time_ticks = inc64 t.cpu_time_ticks })

unfoldable pub scheduler_set_need_resched : Kernel → Kernel
scheduler_set_need_resched k =
    let s = k.sched in record k { sched = record s { need_resched = true } }

unfoldable pub scheduler_need_resched : Kernel → Bool
scheduler_need_resched k = let s = k.sched in s.need_resched

unfoldable pub scheduler_current : Kernel → ℕ
scheduler_current k = let s = k.sched in s.current_task

-- The new state, and whether a reschedule is needed.
unfoldable pub scheduler_tick : Kernel → Kernel × Bool
scheduler_tick k =
    let k = count_tick k in
    let s = k.sched in
    let priority = (k.tasks s.current_task).priority in
    if ltb priority (find_highest_priority s)
    then (record k { sched = record s { need_resched = true } }, true)
    else if ltb 0 (queue k priority).count
    then (record k { sched = record s { need_resched = true } }, true)
    else (k, false)

-- `memset(&g_scheduler, 0, sizeof(g_scheduler))`
abbrev pub zero_queue : TaskQueue
zero_queue = record { head = 0; tail = 0; count = 0 }

abbrev pub zero_scheduler : Scheduler
zero_scheduler = record {
  ready = λ _. zero_queue;
  priority_bitmap = λ _. 0;
  current_task = 0;
  context_switches = 0;
  ticks = 0;
  need_resched = false;
}

abbrev pub zero_context : CpuContext
zero_context = record {
  edi = 0;
  esi = 0;
  ebx = 0;
  ebp = 0;
  esp = 0;
  eip = 0;
  cs = 0;
  ss = 0;
  ds = 0;
  es = 0;
  fs = 0;
  gs = 0;
  eflags = 0;
}

-- `memset(task, 0, sizeof(task_t))`; state 0 is READY.
abbrev pub zero_task : Task
zero_task = record {
  task_id = 0;
  name = [];
  state = TaskState.ready;
  exit_code = 0;
  context = zero_context;
  address_space = 0;
  kernel_stack = 0;
  kernel_stack_size = 0;
  priority = 0;
  cpu_time_ticks = 0;
  last_run_tick = 0;
  next = 0;
  prev = 0;
}

-- "bootstrap"
abbrev pub bootstrap_name : List ℕ
bootstrap_name = b'b' ∷ b'o' ∷ b'o' ∷ b't' ∷ b's' ∷ b't' ∷ b'r' ∷ b'a' ∷ b'p' ∷ []

abbrev pub bootstrap_task : (address_space : ℕ) → Task
bootstrap_task address_space =
    let t = zero_task in
    record t {
      task_id = 0xFFFFFFFF;
      name = bootstrap_name;
      state = TaskState.zombie;
      priority = sched_idle_priority;
      address_space = address_space;
    }

-- `bootstrap` is the address of the static `bootstrap_task`, `address_space` what
-- `mmu_get_kernel_address_space` returns.
unfoldable pub scheduler_init : (bootstrap address_space : ℕ) → Kernel → Kernel
scheduler_init bootstrap address_space k =
    let z = zero_scheduler in
    let k = put_task k bootstrap (bootstrap_task address_space) in
    let k = record k { sched = record z { current_task = bootstrap } } in
    if k.idle_task == 0
    then k
    else scheduler_enqueue (set_state k k.idle_task TaskState.ready) k.idle_task
