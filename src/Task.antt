-- ===== src/Task.antt =====
-- include/kernel/task.h: the task control block.
use aioncore.Base.{ℕ, List, Bool, true, false}

pub data TaskState : Type 0 where
  ready running blocked zombie : TaskState

pub record CpuContext : Type 0 where
  pub edi : ℕ
  pub esi : ℕ
  pub ebx : ℕ
  pub ebp : ℕ
  pub esp : ℕ
  pub eip : ℕ
  pub cs : ℕ
  pub ss : ℕ
  pub ds : ℕ
  pub es : ℕ
  pub fs : ℕ
  pub gs : ℕ
  pub eflags : ℕ

-- Pointers are addresses, NULL is 0. `name` is what `strlcpy` leaves, up to its terminator; an
-- `int` is kept as its bit pattern.
pub record Task : Type 0 where
  pub task_id : ℕ
  pub name : List ℕ
  pub state : TaskState
  pub exit_code : ℕ
  pub context : CpuContext
  pub address_space : ℕ
  pub kernel_stack : ℕ
  pub kernel_stack_size : ℕ
  pub priority : ℕ
  pub cpu_time_ticks : ℕ
  pub last_run_tick : ℕ
  pub next : ℕ
  pub prev : ℕ

abbrev pub is_ready : TaskState → Bool
is_ready TaskState.ready = true
is_ready _ = false

abbrev pub is_running : TaskState → Bool
is_running TaskState.running = true
is_running _ = false

abbrev pub is_zombie : TaskState → Bool
is_zombie TaskState.zombie = true
is_zombie _ = false
