-- ===== src/Tasks.antt =====
-- core/task.c: creation and destruction of tasks, over the frame allocator. A control block stands in
-- the store of control blocks under the address of its page, and the words of that page are not
-- followed: memset and the stores in it change the store alone. Kernel stacks are words of physical
-- memory.
pub mod Stack
pub mod Create
pub mod Destroy
pub mod Init
mod Tests
use aioncore.Base.{
  ℕ, ◌+◌, ◌-◌, Bool, true, false, not, ◌==◌, if◌then◌else◌, update, List, [], ◌∷◌, take,
}
use aioncore.Base.Words.{inc32}
use aioncore.Task.{Task, TaskState, CpuContext}
use aioncore.Pmm.{Pmm, pmm_alloc_page, pmm_free_page}
use aioncore.Mmu.{Mmu, mmu_get_kernel_address_space}
use aioncore.Sched.{Kernel, Scheduler, put_task, sched_idle_priority}
use aioncore.Sched.Run.{zero_task, zero_context, scheduler_current}
use aioncore.Syscall.{task_exit}

-- What the functions of core/task.c work on. `idle_task` is a field of the kernel's record.
pub record Machine : Type 0 where
  pub kernel : Kernel
  pub mmu : Mmu
  pub next_task_id : ℕ

abbrev pub pmm_of : Machine → Pmm
pmm_of m = let u = m.mmu in u.pmm

abbrev pub words_of : Machine → ℕ → ℕ
words_of m = let u = m.mmu in u.memory

abbrev pub with_pmm : Machine → Pmm → Machine
with_pmm m p = let u = m.mmu in record m { mmu = record u { pmm = p } }

abbrev pub with_task : Machine → (address : ℕ) → Task → Machine
with_task m a t = let k = m.kernel in record m { kernel = put_task k a t }

-- A store of a word.
abbrev pub push : Machine → (address word : ℕ) → Machine
push m a w = let u = m.mmu in record m { mmu = record u { memory = update u.memory a w } }

-- What `strlcpy` leaves in the 32 bytes of `name`.
abbrev pub stored_name : List ℕ → List ℕ
stored_name name = take 31 name

-- The pointer that is returned is 0 on failure.
unfoldable pub task_alloc : Machine → Machine × ℕ
task_alloc m =
    let got = pmm_alloc_page (pmm_of m) in
    let task = got.1 in
    let m' = with_pmm m got.0 in
    let t = zero_task in
    if task == 0 then (m', 0) else (
      record (with_task m' task (record t { task_id = m.next_task_id })) {
        next_task_id = inc32 m.next_task_id;
      },
      task,
    )

-- The context of a thread that starts in the kernel.
abbrev pub kernel_context : (esp eip : ℕ) → CpuContext
kernel_context esp eip =
    let c = zero_context in
    record c {
      esp = esp;
      ebp = esp;
      eip = eip;
      cs = 0x08;
      ss = 0x10;
      ds = 0x10;
      es = 0x10;
      fs = 0x10;
      gs = 0x10;
      eflags = 0x202;
    }

-- "idle"
abbrev pub idle_name : List ℕ
idle_name = 105 ∷ 100 ∷ 108 ∷ 101 ∷ []

-- The rest of `task_init`, with the page of the idle task's stack.
unfoldable pub start_idle : Machine → (idle stack idle_thread_entry : ℕ) → Task → Machine
start_idle m idle stack idle_thread_entry t =
    let stack_top = stack + 4096 in
    let m = push m (stack_top - 4) 0 in
    let m = push m (stack_top - 8) 0 in
    with_task m idle (record t { context = kernel_context (stack_top - 8) idle_thread_entry })

-- `idle_thread_entry` is the address of the function.
unfoldable pub task_init : (idle_thread_entry : ℕ) → Machine → Machine
task_init idle_thread_entry m =
    let got = pmm_alloc_page (pmm_of m) in
    let idle = got.1 in
    let k = m.kernel in
    let m = with_pmm (record m { kernel = record k { idle_task = idle } }) got.0 in
    let z = zero_task in
    let t = record z {
      name = stored_name idle_name;
      priority = sched_idle_priority;
      address_space = mmu_get_kernel_address_space m.mmu;
      kernel_stack_size = 4096;
    } in
    let more = pmm_alloc_page got.0 in
    let stack = more.1 in
    let t = record t { kernel_stack = stack } in
    let m' = with_task (with_pmm m more.0) idle t in
    if idle == 0 then m else if stack == 0 then m' else start_idle m' idle stack idle_thread_entry t

-- The rest of `task_create_kernel_thread`, with the page of the stack: the layout of the stack for
-- `task_wrapper`, and the context.
unfoldable pub start_thread :
    Machine → (task stack task_wrapper entry_point arg : ℕ) → Task → Machine
start_thread m task stack task_wrapper entry_point arg t =
    let stack_top = stack + 4096 in
    let wrapper_args = stack_top - 8 in
    let m = push m wrapper_args entry_point in
    let m = push m (wrapper_args + 4) arg in
    let m = push m (wrapper_args - 4) wrapper_args in
    let m = push m (wrapper_args - 8) 0 in
    with_task m task (record t { context = kernel_context (wrapper_args - 8) task_wrapper })

-- `task_wrapper` is the address of the function. The pointer that is returned is 0 on failure.
unfoldable pub task_create_kernel_thread :
    (task_wrapper : ℕ)
    → (name : List ℕ) → (entry_point arg priority stack_size : ℕ) → Machine
    → Machine × ℕ
task_create_kernel_thread task_wrapper name entry_point arg priority stack_size m =
    let got = pmm_alloc_page (pmm_of m) in
    let task = got.1 in
    let m' = with_pmm m got.0 in
    let z = zero_task in
    let t = record z {
      task_id = m.next_task_id;
      name = stored_name name;
      priority = priority;
      address_space = mmu_get_kernel_address_space m.mmu;
      kernel_stack_size = stack_size;
    } in
    let more = pmm_alloc_page got.0 in
    let stack = more.1 in
    let t = record t { kernel_stack = stack } in
    let m'' = record (with_task (with_pmm m more.0) task t) {
      next_task_id = inc32 m.next_task_id;
    } in
    if entry_point == 0
    then (m, 0)
    else if not (stack_size == 4096)
    then (m, 0)
    else if task == 0
    then (m', 0)
    else if stack == 0
    then (with_pmm m'' (pmm_free_page more.0 task), 0)
    else (start_thread m'' task stack task_wrapper entry_point arg t, task)

-- `run` is what a call of the function at an address with an argument does.
unfoldable pub task_wrapper :
    (run : (entry arg : ℕ) → Machine → Machine) → (wrapper_args : ℕ) → Machine → Machine
task_wrapper run wrapper_args m =
    let m = run (words_of m wrapper_args) (words_of m (wrapper_args + 4)) m in
    record m { kernel = task_exit 0 m.kernel }

unfoldable pub task_destroy : Machine → (task : ℕ) → Machine
task_destroy m task =
    let k = m.kernel in
    let t = k.tasks task in
    let p = pmm_of m in
    let p = if not (t.kernel_stack == 0) then pmm_free_page p t.kernel_stack else p in
    if task == 0 then m else with_pmm m (pmm_free_page p task)

unfoldable pub task_get_idle : Machine → ℕ
task_get_idle m = let k = m.kernel in k.idle_task

unfoldable pub task_current : Machine → ℕ
task_current m = scheduler_current m.kernel
