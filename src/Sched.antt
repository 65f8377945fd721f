-- ===== src/Sched.antt =====
-- core/scheduler.c and include/kernel/scheduler.h: 256 run queues of tasks linked through their
-- control blocks, with a bitmap of the queues that are not empty.
pub mod Bitmap
pub mod Invariant
pub mod Run
mod Tests
use aioncore.Base.{
  ℕ, zero, suc, ◌+◌, ◌-◌, ◌*◌, ◌/◌, ◌%◌, Bool, true, false, not, ◌&&◌, ◌||◌, Option, none, some,
  ◌==◌, ltb, if◌then◌else◌, update,
}
use aioncore.Base.Words.{inc32, dec32, inc64, add32}
use aioncore.Base.Bits.{bit, set_bit, clear_bit}
use aioncore.Task.{Task, TaskState, ready, running, is_ready, is_running, is_zombie}

abbrev pub sched_idle_priority : ℕ
sched_idle_priority = 0

abbrev pub sched_default_priority : ℕ
sched_default_priority = 128

pub record TaskQueue : Type 0 where
  pub head : ℕ
  pub tail : ℕ
  pub count : ℕ

-- `scheduler_t`
pub record Scheduler : Type 0 where
  pub ready : ℕ → TaskQueue
  pub priority_bitmap : ℕ → ℕ
  pub current_task : ℕ
  pub context_switches : ℕ
  pub ticks : ℕ
  pub need_resched : Bool

-- The memory that the scheduler works on: the control block at each address, the global
-- scheduler, the idle task of core/task.c and `tss.esp0` of arch/x86/gdt.c.
pub record Kernel : Type 0 where
  pub tasks : ℕ → Task
  pub sched : Scheduler
  pub idle_task : ℕ
  pub esp0 : ℕ

-- Assignments through a task pointer, and to a field of the scheduler.
abbrev pub put_task : Kernel → ℕ → Task → Kernel
put_task k p t = record k { tasks = update k.tasks p t }

abbrev pub set_next : Kernel → ℕ → ℕ → Kernel
set_next k p v = let t = k.tasks p in put_task k p (record t { next = v })

abbrev pub set_prev : Kernel → ℕ → ℕ → Kernel
set_prev k p v = let t = k.tasks p in put_task k p (record t { prev = v })

abbrev pub set_state : Kernel → ℕ → TaskState → Kernel
set_state k p v = let t = k.tasks p in put_task k p (record t { state = v })

abbrev pub queue : Kernel → ℕ → TaskQueue
queue k priority = let s = k.sched in s.ready priority

abbrev pub put_queue : Kernel → ℕ → TaskQueue → Kernel
put_queue k priority q =
    let s = k.sched in record k { sched = record s { ready = update s.ready priority q } }

unfoldable pub set_priority_bit : Kernel → ℕ → Kernel
set_priority_bit k priority =
    let s = k.sched in
    let word_idx = priority / 32 in
    let word = set_bit (s.priority_bitmap word_idx) (priority % 32) in
    record k { sched = record s { priority_bitmap = update s.priority_bitmap word_idx word } }

unfoldable pub clear_priority_bit : Kernel → ℕ → Kernel
clear_priority_bit k priority =
    let s = k.sched in
    let word_idx = priority / 32 in
    let word = clear_bit 32 (s.priority_bitmap word_idx) (priority % 32) in
    record k { sched = record s { priority_bitmap = update s.priority_bitmap word_idx word } }

-- `__builtin_clz` on a word whose bits from `w` on are 0: the zeros above the highest 1.
unfoldable pub leading_zeros : (w x : ℕ) → ℕ
leading_zeros zero x = 0
leading_zeros (suc w) x = if bit x w == 1 then 0 else leading_zeros w x + 1

-- The loop from word `n - 1` down to word 0.
unfoldable pub find_word : (ℕ → ℕ) → ℕ → ℕ
find_word m zero = sched_idle_priority
find_word m (suc i) =
    let rest = find_word m i in
    if m i == 0 then rest else (i * 32 + (31 - leading_zeros 32 (m i))) % 256

unfoldable pub find_highest_priority : Scheduler → ℕ
find_highest_priority s = find_word s.priority_bitmap 8

-- `queue->head = queue->tail = task` on an empty queue, or the links at its tail.
unfoldable pub append_task : Kernel → ℕ → Kernel
append_task k task =
    let priority = (k.tasks task).priority in
    let q = queue k priority in
    if q.head == 0
    then (let k = put_queue k priority (record q { head = task; tail = task }) in
        set_prev (set_next k task 0) task 0)
    else (let k = set_next (set_prev k task q.tail) task 0 in
        let k = set_next k q.tail task in put_queue k priority (record q { tail = task }))

unfoldable pub scheduler_enqueue : Kernel → ℕ → Kernel
scheduler_enqueue k task =
    let t = k.tasks task in
    if task == 0 || not (is_ready t.state)
    then k
    else (let k = append_task k task in
        let q = queue k t.priority in
        let k = put_queue k t.priority (record q { count = inc32 q.count }) in
        set_priority_bit k t.priority)

-- `if (task->prev) task->prev->next = task->next; else queue->head = task->next;`
unfoldable pub unlink_next : Kernel → (task priority : ℕ) → Kernel
unlink_next k task priority =
    let t = k.tasks task in
    let q = queue k priority in
    if t.prev == 0
    then put_queue k priority (record q { head = t.next })
    else set_next k t.prev t.next

-- `if (task->next) task->next->prev = task->prev; else queue->tail = task->prev;`
unfoldable pub unlink_prev : Kernel → (task priority : ℕ) → Kernel
unlink_prev k task priority =
    let t = k.tasks task in
    let q = queue k priority in
    if t.next == 0
    then put_queue k priority (record q { tail = t.prev })
    else set_prev k t.next t.prev

-- Neither end of the queue, and no links: the task is not in it.
abbrev pub is_unlinked : Kernel → (task priority : ℕ) → Bool
is_unlinked k task priority =
    let t = k.tasks task in
    let q = queue k priority in
    (not (q.head == task) && not (q.tail == task)) && (t.prev == 0 && t.next == 0)

unfoldable pub scheduler_dequeue : Kernel → ℕ → Kernel
scheduler_dequeue k task =
    let priority = (k.tasks task).priority in
    if task == 0 || (queue k priority).count == 0 || is_unlinked k task priority
    then k
    else (let k = unlink_prev (unlink_next k task priority) task priority in
        let k = set_prev (set_next k task 0) task 0 in
        let q = queue k priority in
        let k = put_queue k priority (record q { count = dec32 q.count }) in
        if dec32 q.count == 0 then clear_priority_bit k priority else k)
