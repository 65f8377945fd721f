-- ===== src/Syscall/Served.antt =====
-- What the system calls of core/syscall.c do to the scheduler of core/scheduler.c.
use mathlib.Core.Bool.{false≢true}
use aioncore.Base.{
  ℕ, ◌-◌, ◌≡◌, ◌≢◌, ◌∙◌, refl, sym, ap, true, false, ◌==◌, arith, ◌⊎◌, inl, inr, Bool-cases,
}
use aioncore.Base.Seqs.{has}
use aioncore.Base.Words.{u32_mod}
use aioncore.Task.{TaskState, is_ready}
use aioncore.Sched.{Kernel, put_task}
use aioncore.Sched.Invariant.{Queues}
use aioncore.Sched.Invariant.Frame.{SameLinks-IsLinked}
use aioncore.Sched.Run.{schedule, scheduler_pick_next}
use aioncore.Sched.Run.Pick.{pick_next-Picked}
use aioncore.Sched.Run.Switch.{IsScheduled, HasRoom}
use aioncore.Sched.Run.Schedule.{Scheduled, rescheduled, schedule-Scheduled, schedule-state}
use aioncore.Syscall.{
  SysResult, enosys, task_exit, task_yield, sys_exit, sys_yield, sys_getpid, sys_sleep_us,
  syscall_handler,
}

-- The current task has become a zombie with its exit code, before `ended` is scheduled; in the end it is
-- still a zombie, another task is RUNNING as the current one, and it waits in no queue.
pub record Exited (exit_code : ℕ) (k : Kernel) (qs : Queues) (out : Kernel) : Type 0 where
  pub ended : Kernel
  pub code : (ended.tasks k.sched.current_task).exit_code ≡ exit_code
  pub others : (a : ℕ) → a ≢ k.sched.current_task → ended.tasks a ≡ k.tasks a
  pub same : (ended.sched ≡ k.sched) × (ended.idle_task ≡ k.idle_task)
  pub rescheduled_once : out ≡ (schedule ended).0
  pub zombie : (out.tasks k.sched.current_task).state ≡ TaskState.zombie
  pub left : out.sched.current_task ≢ k.sched.current_task
  pub running : (out.tasks out.sched.current_task).state ≡ TaskState.running
  pub kept :
      (rs : Queues) × IsScheduled out rs × ((p : ℕ) → has k.sched.current_task (rs p) ≡ false)

module _ (exit_code : ℕ) (k : Kernel) (qs : Queues) (s : IsScheduled k qs) (room : HasRoom qs)
    (busy : k.sched.current_task ≢ k.idle_task) where
  abbrev current : ℕ
  current = k.sched.current_task

  abbrev zombied : Kernel
  zombied =
      let t = k.tasks current in
      put_task k current (record t { state = TaskState.zombie; exit_code = exit_code })

  zombied-IsScheduled : IsScheduled zombied qs
  zombied-IsScheduled = record {
    linked =
        SameLinks-IsLinked
          (record {
            queues = λ p. refl;
            bitmap = λ i. refl;
            nexts = λ a. ground arith;
            prevs = λ a. ground arith;
            priorities = λ a. ground arith;
          })
          (λ p a h. elim (Bool-cases (current == a)) [
            | inl e ↦
                let f : a ≡ current = ground (arith, e) in
                absurd (s.current_state (rw f at (s.linked.readies p a h)))
            | inr e ↦ rw e refl
          ])
          s.linked;
    current_nonnull = s.current_nonnull;
    current_state = ground arith;
    idle_priority = ground (arith, s.idle_priority);
    idle_here = elim s.idle_here [ inl h ↦ inl h | inr (e, r) ↦ absurd (busy e) ];
  }

  zombie_here : (zombied.tasks current).state ≡ TaskState.zombie
  zombie_here = let e : (current == current) ≡ true = ground arith in rw e refl

  -- a zombie is not the next task
  next_other : scheduler_pick_next zombied ≢ current
  next_other same = elim (pick_next-Picked zombied-IsScheduled.linked) [
    | inl (e, _) ↦ busy (sym same ∙ e)
    | inr (p, _, _, h, _) ↦
        let r = zombied-IsScheduled.linked.readies p (scheduler_pick_next zombied) h in
        let r = rw same at r in false≢true (ap is_ready (sym zombie_here ∙ r))
  ]

  exit-Exited : Exited exit_code k qs (task_exit exit_code k)
  unfolding task_exit
  exit-Exited =
      let v = schedule-Scheduled zombied-IsScheduled room in
      let here : (current == current) ≡ true = ground arith in
      let z : ((schedule zombied).0.tasks current).state ≡ TaskState.zombie =
        schedule-state zombied-IsScheduled room next_other current
        ∙ ground (arith, next_other, zombie_here) in
      record {
        ended = zombied;
        code = rw here refl;
        others = λ a ne. let other : (current == a) ≡ false = ground (arith, ne) in rw other refl;
        same = (refl, refl);
        rescheduled_once = refl;
        zombie = z;
        left = λ e. next_other (sym v.runs ∙ e);
        running = let e = v.runs in rw e v.is_running;
        kept = (
          rescheduled zombied qs,
          v.kept,
          λ p. elim (Bool-cases (has current (rescheduled zombied qs p))) [
            | inl h ↦ absurd (false≢true (ap is_ready (sym z ∙ v.kept.linked.readies p current h)))
            | inr h ↦ h
          ],
        );
      }

-- What a system call gives, by its number.
abbrev pub Served : (num arg0 : ℕ) → Kernel → Queues → Kernel × SysResult → Type 0
Served num arg0 k qs out =
    ((num ≡ 1) × (out.1 ≡ SysResult.gone) × Exited arg0 k qs out.0)
    ⊎ ((num ≡ 2)
        × (out.1 ≡ SysResult.returned 0)
        × (out.0 ≡ (schedule k).0)
        × Scheduled k qs (schedule k))
    ⊎ ((num ≡ 3) × (out ≡ (k, SysResult.returned (k.tasks k.sched.current_task).task_id)))
    ⊎ ((num ≢ 1) × (num ≢ 2) × (num ≢ 3) × (out ≡ (k, SysResult.returned (u32_mod - enosys))))

number_cases : (n : ℕ) → (n ≡ 1) ⊎ (n ≡ 2) ⊎ (n ≡ 3) ⊎ ((n ≢ 1) × (n ≢ 2) × (n ≢ 3))
number_cases n = ground arith

-- Under the scheduler invariant, with room in every queue and a current task other than the idle
-- task: system call 1 makes the current task a zombie with the exit code and schedules, after
-- which it is still a zombie and waits in no queue, another task is RUNNING as the current one,
-- and the invariant holds; 2 schedules as schedule-Scheduled says and returns 0; 3 returns the
-- task's identifier without a change; and every other number, also one beyond the table, returns
-- -ENOSYS without a change.
pub syscall_handler-Served :
    (num arg0 : ℕ) (k : Kernel) (qs : Queues)
    → IsScheduled k qs
    → HasRoom qs
    → k.sched.current_task ≢ k.idle_task
    → Served num arg0 k qs (syscall_handler num arg0 k)
unfolding syscall_handler sys_exit sys_yield sys_getpid sys_sleep_us task_yield
syscall_handler-Served num arg0 k qs s room busy = elim (number_cases num) [
  | inl e ↦ rw e (inl (refl, refl, exit-Exited arg0 k qs s room busy))
  | inr (inl e) ↦ rw e (inr (inl (refl, refl, refl, schedule-Scheduled s room)))
  | inr (inr (inl e)) ↦
      let there = s.current_nonnull in
      let z : (k.sched.current_task == 0) ≡ false = ground (arith, there) in
      rw e (rw z (inr (inr (inl (refl, refl)))))
  | inr (inr (inr (a, b, c))) ↦ inr (inr (inr (a, b, c, ground (arith, a, b, c))))
]
