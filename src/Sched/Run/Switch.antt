-- ===== src/Sched/Run/Switch.antt =====
-- What `schedule` of core/scheduler.c does to the sequences of ready tasks, and the invariant that
-- it keeps: one task runs, and the idle task is never lost.
use aioncore.Base.{
  ℕ, ◌+◌, ◌<◌, ◌≡◌, ◌≢◌, true, false, [], ◌∷◌, ◌++◌, length, if◌then◌else◌, arith, ◌==◌, ◌⊎◌, inl,
  inr, Bool-cases, ◌&&◌, ◌∙◌, update,
}
use aioncore.Base.Words.{u32_mod}
use aioncore.Base.Seqs.{has, length-erase, has-erase}
use aioncore.Task.{TaskState, is_ready, is_running}
use aioncore.Sched.{Kernel, set_state, scheduler_enqueue}
use aioncore.Sched.Invariant.{Queues, IsLinked}
use aioncore.Sched.Invariant.Frame.{SameLinks, SameLinks-IsLinked, set_state-IsLinked}
use aioncore.Sched.Invariant.Enqueue.{
  enqueue-IsLinked, idle-enqueue, priority-enqueue, state-enqueue,
}
use aioncore.Sched.Invariant.Unlink.{idle-dequeue, priority-dequeue, state-dequeue}
use aioncore.Sched.Invariant.Dequeue.{dequeued, dequeue-IsLinked, dequeue_outside}
use aioncore.Sched.Run.{
  retire_current, install_next, requeue_current, make_current, set_kernel_stack, switch_to,
}

-- Between two calls: a current task that is not READY, so in no queue, and the idle task either
-- waiting or running.
pub record IsScheduled (k : Kernel) (qs : Queues) : Type 0 where
  pub linked : IsLinked k qs
  pub current_nonnull : k.sched.current_task ≢ 0
  pub current_state : (k.tasks k.sched.current_task).state ≢ TaskState.ready
  pub idle_priority : (k.tasks k.idle_task).priority ≡ 0
  pub idle_here :
      (has k.idle_task (qs 0) ≡ true)
      ⊎ ((k.sched.current_task ≡ k.idle_task) × ((k.tasks k.idle_task).state ≡ TaskState.running))

-- Every queue has room for one more task.
abbrev pub HasRoom : Queues → Type 0
HasRoom qs = (p : ℕ) → length (qs p) + 1 < u32_mod

-- The sequences after a switch: the next task leaves the front of its queue, and the task that
-- ran until now, if it is still runnable, goes to the back of its own.
abbrev pub switched : Kernel → Queues → (current next : ℕ) → Queues
switched k qs current next =
    let qs1 = dequeued k qs next in
    let p = (k.tasks current).priority in
    if is_running (k.tasks current).state then update qs1 p (qs1 p ++ (current ∷ [])) else qs1

-- A task that is not READY is in no queue.
pub outside_of_state :
    {k : Kernel} {qs : Queues} (task p : ℕ)
    → IsLinked k qs
    → (k.tasks task).state ≢ TaskState.ready
    → has task (qs p) ≡ false
outside_of_state {qs} task p v ne = elim (Bool-cases (has task (qs p))) [
  | inl e ↦ absurd (ne (v.readies p task e))
  | inr e ↦ e
]

module _ {k : Kernel} {qs : Queues} (current : ℕ) (nz : current ≢ 0) (v : IsLinked k qs)
    (ne : (k.tasks current).state ≢ TaskState.ready) where
  -- Retiring the current task changes at most its state, from RUNNING to READY.
  retired :
      retire_current k current
      ≡ (if is_running (k.tasks current).state then set_state k current TaskState.ready else k)
  unfolding retire_current
  retired = ground (
    arith,
    dequeue_outside current v nz (outside_of_state current (k.tasks current).priority v ne),
  )

  retire-IsLinked : IsLinked (retire_current k current) qs
  retire-IsLinked = rw retired (elim (Bool-cases (is_running (k.tasks current).state)) [
    | inl e ↦ rw e (
        set_state-IsLinked current TaskState.ready
          (outside_of_state current (k.tasks current).priority v ne) v)
    | inr e ↦ rw e v
  ])

  -- the fields of the control blocks and the idle task after the retirement
  retire-priority : (a : ℕ) → ((retire_current k current).tasks a).priority ≡ (k.tasks a).priority
  retire-priority a = rw retired (ground arith)

  retire-state :
      (a : ℕ)
      → ((retire_current k current).tasks a).state ≡ (
          if (current == a) && is_running (k.tasks a).state
          then TaskState.ready
          else (k.tasks a).state)
  retire-state a = rw retired (ground arith)

  retire-idle : (retire_current k current).idle_task ≡ k.idle_task
  retire-idle = rw retired (ground arith)

module _ {k : Kernel} {qs : Queues} (next : ℕ) (v : IsLinked k qs)
    (waiting : has next (qs (k.tasks next).priority) ≡ true) where
  install-IsLinked : IsLinked (install_next k next) (dequeued k qs next)
  unfolding install_next
  install-IsLinked =
      let p = (k.tasks next).priority in
      set_state-IsLinked next TaskState.running
        (rw (priority-dequeue k next next)
          (ground (arith, has-erase next next (qs p) (v.distinct p))))
        (dequeue-IsLinked next v waiting)

module _ (k : Kernel) (next : ℕ) where
  install-state :
      (a : ℕ)
      → ((install_next k next).tasks a).state
        ≡ (if next == a then TaskState.running else (k.tasks a).state)
  unfolding install_next
  install-state a = ground (arith, state-dequeue k next a)

  install-priority : (a : ℕ) → ((install_next k next).tasks a).priority ≡ (k.tasks a).priority
  unfolding install_next
  install-priority a = ground (arith, priority-dequeue k next a, priority-dequeue k next next)

  install-idle : (install_next k next).idle_task ≡ k.idle_task
  unfolding install_next
  install-idle = idle-dequeue k next

  -- the last two steps
  finish-SameLinks : SameLinks k (set_kernel_stack (make_current k next) next)
  unfolding set_kernel_stack make_current
  finish-SameLinks = record {
    queues = λ p. ground arith;
    bitmap = λ i. ground arith;
    nexts = λ a. ground arith;
    prevs = λ a. ground arith;
    priorities = λ a. ground arith;
  }

  finish-state :
      (a : ℕ) → ((set_kernel_stack (make_current k next) next).tasks a).state ≡ (k.tasks a).state
  unfolding set_kernel_stack make_current
  finish-state a = ground arith

  finish-idle : (set_kernel_stack (make_current k next) next).idle_task ≡ k.idle_task
  unfolding set_kernel_stack make_current
  finish-idle = ground arith

  finish-current : (set_kernel_stack (make_current k next) next).sched.current_task ≡ next
  unfolding set_kernel_stack make_current
  finish-current = ground arith

  finish-flag : (set_kernel_stack (make_current k next) next).sched.need_resched ≡ false
  unfolding set_kernel_stack make_current
  finish-flag = ground arith

is_ready-eq : (s : TaskState) → is_ready s ≡ true → s ≡ TaskState.ready
is_ready-eq s h = ground arith

-- The switch between two different tasks, of which the second waits in a queue.
module _ {k : Kernel} {qs : Queues} (current next : ℕ) (nz : current ≢ 0) (v : IsLinked k qs)
    (ne : (k.tasks current).state ≢ TaskState.ready) (room : HasRoom qs)
    (waiting : has next (qs (k.tasks next).priority) ≡ true) where
  abbrev pub before : Kernel
  before = install_next (retire_current k current) next

  differ : next ≢ current
  differ e = absurd (ne (rw e at (v.readies (k.tasks next).priority next waiting)))

  before-IsLinked : IsLinked before (dequeued k qs next)
  before-IsLinked =
      let p = retire-priority current nz v ne next in
      rw p at (
        install-IsLinked {k = retire_current k current} {qs = qs} next
          (retire-IsLinked current nz v ne) (rw p waiting))

  pub before-state :
      (a : ℕ)
      → (before.tasks a).state ≡ (
          if next == a
          then TaskState.running
          else if (current == a) && is_running (k.tasks a).state
          then TaskState.ready
          else (k.tasks a).state)
  before-state a =
      install-state (retire_current k current) next a
      ∙ ground (arith, retire-state current nz v ne a)

  before-priority : (a : ℕ) → (before.tasks a).priority ≡ (k.tasks a).priority
  before-priority a =
      install-priority (retire_current k current) next a ∙ retire-priority current nz v ne a

  -- the current task is READY now exactly if it was RUNNING
  before-ready : is_ready (before.tasks current).state ≡ is_running (k.tasks current).state
  before-ready =
      rw (before-state current) (ground (arith, differ, is_ready-eq (k.tasks current).state))

  before-outside : (p : ℕ) → has current (dequeued k qs next p) ≡ false
  before-outside p =
      ground (arith, outside_of_state current p v ne, has-erase next current (qs p) (v.distinct p))

  before-room : (p : ℕ) → length (dequeued k qs next p) + 1 < u32_mod
  before-room p = ground (arith, room p, length-erase next (qs p))

  requeued :
      requeue_current before current
      ≡ (if is_running (k.tasks current).state then scheduler_enqueue before current else before)
  unfolding requeue_current
  requeued = rw before-ready

  requeue-IsLinked : IsLinked (requeue_current before current) (switched k qs current next)
  requeue-IsLinked = rw requeued (elim (Bool-cases (is_running (k.tasks current).state)) [
    | inr e ↦ rw e before-IsLinked
    | inl e ↦
        let same = before-priority current in
        let p = (before.tasks current).priority in
        let made =
          enqueue-IsLinked current before-IsLinked nz
            (is_ready-eq (before.tasks current).state (before-ready ∙ e)) (before-outside p)
            (before-room p) in
        rw e (rw same at made)
  ])

  requeue-state :
      (a : ℕ) → ((requeue_current before current).tasks a).state ≡ (before.tasks a).state
  requeue-state a = rw requeued (ground (arith, state-enqueue before current a))

  requeue-idle : (requeue_current before current).idle_task ≡ k.idle_task
  requeue-idle = rw requeued (
      ground (
        arith,
        idle-enqueue before current,
        install-idle (retire_current k current) next,
        retire-idle current nz v ne,
      ))

  requeue-priority :
      (a : ℕ) → ((requeue_current before current).tasks a).priority ≡ (k.tasks a).priority
  requeue-priority a =
      rw requeued (ground (arith, priority-enqueue before current a, before-priority a))

  -- The whole switch.
  pub switch-IsLinked : IsLinked (switch_to k current next) (switched k qs current next)
  unfolding switch_to
  switch-IsLinked =
      let l = requeue_current before current in
      SameLinks-IsLinked (finish-SameLinks l next) (λ p a h. finish-state l next a) requeue-IsLinked

  pub switch-state : (a : ℕ) → ((switch_to k current next).tasks a).state ≡ (before.tasks a).state
  unfolding switch_to
  switch-state a = finish-state (requeue_current before current) next a ∙ requeue-state a

  pub switch-priority :
      (a : ℕ) → ((switch_to k current next).tasks a).priority ≡ (k.tasks a).priority
  unfolding switch_to
  switch-priority a =
      (finish-SameLinks (requeue_current before current) next).priorities a ∙ requeue-priority a

  pub switch-idle : (switch_to k current next).idle_task ≡ k.idle_task
  unfolding switch_to
  switch-idle = finish-idle (requeue_current before current) next ∙ requeue-idle

  pub switch-current : (switch_to k current next).sched.current_task ≡ next
  unfolding switch_to
  switch-current = finish-current (requeue_current before current) next

  pub switch-flag : (switch_to k current next).sched.need_resched ≡ false
  unfolding switch_to
  switch-flag = finish-flag (requeue_current before current) next
