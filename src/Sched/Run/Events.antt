-- ===== src/Sched/Run/Events.antt =====
-- The scheduler of core/scheduler.c over time: its events, and the invariant in every state they reach.
use aioncore.Base.{ℕ, ◌≡◌, ◌≢◌, Bool, true, false, [], ◌∷◌, arith, inl, inr, ◌∙◌}
use aioncore.Base.Seqs.{has, has-append}
use aioncore.Task.{TaskState}
use aioncore.Sched.{Kernel, set_state, scheduler_enqueue}
use aioncore.Sched.Invariant.{Queues, IsLinked}
use aioncore.Sched.Invariant.Frame.{set_state-IsLinked, SameLinks-IsLinked}
use aioncore.Sched.Invariant.Enqueue.{
  enqueued, enqueue-IsLinked, idle-enqueue, priority-enqueue, state-enqueue, current-enqueue,
}
use aioncore.Sched.Run.{count_tick, scheduler_tick, schedule}
use aioncore.Sched.Run.Switch.{IsScheduled, HasRoom, outside_of_state}
use aioncore.Sched.Run.Schedule.{rescheduled, schedule-Scheduled}
use aioncore.Sched.Run.Pick.{
  tick-Ticked, ticked, tick-ticked, count_tick-state, count_tick-SameLinks, count_tick-idle,
  count_tick-current,
}

-- A scheduler event, with the sequences before and after it.
pub data Step : Kernel → Queues → Kernel → Queues → Type 0 where
  -- the timer interrupt
  tick : {k : Kernel} {qs : Queues} → Step k qs (scheduler_tick k).0 qs
  -- `schedule`, from the interrupt's exit path, `sys_yield` or `task_exit`
  resched : {k : Kernel} {qs : Queues} → HasRoom qs → Step k qs (schedule k).0 (rescheduled k qs)
  -- a READY task that is not yet in a queue is enqueued
  wake :
      {k : Kernel} {qs : Queues} (task : ℕ)
      → task ≢ 0
      → (k.tasks task).state ≡ TaskState.ready
      → has task (qs (k.tasks task).priority) ≡ false
      → HasRoom qs
      → Step k qs (scheduler_enqueue k task) (enqueued k qs task)
  -- the current task, other than the idle task, blocks or becomes a zombie
  leave :
      {k : Kernel} {qs : Queues} (state : TaskState)
      → state ≢ TaskState.ready
      → k.sched.current_task ≢ k.idle_task
      → Step k qs (set_state k k.sched.current_task state) qs

pub data Reach : Kernel → Queues → Kernel → Queues → Type 0 where
  stay : {k : Kernel} {qs : Queues} → Reach k qs k qs
  step : {k l m : Kernel} {qs rs ts : Queues} → Reach k qs l rs → Step l rs m ts → Reach k qs m ts

pub wake-IsScheduled :
    {k : Kernel} {qs : Queues} (task : ℕ)
    → task ≢ 0
    → (k.tasks task).state ≡ TaskState.ready
    → has task (qs (k.tasks task).priority) ≡ false
    → HasRoom qs
    → IsScheduled k qs
    → IsScheduled (scheduler_enqueue k task) (enqueued k qs task)
wake-IsScheduled {k} {qs} task nz ready out room s =
    let p = (k.tasks task).priority in
    let idle = idle-enqueue k task in
    let current = current-enqueue k task in
    record {
      linked = enqueue-IsLinked task s.linked nz ready out (room p);
      current_nonnull = rw current s.current_nonnull;
      current_state = rw current (rw (state-enqueue k task k.sched.current_task) s.current_state);
      idle_priority = rw idle (priority-enqueue k task k.idle_task ∙ s.idle_priority);
      idle_here = rw current (
          rw idle (elim s.idle_here [
            | inl h ↦ inl (ground (arith, has-append k.idle_task (qs 0) (task ∷ [])))
            | inr (c, r) ↦ inr (c, state-enqueue k task k.idle_task ∙ r)
          ]));
    }

ticked-IsScheduled :
    {k : Kernel} {qs : Queues} (yes_ : Bool)
    → IsScheduled k qs
    → IsLinked (ticked k yes_).0 qs
    → IsScheduled (ticked k yes_).0 qs
ticked-IsScheduled true s v = record {
  linked = v;
  current_nonnull = s.current_nonnull;
  current_state = s.current_state;
  idle_priority = s.idle_priority;
  idle_here = s.idle_here;
}
ticked-IsScheduled false s v = s

count_tick-IsScheduled :
    {k : Kernel} {qs : Queues} → IsScheduled k qs → IsScheduled (count_tick k) qs
count_tick-IsScheduled {k} {qs} s =
    let idle = count_tick-idle k in
    let current = count_tick-current k in
    let links = count_tick-SameLinks k in
    record {
      linked = SameLinks-IsLinked links (λ p a h. count_tick-state k a) s.linked;
      current_nonnull = rw current s.current_nonnull;
      current_state = rw current (rw (count_tick-state k k.sched.current_task) s.current_state);
      idle_priority = rw idle (links.priorities k.idle_task ∙ s.idle_priority);
      idle_here = rw current (
          rw idle (elim s.idle_here [
            | inl h ↦ inl h
            | inr (c, r) ↦ inr (c, count_tick-state k k.idle_task ∙ r)
          ]));
    }

pub tick-IsScheduled :
    {k : Kernel} {qs : Queues} → IsScheduled k qs → IsScheduled (scheduler_tick k).0 qs
tick-IsScheduled {k} {qs} s =
    let v = tick-Ticked s.linked in
    rw (tick-ticked k)
      (ticked-IsScheduled _ (count_tick-IsScheduled s) (rw (tick-ticked k) at v.linked))

-- Every event keeps the invariant.
Step-IsScheduled :
    {k l : Kernel} {qs rs : Queues} → Step k qs l rs → IsScheduled k qs → IsScheduled l rs
Step-IsScheduled Step.tick s = tick-IsScheduled s
Step-IsScheduled (Step.resched room) s = let r = schedule-Scheduled s room in r.kept
Step-IsScheduled (Step.wake task nz ready out room) s = wake-IsScheduled task nz ready out room s
Step-IsScheduled {k} {qs} (Step.leave state ne busy) s =
    let c = k.sched.current_task in
    record {
      linked =
          set_state-IsLinked c state
            (outside_of_state c (k.tasks c).priority s.linked s.current_state) s.linked;
      current_nonnull = s.current_nonnull;
      current_state = ground arith;
      idle_priority = ground (arith, s.idle_priority);
      idle_here = elim s.idle_here [ inl h ↦ inl h | inr (e, r) ↦ absurd (busy e) ];
    }

-- Timer ticks, calls of schedule, enqueues of READY tasks that wait nowhere and state changes by
-- which a current task other than the idle task leaves keep, in any sequence, that links, counters
-- and bitmap describe the run queues, that the current task is not READY and waits nowhere, and
-- that the idle task waits or runs; enqueue and schedule take that every queue has room.
pub Reach-IsScheduled :
    {k l : Kernel} {qs rs : Queues} → Reach k qs l rs → IsScheduled k qs → IsScheduled l rs
Reach-IsScheduled Reach.stay s = s
Reach-IsScheduled (Reach.step before last) s = Step-IsScheduled last (Reach-IsScheduled before s)
