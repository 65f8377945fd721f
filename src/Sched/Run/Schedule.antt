-- ===== src/Sched/Run/Schedule.antt =====
-- `schedule` of core/scheduler.c as a whole: what it returns, and the invariant that it keeps.
use aioncore.Base.{
  ℕ, ◌≡◌, ◌≢◌, refl, true, false, [], ◌∷◌, if◌then◌else◌, ◌&&◌, ℕ, arith, ◌==◌, inl, inr,
  Bool-cases, ==_iff, ◌∙◌, Option, none, some, sym,
}
use mathlib.Core.Bool.{false≢true}
use mathlib.Core.Path.{subst}
use aioncore.Base.Seqs.{has, has-erase, has-append}
use aioncore.Task.{TaskState, is_running}
use aioncore.Sched.{Kernel}
use aioncore.Sched.Invariant.{Queues, IsLinked}
use aioncore.Sched.Invariant.Dequeue.{dequeued}
use aioncore.Sched.Invariant.Frame.{SameLinks-IsLinked}
use aioncore.Sched.Run.{scheduler_pick_next, switch_to, schedule}
use aioncore.Sched.Run.Pick.{pick_next-Picked}
use aioncore.Sched.Run.Switch.{
  IsScheduled, HasRoom, switched, before-state, switch-IsLinked, switch-state, switch-priority,
  switch-idle, switch-current, switch-flag,
}

-- The idle task stays among the tasks of priority 0 unless it is the next one.
idle_kept :
    (k : Kernel) (qs : Queues) (current next idle : ℕ)
    → IsLinked k qs
    → has idle (qs 0) ≡ true
    → next ≢ idle
    → has idle (switched k qs current next 0) ≡ true
idle_kept k qs current next idle v h ne =
    let p = (k.tasks next).priority in
    let c = (k.tasks current).priority in
    let qs1 = dequeued k qs next in
    let kept : has idle (qs1 0) ≡ true =
      ground (arith, has-erase next idle (qs 0) (v.distinct 0)) in
    ground (arith, has-append idle (qs1 0) (current ∷ []))

-- A RUNNING task goes to the back of its queue.
current_kept :
    (k : Kernel) (qs : Queues) (current next idle : ℕ)
    → current ≡ idle
    → (k.tasks idle).state ≡ TaskState.running
    → (k.tasks idle).priority ≡ 0
    → has idle (switched k qs current next 0) ≡ true
current_kept k qs current next idle e r z =
    let qs1 = dequeued k qs next in ground (arith, has-append current (qs1 0) (current ∷ []))

-- The sequences after `schedule`.
abbrev pub rescheduled : Kernel → Queues → Queues
rescheduled k qs =
    let current = k.sched.current_task in
    let next = scheduler_pick_next k in if current == next then qs else switched k qs current next

-- What a call of `schedule` in state `k` with sequences `qs` leaves and returns.
pub record Scheduled (k : Kernel) (qs : Queues) (out : Kernel × Option (ℕ × ℕ)) : Type 0 where
  pub kept : IsScheduled out.0 (rescheduled k qs)
  pub runs : out.0.sched.current_task ≡ scheduler_pick_next k
  pub is_running : (out.0.tasks (scheduler_pick_next k)).state ≡ TaskState.running
  pub flag : out.0.sched.need_resched ≡ false
  pub answer : out.1 ≡ (
      if k.sched.current_task == scheduler_pick_next k
      then none
      else some (k.sched.current_task, scheduler_pick_next k))

-- The next task, if it is not the current one, waits in the queue of its priority.
next_waits :
    {k : Kernel} {qs : Queues}
    → IsScheduled k qs
    → scheduler_pick_next k ≢ k.sched.current_task
    → has (scheduler_pick_next k) (qs (k.tasks (scheduler_pick_next k)).priority) ≡ true
next_waits {k} {qs} s ne =
    let n = scheduler_pick_next k in
    elim (pick_next-Picked s.linked) [
      | inl (e, none_) ↦ elim s.idle_here [
        | inl h ↦ absurd (false≢true (rw (none_ 0 (omega arith)) at h))
        | inr (c, r) ↦ absurd (ne (e ∙ sym c))
      ]
      | inr (p, lt, f, h, above) ↦ rw (s.linked.priorities p n h) h
    ]

-- If the next task is the current one, that is the idle task, which runs.
same_is_idle :
    {k : Kernel} {qs : Queues}
    → IsScheduled k qs
    → scheduler_pick_next k ≡ k.sched.current_task
    → (k.tasks (scheduler_pick_next k)).state ≡ TaskState.running
same_is_idle {k} {qs} s same =
    let n = scheduler_pick_next k in
    elim (pick_next-Picked s.linked) [
      | inl (e, none_) ↦ elim s.idle_here [
        | inl h ↦ absurd (false≢true (rw (none_ 0 (omega arith)) at h))
        | inr (c, r) ↦ rw e r
      ]
      | inr (p, lt, f, h, above) ↦ absurd (s.current_state (rw same at (s.linked.readies p n h)))
    ]

-- A switch keeps the invariant.
switched-IsScheduled :
    {k : Kernel} {qs : Queues} (next : ℕ)
    → IsScheduled k qs
    → HasRoom qs
    → has next (qs (k.tasks next).priority) ≡ true
    → IsScheduled (switch_to k k.sched.current_task next) (switched k qs k.sched.current_task next)
switched-IsScheduled {k} {qs} next s room waits =
    let c = k.sched.current_task in
    let l = switch_to k c next in
    let nz = s.current_nonnull in
    let v = s.linked in
    let ne = s.current_state in
    let now = switch-current c next nz v ne room waits in
    let idle = switch-idle c next nz v ne room waits in
    let state = λ (a : ℕ).
      switch-state c next nz v ne room waits a ∙ before-state c next nz v ne room waits a in
    let runs : (l.tasks next).state ≡ TaskState.running = ground (arith, state next) in
    record {
      linked = switch-IsLinked c next nz v ne room waits;
      current_nonnull = rw now (ground (arith, v.nonnull (k.tasks next).priority));
      current_state = rw now (rw runs (ground arith));
      idle_priority =
          rw idle (switch-priority c next nz v ne room waits k.idle_task ∙ s.idle_priority);
      idle_here = rw now (
          rw idle (elim (Bool-cases (next == k.idle_task)) [
            | inl e ↦
                let e = (==_iff next k.idle_task).0 e in
                inr (e, subst (λ (a : ℕ). (l.tasks a).state ≡ TaskState.running) e runs)
            | inr e ↦ elim s.idle_here [
              | inl h ↦ inl (idle_kept k qs c next k.idle_task v h (ground (arith, e)))
              | inr (h, r) ↦ inl (current_kept k qs c next k.idle_task h r s.idle_priority)
            ]
          ]));
    }

-- Under the scheduler invariant and room in the queues, schedule makes the choice of
-- scheduler_pick_next the current RUNNING task, lowers the reschedule flag, asks for a context
-- switch exactly if the task is another one, and keeps the invariant for the sequences in which
-- the two tasks have moved.
pub schedule-Scheduled :
    {k : Kernel} {qs : Queues} → IsScheduled k qs → HasRoom qs → Scheduled k qs (schedule k)
unfolding schedule
schedule-Scheduled {k} {qs} s room =
    let c = k.sched.current_task in
    let n = scheduler_pick_next k in
    elim (Bool-cases (c == n)) [
      | inl e ↦
          let same : n ≡ c = sym ((==_iff c n).0 e) in
          rw e (record {
            kept = rw e (record {
              linked =
                  SameLinks-IsLinked
                    (record {
                      queues = λ p. refl;
                      bitmap = λ i. refl;
                      nexts = λ a. refl;
                      prevs = λ a. refl;
                      priorities = λ a. refl;
                    })
                    (λ p a h. refl) s.linked;
              current_nonnull = s.current_nonnull;
              current_state = s.current_state;
              idle_priority = s.idle_priority;
              idle_here = s.idle_here;
            });
            runs = sym same;
            is_running = same_is_idle s same;
            flag = refl;
            answer = rw e refl;
          })
      | inr e ↦
          let waits = next_waits s (ground (arith, e)) in
          let nz = s.current_nonnull in
          let v = s.linked in
          let ne = s.current_state in
          rw e (record {
            kept = rw e (switched-IsScheduled n s room waits);
            runs = switch-current c n nz v ne room waits;
            is_running =
                switch-state c n nz v ne room waits n
                ∙ before-state c n nz v ne room waits n
                ∙ ground arith;
            flag = switch-flag c n nz v ne room waits;
            answer = rw e refl;
          })
    ]

-- The states of the tasks after a switch.
pub schedule-state :
    {k : Kernel} {qs : Queues}
    → IsScheduled k qs
    → HasRoom qs
    → scheduler_pick_next k ≢ k.sched.current_task
    → (a : ℕ)
    → ((schedule k).0.tasks a).state ≡ (
        if scheduler_pick_next k == a
        then TaskState.running
        else if (k.sched.current_task == a) && is_running (k.tasks a).state
        then TaskState.ready
        else (k.tasks a).state)
unfolding schedule
schedule-state {k} {qs} s room ne a =
    let c = k.sched.current_task in
    let n = scheduler_pick_next k in
    let e : (c == n) ≡ false = ground (arith, ne) in
    let waits = next_waits s ne in
    rw e (
      switch-state c n s.current_nonnull s.linked s.current_state room waits a
      ∙ before-state c n s.current_nonnull s.linked s.current_state room waits a)

-- Under the scheduler invariant, with room in the queues and the idle task waiting, schedule
-- always switches away from the current task to the choice of scheduler_pick_next, whatever the
-- priorities.
pub schedule_leaves :
    {k : Kernel} {qs : Queues}
    → IsScheduled k qs
    → HasRoom qs
    → has k.idle_task (qs 0) ≡ true
    → (schedule k).1 ≡ some (k.sched.current_task, scheduler_pick_next k)
schedule_leaves {k} {qs} s room waits =
    let n = scheduler_pick_next k in
    let made = schedule-Scheduled s room in
    elim (Bool-cases (k.sched.current_task == n)) [
      | inr e ↦ rw e at made.answer
      | inl e ↦
          let same : n ≡ k.sched.current_task = sym ((==_iff k.sched.current_task n).0 e) in
          elim (pick_next-Picked s.linked) [
            | inl (_, none_) ↦ absurd (false≢true (rw (none_ 0 (omega arith)) at waits))
            | inr (p, _, _, h, _) ↦ absurd (s.current_state (rw same at (s.linked.readies p n h)))
          ]
    ]
