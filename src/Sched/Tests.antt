-- ===== src/Sched/Tests.antt =====
-- Runs of the scheduler from its initial state.
use aioncore.Base.{◌≡◌, refl, true, false, arith, ◌==◌, if◌then◌else◌, [], ◌∷◌, update}
use aioncore.Base.Bits.{bit}
use aioncore.Base.Seqs.{has}
use aioncore.Task.{Task, TaskState}
use aioncore.Sched.{
  Kernel, Scheduler, find_highest_priority, find_word, leading_zeros, scheduler_enqueue,
  scheduler_dequeue,
}
use aioncore.Sched.Invariant.{Queues, IsLinked}
use aioncore.Sched.Invariant.Enqueue.{enqueued, idle-enqueue, priority-enqueue, state-enqueue}
use aioncore.Sched.Invariant.Dequeue.{dequeued, dequeue-IsLinked}
use aioncore.Sched.Run.{
  zero_task, zero_scheduler, scheduler_init, scheduler_pick_next, scheduler_tick, schedule,
}
use aioncore.Sched.Run.Pick.{Picked, pick_next-Picked, Ticked, tick-Ticked}
use aioncore.Sched.Run.Switch.{IsScheduled, HasRoom}
use aioncore.Sched.Run.Schedule.{Scheduled, schedule-Scheduled}
use aioncore.Sched.Run.Start.{IsUnlinked, no_queues, init-IsScheduled}
use aioncore.Sched.Run.Events.{Step, Reach, Reach-IsScheduled}

-- The idle task is at 0x200; the READY task at 0x300 has priority 128.
abbrev worker : Task
worker = let t = zero_task in record t { priority = 128 }

abbrev memory : Kernel
memory = record {
  tasks = update (λ _. zero_task) 0x300 worker;
  sched = zero_scheduler;
  idle_task = 0x200;
  esp0 = 0;
}

memory-IsUnlinked : IsUnlinked memory
memory-IsUnlinked = record {
  nexts = λ a. ground arith;
  prevs = λ a. ground arith;
  range = λ a. ground arith;
}

abbrev initial : Kernel
initial = scheduler_init 0x100 0x5000 memory

abbrev idle_only : Queues
idle_only = update no_queues 0 (0x200 ∷ [])

initial-IsScheduled : IsScheduled initial idle_only
initial-IsScheduled =
    init-IsScheduled 0x100 0x5000 memory memory-IsUnlinked (omega arith) (omega arith) (omega arith)
      refl

idle-HasRoom : HasRoom idle_only
idle-HasRoom p = ground arith

worker-ready : (initial.tasks 0x300).state ≡ TaskState.ready
unfolding scheduler_init
worker-ready = state-enqueue _ 0x200 0x300

worker-priority : (initial.tasks 0x300).priority ≡ 128
unfolding scheduler_init
worker-priority = priority-enqueue _ 0x200 0x300

abbrev woken : Kernel
woken = scheduler_enqueue initial 0x300

abbrev both : Queues
both = enqueued initial idle_only 0x300

worker-outside : has 0x300 (idle_only (initial.tasks 0x300).priority) ≡ false
worker-outside = rw worker-priority refl

wake-Step : Step initial idle_only woken both
wake-Step = Step.wake 0x300 (omega arith) worker-ready worker-outside idle-HasRoom

Reach-IsScheduled_example : IsScheduled woken both
Reach-IsScheduled_example = Reach-IsScheduled (Reach.step Reach.stay wake-Step) initial-IsScheduled

woken-IsScheduled : IsScheduled woken both
woken-IsScheduled = Reach-IsScheduled (Reach.step Reach.stay wake-Step) initial-IsScheduled

both-HasRoom : HasRoom both
both-HasRoom p = ground (arith, worker-priority)

worker-waits : has 0x300 (both (woken.tasks 0x300).priority) ≡ true
worker-waits = rw (priority-enqueue initial 0x300 0x300) (ground (arith, worker-priority))

dequeue-IsLinked_example : IsLinked (scheduler_dequeue woken 0x300) (dequeued woken both 0x300)
dequeue-IsLinked_example = dequeue-IsLinked 0x300 woken-IsScheduled.linked worker-waits

schedule-Scheduled_example : Scheduled woken both (schedule woken)
schedule-Scheduled_example = schedule-Scheduled woken-IsScheduled both-HasRoom

pick_next-Picked_example : Picked both woken.idle_task (scheduler_pick_next woken)
pick_next-Picked_example = pick_next-Picked woken-IsScheduled.linked

tick-Ticked_example : Ticked woken both (scheduler_tick woken)
tick-Ticked_example = tick-Ticked woken-IsScheduled.linked

-- The bits 5 and 70 are set.
abbrev two_bits : Scheduler
two_bits =
    let z = zero_scheduler in
    record z { priority_bitmap = λ i. if i == 0 then 32 else if i == 2 then 64 else 0 }

find-two_bits : find_highest_priority two_bits ≡ 70
unfolding find_highest_priority find_word leading_zeros bit
find-two_bits = refl

initial-idle : initial.idle_task ≡ 0x200
unfolding scheduler_init
initial-idle = idle-enqueue _ 0x200
