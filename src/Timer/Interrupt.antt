-- ===== src/Timer/Interrupt.antt =====
-- The timer interrupt: `irq_handler` of arch/x86/idt.c with `timer_interrupt_handler` of
-- arch/x86/timer.c registered, down to the scheduler.
use aioncore.Base.{
  ℕ, ◌+◌, ◌%◌, ◌^◌, ◌≡◌, ◌≢◌, refl, false, arith, ◌==◌, if◌then◌else◌, [], ◌∷◌, ◌++◌, Bool-cases,
  inl, inr,
}
use aioncore.Sched.Invariant.{Queues}
use aioncore.Sched.Run.{scheduler_tick, scheduler_need_resched}
use aioncore.Sched.Run.Switch.{IsScheduled, HasRoom}
use aioncore.Sched.Run.Schedule.{rescheduled}
use aioncore.Sched.Run.Events.{tick-IsScheduled}
use aioncore.Idt.{Machine, call_handler, irq_handler}
use aioncore.Idt.Dispatch.{irq_handler-Handled}
use aioncore.Timer.{count_cpu_tick, timer_interrupt_handler}

-- `k` is the kernel after the scheduler's tick.
pub record Ticked (m : Machine) (qs : Queues) (out : Machine) : Type 0 where
  pub counted : (out.percpu.per_cpu 0).ticks ≡ ((m.percpu.per_cpu 0).ticks + 1) % 2 ^ 64
  pub others : (c : ℕ) → c ≢ 0 → out.percpu.per_cpu c ≡ m.percpu.per_cpu c
  pub acknowledged : out.idt.ports ≡ m.idt.ports ++ (0x20, 0x20) ∷ []
  pub scheduled :
      let k = (scheduler_tick m.kernel).0 in
      IsScheduled out.kernel (if scheduler_need_resched k then rescheduled k qs else qs)
  pub flag : scheduler_need_resched out.kernel ≡ false

irq-percpu :
    (run : (handler int_no : ℕ) → Machine → Machine) (int_no : ℕ) (m : Machine)
    → (irq_handler run int_no m).percpu ≡ (call_handler run int_no m).percpu
unfolding irq_handler
irq-percpu run int_no m =
    let h = call_handler run int_no m in
    elim (Bool-cases (scheduler_need_resched h.kernel)) [ inl e ↦ rw e refl | inr e ↦ rw e refl ]

timer_called :
    (run : (handler int_no : ℕ) → Machine → Machine) (m : Machine)
    → m.idt.interrupt_handlers 32 ≢ 0
    → ((n : Machine) → run (m.idt.interrupt_handlers 32) 32 n ≡ timer_interrupt_handler n)
    → call_handler run 32 m ≡ timer_interrupt_handler m
unfolding call_handler
timer_called run m there is_timer =
    let z : (m.idt.interrupt_handlers 32 == 0) ≡ false = ground arith in
    let e = is_timer m in rw z (rw e refl)

-- If the handler registered for interrupt 32 is the timer's, and the scheduler invariant holds
-- with room in every queue, the interrupt adds one tick, modulo 2 ^ 64, to the first CPU and to no
-- other, is acknowledged once to the first controller, and reschedules exactly if the scheduler's
-- tick leaves a request, with the invariant and no request pending at the end.
pub timer-Ticked :
    (run : (handler int_no : ℕ) → Machine → Machine) (m : Machine) (qs : Queues)
    → m.idt.interrupt_handlers 32 ≢ 0
    → ((n : Machine) → run (m.idt.interrupt_handlers 32) 32 n ≡ timer_interrupt_handler n)
    → IsScheduled m.kernel qs
    → HasRoom qs
    → Ticked m qs (irq_handler run 32 m)
unfolding timer_interrupt_handler count_cpu_tick
timer-Ticked run m qs there is_timer s room =
    let e = timer_called run m there is_timer in
    let t = tick-IsScheduled s in
    let k : IsScheduled (call_handler run 32 m).kernel qs = rw e t in
    let h = irq_handler-Handled run 32 m qs k room in
    let ports = h.ports in
    let scheduled = h.scheduled in
    let cpus = irq-percpu run 32 m in
    record {
      counted = rw cpus (rw e refl);
      others = λ c ne. rw cpus (rw e (ground arith));
      acknowledged = rw e at ports;
      scheduled = rw e at scheduled;
      flag = h.flag;
    }
