-- ===== src/Idt/Dispatch.antt =====
-- What `irq_handler` of arch/x86/idt.c does after the registered handler: it acknowledges the
-- interrupt and reschedules on request.
use mathlib.Core.List.{append_assoc}
use aioncore.Base.{
  ℕ, ◌≡◌, refl, false, leb, if◌then◌else◌, List, [], ◌∷◌, ◌++◌, Bool-cases, inl, inr,
}
use aioncore.Sched.Invariant.{Queues}
use aioncore.Sched.Run.{scheduler_need_resched, schedule}
use aioncore.Sched.Run.Switch.{IsScheduled, HasRoom}
use aioncore.Sched.Run.Schedule.{rescheduled, schedule-Scheduled}
use aioncore.Idt.{Idt, Machine, call_handler, send_eoi, irq_handler}

-- The acknowledgement: to the second controller first, for the interrupts that it serves.
abbrev pub acknowledged : ℕ → List (ℕ × ℕ)
acknowledged int_no = if leb 40 int_no then (0xA0, 0x20) ∷ (0x20, 0x20) ∷ [] else (0x20, 0x20) ∷ []

send_eoi-ports : (int_no : ℕ) (s : Idt) → (send_eoi int_no s).ports ≡ s.ports ++ acknowledged int_no
unfolding send_eoi
send_eoi-ports int_no s = elim (Bool-cases (leb 40 int_no)) [
  | inl e ↦ rw e (append_assoc s.ports ((0xA0, 0x20) ∷ []) ((0x20, 0x20) ∷ []))
  | inr e ↦ rw e refl
]

-- `m` is the state that the registered handler leaves, `out` the state after the interrupt.
pub record Handled (int_no : ℕ) (m : Machine) (qs : Queues) (out : Machine) : Type 0 where
  pub ports : out.idt.ports ≡ m.idt.ports ++ acknowledged int_no
  pub scheduled :
      IsScheduled out.kernel
        (if scheduler_need_resched m.kernel then rescheduled m.kernel qs else qs)
  pub flag : scheduler_need_resched out.kernel ≡ false

-- If the scheduler invariant holds when the registered handler returns, with room in every queue,
-- irq_handler acknowledges the interrupt once to each controller concerned, reschedules exactly if
-- that was asked for, and leaves the invariant with no request pending.
pub irq_handler-Handled :
    (run : (handler int_no : ℕ) → Machine → Machine) (int_no : ℕ) (m : Machine) (qs : Queues)
    → IsScheduled (call_handler run int_no m).kernel qs
    → HasRoom qs
    → Handled int_no (call_handler run int_no m) qs (irq_handler run int_no m)
unfolding irq_handler scheduler_need_resched schedule call_handler
irq_handler-Handled run int_no m qs s room =
    let h = call_handler run int_no m in
    let sent = send_eoi-ports int_no h.idt in
    elim (Bool-cases h.kernel.sched.need_resched) [
      | inl e ↦
          let made = schedule-Scheduled s room in
          rw e (record { ports = sent; scheduled = rw e made.kept; flag = made.flag })
      | inr e ↦ rw e (record { ports = sent; scheduled = rw e s; flag = e })
    ]
