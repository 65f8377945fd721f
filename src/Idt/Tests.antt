-- ===== src/Idt/Tests.antt =====
-- Gates and interrupts at concrete states.
use aioncore.Base.{ℕ, ◌≡◌, refl}
use aioncore.Idt.{Machine, call_handler, irq_handler}
use aioncore.Idt.Dispatch.{Handled, irq_handler-Handled}
use aioncore.Idt.Samples.{idle_only, machine, initial-IsScheduled, idle-HasRoom}

abbrev run : ℕ → ℕ → Machine → Machine
run handler int_no m = m

nothing_registered : call_handler run 41 machine ≡ machine
unfolding call_handler
nothing_registered = refl

irq_handler-Handled_example :
    Handled 41 (call_handler run 41 machine) idle_only (irq_handler run 41 machine)
irq_handler-Handled_example =
    irq_handler-Handled run 41 machine idle_only (rw nothing_registered initial-IsScheduled)
      idle-HasRoom
