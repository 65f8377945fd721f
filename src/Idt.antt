-- ===== src/Idt.antt =====
-- arch/x86/idt.c: the interrupt gates, the interrupt controller and the dispatch of interrupts. The
-- addresses of the assembly stubs and of the table are arguments; a port write is appended to a
-- log. What a registered handler does is a parameter.
pub mod Gates
pub mod Dispatch
pub mod Samples
mod Tests
use Prim.Native.Nat.{bit_and}
use aioncore.Base.{
  ℕ, zero, suc, ◌+◌, ◌-◌, ◌*◌, ◌/◌, ◌^◌, Bool, true, false, not, ◌==◌, leb, if◌then◌else◌, update,
  List, [], ◌∷◌, ◌++◌,
}
use aioncore.Percpu.{PerCpu}
use aioncore.Sched.{Kernel}
use aioncore.Sched.Run.{scheduler_need_resched, schedule}

abbrev pub idt_entries : ℕ
idt_entries = 256

pub record IdtEntry : Type 0 where
  pub offset_low : ℕ
  pub selector : ℕ
  pub zero_byte : ℕ
  pub type_attr : ℕ
  pub offset_high : ℕ

pub record IdtPtr : Type 0 where
  pub limit : ℕ
  pub base : ℕ

-- `idt`, `idtr`, `interrupt_handlers`, and the port writes so far: port and value.
pub record Idt : Type 0 where
  pub idt : ℕ → IdtEntry
  pub idtr : IdtPtr
  pub interrupt_handlers : ℕ → ℕ
  pub ports : List (ℕ × ℕ)

unfoldable pub idt_set_gate : (num handler selector flags : ℕ) → Idt → Idt
idt_set_gate num handler selector flags s = record s {
  idt = update s.idt num (record {
    offset_low = bit_and handler 0xFFFF;
    offset_high = bit_and (handler / 2 ^ 16) 0xFFFF;
    selector = selector;
    zero_byte = 0;
    type_attr = flags;
  });
}

abbrev pub io_outb : (port value : ℕ) → Idt → Idt
io_outb port value s = record s { ports = s.ports ++ ((port, value) ∷ []) }

unfoldable pub pic_remap : Idt → Idt
pic_remap s =
    let s = io_outb 0xA0 0x11 (io_outb 0x20 0x11 s) in
    let s = io_outb 0xA1 0x28 (io_outb 0x21 0x20 s) in
    let s = io_outb 0xA1 0x02 (io_outb 0x21 0x04 s) in
    let s = io_outb 0xA1 0x01 (io_outb 0x21 0x01 s) in io_outb 0xA1 0xFF (io_outb 0x21 0xFF s)

-- The first `n` rounds of the loop that clears the table.
unfoldable pub clear_gates : (n : ℕ) → Idt → Idt
clear_gates zero s = s
clear_gates (suc n) s =
    let s = clear_gates n s in
    idt_set_gate n 0 0 0 (record s { interrupt_handlers = update s.interrupt_handlers n 0 })

-- The first `n` of the lines that install `stub 0`, `stub 1`, ... from the gate `first` on.
unfoldable pub install_gates : (n first : ℕ) → (stub : ℕ → ℕ) → Idt → Idt
install_gates zero first stub s = s
install_gates (suc n) first stub s =
    idt_set_gate (first + n) (stub n) 0x08 0x8E (install_gates n first stub s)

unfoldable pub idt_init : (idt_addr : ℕ) → (isr irq : ℕ → ℕ) → (syscall_entry_int80 : ℕ) → Idt → Idt
idt_init idt_addr isr irq syscall_entry_int80 s =
    let s = record s { idtr = record { limit = idt_entries * 8 - 1; base = idt_addr } } in
    let s = pic_remap (clear_gates idt_entries s) in
    let s = install_gates 16 32 irq (install_gates 32 0 isr s) in
    idt_set_gate 0x80 syscall_entry_int80 0x08 0xEE s

unfoldable pub idt_register_handler : (num handler : ℕ) → Idt → Idt
idt_register_handler num handler s = record s {
  interrupt_handlers = update s.interrupt_handlers num handler;
}

unfoldable pub idt_unregister_handler : (num : ℕ) → Idt → Idt
idt_unregister_handler num s = record s { interrupt_handlers = update s.interrupt_handlers num 0 }

-- What an interrupt works on.
pub record Machine : Type 0 where
  pub idt : Idt
  pub kernel : Kernel
  pub percpu : PerCpu

-- "Send EOI (End Of Interrupt) to PIC"
unfoldable pub send_eoi : (int_no : ℕ) → Idt → Idt
send_eoi int_no s = io_outb 0x20 0x20 (if leb 40 int_no then io_outb 0xA0 0x20 s else s)

module _ (run : (handler int_no : ℕ) → Machine → Machine) where
  -- `true` if the exception was handled, `false` for the call of `kernel_panic`.
  unfoldable pub isr_handler : (int_no : ℕ) → Machine → Machine × Bool
  isr_handler int_no m =
      let handler = m.idt.interrupt_handlers int_no in
      if not (handler == 0) then (run handler int_no m, true) else (m, false)

  -- "Call registered handler if exists"
  unfoldable pub call_handler : (int_no : ℕ) → Machine → Machine
  call_handler int_no m =
      let handler = m.idt.interrupt_handlers int_no in
      if not (handler == 0) then run handler int_no m else m

  unfoldable pub irq_handler : (int_no : ℕ) → Machine → Machine
  irq_handler int_no m =
      let m = call_handler int_no m in
      let m = record m { idt = send_eoi int_no m.idt } in
      if scheduler_need_resched m.kernel then record m { kernel = (schedule m.kernel).0 } else m
