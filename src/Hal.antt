-- ===== src/Hal.antt =====
-- arch/x86/hal.c and the inline functions of include/kernel/idt.h: the operations of the hardware
-- layer. What a reading of a port or of the time stamp counter gives is a parameter. The members
-- of the table of operations are called directly; halting and flushing have no part in the model.
pub mod Ready
pub mod Masks
pub mod Samples
mod Tests
use Prim.Native.Nat.{bit_or}
use aioncore.Base.{
  ℕ, zero, suc, ◌+◌, ◌-◌, ◌^◌, Bool, true, false, ◌==◌, ltb, if◌then◌else◌, List, [], ◌∷◌,
}
use aioncore.Base.Bits.{set_bit, clear_bit}
use aioncore.Gdt.{Gdt, gdt_init}
use aioncore.Idt.{Idt, io_outb, idt_init, idt_register_handler, idt_unregister_handler}

abbrev pub hal_cpu_feat_fpu : ℕ
hal_cpu_feat_fpu = 2 ^ 0

-- The tables, the flags register, and how often a port and the time stamp counter have been read.
-- The writes to ports stand in `idt`.
pub record Cpu : Type 0 where
  pub gdt : Gdt
  pub idt : Idt
  pub eflags : ℕ
  pub reads : ℕ
  pub clocks : ℕ

-- Reading number `n` of a port, and of the time stamp counter.
pub record Hardware : Type 0 where
  pub inb : (n port : ℕ) → ℕ
  pub rdtsc : (n : ℕ) → ℕ

unfoldable pub detect_cpu_features : ℕ
detect_cpu_features = let features : ℕ = 0 in bit_or features hal_cpu_feat_fpu

-- The addresses of the tables and of the entries of arch/x86, which the linker gives.
pub record Addresses : Type 0 where
  pub tss : ℕ
  pub gdt : ℕ
  pub idt : ℕ
  pub isr : ℕ → ℕ
  pub irq : ℕ → ℕ
  pub syscall_entry_int80 : ℕ

unfoldable pub cpu_init : Addresses → Cpu → Cpu
cpu_init a c =
    let c = record c { gdt = gdt_init a.tss a.gdt c.gdt } in
    record c { idt = idt_init a.idt a.isr a.irq a.syscall_entry_int80 c.idt }

unfoldable pub hal_x86_init : Addresses → Cpu → Cpu
hal_x86_init a c = cpu_init a c

abbrev pub cpu_id : ℕ
cpu_id = 0

-- `sti`: the interrupt flag is bit 9.
unfoldable pub irq_enable : Cpu → Cpu
irq_enable c = record c { eflags = set_bit c.eflags 9 }

-- The flags, and then `cli`.
unfoldable pub irq_disable : Cpu → Cpu × ℕ
irq_disable c = (record c { eflags = clear_bit 32 c.eflags 9 }, c.eflags)

unfoldable pub irq_restore : (state : ℕ) → Cpu → Cpu
irq_restore state c = record c { eflags = state }

-- The new state, and the result 0.
unfoldable pub irq_register : (vector handler : ℕ) → Cpu → Cpu × ℕ
irq_register vector handler c = (record c { idt = idt_register_handler vector handler c.idt }, 0)

unfoldable pub irq_unregister : (vector : ℕ) → Cpu → Cpu
irq_unregister vector c = record c { idt = idt_unregister_handler vector c.idt }

-- "assume identity mapping"
unfoldable pub mmu_map : (phys virt flags : ℕ) → ℕ
mmu_map phys virt flags = virt

unfoldable pub mmio_map : (phys size : ℕ) → ℕ
mmio_map phys size = phys

unfoldable pub smp_num_cpus : ℕ
smp_num_cpus = 1

unfoldable pub io_inb : Hardware → (port : ℕ) → Cpu → Cpu × ℕ
io_inb hw port c = (record c { reads = c.reads + 1 }, hw.inb c.reads port)

unfoldable pub outb : (port value : ℕ) → Cpu → Cpu
outb port value c = record c { idt = io_outb port value c.idt }

unfoldable pub timer_read_tsc : Hardware → Cpu → Cpu × ℕ
timer_read_tsc hw c = (record c { clocks = c.clocks + 1 }, hw.rdtsc c.clocks)

-- "Use keyboard controller to reboot", up to the interrupt that follows.
unfoldable pub system_reboot : Cpu → Cpu
system_reboot c = outb 0x64 0xFE c

-- the port of the mask of an interrupt line, and the line's bit there
unfoldable pub mask_port : (irq : ℕ) → ℕ
mask_port irq = if ltb irq 8 then 0x21 else 0xA1

unfoldable pub mask_line : (irq : ℕ) → ℕ
mask_line irq = if ltb irq 8 then irq else irq - 8

unfoldable pub irq_clear_mask : Hardware → (irq : ℕ) → Cpu → Cpu
irq_clear_mask hw irq c =
    let port = mask_port irq in
    let got = io_inb hw port c in outb port (clear_bit 8 got.1 (mask_line irq)) got.0

unfoldable pub irq_set_mask : Hardware → (irq : ℕ) → Cpu → Cpu
irq_set_mask hw irq c =
    let port = mask_port irq in
    let got = io_inb hw port c in outb port (set_bit got.1 (mask_line irq)) got.0
