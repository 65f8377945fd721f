-- ===== src/Hal/Tests.antt =====
-- The hardware layer at concrete states.
use aioncore.Base.{ℕ, ◌≡◌, arith, ◌⊎◌, ◌<◌}
use aioncore.Idt.Samples.{isr, irq}
use aioncore.Idt.Gates.{target_of}
use aioncore.Hal.{Addresses, hal_x86_init}
use aioncore.Hal.Samples.{cpu}
use aioncore.Hal.Ready.{Enters, is_present, hal_x86_init-Enters}

abbrev addresses : Addresses
addresses = record {
  tss = 0x104000;
  gdt = 0x104100;
  idt = 0x105000;
  isr = isr;
  irq = irq;
  syscall_entry_int80 = 0x100600;
}

hal_x86_init-Enters_example :
    ((0x80 < 48) ⊎ (◌≡◌ {A = ℕ} 0x80 0x80)
      → is_present ((hal_x86_init addresses cpu).idt.idt 0x80) ≡ 1)
    × (is_present ((hal_x86_init addresses cpu).idt.idt 0x80) ≡ 1
        → Enters (hal_x86_init addresses cpu) 0x80 (target_of isr irq 0x100600 0x80))
hal_x86_init-Enters_example =
    hal_x86_init-Enters addresses cpu (omega arith) (λ n. omega arith) (λ n. omega arith)
      (omega arith) 0x80 (omega arith)
