-- ===== src/Hal/Samples.antt =====
-- A state on which the tests of the hardware layer and the timer run.
use aioncore.Gdt.{Gdt}
use aioncore.Idt.Samples.{empty}
use aioncore.Hal.{Cpu}

abbrev pub no_segments : Gdt
no_segments = record {
  gdt = λ _. record {
    limit_low = 0;
    base_low = 0;
    base_mid = 0;
    access = 0;
    granularity = 0;
    base_high = 0;
  };
  gdt_ptr = record { limit = 0; base = 0 };
  tss = record { esp0 = 0; ss0 = 0; iomap_base = 0 };
}

abbrev pub cpu : Cpu
cpu = record { gdt = no_segments; idt = empty; eflags = 2; reads = 0; clocks = 0 }
