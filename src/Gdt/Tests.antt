-- ===== src/Gdt/Tests.antt =====
-- Descriptors at concrete addresses.
use aioncore.Gdt.{Gdt}

abbrev empty : Gdt
empty = record {
  gdt = λ _. record {
    limit_low = 0;
    base_low = 0;
    base_mid = 0;
    access = 0;
    granularity = 0;
    base_high = 0;
  };
  gdt_ptr = record { limit = 0; base = 0 };
  tss = record { esp0 = 0; ss0 = 0; iomap_base = 0 };
}
