-- ===== src/Hal/Ready.antt =====
-- `hal_x86_init` of arch/x86/hal.c: the segment and the interrupt descriptors together.
use aioncore.Base.{ℕ, ◌/◌, ◌%◌, ◌^◌, ◌<◌, ◌≡◌, refl, true, arith, ◌==◌, if◌then◌else◌, ◌⊎◌}
use aioncore.Gdt.Decode.{IsFlat, IsLoaded, gdt_init-IsLoaded}
use aioncore.Idt.{IdtEntry}
use aioncore.Idt.Gates.{IsGate, gate_target, target_of, selector_of, flags_of, idt_init-IsGate}
use aioncore.Hal.{Cpu, Addresses, cpu_init, hal_x86_init}

-- a gate that is not empty: the present bit, the level that may call it, and the interrupt kind
abbrev pub is_present : IdtEntry → ℕ
is_present e = e.type_attr / 128

abbrev pub call_level : IdtEntry → ℕ
call_level e = e.type_attr / 32 % 4

-- An interrupt through gate `v` goes to the stub `target`, in a flat code segment of the kernel's level,
-- and only gate 0x80 may be called from user mode.
pub record Enters (c : Cpu) (v target : ℕ) : Type 0 where
  pub goes : gate_target (c.idt.idt v) ≡ target
  pub segment : IsFlat c.gdt (c.idt.idt v).selector true
  pub kernel : (c.idt.idt v).selector % 4 ≡ 0
  pub level : call_level (c.idt.idt v) ≡ (if v == 0x80 then 3 else 0)

enters_lem :
    (c : Cpu) (v target tss gdt flags : ℕ)
    → IsLoaded c.gdt tss gdt
    → IsGate (c.idt.idt v) target 0x08 flags
    → flags / 32 % 4 ≡ (if v == 0x80 then 3 else 0)
    → Enters c v target
enters_lem c v target tss gdt flags l g e =
    let s = g.segment in
    let a = g.attributes in
    record { goes = g.target; segment = rw s l.kernel_code; kernel = rw s refl; level = rw a e }

-- After hal_x86_init, with the task state segment and the stubs at 32-bit addresses, an interrupt
-- through any present gate goes to its stub in the flat code segment at level 0 that the gate's
-- selector names in the descriptor table, the level that may call it is 3 for the system call and
-- 0 for the others, and every number below 48 and 0x80 have a present gate.
pub hal_x86_init-Enters :
    (a : Addresses) (c : Cpu)
    → a.tss < 2 ^ 32
    → ((n : ℕ) → a.isr n < 2 ^ 32)
    → ((n : ℕ) → a.irq n < 2 ^ 32)
    → a.syscall_entry_int80 < 2 ^ 32
    → (v : ℕ) → v < 256
    → let out = hal_x86_init a c in
      ((v < 48) ⊎ (v ≡ 0x80) → is_present (out.idt.idt v) ≡ 1)
      × (is_present (out.idt.idt v) ≡ 1
          → Enters out v (target_of a.isr a.irq a.syscall_entry_int80 v))
unfolding hal_x86_init cpu_init
hal_x86_init-Enters a c tss_small isr_small irq_small entry_small v lt =
    let loaded = gdt_init-IsLoaded a.tss a.gdt c.gdt tss_small in
    let (gate, _) =
      idt_init-IsGate a.idt a.isr a.irq a.syscall_entry_int80 c.idt isr_small irq_small entry_small
        v lt in
    let flags = gate.attributes in
    let out = cpu_init a c in
    (
      λ h. ground arith,
      λ p.
          let sel : selector_of v ≡ 0x08 = ground arith in
          enters_lem out v (target_of a.isr a.irq a.syscall_entry_int80 v) a.tss a.gdt (flags_of v)
            loaded (rw sel at gate) (ground arith),
    )
