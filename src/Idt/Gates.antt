-- ===== src/Idt/Gates.antt =====
-- What the processor reads from the gates that `idt_init` of arch/x86/idt.c sets.
use aioncore.Base.{
  ℕ, zero, suc, ◌+◌, ◌-◌, ◌*◌, ◌/◌, ◌^◌, ◌≤◌, ◌<◌, ◌≡◌, ◌≢◌, refl, true, arith, ◌==◌, ltb,
  if◌then◌else◌, update, ◌∙◌, Bool-cases, ==_iff, ◌⊎◌, inl, inr,
}
use aioncore.Base.Bits.{bit_and-mask}
use aioncore.Idt.{
  Idt, IdtEntry, idt_entries, idt_set_gate, pic_remap, clear_gates, install_gates, idt_init,
}

-- the address that an interrupt goes to
abbrev pub gate_target : IdtEntry → ℕ
gate_target e = e.offset_low + e.offset_high * 2 ^ 16

-- A gate to `handler` with the given selector and flags.
pub record IsGate (e : IdtEntry) (handler selector flags : ℕ) : Type 0 where
  pub target : gate_target e ≡ handler
  pub segment : e.selector ≡ selector
  pub attributes : e.type_attr ≡ flags

set-IsGate :
    (num handler selector flags : ℕ) (s : Idt)
    → handler < 2 ^ 32
    → IsGate ((idt_set_gate num handler selector flags s).idt num) handler selector flags
unfolding idt_set_gate
set-IsGate num handler selector flags s lt =
    let here : (num == num) ≡ true = ground arith in
    let lo = bit_and-mask 16 handler in
    let hi = bit_and-mask 16 (handler / 2 ^ 16) in
    rw here (record { target = omega (arith, lo, hi); segment = refl; attributes = refl })

set_outside :
    (num handler selector flags : ℕ) (s : Idt) (v : ℕ)
    → v ≢ num
    → (idt_set_gate num handler selector flags s).idt v ≡ s.idt v
unfolding idt_set_gate
set_outside num handler selector flags s v ne = ground arith

clear-IsGate : (n : ℕ) (s : Idt) (v : ℕ) → v < n → IsGate ((clear_gates n s).idt v) 0 0 0
unfolding clear_gates
clear-IsGate zero s v lt = elim lt [ ]
clear-IsGate (suc n) s v lt =
    let t = clear_gates n s in
    let u = record t { interrupt_handlers = update t.interrupt_handlers n 0 } in
    elim (Bool-cases (v == n)) [
      | inl e ↦ let e : v ≡ n = (==_iff v n).0 e in rw e (set-IsGate n 0 0 0 u (omega arith))
      | inr e ↦
          rw (set_outside n 0 0 0 u v (ground (arith, e))) (clear-IsGate n s v (ground (arith, e)))
    ]

clear_gates-handlers :
    (n : ℕ) (s : Idt) (v : ℕ) → v < n → (clear_gates n s).interrupt_handlers v ≡ 0
unfolding clear_gates idt_set_gate
clear_gates-handlers zero s v lt = elim lt [ ]
clear_gates-handlers (suc n) s v lt = ground (arith, clear_gates-handlers n s v)

module _ (first : ℕ) (stub : ℕ → ℕ) where
  install-IsGate :
      (n : ℕ) (s : Idt) (k : ℕ)
      → k < n
      → stub k < 2 ^ 32
      → IsGate ((install_gates n first stub s).idt (first + k)) (stub k) 0x08 0x8E
  unfolding install_gates
  install-IsGate zero s k lt small = elim lt [ ]
  install-IsGate (suc n) s k lt small = elim (Bool-cases (k == n)) [
    | inl e ↦
        let e : k ≡ n = (==_iff k n).0 e in
        rw e
          (set-IsGate (first + n) (stub n) 0x08 0x8E (install_gates n first stub s) (rw e at small))
    | inr e ↦
        rw
          (set_outside (first + n) (stub n) 0x08 0x8E (install_gates n first stub s) (first + k)
            (ground (arith, e)))
          (install-IsGate n s k (ground (arith, e)) small)
  ]

  install_gates-other :
      (n : ℕ) (s : Idt) (v : ℕ)
      → (v < first) ⊎ (first + n ≤ v)
      → (install_gates n first stub s).idt v ≡ s.idt v
  unfolding install_gates
  install_gates-other zero s v h = refl
  install_gates-other (suc n) s v h =
      set_outside (first + n) (stub n) 0x08 0x8E (install_gates n first stub s) v (ground arith)
      ∙ install_gates-other n s v (ground arith)

  install_gates-handlers :
      (n : ℕ) (s : Idt) → (install_gates n first stub s).interrupt_handlers ≡ s.interrupt_handlers
  unfolding install_gates idt_set_gate
  install_gates-handlers zero s = refl
  install_gates-handlers (suc n) s = install_gates-handlers n s

-- The stub, and the flags, that a vector should have: exceptions and interrupts are closed to user
-- mode, the system call is open to it, and the others are not present.
abbrev pub target_of : (isr irq : ℕ → ℕ) → (syscall_entry_int80 v : ℕ) → ℕ
target_of isr irq syscall_entry_int80 v =
    if v == 0x80
    then syscall_entry_int80
    else if ltb v 32
    then isr v
    else if ltb v 48
    then irq (v - 32)
    else 0

abbrev pub selector_of : ℕ → ℕ
selector_of v = if (v == 0x80) then 0x08 else if ltb v 48 then 0x08 else 0

abbrev pub flags_of : ℕ → ℕ
flags_of v = if (v == 0x80) then 0xEE else if ltb v 48 then 0x8E else 0

module _ (idt_addr : ℕ) (isr irq : ℕ → ℕ) (syscall_entry_int80 : ℕ) (s : Idt)
    (isr_small : (n : ℕ) → isr n < 2 ^ 32) (irq_small : (n : ℕ) → irq n < 2 ^ 32)
    (entry_small : syscall_entry_int80 < 2 ^ 32) where
  abbrev cleared : Idt
  cleared = clear_gates 256 (record s { idtr = record { limit = 256 * 8 - 1; base = idt_addr } })

  abbrev exceptions : Idt
  exceptions = install_gates 32 0 isr (pic_remap cleared)

  abbrev interrupts : Idt
  interrupts = install_gates 16 32 irq exceptions

  remap-idt : (t : Idt) → (pic_remap t).idt ≡ t.idt
  unfolding pic_remap
  remap-idt t = refl

  -- The gates before the one of the system call.
  below :
      (v : ℕ)
      → v < 256
      → IsGate
          (interrupts.idt v)
          (if ltb v 32 then isr v else if ltb v 48 then irq (v - 32) else 0)
          (if ltb v 48 then 0x08 else 0)
          (if ltb v 48 then 0x8E else 0)
  below v lt = elim (Bool-cases (ltb v 32)) [
    | inl e ↦
        let more : ltb v 48 ≡ true = ground arith in
        let z : 0 + v ≡ v = omega arith in
        rw (install_gates-other 32 irq 16 exceptions v (inl (ground arith))) (
          rw e (
            rw more (
              rw z at
                (install-IsGate 0 isr 32 (pic_remap cleared) v (ground arith) (isr_small v)))))
    | inr e ↦ elim (Bool-cases (ltb v 48)) [
      | inl f ↦
          let z : 32 + (v - 32) ≡ v = ground arith in
          rw e (
            rw f (
              rw z at
                (install-IsGate 32 irq 16 exceptions (v - 32) (ground arith) (irq_small (v - 32)))))
      | inr f ↦ rw e (
          rw f (
            rw (install_gates-other 32 irq 16 exceptions v (inr (ground arith))) (
              rw (install_gates-other 0 isr 32 (pic_remap cleared) v (inr (ground arith)))
                (rw (remap-idt cleared) (clear-IsGate 256 _ v lt)))))
    ]
  ]

  handlers :
      (v : ℕ) → v < 256 → (idt_init idt_addr isr irq syscall_entry_int80 s).interrupt_handlers v ≡ 0
  unfolding idt_init idt_set_gate pic_remap
  handlers v lt =
      rw (install_gates-handlers 32 irq 16 exceptions)
        (rw (install_gates-handlers 0 isr 32 (pic_remap cleared)) (clear_gates-handlers 256 _ v lt))

  -- After idt_init, with stubs at 32-bit addresses, each of the 256 gates leads to its stub with
  -- its flags, only the system call gate being open to user mode and the gates without a stub not
  -- present, and no handler is registered.
  pub idt_init-IsGate :
      (v : ℕ)
      → v < idt_entries
      → let t = idt_init idt_addr isr irq syscall_entry_int80 s in
        IsGate (t.idt v) (target_of isr irq syscall_entry_int80 v) (selector_of v) (flags_of v)
        × (t.interrupt_handlers v ≡ 0)
  unfolding idt_init
  idt_init-IsGate v lt = (
    elim (Bool-cases (v == 0x80)) [
      | inl e ↦
          let f : v ≡ 0x80 = (==_iff v 0x80).0 e in
          rw f (set-IsGate 0x80 syscall_entry_int80 0x08 0xEE interrupts entry_small)
      | inr e ↦
          rw (set_outside 0x80 syscall_entry_int80 0x08 0xEE interrupts v (ground (arith, e)))
            (rw e (below v lt))
    ],
    handlers v lt,
  )
