-- ===== src/Timer/Divisor.antt =====
-- What `pit_init` of arch/x86/timer.c writes to the interval timer.
use Prim.Native.Nat.{bit_and}
use mathlib.Core.List.{append_assoc}
use native.Mathlib.Nat.{div-add-mod, mod-lt, mul-le-mul_right, div-eq_of_lt}
use aioncore.Base.{
  ℕ, ◌+◌, ◌*◌, ◌/◌, ◌%◌, ◌^◌, ◌≤◌, ◌<◌, ◌≡◌, refl, arith, ◌==◌, ◌++◌, List, [], ◌∷◌, ap, Bool-cases,
  inl, inr, ◌⊎◌,
}
use aioncore.Base.Bits.{bit_and-mask}
use aioncore.Hal.{Cpu, outb}
use aioncore.Timer.{finished, divide_error, clamp_divisor, write_divisor, pit_init}

-- the state with other port writes
abbrev pub with_ports : Cpu → List (ℕ × ℕ) → Cpu
with_ports c ports = let i = c.idt in record c { idt = record i { ports = ports } }

-- The command for a rate generator goes to the timer, then the divisor, low byte first; nothing else changes.
pub record Programmed (frequency_hz divisor : ℕ) (c out : Cpu) : Type 0 where
  pub low : ℕ
  pub high : ℕ
  pub bytes : low + 256 * high ≡ divisor
  pub low_small : low < 256
  pub written : out ≡ with_ports c (c.idt.ports ++ (0x43, 0x34) ∷ (0x40, low) ∷ (0x40, high) ∷ [])
  pub least : 1 ≤ divisor
  pub most : divisor ≤ 65535
  pub slow : frequency_hz < 19 → divisor ≡ 65535
  pub fast : 1193182 < frequency_hz → divisor ≡ 1
  pub rate :
      19 ≤ frequency_hz
      → frequency_hz ≤ 1193182
      → (frequency_hz * divisor ≤ 1193182) × (1193182 < frequency_hz * divisor + frequency_hz)

-- the divisor that the code computes, before its limits
abbrev exact : ℕ → ℕ
exact f = 1193182 / f

-- what division says of it
quotient : (f : ℕ) → 0 < f → (f * exact f ≤ 1193182) × (1193182 < f * exact f + f)
quotient f pos = let e = div-add-mod 1193182 f in let lt = mod-lt 1193182 pos in omega arith

exact-slow : (f : ℕ) → 0 < f → f < 19 → 65535 < exact f
exact-slow f pos lt =
    let (_, above) = quotient f pos in
    let s : f * exact f ≤ 18 * exact f = mul-le-mul_right (exact f) (omega arith) in omega arith

exact-fast : (f : ℕ) → 1193182 < f → exact f ≡ 0
exact-fast f lt = div-eq_of_lt lt

exact-rate : (f : ℕ) → 19 ≤ f → f ≤ 1193182 → (1 ≤ exact f) × (exact f ≤ 65535)
exact-rate f lo hi =
    let (below, above) = quotient f (omega arith) in
    let s : 19 * exact f ≤ f * exact f = mul-le-mul_right (exact f) lo in
    let p : 1 ≤ exact f = elim (Bool-cases (exact f == 0)) [
      | inl e ↦
          let z : exact f ≡ 0 = ground arith in
          let e : f * exact f ≡ f * 0 = ap (λ (x : ℕ). f * x) z in absurd (omega arith)
      | inr e ↦ ground arith
    ] in
    (p, omega arith)

-- the limits leave alone what the timer can take
clamped :
    (d : ℕ)
    → (1 ≤ clamp_divisor d)
      × (clamp_divisor d ≤ 65535)
      × (65535 < d → clamp_divisor d ≡ 65535)
      × (d ≡ 0 → clamp_divisor d ≡ 1)
      × (1 ≤ d → d ≤ 65535 → clamp_divisor d ≡ d)
unfolding clamp_divisor
clamped d = ground arith

write-Programmed :
    (f : ℕ) (c : Cpu)
    → 0 < f
    → Programmed f (clamp_divisor (exact f)) c (write_divisor (clamp_divisor (exact f)) c)
unfolding write_divisor outb
write-Programmed f c pos =
    let d = clamp_divisor (exact f) in
    let (least, most, above, zero_, same) = clamped (exact f) in
    let lo : bit_and d 0xFF ≡ d % 2 ^ 8 = bit_and-mask 8 d in
    let hi : bit_and (d / 2 ^ 8) 0xFF ≡ d / 2 ^ 8 % 2 ^ 8 = bit_and-mask 8 (d / 2 ^ 8) in
    record {
      low = bit_and d 0xFF;
      high = bit_and (d / 2 ^ 8) 0xFF;
      bytes = rw lo (rw hi (omega arith));
      low_small = rw lo (omega arith);
      written = simp append_assoc;
      least = least;
      most = most;
      slow = λ lt. above (exact-slow f pos lt);
      fast = λ lt. zero_ (exact-fast f lt);
      rate = λ lt hi.
          let (one, limit) = exact-rate f lt hi in let e = same one limit in rw e (quotient f pos);
    }

-- Setting the frequency 0 is a division by zero; any other frequency gives the timer the command
-- for a rate generator and a divisor from 1 to 65535, low byte first, which is the largest one
-- whose product with the frequency is at most 1193182, the limits 65535 below 19 Hz and 1 above
-- 1193182 Hz aside.
pub pit_init-cases :
    (f : ℕ) (c : Cpu)
    → ((f ≡ 0) × (pit_init f c ≡ divide_error))
      ⊎ ((0 < f)
          × (out : Cpu) × (divisor : ℕ) × (pit_init f c ≡ finished out)
          × Programmed f divisor c out)
unfolding pit_init
pit_init-cases f c = elim (Bool-cases (f == 0)) [
  | inl e ↦ inl (ground arith, rw e refl)
  | inr e ↦
      let d = clamp_divisor (exact f) in
      let pos : 0 < f = ground arith in
      inr (pos, write_divisor d c, d, rw e refl, write-Programmed f c pos)
]
