-- ===== src/Timer/Counter.antt =====
-- What a counter that goes down from its period again and again shows, and how many ticks
-- arch/x86/timer.c takes to have passed between two readings of it.
use native.Mathlib.Nat.{div-add-mod, mod-lt, mul-add, mul-le-mul_left}
use aioncore.Base.{
  ℕ, ◌+◌, ◌-◌, ◌*◌, ◌/◌, ◌%◌, ◌^◌, ◌≤◌, ◌<◌, ◌≡◌, arith, ltb, ap, ◌==◌, Bool-cases, inl, inr, ◌⊎◌,
}
use aioncore.Hal.{Hardware}
use aioncore.Timer.{elapsed}

-- what the counter shows after `pos` ticks: `period`, and down to 1, in 16 bits
abbrev pub shown : (period pos : ℕ) → ℕ
shown period pos = (period - pos % period) % 2 ^ 16

-- The counter has taken `pos k` ticks at reading `k` from the reading `from` on, and takes less than
-- a period from one reading to the next. The low byte is read first.
pub record IsCounter (hw : Hardware) (from period : ℕ) (pos : ℕ → ℕ) : Type 0 where
  pub low_small : (n : ℕ) → hw.inb n 0x40 < 256
  pub shows :
      (k : ℕ)
      → hw.inb (from + 2 * k) 0x40 + 256 * hw.inb (from + 2 * k + 1) 0x40 ≡ shown period (pos k)
  pub goes_on : (k : ℕ) → pos k ≤ pos (k + 1)
  pub in_time : (k : ℕ) → pos (k + 1) < pos k + period

-- The ticks, with as many more at the end of each period as the period falls short of 65536.
abbrev pub stretched : (period pos : ℕ) → ℕ
stretched period pos = pos + (65536 - period) * (pos / period)

-- what the code has counted at reading `k`
abbrev pub ticks_by : (period : ℕ) (pos : ℕ → ℕ) (k : ℕ) → ℕ
ticks_by period pos k = stretched period (pos k) - stretched period (pos 0)

-- Less than a period further on, the counter is in the same period or in the next.
periods :
    (p x y : ℕ)
    → 0 < p
    → x ≤ y
    → y < x + p
    → ((y / p ≡ x / p) × (y + x % p ≡ x + y % p))
      ⊎ ((y / p ≡ x / p + 1) × (y + x % p ≡ x + y % p + p))
periods p x y pos le lt =
    let dx = div-add-mod x p in
    let dy = div-add-mod y p in
    let rx = mod-lt x pos in
    let ry = mod-lt y pos in
    elim (Bool-cases (ltb (y / p) (x / p))) [
      | inl back ↦
          let s : p * (y / p + 1) ≤ p * (x / p) = mul-le-mul_left p (ground arith) in
          absurd (omega (arith, mul-add p (y / p) 1))
      | inr on ↦ elim (Bool-cases (ltb (x / p + 1) (y / p))) [
        | inl far ↦
            let s : p * (x / p + 2) ≤ p * (y / p) = mul-le-mul_left p (ground arith) in
            absurd (omega (arith, mul-add p (x / p) 2))
        | inr near ↦ elim (Bool-cases (y / p == x / p)) [
          | inl e ↦
              let e : y / p ≡ x / p = ground arith in
              let f : p * (y / p) ≡ p * (x / p) = ap (λ (q : ℕ). p * q) e in inl (e, omega arith)
          | inr e ↦
              let e : y / p ≡ x / p + 1 = ground arith in
              let f : p * (y / p) ≡ p * (x / p + 1) = ap (λ (q : ℕ). p * q) e in
              inr (e, omega (arith, mul-add p (x / p) 1))
        ]
      ]
    ]

-- What the code takes for the ticks between two remainders, in one period and over its end.
elapsed_within :
    (p r s : ℕ) → s < p → p ≤ 65536 → r ≤ s → elapsed ((p - r) % 2 ^ 16) ((p - s) % 2 ^ 16) ≡ s - r
unfolding elapsed
elapsed_within p r s lt big le = ground arith

elapsed_over :
    (p r s : ℕ)
    → r < p
    → p ≤ 65536
    → s < r
    → elapsed ((p - r) % 2 ^ 16) ((p - s) % 2 ^ 16) ≡ s + 65536 - r
unfolding elapsed
elapsed_over p r s lt big le = ground arith

-- One step of the counter: the code counts it, stretched.
pub elapsed_lem :
    (p x y : ℕ)
    → 0 < p
    → p ≤ 65536
    → x ≤ y
    → y < x + p
    → stretched p x + elapsed (shown p x) (shown p y) ≡ stretched p y
elapsed_lem p x y pos big le lt =
    let rx = mod-lt x pos in
    let ry = mod-lt y pos in
    elim (periods p x y pos le lt) [
      | inl (q, d) ↦
          let e = elapsed_within p (x % p) (y % p) ry big (omega arith) in rw e (rw q (omega arith))
      | inr (q, d) ↦
          let e = elapsed_over p (x % p) (y % p) rx big (omega arith) in
          let f = mul-add (65536 - p) (x / p) 1 in rw e (rw q (rw f (omega arith)))
    ]

pub elapsed-lt : (a b : ℕ) → a < 2 ^ 16 → elapsed a b < 2 ^ 16
unfolding elapsed
elapsed-lt a b lt = ground arith
