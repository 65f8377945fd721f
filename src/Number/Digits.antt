-- ===== src/Number/Digits.antt =====
-- What the digit loop of drivers/vga/vga.c writes.
use native.Mathlib.Omega.{div_any}
use native.Mathlib.Nat.{mod-lt, mul_comm, mul-le-mul_right}
use aioncore.Base.{
  ℕ, zero, suc, ◌+◌, ◌-◌, ◌*◌, ◌/◌, ◌≤◌, ◌<◌, ◌≡◌, ◌≢◌, refl, true, ◌==◌, ltb, if◌then◌else◌,
  update, arith, ◌⊎◌, inl, inr, Bool-cases, ◌∙◌,
}
use aioncore.Number.{Memory, digit_char, emit_digits}

abbrev pub digit_value : ℕ → ℕ
digit_value c = if ltb c 58 then c - 48 else c - 87

-- The number whose digits stand in `n` bytes, the last one first.
abbrev pub low : (base : ℕ) → Memory → (ptr n : ℕ) → ℕ
low base m ptr zero = 0
low base m ptr (suc n) = digit_value (m ptr) + base * low base m (ptr + 1) n

-- a character that is a digit of the base
abbrev pub IsDigit : (base c : ℕ) → Type 0
IsDigit base c = (digit_value c < base) × (c ≡ digit_char (digit_value c))

pub digit_value-char :
    (base d : ℕ)
    → d < base
    → base ≤ 36
    → (digit_value (digit_char d) ≡ d) × IsDigit base (digit_char d)
digit_value-char base d lt le = ground arith

-- the powers of two
abbrev pub power : ℕ → ℕ
power zero = 1
power (suc n) = 2 * power n

-- a quotient and its remainder
quotient_lem :
    (value base f : ℕ)
    → 2 ≤ base
    → value < power (suc f)
    → (value - value / base * base + base * (value / base) ≡ value)
      × (value - value / base * base < base)
      × (value / base < power f)
quotient_lem value base f ge lt =
    let a = div_any value base in
    let b = mul_comm (value / base) base in
    let c = mod-lt value {m = base} (omega arith) in
    let d = mul-le-mul_right {m = 2} {n = base} (value / base) ge in
    (omega arith, omega arith, omega arith)

pub record Emitted (base value ptr fuel : ℕ) (m : Memory) (out : Memory × ℕ) : Type 0 where
  pub count : ℕ
  pub some_digit : 1 ≤ count
  pub at_most : count ≤ fuel
  pub end : out.1 ≡ ptr + count
  pub number : low base out.0 ptr count ≡ value
  pub digits : (i : ℕ) → i < count → IsDigit base (out.0 (ptr + i))
  pub leading : value ≢ 0 → digit_value (out.0 (ptr + count - 1)) ≢ 0
  pub shortest : value ≡ 0 → count ≡ 1
  pub outside : (a : ℕ) → (a < ptr) ⊎ (ptr + count ≤ a) → out.0 a ≡ m a

zero_quotient : (value base : ℕ) → 2 ≤ base → value ≡ 0 → value / base ≡ 0
zero_quotient value base ge z =
    omega (arith, div_any value base, mul-le-mul_right {m = 2} {n = base} (value / base) ge)

abbrev next_char : (char : ℕ → ℕ) (value base : ℕ) → ℕ
next_char char value base = char (value - value / base * base)

module _ (char : ℕ → ℕ) (value base ptr f : ℕ) (m : Memory)
    (same : (d : ℕ) → d < 36 → char d ≡ digit_char d) (ge : 2 ≤ base) (le : base ≤ 36)
    (lt : value < power (suc f)) where
  abbrev c : ℕ
  c = next_char char value base

  c_lem : (digit_value c ≡ value - value / base * base) × IsDigit base c
  c_lem =
      let (_, small, _) = quotient_lem value base f ge lt in
      let d = value - value / base * base in
      let e = same d (omega arith) in rw e (digit_value-char base d small le)

  last-Emitted : value / base ≡ 0 → Emitted base value ptr (suc f) m (update m ptr c, ptr + 1)
  last-Emitted z =
      let (v, digit) = c_lem in
      let (sum, _, _) = quotient_lem value base f ge lt in
      let here : (ptr == ptr) ≡ true = ground arith in
      let e : digit_value c ≡ value = v ∙ (let z' = z in rw z' (omega arith)) in
      record {
        count = 1;
        some_digit = omega arith;
        at_most = omega arith;
        end = refl;
        number = rw here (omega (arith, e));
        digits = λ i a. let at : (ptr == ptr + i) ≡ true = ground arith in rw at digit;
        leading = λ ne. let at : (ptr == ptr + 1 - 1) ≡ true = ground arith in rw at (rw e ne);
        shortest = λ _. refl;
        outside = λ a h. ground arith;
      }

  more-Emitted :
      (out : Memory × ℕ)
      → value / base ≢ 0
      → Emitted base (value / base) (ptr + 1) f (update m ptr c) out
      → Emitted base value ptr (suc f) m out
  more-Emitted out ne r =
      let (v, digit) = c_lem in
      let (sum, _, _) = quotient_lem value base f ge lt in
      let first : out.0 ptr ≡ c = r.outside ptr (inl (omega arith)) ∙ ground arith in
      let rest = r.number in
      record {
        count = suc r.count;
        some_digit = omega arith;
        at_most = omega (arith, r.at_most);
        end = omega (arith, r.end);
        number = rw first (rw rest (omega arith));
        digits = λ i a. elim (Bool-cases (i == 0)) [
          | inl z ↦ let at : ptr + i ≡ ptr = ground arith in rw at (rw first digit)
          | inr z ↦
              let at : ptr + i ≡ ptr + 1 + (i - 1) = ground arith in
              rw at (r.digits (i - 1) (ground arith))
        ];
        leading = λ _.
            let at : ptr + suc r.count - 1 ≡ ptr + 1 + r.count - 1 = omega arith in
            rw at (r.leading ne);
        shortest = λ z. absurd (ne (zero_quotient value base ge z));
        outside = λ a h. r.outside a (ground arith) ∙ ground arith;
      }

emit-stops :
    (char : ℕ → ℕ) (fuel value base ptr : ℕ) (m : Memory)
    → value / base ≡ 0
    → emit_digits char (suc fuel) value base ptr m
      ≡ (update m ptr (next_char char value base), ptr + 1)
unfolding emit_digits
emit-stops char fuel value base ptr m h = ground arith

emit-goes :
    (char : ℕ → ℕ) (fuel value base ptr : ℕ) (m : Memory)
    → value / base ≢ 0
    → emit_digits char (suc fuel) value base ptr m
      ≡ emit_digits char fuel
          (value / base)
          base
          (ptr + 1)
          (update m ptr (next_char char value base))
unfolding emit_digits
emit-goes char fuel value base ptr m h = ground arith

pub emit-Emitted :
    (char : ℕ → ℕ) (fuel value base ptr : ℕ) (m : Memory)
    → ((d : ℕ) → d < 36 → char d ≡ digit_char d)
    → 2 ≤ base
    → base ≤ 36
    → value < power (suc fuel)
    → Emitted base value ptr (suc fuel) m (emit_digits char (suc fuel) value base ptr m)
emit-Emitted char zero value base ptr m same ge le lt =
    let (_, _, small) = quotient_lem value base zero ge lt in
    let e : value / base ≡ 0 = omega arith in
    rw (emit-stops char zero value base ptr m e)
      (last-Emitted char value base ptr zero m same ge le lt e)
emit-Emitted char (suc f) value base ptr m same ge le lt =
    let (_, _, small) = quotient_lem value base (suc f) ge lt in
    let m' = update m ptr (next_char char value base) in
    let rest = emit-Emitted char f (value / base) base (ptr + 1) m' same ge le small in
    elim (Bool-cases (value / base == 0)) [
      | inl z ↦
          let e : value / base ≡ 0 = ground arith in
          rw (emit-stops char (suc f) value base ptr m e)
            (last-Emitted char value base ptr (suc f) m same ge le lt e)
      | inr z ↦
          let ne : value / base ≢ 0 = ground arith in
          rw (emit-goes char (suc f) value base ptr m ne)
            (more-Emitted char value base ptr (suc f) m same ge le lt _ ne rest)
    ]
