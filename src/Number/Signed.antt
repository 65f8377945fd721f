-- ===== src/Number/Signed.antt =====
-- What itoa and itoa64 of drivers/vga/vga.c leave in the buffer, read back as a number.
use mathlib.Core.Bool.{false≢true}
use aioncore.Base.{
  ℕ, suc, ◌+◌, ◌-◌, ◌^◌, ◌<◌, ◌≡◌, refl, Bool, true, false, if◌then◌else◌, update, arith, ◌⊎◌, inl,
  inr, Bool-cases, ◌∙◌, sym, ap,
}
use aioncore.Number.{
  Memory, digit_char, table_char, emit_digits, finish, utoa64, is_negative, itoa, itoa64,
}
use aioncore.Number.Digits.{Emitted, emit-Emitted}
use aioncore.Number.Printed.{Text, Untouched, finish-Finished, turned-Text, Text-same}
use aioncore.Number.Convert.{Unsigned, made-Unsigned, utoa64-Unsigned}

-- A signed number in base ten, with its sign before the digits, and its terminator, and nothing else.
pub record Signed (w value buf : ℕ) (m : Memory) (out : Memory × ℕ) : Type 0 where
  pub minus :
      is_negative w value ≡ true
      → (out.0 buf ≡ 45) × Text 10 (2 ^ w - value) (buf + 1) out.0 (out.1 - 1)
  pub plain : is_negative w value ≡ false → Text 10 value buf out.0 out.1
  pub outside : Untouched buf out.1 m out.0

abbrev signed_char : (minus : Bool) → ℕ → ℕ
signed_char minus d = table_char (if minus then 35 - d else 35 + d)

signed_char-eq : (minus : Bool) (d : ℕ) → d < 36 → signed_char minus d ≡ digit_char d
signed_char-eq true d lt = ground arith
signed_char-eq false d lt = ground arith

first_char :
    {c : ℕ} (out : Memory) (buf at : ℕ) (k : Memory) {from : ℕ}
    → out (buf + 0) ≡ k from
    → from ≡ at
    → k at ≡ c
    → out buf ≡ c
first_char out buf at k e f g =
    let z : buf + 0 ≡ buf = omega arith in ap out (sym z) ∙ e ∙ ap k f ∙ g

-- the digits of the magnitude and a minus sign
negative-Finished :
    (value buf fuel : ℕ) (m : Memory) (made : Memory × ℕ)
    → (d : Emitted 10 value buf fuel m made)
    → let out = finish buf (update made.0 made.1 45, made.1 + 1) in
      (out.1 ≡ suc d.count)
      × (out.0 buf ≡ 45)
      × Text 10 value (buf + 1) out.0 d.count
      × ((a : ℕ) → (a < buf) ⊎ (buf + suc d.count < a) → out.0 a ≡ m a)
negative-Finished value buf fuel m made d =
    let signed : Memory × ℕ = (update made.0 made.1 45, made.1 + 1) in
    let out = finish buf signed in
    let f = finish-Finished buf (suc d.count) signed (omega arith) (omega (arith, d.end)) in
    let past = d.end in
    (
      f.length,
      first_char out.0 buf (buf + d.count) signed.0 (f.turned 0 (omega arith)) (omega arith)
          (ground arith),
      turned-Text 10 value (buf + 1) buf fuel m made out.0 d
          (λ i lt.
            let a : buf + 1 + i ≡ buf + (i + 1) = omega arith in
            let b : buf + suc d.count - 1 - (i + 1) ≡ buf + d.count - 1 - i = omega arith in
            rw a (f.turned (i + 1) (omega arith) ∙ rw b (ground arith)))
          (let a : buf + 1 + d.count ≡ buf + suc d.count = omega arith in rw a f.terminated),
      λ a h. f.outside a h ∙ ground (arith, d.outside a),
    )

abbrev with_minus : Memory × ℕ → Memory × ℕ
with_minus made = (update made.0 made.1 45, made.1 + 1)

itoa-minus :
    (value buf : ℕ) (m : Memory)
    → is_negative 32 value ≡ true
    → itoa value buf 10 m
      ≡ finish buf (with_minus (emit_digits (signed_char true) 32 (2 ^ 32 - value) 10 buf m))
unfolding itoa
itoa-minus value buf m h = rw h refl

itoa-plain :
    (value buf : ℕ) (m : Memory)
    → is_negative 32 value ≡ false
    → itoa value buf 10 m ≡ finish buf (emit_digits (signed_char false) 32 value 10 buf m)
unfolding itoa
itoa-plain value buf m h = rw h refl

-- a number that is not negative
plain-Signed :
    (w value buf : ℕ) (m : Memory) (out : Memory × ℕ)
    → is_negative w value ≡ false
    → Unsigned 10 value buf m out
    → Signed w value buf m out
plain-Signed w value buf m out h u = record {
  minus = λ c. absurd (false≢true (sym h ∙ c));
  plain = λ _. u.text;
  outside = u.outside;
}

-- a negative number
minus-Signed :
    (w value buf n : ℕ) (m : Memory) (out : Memory × ℕ)
    → is_negative w value ≡ true
    → out.1 ≡ suc n
    → out.0 buf ≡ 45
    → Text 10 (2 ^ w - value) (buf + 1) out.0 n
    → ((a : ℕ) → (a < buf) ⊎ (buf + suc n < a) → out.0 a ≡ m a)
    → Signed w value buf m out
unfolding Untouched
minus-Signed w value buf n m out h e sign text others =
    let less : suc n - 1 ≡ n = omega arith in
    record {
      minus = λ _. (sign, rw e (rw less text));
      plain = λ c. absurd (false≢true (sym c ∙ h));
      outside = rw e others;
    }

-- In base ten itoa leaves in the buffer the digits of a 32-bit number that is not negative, and a
-- minus sign and the digits of the magnitude of one that is, the least one included, with a
-- terminator, returns the count, and changes no byte besides.
pub itoa-Signed :
    (value buf : ℕ) (m : Memory) → value < 2 ^ 32 → Signed 32 value buf m (itoa value buf 10 m)
itoa-Signed value buf m lt = elim (Bool-cases (is_negative 32 value)) [
  | inl h ↦
      let made = emit_digits (signed_char true) 32 (2 ^ 32 - value) 10 buf m in
      let d =
        emit-Emitted (signed_char true) 31 (2 ^ 32 - value) 10 buf m (signed_char-eq true)
          (omega arith) (omega arith) (ground arith) in
      let (n, sign, text, others) = negative-Finished (2 ^ 32 - value) buf 32 m made d in
      rw (itoa-minus value buf m h) (minus-Signed 32 value buf d.count m _ h n sign text others)
  | inr h ↦
      let made = emit_digits (signed_char false) 32 value 10 buf m in
      let d =
        emit-Emitted (signed_char false) 31 value 10 buf m (signed_char-eq false) (omega arith)
          (omega arith) lt in
      rw (itoa-plain value buf m h)
        (plain-Signed 32 value buf m _ h (made-Unsigned 10 value buf 32 m made d))
]

itoa64-minus :
    (value buf : ℕ) (m : Memory)
    → is_negative 64 value ≡ true
    → itoa64 value buf 10 m ≡ (
        let out = utoa64 (2 ^ 64 - value) (buf + 1) 10 m in
        (update (update out.0 buf 45) (buf + out.1 + 1) 0, out.1 + 1))
unfolding itoa64
itoa64-minus value buf m h = rw h refl

-- In base ten itoa64 leaves in the buffer the digits of a 64-bit number that is not negative, and
-- a minus sign and the digits of the magnitude of one that is, with a terminator, returns the
-- count, and changes no byte besides.
pub itoa64-Signed :
    (value buf : ℕ) (m : Memory) → value < 2 ^ 64 → Signed 64 value buf m (itoa64 value buf 10 m)
unfolding itoa64 Untouched
itoa64-Signed value buf m lt = elim (Bool-cases (is_negative 64 value)) [
  | inl h ↦
      let u =
        utoa64-Unsigned 10 (2 ^ 64 - value) (buf + 1) m (omega arith) (omega arith)
          (ground arith) in
      let out = utoa64 (2 ^ 64 - value) (buf + 1) 10 m in
      let k = update (update out.0 buf 45) (buf + out.1 + 1) 0 in
      let end : out.0 (buf + 1 + out.1) ≡ 0 = u.text.terminated in
      rw (itoa64-minus value buf m h) (
        minus-Signed 64 value buf out.1 m (k, out.1 + 1) h (omega arith) (ground arith)
          (Text-same 10 (2 ^ 64 - value) (buf + 1) out.1 out.0 k (λ i le. ground arith) u.text)
          (λ a o. ground (arith, u.outside a)))
  | inr h ↦ rw h (
      plain-Signed 64 value buf m _ h
        (utoa64-Unsigned 10 value buf m (omega arith) (omega arith) lt))
]
