-- ===== src/Number/Convert.antt =====
-- What utoa and utoa64 of drivers/vga/vga.c leave in the buffer, read back as a number.
use aioncore.Base.{
  ℕ, ◌+◌, ◌^◌, ◌≤◌, ◌<◌, ◌≡◌, refl, true, false, ◌==◌, update, arith, inl, inr, Bool-cases, ◌∙◌,
}
use aioncore.Number.{Memory, digit_char, emit_digits, finish, bad_base, utoa, utoa64}
use aioncore.Number.Digits.{Emitted, emit-Emitted}
use aioncore.Number.Printed.{reads, Text, Untouched, finish-Finished, turned-Text}

-- An unsigned number and its terminator in the buffer, and nothing else.
pub record Unsigned (base value buf : ℕ) (m : Memory) (out : Memory × ℕ) : Type 0 where
  pub text : Text base value buf out.0 out.1
  pub outside : Untouched buf out.1 m out.0

pub made-Unsigned :
    (base value buf fuel : ℕ) (m : Memory) (made : Memory × ℕ)
    → Emitted base value buf fuel m made
    → Unsigned base value buf m (finish buf made)
unfolding Untouched
made-Unsigned base value buf fuel m made d =
    let f = finish-Finished buf d.count made d.some_digit d.end in
    let n = f.length in
    record {
      text =
          rw n (
            turned-Text base value buf buf fuel m made (finish buf made).0 d f.turned f.terminated);
      outside = rw n (λ a h. f.outside a h ∙ d.outside a (ground arith));
    }

-- In a base from 2 to 36 utoa leaves in the buffer the digits of a 32-bit number, which read back
-- give the number, without a leading zero, and a terminator, returns their count, and changes no
-- byte besides.
pub utoa-Unsigned :
    (base value buf : ℕ) (m : Memory)
    → 2 ≤ base
    → base ≤ 36
    → value < 2 ^ 32
    → Unsigned base value buf m (utoa value buf base m)
unfolding utoa
utoa-Unsigned base value buf m ge le lt =
    let ok : bad_base base ≡ false = ground arith in
    rw ok (
      made-Unsigned base value buf 32 m (emit_digits digit_char 32 value base buf m)
        (emit-Emitted digit_char 31 value base buf m (λ d h. refl) ge le lt))

utoa64-zero :
    (base value buf : ℕ) (m : Memory)
    → 2 ≤ base
    → base ≤ 36
    → value ≡ 0
    → Unsigned base value buf m (update (update m buf 48) (buf + 1) 0, 1)
unfolding Untouched reads
utoa64-zero base value buf m ge le z =
    let first : (buf == buf + 0) ≡ true = ground arith in
    let none : (buf + 1 == buf + 0) ≡ false = ground arith in
    record {
      text = record {
        some_digit = omega arith;
        number = rw first (rw none (omega arith));
        digits =
            λ i lt. let i0 : i ≡ 0 = omega arith in rw i0 (rw first (rw none (omega arith, refl)));
        leading = λ ne. absurd (ne z);
        shortest = λ _. refl;
        terminated = ground arith;
      };
      outside = λ a h. ground arith;
    }

-- In a base from 2 to 36 utoa64 leaves in the buffer the digits of a 64-bit number, which read
-- back give the number, without a leading zero, and a terminator, returns their count, and changes
-- no byte besides.
pub utoa64-Unsigned :
    (base value buf : ℕ) (m : Memory)
    → 2 ≤ base
    → base ≤ 36
    → value < 2 ^ 64
    → Unsigned base value buf m (utoa64 value buf base m)
unfolding utoa64
utoa64-Unsigned base value buf m ge le lt =
    let ok : bad_base base ≡ false = ground arith in
    elim (Bool-cases (value == 0)) [
      | inl z ↦ rw ok (rw z (utoa64-zero base value buf m ge le (ground arith)))
      | inr z ↦ rw ok (
          rw z (
            made-Unsigned base value buf 64 m (emit_digits digit_char 64 value base buf m)
              (emit-Emitted digit_char 63 value base buf m (λ d h. refl) ge le lt)))
    ]
