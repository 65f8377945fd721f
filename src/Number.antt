-- ===== src/Number.antt =====
-- The conversions of numbers to text in drivers/vga/vga.c, which kprintf uses. Memory is the byte at
-- each address.
pub mod Digits
pub mod Reverse
pub mod Printed
pub mod Convert
pub mod Signed
mod Tests
use aioncore.Base.{
  ℕ, zero, suc, ◌+◌, ◌-◌, ◌*◌, ◌/◌, ◌%◌, ◌^◌, Bool, true, false, not, ◌&&◌, ◌||◌, ◌==◌, ltb, leb,
  if◌then◌else◌, update,
}

abbrev pub Memory : Type 0
Memory = ℕ → ℕ

-- "0123456789abcdefghijklmnopqrstuvwxyz"[d]
abbrev pub digit_char : ℕ → ℕ
digit_char d = if ltb d 10 then 48 + d else 87 + d

-- The table of `itoa`: the same characters on both sides of the index 35, for a remainder of either
-- sign.
abbrev pub table_char : ℕ → ℕ
table_char i = if ltb i 35 then digit_char (35 - i) else digit_char (i - 35)

-- The loop that writes the digits, the last one first: memory and the pointer past them. `char` is
-- the look-up of a remainder.
unfoldable pub emit_digits : (char : ℕ → ℕ) (fuel value base ptr : ℕ) → Memory → Memory × ℕ
emit_digits char zero value base ptr m = (m, ptr)
emit_digits char (suc fuel) value base ptr m =
    let quotient = value / base in
    let m = update m ptr (char (value - quotient * base)) in
    let rest = emit_digits char fuel quotient base (ptr + 1) m in
    if quotient == 0 then (m, ptr + 1) else rest

-- "Reverse string"
unfoldable pub reverse : (fuel ptr1 ptr : ℕ) → Memory → Memory
reverse zero ptr1 ptr m = m
reverse (suc fuel) ptr1 ptr m =
    let rest = reverse fuel (ptr1 + 1) (ptr - 1) (update (update m ptr (m ptr1)) ptr1 (m ptr)) in
    if ltb ptr1 ptr then rest else m

-- The terminator, the reversal and the length.
unfoldable pub finish : (buf : ℕ) → Memory × ℕ → Memory × ℕ
finish buf made =
    let ptr = made.1 in
    let len = ptr - buf in (reverse len buf (ptr - 1) (update made.0 ptr 0), len)

abbrev pub bad_base : ℕ → Bool
bad_base base = ltb base 2 || ltb 36 base

-- Memory and the length that is returned.
unfoldable pub utoa : (value buf base : ℕ) → Memory → Memory × ℕ
utoa value buf base m =
    let made = emit_digits digit_char 32 value base buf m in
    if bad_base base then (update m buf 0, 0) else finish buf made

unfoldable pub utoa64 : (value buf base : ℕ) → Memory → Memory × ℕ
utoa64 value buf base m =
    let made = emit_digits digit_char 64 value base buf m in
    if bad_base base
    then (update m buf 0, 0)
    else if value == 0
    then (update (update m buf 48) (buf + 1) 0, 1)
    else finish buf made

-- The sign and the magnitude of a signed number of `w` bits, from its bit pattern.
abbrev pub is_negative : (w value : ℕ) → Bool
is_negative w value = leb (2 ^ (w - 1)) value

abbrev pub magnitude : (w value : ℕ) → ℕ
magnitude w value = if is_negative w value then 2 ^ w - value else value

-- Division truncates, so quotients and remainders of a negative number are those of its magnitude with
-- the sign turned round.
unfoldable pub itoa : (value buf base : ℕ) → Memory → Memory × ℕ
itoa value buf base m =
    let minus = is_negative 32 value in
    let char = λ (d : ℕ). table_char (if minus then 35 - d else 35 + d) in
    let made = emit_digits char 32 (magnitude 32 value) base buf m in
    let signed = if minus && (base == 10) then (update made.0 made.1 45, made.1 + 1) else made in
    if bad_base base then (update m buf 0, 0) else finish buf signed

unfoldable pub itoa64 : (value buf base : ℕ) → Memory → Memory × ℕ
itoa64 value buf base m =
    let made = utoa64 (magnitude 64 value) (buf + 1) base m in
    let len = made.1 in
    if is_negative 64 value
    then (update (update made.0 buf 45) (buf + len + 1) 0, len + 1)
    else utoa64 value buf base m
