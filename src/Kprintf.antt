-- ===== src/Kprintf.antt =====
-- kprintf of drivers/vga/vga.c. The format is the list of its bytes up to the terminator; the
-- arguments are the 32-bit words on the stack.
pub mod Counts
pub mod Format
pub mod Plain
pub mod Padding
mod Tests
use aioncore.Base.{
  ℕ, zero, suc, ◌+◌, ◌-◌, ◌*◌, ◌/◌, ◌%◌, ◌^◌, Bool, true, false, not, ◌&&◌, ◌||◌, ◌==◌, ltb, leb,
  if◌then◌else◌, update, List, [], ◌∷◌, ◌++◌, Option, none, some, length,
}
use aioncore.Number.{Memory, utoa, utoa64, itoa, itoa64}
use aioncore.Str.{strlen}

-- Memory, the index of the next argument word, the characters given to the console so far, and
-- `written`.
pub record Printer : Type 0 where
  pub memory : Memory
  pub arg : ℕ
  pub output : List ℕ
  pub written : ℕ

-- The console calls of core/console.c.
abbrev pub put_char : (c : ℕ) → Printer → Printer
put_char c p = record p { output = p.output ++ (c ∷ []) }

unfoldable pub bytes : (n at : ℕ) → Memory → List ℕ
bytes zero at m = []
bytes (suc n) at m = m at ∷ bytes n (at + 1) m

abbrev pub put_text : (str len : ℕ) → Printer → Printer
put_text str len p = record p { output = p.output ++ bytes len str p.memory }

abbrev pub counted : (n : ℕ) → Printer → Printer
counted n p = record p { written = p.written + n }

-- The length modifiers: none, `l` and `ll`.
pub data Modifier : Type 0 where
  plain long_mod long_long_mod : Modifier

abbrev pub is_long_long : Modifier → Bool
is_long_long Modifier.long_long_mod = true
is_long_long _ = false

pub record Parsed : Type 0 where
  pub zero_pad : Bool
  pub width : ℕ
  pub modifier : Modifier
  pub rest : List ℕ

-- The loop over the digits of the width, an `int` that a format of the kernel does not overflow.
unfoldable pub parse_width : (width : ℕ) → List ℕ → ℕ × List ℕ
parse_width width [] = (width, [])
parse_width width (c ∷ format) =
    let more = parse_width (width * 10 + (c - 48)) format in
    if leb 48 c && leb c 57 then more else (width, c ∷ format)

unfoldable pub parse_modifier : List ℕ → Modifier × List ℕ
parse_modifier [] = (Modifier.plain, [])
parse_modifier (c ∷ []) = if c == 108 then (Modifier.long_mod, []) else (Modifier.plain, c ∷ [])
parse_modifier (c ∷ d ∷ format) =
    if c == 108
    then (if d == 108 then (Modifier.long_long_mod, format) else (Modifier.long_mod, d ∷ format))
    else (Modifier.plain, c ∷ d ∷ format)

unfoldable pub parse_flag : List ℕ → Bool × List ℕ
parse_flag [] = (false, [])
parse_flag (c ∷ format) = if c == 48 then (true, format) else (false, c ∷ format)

-- From behind the `%` to the conversion.
unfoldable pub parse_directive : List ℕ → Parsed
parse_directive format =
    let flag = parse_flag format in
    let width = parse_width 0 flag.1 in
    let modifier = parse_modifier width.1 in
    record { zero_pad = flag.0; width = width.0; modifier = modifier.0; rest = modifier.1 }

-- `n` times a zero, each counted.
unfoldable pub pad_zeros : (n : ℕ) → Printer → Printer
pad_zeros zero p = p
pad_zeros (suc n) p = pad_zeros n (counted 1 (put_char 48 p))

-- The padding and the output of a number that a conversion left in the buffer.
unfoldable pub print_number : Parsed → (buf : ℕ) → Memory × ℕ → Printer → Printer
print_number d buf made p =
    let len = made.1 in
    let p = record p { memory = made.0 } in
    let p = if d.zero_pad && ltb len d.width then pad_zeros (d.width - len) p else p in
    counted len (put_text buf len p)

abbrev pub is_signed : ℕ → Bool
is_signed c = (c == 100) || (c == 105)

abbrev pub is_hex : ℕ → Bool
is_hex c = (c == 120) || (c == 88)

-- The conversions d, i, u, x and X. `va` is the word at each index of the arguments; a `long long`
-- takes two, the lower half first.
unfoldable pub convert_number : (va : ℕ → ℕ) → (c buf : ℕ) → Parsed → Printer → Printer
convert_number va c buf d p =
    let word = va p.arg in
    let double = word + 2 ^ 32 * va (p.arg + 1) in
    let short = record p { arg = p.arg + 1 } in
    let wide = record p { arg = p.arg + 2 } in
    let base = if is_hex c then 16 else 10 in
    let made = if is_signed c then itoa word buf 10 p.memory else utoa word buf base p.memory in
    let made64 =
      if is_signed c then itoa64 double buf 10 p.memory else utoa64 double buf base p.memory in
    if is_long_long d.modifier
    then print_number d buf made64 wide
    else print_number d buf made short

-- The conversion p.
unfoldable pub convert_pointer : (va : ℕ → ℕ) → (buf : ℕ) → Printer → Printer
convert_pointer va buf p =
    let p = record p { output = p.output ++ (48 ∷ 120 ∷ []) } in
    let made = utoa (va p.arg) buf 16 p.memory in
    let p = record p { memory = made.0; arg = p.arg + 1 } in
    let p = pad_zeros (8 - made.1) p in counted (made.1 + 2) (put_text buf made.1 p)

-- "(null)"
abbrev pub null_text : List ℕ
null_text = 40 ∷ 110 ∷ 117 ∷ 108 ∷ 108 ∷ 41 ∷ []

-- A string of a length that may not have been found.
unfoldable pub write_string : (str : ℕ) → Printer → Option ℕ → Option Printer
write_string str p none = none
write_string str p (some len) = some (counted len (put_text str len p))

-- The conversion s. `none` if the fuel does not reach a terminator.
unfoldable pub convert_string : (fuel : ℕ) → (va : ℕ → ℕ) → Printer → Option Printer
convert_string fuel va p =
    let str = va p.arg in
    let p = record p { arg = p.arg + 1 } in
    if str == 0
    then some (counted 6 (record p { output = p.output ++ null_text }))
    else write_string str p (strlen fuel p.memory str)

-- A character of its own.
abbrev pub put_counted : (c : ℕ) → Printer → Printer
put_counted c p = counted 1 (put_char c p)

-- The `switch`.
unfoldable pub convert : (fuel : ℕ) → (va : ℕ → ℕ) → (c buf : ℕ) → Parsed → Printer → Option Printer
convert fuel va c buf d p =
    if is_signed c || (c == 117) || is_hex c
    then some (convert_number va c buf d p)
    else if c == 112
    then some (convert_pointer va buf p)
    else if c == 115
    then convert_string fuel va p
    else if c == 99
    then some (put_counted (va p.arg % 256) (record p { arg = p.arg + 1 }))
    else if c == 37
    then some (put_counted 37 p)
    else some (counted 2 (put_char c (put_char 37 p)))

-- What comes of a call: the printer at the end; the format ended within a directive, and the code goes
-- on behind its terminator; a string without a terminator in reach; or no fuel.
pub data Outcome : Type 0 where
  printed : Printer → Outcome
  overrun unterminated out_of_fuel : Outcome

-- What `print`, the rest of the loop, makes of the format behind the conversion.
unfoldable pub resume : (print : List ℕ → Printer → Outcome) → List ℕ → Option Printer → Outcome
resume print rest none = Outcome.unterminated
resume print rest (some p) = print rest p

-- The conversion of a directive, and the rest of the loop.
unfoldable pub run_directive :
    (print : List ℕ → Printer → Outcome)
    → (convert : ℕ → Option Printer) → (conversion : List ℕ) → Outcome
run_directive print convert [] = Outcome.overrun
run_directive print convert (c ∷ rest) = resume print rest (convert c)

unfoldable pub print_format :
    (fuel strings : ℕ) → (va : ℕ → ℕ) → (buf : ℕ) → List ℕ → Printer → Outcome
print_format zero strings va buf format p = Outcome.out_of_fuel
print_format (suc fuel) strings va buf [] p = Outcome.printed p
print_format (suc fuel) strings va buf (c ∷ format) p =
    let print = print_format fuel strings va buf in
    let d = parse_directive format in
    let text = print format (put_counted c p) in
    let directive = run_directive print (λ k. convert strings va k buf d p) d.rest in
    if c == 37 then directive else text

-- The driver pointer is there or not; `none` stands for the result -1.
unfoldable pub kprintf :
    (vga : Bool) → (fuel strings : ℕ) → (va : ℕ → ℕ) → (buf : ℕ) → List ℕ → Memory → Option Outcome
kprintf vga fuel strings va buf format m =
    let start : Printer = record { memory = m; arg = 0; output = []; written = 0 } in
    if not vga then none else some (print_format fuel strings va buf format start)
