-- ===== src/Kprintf/Counts.antt =====
-- The value that kprintf of drivers/vga/vga.c returns is the number of characters it has printed.
use aioncore.Base.{
  ℕ, zero, suc, ◌+◌, ◌-◌, ◌*◌, ◌%◌, ◌≤◌, ◌≡◌, refl, Bool, true, false, ◌&&◌, ◌||◌, ◌==◌, ltb, leb,
  if◌then◌else◌, List, [], ◌∷◌, ◌++◌, Option, none, some, length, length-append, arith, ◌⊎◌, inl,
  inr, Bool-cases, ◌≢◌,
}
use aioncore.Number.{Memory, utoa}
use aioncore.Str.{strlen}
use aioncore.Kprintf.{
  Printer, Parsed, put_char, bytes, counted, pad_zeros, print_number, convert_number,
  convert_pointer, convert_string, write_string, convert, parse_flag, parse_width, parse_modifier,
  parse_directive, put_counted, null_text, is_long_long, is_signed, is_hex,
}

-- `n` characters have been printed between `p` and `q`, and as many counted.
unfoldable pub Counted : Printer → Printer → Type 0
Counted p q = q.written + length p.output ≡ p.written + length q.output

length-bytes : (n at : ℕ) (m : Memory) → length (bytes n at m) ≡ n
unfolding bytes
length-bytes zero at m = refl
length-bytes (suc n) at m = omega (arith, length-bytes n (at + 1) m)

pad_zeros-Counted : (n : ℕ) (p q : Printer) → Counted p q → Counted p (pad_zeros n q)
unfolding pad_zeros Counted
pad_zeros-Counted zero p q h = h
pad_zeros-Counted (suc n) p q h =
    pad_zeros-Counted n p (put_counted 48 q) (omega (arith, h, length-append q.output (48 ∷ [])))

print_number-Counted :
    (d : Parsed) (buf : ℕ) (made : Memory × ℕ) (p q : Printer)
    → Counted p q
    → Counted p (print_number d buf made q)
unfolding print_number Counted
print_number-Counted d buf made p q h =
    let m : Printer = record q { memory = made.0 } in
    let padded : Printer =
      if d.zero_pad && ltb made.1 d.width then pad_zeros (d.width - made.1) m else m in
    let k : Counted p padded = elim (Bool-cases (d.zero_pad && ltb made.1 d.width)) [
      | inl e ↦ rw e (pad_zeros-Counted (d.width - made.1) p m h)
      | inr e ↦ rw e h
    ] in
    omega (
      arith,
      k,
      length-append padded.output (bytes made.1 buf padded.memory),
      length-bytes made.1 buf padded.memory,
    )

either-Counted :
    (p s t : Printer) (b : Bool) → Counted p s → Counted p t → Counted p (if b then s else t)
either-Counted p s t true h k = h
either-Counted p s t false h k = k

convert_number-Counted :
    (va : ℕ → ℕ) (c buf : ℕ) (d : Parsed) (p : Printer) → Counted p (convert_number va c buf d p)
unfolding convert_number Counted
convert_number-Counted va c buf d p =
    either-Counted p _ _ (is_long_long d.modifier)
      (print_number-Counted d buf _ p (record p { arg = p.arg + 2 }) refl)
      (print_number-Counted d buf _ p (record p { arg = p.arg + 1 }) refl)

convert_pointer-Counted :
    (va : ℕ → ℕ) (buf : ℕ) (p : Printer) → Counted p (convert_pointer va buf p)
unfolding convert_pointer Counted
convert_pointer-Counted va buf p =
    let made = utoa (va p.arg) buf 16 p.memory in
    let start : Printer = record p {
      output = p.output ++ (48 ∷ 120 ∷ []);
      memory = made.0;
      arg = p.arg + 1;
    } in
    let padded = pad_zeros (8 - made.1) start in
    let k = pad_zeros-Counted (8 - made.1) start start refl in
    omega (
      arith,
      k,
      length-append p.output (48 ∷ 120 ∷ []),
      length-append padded.output (bytes made.1 buf padded.memory),
      length-bytes made.1 buf padded.memory,
    )

-- nothing, or a printer that has counted
abbrev pub MaybeCounted : Printer → Option Printer → Type 0
MaybeCounted p o = (o ≡ none) ⊎ ((q : Printer) × (o ≡ some q) × Counted p q)

write_string-Counted :
    (str : ℕ) (p : Printer) (len : Option ℕ)
    → let q : Printer = record p { arg = p.arg + 1 } in MaybeCounted p (write_string str q len)
unfolding write_string Counted
write_string-Counted str p none = inl refl
write_string-Counted str p (some len) = inr (
  _,
  refl,
  omega (arith, length-append p.output (bytes len str p.memory), length-bytes len str p.memory),
)

convert_string-Counted :
    (fuel : ℕ) (va : ℕ → ℕ) (p : Printer) → MaybeCounted p (convert_string fuel va p)
unfolding convert_string Counted
convert_string-Counted fuel va p = elim (Bool-cases (va p.arg == 0)) [
  | inl h ↦ rw h (inr (_, refl, omega (arith, length-append p.output null_text)))
  | inr h ↦ rw h (write_string-Counted (va p.arg) p (strlen fuel p.memory (va p.arg)))
]

either-Maybe :
    (p : Printer) {s t : Option Printer} (b : Bool)
    → MaybeCounted p s
    → MaybeCounted p t
    → MaybeCounted p (if b then s else t)
either-Maybe p true h k = h
either-Maybe p false h k = k

pub convert-Counted :
    (fuel : ℕ) (va : ℕ → ℕ) (c buf : ℕ) (d : Parsed) (p : Printer)
    → MaybeCounted p (convert fuel va c buf d p)
unfolding convert Counted
convert-Counted fuel va c buf d p =
    let wide : Printer = record p { arg = p.arg + 1 } in
    either-Maybe p (is_signed c || (c == 117) || is_hex c)
      (inr (convert_number va c buf d p, refl, convert_number-Counted va c buf d p))
      (either-Maybe p (c == 112)
        (inr (convert_pointer va buf p, refl, convert_pointer-Counted va buf p))
        (either-Maybe p (c == 115) (convert_string-Counted fuel va p) (
          either-Maybe p (c == 99)
            (inr (
              put_counted (va p.arg % 256) wide,
              refl,
              omega (arith, length-append p.output (va p.arg % 256 ∷ [])),
            ))
            (either-Maybe p (c == 37)
              (inr (put_counted 37 p, refl, omega (arith, length-append p.output (37 ∷ []))))
              (inr (
                counted 2 (put_char c (put_char 37 p)),
                refl,
                omega (
                  arith,
                  length-append p.output (37 ∷ []),
                  length-append (p.output ++ (37 ∷ [])) (c ∷ []),
                ),
              ))))))

-- Each part of a directive leaves no more of the format than it was given.
parse_width-rest : (width : ℕ) (f : List ℕ) → length (parse_width width f).1 ≤ length f
unfolding parse_width
parse_width-rest width [] = omega arith
parse_width-rest width (c ∷ f) = elim (Bool-cases (leb 48 c && leb c 57)) [
  | inl h ↦ rw h (omega (arith, parse_width-rest (width * 10 + (c - 48)) f))
  | inr h ↦ rw h (omega arith)
]

parse_modifier-rest : (f : List ℕ) → length (parse_modifier f).1 ≤ length f
unfolding parse_modifier
parse_modifier-rest [] = omega arith
parse_modifier-rest (c ∷ []) = ground arith
parse_modifier-rest (c ∷ d ∷ f) = ground arith

parse_flag-rest : (f : List ℕ) → length (parse_flag f).1 ≤ length f
unfolding parse_flag
parse_flag-rest [] = omega arith
parse_flag-rest (c ∷ f) = ground arith

pub parse_directive-rest : (f : List ℕ) → length (parse_directive f).rest ≤ length f
unfolding parse_directive
parse_directive-rest f =
    let w = parse_width 0 (parse_flag f).1 in
    omega (arith, parse_flag-rest f, parse_width-rest 0 (parse_flag f).1, parse_modifier-rest w.1)

pub trans-Counted : (p q r : Printer) → Counted p q → Counted q r → Counted p r
unfolding Counted
trans-Counted p q r a b = omega (arith, a, b)

write_string-none :
    (str : ℕ) (p : Printer) (len : Option ℕ) → write_string str p len ≡ none → len ≡ none
unfolding write_string
write_string-none str p none e = refl
write_string-none str p (some len) e = ground (arith, e)

convert_string-none :
    (fuel : ℕ) (va : ℕ → ℕ) (p : Printer)
    → convert_string fuel va p ≡ none
    → (va p.arg ≢ 0) × (strlen fuel p.memory (va p.arg) ≡ none)
unfolding convert_string
convert_string-none fuel va p e = elim (Bool-cases (va p.arg == 0)) [
  | inl h ↦ let f = rw h at e in ground (arith, f)
  | inr h ↦ (
    λ z. ground (arith, z, h),
    write_string-none (va p.arg) (record p { arg = p.arg + 1 }) (strlen fuel p.memory (va p.arg))
        (rw h at e),
  )
]

-- A conversion fails for a string without a terminator in reach alone.
pub convert-none :
    (fuel : ℕ) (va : ℕ → ℕ) (c buf : ℕ) (d : Parsed) (p : Printer)
    → convert fuel va c buf d p ≡ none
    → (c ≡ 115) × (va p.arg ≢ 0) × (strlen fuel p.memory (va p.arg) ≡ none)
unfolding convert
convert-none fuel va c buf d p e = elim (Bool-cases (c == 115)) [
  | inl h ↦
      let is : c ≡ 115 = ground (arith, h) in
      let f : convert_string fuel va p ≡ none = rw is at e in
      let (a, b) = convert_string-none fuel va p f in (is, a, b)
  | inr h ↦ ground (arith, e, h)
]
