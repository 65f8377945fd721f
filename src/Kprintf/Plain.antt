-- ===== src/Kprintf/Plain.antt =====
-- Formats of kprintf in drivers/vga/vga.c without directives, and with one that is cut off.
use aioncore.Base.{
  ℕ, zero, suc, ◌+◌, ◌-◌, ◌<◌, ◌≡◌, refl, Bool, true, false, not, ◌&&◌, ◌==◌, List, [], ◌∷◌, ◌++◌,
  length, arith, ◌∙◌, sym, ap,
}
use mathlib.Core.List.{append-nil, append_assoc}
use aioncore.Kprintf.{
  Printer, put_counted, parse_directive, parse_flag, parse_width, parse_modifier, Outcome,
  run_directive, print_format,
}

-- No character is the percent sign.
abbrev pub is_plain : List ℕ → Bool
is_plain [] = true
is_plain (c ∷ format) = not (c == 37) && is_plain format

-- the printer after a text
abbrev pub typed : List ℕ → Printer → Printer
typed text p = record p { output = p.output ++ text; written = p.written + length text }

typed-cons :
    (c : ℕ) (text : List ℕ) (p : Printer) → typed text (put_counted c p) ≡ typed (c ∷ text) p
typed-cons c text p =
    let a : (p.output ++ (c ∷ [])) ++ text ≡ p.output ++ (c ∷ text) =
      append_assoc p.output (c ∷ []) text in
    let b : p.written + 1 + length text ≡ p.written + length (c ∷ text) = omega arith in
    rw a (rw b refl)

pub print-text :
    (fuel more strings : ℕ) (va : ℕ → ℕ) (buf : ℕ) (text rest : List ℕ) (p : Printer)
    → is_plain text ≡ true
    → fuel ≡ length text + more
    → print_format fuel strings va buf (text ++ rest) p
      ≡ print_format more strings va buf rest (typed text p)
unfolding print_format
print-text fuel more strings va buf [] rest p h e =
    let f : fuel ≡ more = omega arith in
    let a = append-nil p.output in
    let b : p.written + 0 ≡ p.written = omega arith in rw f (rw a (rw b refl))
print-text zero more strings va buf (c ∷ text) rest p h e = absurd (omega arith)
print-text (suc fuel) more strings va buf (c ∷ text) rest p h e =
    let plain : (c == 37) ≡ false = ground arith in
    rw plain (
      print-text fuel more strings va buf text rest (put_counted c p) (ground arith) (omega arith)
      ∙ ap (print_format more strings va buf rest) (typed-cons c text p))

-- With fuel above its length, a format without a percent sign is printed as it is and its length
-- is counted.
pub print-plain :
    (fuel strings : ℕ) (va : ℕ → ℕ) (buf : ℕ) (format : List ℕ) (p : Printer)
    → is_plain format ≡ true
    → length format < fuel
    → print_format fuel strings va buf format p ≡ Outcome.printed (typed format p)
unfolding print_format
print-plain fuel strings va buf format p h lt =
    let k = fuel - length format - 1 in
    let e : format ++ [] ≡ format = append-nil format in
    ap (λ f. print_format fuel strings va buf f p) (sym e)
    ∙ print-text fuel (suc k) strings va buf format [] p h (omega arith)

-- With fuel for it, a format that ends in its only percent sign makes kprintf go on behind the
-- terminator of the format.
pub print-cut_off :
    (fuel strings : ℕ) (va : ℕ → ℕ) (buf : ℕ) (text : List ℕ) (p : Printer)
    → is_plain text ≡ true
    → length text + 1 < fuel
    → print_format fuel strings va buf (text ++ (37 ∷ [])) p ≡ Outcome.overrun
unfolding print_format parse_directive parse_flag parse_width parse_modifier run_directive
print-cut_off fuel strings va buf text p h lt =
    let k = fuel - length text - 1 in
    print-text fuel (suc k) strings va buf text (37 ∷ []) p h (omega arith)
