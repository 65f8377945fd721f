-- ===== src/Kprintf/Tests.antt =====
-- Runs of kprintf at concrete formats.
use aioncore.Base.{ℕ, ◌+◌, ◌≡◌, refl, true, arith, List, [], ◌∷◌, update}
use aioncore.Number.{Memory, utoa, emit_digits, reverse, finish}
use aioncore.Kprintf.Padding.{padding, padded, print_number-eq}
use aioncore.Kprintf.{
  Parsed, Modifier, Printer, Outcome, print_format, parse_directive, parse_flag, parse_width,
  parse_modifier, run_directive, resume, convert, convert_number, print_number, pad_zeros, bytes,
}
use aioncore.Kprintf.Format.{Completed, print_format-Completed}

abbrev start : Printer
start = record { memory = λ a. 0; arg = 0; output = []; written = 0 }

-- the argument words 42, 43 and so on
abbrev words : ℕ → ℕ
words i = 42 + i

-- "n=%03u;"
abbrev with_number : List ℕ
with_number = 110 ∷ 61 ∷ 37 ∷ 48 ∷ 51 ∷ 117 ∷ 59 ∷ []

print_format-Completed_example :
    Completed 100 words 500 with_number start (print_format 8 100 words 500 with_number start)
print_format-Completed_example =
    print_format-Completed 8 100 words 500 with_number start (omega arith)

abbrev printed_text : Outcome → List ℕ
printed_text (Outcome.printed p) = p.output
printed_text _ = []

-- "n=042;"
with_number_test :
    printed_text (print_format 8 100 words 500 with_number start)
    ≡ 110 ∷ 61 ∷ 48 ∷ 52 ∷ 50 ∷ 59 ∷ []
unfolding print_format parse_directive parse_flag parse_width parse_modifier run_directive resume
    convert convert_number print_number pad_zeros bytes utoa emit_digits reverse finish
with_number_test = refl

abbrev four : Parsed
four = record { zero_pad = true; width = 4; modifier = Modifier.plain; rest = [] }

abbrev minus_five : Memory
minus_five = update (update (λ a. 0) 500 45) 501 53

-- "%04d" of -5, whose digits stand at 500
print_number-eq_example :
    print_number four 500 (minus_five, 2) start ≡ padded (padding four 2) 500 (minus_five, 2) start
print_number-eq_example = print_number-eq four 500 (minus_five, 2) start

-- "00-5"
minus_five_test : (print_number four 500 (minus_five, 2) start).output ≡ 48 ∷ 48 ∷ 45 ∷ 53 ∷ []
unfolding print_number pad_zeros bytes
minus_five_test = refl
