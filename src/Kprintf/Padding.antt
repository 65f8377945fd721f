-- ===== src/Kprintf/Padding.antt =====
-- The padding of numbers in kprintf of drivers/vga/vga.c.
use mathlib.Core.List.{append-nil, append_assoc}
use aioncore.Base.{
  ℕ, zero, suc, ◌+◌, ◌-◌, ◌≡◌, refl, ◌&&◌, ltb, if◌then◌else◌, List, [], ◌∷◌, ◌++◌, arith, inl, inr,
  Bool-cases, ◌∙◌,
}
use aioncore.Number.{Memory}
use aioncore.Kprintf.{Printer, Parsed, put_counted, bytes, pad_zeros, print_number}

abbrev pub zeros : ℕ → List ℕ
zeros zero = []
zeros (suc n) = 48 ∷ zeros n

-- how many zeros stand before a number of `len` characters
abbrev pub padding : Parsed → (len : ℕ) → ℕ
padding d len = if d.zero_pad && ltb len d.width then d.width - len else 0

pad_zeros-eq :
    (n : ℕ) (p : Printer)
    → pad_zeros n p ≡ record p { output = p.output ++ zeros n; written = p.written + n }
unfolding pad_zeros
pad_zeros-eq zero p =
    let a = append-nil p.output in
    let b : p.written + 0 ≡ p.written = omega arith in rw a (rw b refl)
pad_zeros-eq (suc n) p =
    let a = append_assoc p.output (48 ∷ []) (zeros n) in
    let b : p.written + 1 + n ≡ p.written + suc n = omega arith in
    pad_zeros-eq n (put_counted 48 p) ∙ rw a (rw b refl)

-- the printer after some zeros and the bytes of the number
abbrev pub padded : (k buf : ℕ) → Memory × ℕ → Printer → Printer
padded k buf made p = record p {
  memory = made.0;
  output = p.output ++ zeros k ++ bytes made.1 buf made.0;
  written = p.written + k + made.1;
}

-- A number is printed as its characters behind as many zeros as they fall short of the width, if
-- zero padding is asked for, and without padding otherwise, and all are counted.
pub print_number-eq :
    (d : Parsed) (buf : ℕ) (made : Memory × ℕ) (p : Printer)
    → print_number d buf made p ≡ padded (padding d made.1) buf made p
unfolding print_number
print_number-eq d buf made p = elim (Bool-cases (d.zero_pad && ltb made.1 d.width)) [
  | inl h ↦
      let q : Printer = record p { memory = made.0 } in
      let e = pad_zeros-eq (d.width - made.1) q in rw h (rw e refl)
  | inr h ↦
      let a = append-nil p.output in
      let b : p.written + 0 ≡ p.written = omega arith in rw h (rw a (rw b refl))
]
