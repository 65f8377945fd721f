-- ===== src/Kprintf/Format.antt =====
-- The loop of kprintf in drivers/vga/vga.c over a whole format.
use aioncore.Base.{
  ℕ, zero, suc, ◌≤◌, ◌<◌, ◌≡◌, ◌≢◌, refl, ◌==◌, List, [], ◌∷◌, none, some, length, length-append,
  arith, inl, inr, ◌⊎◌, Bool-cases,
}
use aioncore.Str.{strlen}
use aioncore.Kprintf.{
  Printer, convert, parse_directive, put_counted, Outcome, resume, run_directive, print_format,
}
use aioncore.Kprintf.Counts.{
  Counted, trans-Counted, convert-Counted, convert-none, parse_directive-rest,
}

-- A format in which every directive has its conversion.
pub data IsWhole : List ℕ → Type 0 where
  ended : IsWhole []
  character : {c : ℕ} {format : List ℕ} → c ≢ 37 → IsWhole format → IsWhole (c ∷ format)
  directive :
      {c : ℕ} {format : List ℕ} (k : ℕ) (rest : List ℕ)
      → c ≡ 37
      → (parse_directive format).rest ≡ k ∷ rest
      → IsWhole rest
      → IsWhole (c ∷ format)

-- A format that ends within a directive.
pub data IsCut : List ℕ → Type 0 where
  ended :
      {c : ℕ} {format : List ℕ} → c ≡ 37 → (parse_directive format).rest ≡ [] → IsCut (c ∷ format)
  character : {c : ℕ} {format : List ℕ} → c ≢ 37 → IsCut format → IsCut (c ∷ format)
  directive :
      {c : ℕ} {format : List ℕ} (k : ℕ) (rest : List ℕ)
      → c ≡ 37
      → (parse_directive format).rest ≡ k ∷ rest
      → IsCut rest
      → IsCut (c ∷ format)

-- The conversion s is reached, with an argument that is not NULL and no terminator within `strings` bytes.
pub data IsStuck (strings : ℕ) (va : ℕ → ℕ) (buf : ℕ) : List ℕ → Printer → Type 0 where
  string :
      {c : ℕ} {format : List ℕ} {p : Printer} (rest : List ℕ)
      → c ≡ 37
      → (parse_directive format).rest ≡ 115 ∷ rest
      → va p.arg ≢ 0
      → strlen strings p.memory (va p.arg) ≡ none
      → IsStuck strings va buf (c ∷ format) p
  character :
      {c : ℕ} {format : List ℕ} {p : Printer}
      → c ≢ 37
      → IsStuck strings va buf format (put_counted c p)
      → IsStuck strings va buf (c ∷ format) p
  directive :
      {c : ℕ} {format : List ℕ} {p : Printer} (k : ℕ) (rest : List ℕ) (q : Printer)
      → c ≡ 37
      → (parse_directive format).rest ≡ k ∷ rest
      → convert strings va k buf (parse_directive format) p ≡ some q
      → IsStuck strings va buf rest q
      → IsStuck strings va buf (c ∷ format) p

module _ (strings : ℕ) (va : ℕ → ℕ) (buf : ℕ) where
  -- What comes of a format: all of it is printed and counted, it ends within a directive, or a string has
  -- no terminator in reach.
  abbrev pub Completed : List ℕ → Printer → Outcome → Type 0
  Completed format p o =
      ((q : Printer) × (o ≡ Outcome.printed q) × Counted p q × IsWhole format)
      ⊎ ((o ≡ Outcome.overrun) × IsCut format)
      ⊎ ((o ≡ Outcome.unterminated) × IsStuck strings va buf format p)

  character-Completed :
      (c : ℕ) (format : List ℕ) (p : Printer) (o : Outcome)
      → c ≢ 37
      → Counted p (put_counted c p)
      → Completed format (put_counted c p) o
      → Completed (c ∷ format) p o
  character-Completed c format p o ne n (inl (q, e, k, w)) =
      inl (q, e, trans-Counted p (put_counted c p) q n k, IsWhole.character ne w)
  character-Completed c format p o ne n (inr (inl (e, w))) = inr (inl (e, IsCut.character ne w))
  character-Completed c format p o ne n (inr (inr (e, w))) = inr (inr (e, IsStuck.character ne w))

  directive-Completed :
      (c : ℕ) (format : List ℕ) (k : ℕ) (rest : List ℕ) (p q : Printer) (o : Outcome)
      → c ≡ 37
      → (parse_directive format).rest ≡ k ∷ rest
      → convert strings va k buf (parse_directive format) p ≡ some q
      → Counted p q
      → Completed rest q o
      → Completed (c ∷ format) p o
  directive-Completed c format k rest p q o is r v n (inl (t, e, m, w)) =
      inl (t, e, trans-Counted p q t n m, IsWhole.directive k rest is r w)
  directive-Completed c format k rest p q o is r v n (inr (inl (e, w))) =
      inr (inl (e, IsCut.directive k rest is r w))
  directive-Completed c format k rest p q o is r v n (inr (inr (e, w))) =
      inr (inr (e, IsStuck.directive k rest q is r v w))

  -- a directive, when the rest of the loop completes every shorter format
  run-Completed :
      (print : List ℕ → Printer → Outcome) (c : ℕ) (format rest : List ℕ) (p : Printer)
      → c ≡ 37
      → (parse_directive format).rest ≡ rest
      → ((more : List ℕ) (q : Printer)
          → length more ≤ length format
          → Completed more q (print more q))
      → Completed
          (c ∷ format)
          p
          (run_directive print (λ k. convert strings va k buf (parse_directive format) p) rest)
  unfolding run_directive resume
  run-Completed print c format [] p is e h = inr (inl (refl, IsCut.ended is e))
  run-Completed print c format (k ∷ rest) p is e h =
      let d = parse_directive format in
      let short = parse_directive-rest format in
      elim (convert-Counted strings va k buf d p) [
        | inl none_ ↦
            let (s, there, far) = convert-none strings va k buf d p none_ in
            let e' : d.rest ≡ 115 ∷ rest = rw s at e in
            rw none_ (inr (inr (refl, IsStuck.string rest is e' there far)))
        | inr (q, v, n) ↦
            let le : length rest ≤ length format = omega (arith, rw e at short) in
            rw v (directive-Completed c format k rest p q (print rest q) is e v n (h rest q le))
      ]

-- With fuel above the length of the format, kprintf never runs out of it: every directive of the
-- format has its conversion, and it ends with a count that has grown by the number of characters
-- printed; or the format ends within a directive, and kprintf runs past its end; or the conversion
-- s is reached with an argument that is not NULL and has no terminator within `strings` bytes.
pub print_format-Completed :
    (fuel strings : ℕ) (va : ℕ → ℕ) (buf : ℕ) (format : List ℕ) (p : Printer)
    → length format < fuel
    → Completed strings va buf format p (print_format fuel strings va buf format p)
unfolding print_format Counted
print_format-Completed zero strings va buf format p lt = absurd (omega arith)
print_format-Completed (suc fuel) strings va buf [] p lt = inl (p, refl, refl, IsWhole.ended)
print_format-Completed (suc fuel) strings va buf (c ∷ format) p lt = elim (Bool-cases (c == 37)) [
  | inl h ↦ rw h (
      run-Completed strings va buf (print_format fuel strings va buf) c format
        (parse_directive format).rest p (ground (arith, h)) refl
        (λ more q le. print_format-Completed fuel strings va buf more q (omega arith)))
  | inr h ↦
      let q = put_counted c p in
      rw h (
        character-Completed strings va buf c format p (print_format fuel strings va buf format q)
          (ground (arith, h)) (omega (arith, length-append p.output (c ∷ [])))
          (print_format-Completed fuel strings va buf format q (omega arith)))
]
