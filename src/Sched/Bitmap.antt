-- ===== src/Sched/Bitmap.antt =====
-- The priority search of core/scheduler.c: `find_highest_priority` finds the highest set bit.
use aioncore.Base.{
  ℕ, zero, suc, ◌+◌, ◌-◌, ◌*◌, ◌/◌, ◌%◌, ◌^◌, ◌≤◌, ◌<◌, ◌≡◌, ◌≢◌, refl, arith, ◌⊎◌, inl, inr, ◌==◌,
  ==_iff, Bool-cases, ap, ◌∙◌, sym,
}
use native.Mathlib.Decide.{dec_lt}
use aioncore.Base.Bits.{bit, bit-le-one, bit-zero, eq_of_bits}
use aioncore.Sched.{leading_zeros, find_word, sched_idle_priority, Scheduler, find_highest_priority}

-- The count of leading zeros in a word of `w` bits: the word is 0, or the highest 1 follows them.
leading_zeros_lem :
    (w x : ℕ)
    → ((j : ℕ) → j < w → bit x j ≡ 0)
      ⊎ ((leading_zeros w x < w)
          × (bit x (w - 1 - leading_zeros w x) ≡ 1)
          × ((j : ℕ) → w - 1 - leading_zeros w x < j → j < w → bit x j ≡ 0))
unfolding leading_zeros
leading_zeros_lem zero x = inl (λ j h. absurd (omega arith))
leading_zeros_lem (suc w) x = elim (Bool-cases (bit x w == 1)) [
  | inl e ↦
      let top : suc w - 1 - 0 ≡ w = omega arith in
      rw e (rw top (inr (omega arith, (==_iff (bit x w) 1).0 e, λ j lo hi. absurd (omega arith))))
  | inr e ↦
      let clear : bit x w ≡ 0 = ground (arith, bit-le-one x w) in
      rw e (elim (leading_zeros_lem w x) [
        | inl all ↦ inl (λ j h. elim (dec_lt j w) [
          | yes lt ↦ all j lt
          | no n ↦ let s : j ≡ w = omega arith in rw s clear
        ])
        | inr (lt, one, above) ↦
            let same : suc w - 1 - (leading_zeros w x + 1) ≡ w - 1 - leading_zeros w x =
              omega arith in
            rw same (
              inr (
                omega arith,
                one,
                λ j lo h. elim (dec_lt j w) [
                  | yes l ↦ above j lo l
                  | no n ↦ let s : j ≡ w = omega arith in rw s clear
                ],
              ))
      ])
]

-- bit `p` of the bitmap
abbrev pub bitmap_bit : (ℕ → ℕ) → ℕ → ℕ
bitmap_bit m p = bit (m (p / 32)) (p % 32)

-- `r` is the highest set bit below `n`, or 0 if none is set.
abbrev pub HighestBit : (ℕ → ℕ) → (n r : ℕ) → Type 0
HighestBit m n r =
    ((r ≡ sched_idle_priority) × ((p : ℕ) → p < n → bitmap_bit m p ≡ 0))
    ⊎ ((r < n) × (bitmap_bit m r ≡ 1) × ((p : ℕ) → r < p → p < n → bitmap_bit m p ≡ 0))

bitmap_bit-word :
    (m : ℕ → ℕ) (i p : ℕ) → i * 32 ≤ p → p < i * 32 + 32 → bitmap_bit m p ≡ bit (m i) (p - i * 32)
bitmap_bit-word m i p lo hi =
    let e : p / 32 ≡ i = omega arith in let f : p % 32 ≡ p - i * 32 = omega arith in rw (e, f)

-- Below a word of zeros.
HighestBit-clear :
    (m : ℕ → ℕ) (i r : ℕ) → m i ≡ 0 → HighestBit m (i * 32) r → HighestBit m (suc i * 32) r
HighestBit-clear m i r z (inl (e, all)) = inl (
  e,
  λ p h. elim (dec_lt p (i * 32)) [
    | yes lt ↦ all p lt
    | no n ↦ bitmap_bit-word m i p (omega arith) (omega arith) ∙ rw z (bit-zero (p - i * 32))
  ],
)
HighestBit-clear m i r z (inr (lt, one, above)) = inr (
  omega arith,
  one,
  λ p lo h. elim (dec_lt p (i * 32)) [
    | yes l ↦ above p lo l
    | no n ↦ bitmap_bit-word m i p (omega arith) (omega arith) ∙ rw z (bit-zero (p - i * 32))
  ],
)

-- At a word that is not 0.
HighestBit-word :
    (m : ℕ → ℕ) (i : ℕ)
    → m i ≢ 0
    → m i < 2 ^ 32
    → i < 8
    → HighestBit m (suc i * 32) ((i * 32 + (31 - leading_zeros 32 (m i))) % 256)
HighestBit-word m i ne lt small = elim (leading_zeros_lem 32 (m i)) [
  | inl all ↦ absurd (ne (eq_of_bits 32 (m i) 0 lt (omega arith) λ j h. all j h ∙ sym (bit-zero j)))
  | inr (short, one, above) ↦
      let t = 31 - leading_zeros 32 (m i) in
      let r : (i * 32 + t) % 256 ≡ i * 32 + t = omega arith in
      let at : i * 32 + t - i * 32 ≡ t = omega arith in
      rw r (
        inr (
          omega arith,
          bitmap_bit-word m i (i * 32 + t) (omega arith) (omega arith) ∙ ap (bit (m i)) at ∙ one,
          λ p lo h.
              bitmap_bit-word m i p (omega arith) (omega arith)
              ∙ above (p - i * 32) (omega arith) (omega arith),
        ))
]

find_word-HighestBit :
    (m : ℕ → ℕ) (n : ℕ) → ((i : ℕ) → m i < 2 ^ 32) → n ≤ 8 → HighestBit m (n * 32) (find_word m n)
unfolding find_word
find_word-HighestBit m zero words le = inl (refl, λ p h. absurd (omega arith))
find_word-HighestBit m (suc i) words le = elim (Bool-cases (m i == 0)) [
  | inl e ↦ rw e (
      HighestBit-clear m i (find_word m i) ((==_iff (m i) 0).0 e)
        (find_word-HighestBit m i words (omega arith)))
  | inr e ↦ rw e (HighestBit-word m i (ground arith) (words i) (omega arith))
]

-- On eight words of 32 bits the search returns the number of the highest set bit, or 0 if none
-- is set.
pub find_highest_priority-HighestBit :
    (s : Scheduler)
    → ((i : ℕ) → s.priority_bitmap i < 2 ^ 32)
    → HighestBit s.priority_bitmap 256 (find_highest_priority s)
unfolding find_highest_priority
find_highest_priority-HighestBit s words =
    find_word-HighestBit s.priority_bitmap 8 words (omega arith)
