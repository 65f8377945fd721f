-- ===== src/Number/Reverse.antt =====
-- The reversal of the digits in drivers/vga/vga.c, in place.
use aioncore.Base.{
  ℕ, zero, suc, ◌+◌, ◌-◌, ◌*◌, ◌≤◌, ◌<◌, ◌≡◌, refl, ◌&&◌, ◌==◌, ltb, leb, if◌then◌else◌, update,
  arith, ◌∙◌, Bool-cases, inl, inr,
}
use aioncore.Number.{Memory, reverse}

module _ (lo hi a : ℕ) (m : Memory) where
  abbrev mirrored : ℕ
  mirrored = if leb lo a && leb a hi then m (lo + hi - a) else m a

  -- at most one byte is left
  reverse-meet : hi ≤ lo → m a ≡ mirrored
  reverse-meet le = elim (Bool-cases (leb lo a && leb a hi)) [
    | inl h ↦ let e : lo + hi - a ≡ a = ground arith in rw h (rw e refl)
    | inr h ↦ rw h refl
  ]

  -- the outer two are exchanged, and the bytes between are mirrored
  reverse-outer :
      lo < hi
      → (k : Memory) → k ≡ update (update m hi (m lo)) lo (m hi)
      → (if leb (lo + 1) a && leb a (hi - 1) then k (lo + 1 + (hi - 1) - a) else k a) ≡ mirrored
  reverse-outer lt k e =
      let far : lo + 1 + (hi - 1) - a ≡ lo + hi - a = omega arith in
      let last : lo + hi - lo ≡ hi = omega arith in
      let first : lo + hi - hi ≡ lo = omega arith in
      rw e (
        rw far (elim (Bool-cases (a == lo)) [
          | inl z ↦ let z' : a ≡ lo = ground arith in rw z' (rw last (ground arith))
          | inr z ↦ elim (Bool-cases (a == hi)) [
            | inl y ↦ let y' : a ≡ hi = ground arith in rw y' (rw first (ground arith))
            | inr y ↦ ground arith
          ]
        ]))

-- Two pointers that meet after at most `fuel` rounds.
pub reverse-at :
    (fuel lo hi : ℕ) (m : Memory) (a : ℕ)
    → hi ≤ lo + 2 * fuel
    → reverse fuel lo hi m a ≡ (if leb lo a && leb a hi then m (lo + hi - a) else m a)
unfolding reverse
reverse-at zero lo hi m a le = reverse-meet lo hi a m (omega arith)
reverse-at (suc fuel) lo hi m a le = elim (Bool-cases (ltb lo hi)) [
  | inl h ↦
      let k = update (update m hi (m lo)) lo (m hi) in
      rw h (
        reverse-at fuel (lo + 1) (hi - 1) k a (ground arith)
        ∙ reverse-outer lo hi a m (ground arith) k refl)
  | inr h ↦ rw h (reverse-meet lo hi a m (ground arith))
]
