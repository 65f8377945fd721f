-- ===== src/Pmm/Bitmap.antt =====
-- The bitmap helpers of mm/pmm.c: writes are read back, and the scan finds the lowest free frame.
use aioncore.Base.{
  ℕ, zero, suc, ◌+◌, ◌-◌, ◌*◌, ◌/◌, ◌%◌, ◌^◌, ◌≤◌, ◌<◌, ◌≡◌, refl, true, false, arith, ◌⊎◌, inl,
  inr, ◌==◌, ==_iff, if◌then◌else◌, Bool-cases, some, none, Option, ap, ◌∙◌,
}
use aioncore.Base.Bits.{
  bit, bit-complement, bit-zero, set_bit, clear_bit, test_bit, test_bit-bit, bit-set_bit,
  bit-clear_bit, set_bit-lt, bit_and-lt,
}
use native.Mathlib.Nat.{le_refl}
use native.Mathlib.Decide.{dec_lt}
use aioncore.Pmm.{
  Bytes, bitmap_test, bitmap_set, bitmap_clear, find_bit, find_byte, bitmap_find_free, max_frames,
  bitmap_size,
}

-- every array element is a byte
abbrev pub IsBytes : Bytes → Type 0
IsBytes m = (i : ℕ) → m i < 256

pub set-IsBytes : (m : Bytes) (f : ℕ) → IsBytes m → IsBytes (bitmap_set m f)
unfolding bitmap_set
set-IsBytes m f v i =
    ground (arith, v i, set_bit-lt 8 (m (f / 8)) (f % 8) (v (f / 8)) (omega arith))

pub clear-IsBytes : (m : Bytes) (f : ℕ) → IsBytes m → IsBytes (bitmap_clear m f)
unfolding bitmap_clear
clear-IsBytes m f v i =
    ground (arith, v i, bit_and-lt 8 (m (f / 8)) (2 ^ 32 - 1 - 2 ^ (f % 8)) (v (f / 8)))

-- `bitmap_test` after `bitmap_set`
pub test-set :
    (m : Bytes) (f g : ℕ)
    → bitmap_test (bitmap_set m f) g ≡ (if f == g then true else bitmap_test m g)
unfolding bitmap_test bitmap_set
test-set m f g = ground (
  arith,
  test_bit-bit (set_bit (m (f / 8)) (f % 8)) (g % 8),
  test_bit-bit (m (g / 8)) (g % 8),
  bit-set_bit (m (f / 8)) (f % 8) (g % 8),
)

-- `bitmap_test` after `bitmap_clear`
pub test-clear :
    (m : Bytes) (f g : ℕ)
    → bitmap_test (bitmap_clear m f) g ≡ (if f == g then false else bitmap_test m g)
unfolding bitmap_test bitmap_clear
test-clear m f g = ground (
  arith,
  test_bit-bit (clear_bit 32 (m (f / 8)) (f % 8)) (g % 8),
  test_bit-bit (m (g / 8)) (g % 8),
  bit-clear_bit 32 (m (f / 8)) (f % 8) (g % 8) (omega arith) (omega arith),
)

-- What the inner loop finds: the lowest clear bit of those it looks at.
abbrev LowestBit : (byte n bit : ℕ) → Option ℕ → Type 0
LowestBit byte n b none = (j : ℕ) → b ≤ j → j < b + n → test_bit byte j ≡ true
LowestBit byte n b (some k) =
    (b ≤ k)
    × (k < b + n)
    × (test_bit byte k ≡ false)
    × ((j : ℕ) → b ≤ j → j < k → test_bit byte j ≡ true)

LowestBit-suc :
    (byte n b : ℕ) (o : Option ℕ)
    → test_bit byte b ≡ true
    → LowestBit byte n (b + 1) o
    → LowestBit byte (suc n) b o
LowestBit-suc byte n b none t h = λ j p q. elim (Bool-cases (b == j)) [
  | inl e ↦ rw (← (==_iff b j).0 e) t
  | inr e ↦ h j (ground arith) (omega arith)
]
LowestBit-suc byte n b (some k) t h = (
  omega (arith, h.0),
  omega (arith, h.1),
  h.2,
  λ j p q. elim (Bool-cases (b == j)) [
    | inl e ↦ rw (← (==_iff b j).0 e) t
    | inr e ↦ h.3 j (ground arith) q
  ],
)

find_bit-LowestBit : (byte n b : ℕ) → LowestBit byte n b (find_bit byte n b)
unfolding find_bit
find_bit-LowestBit byte zero b = λ j p q. absurd (omega arith)
find_bit-LowestBit byte (suc n) b = elim (Bool-cases (test_bit byte b)) [
  | inl t ↦
      rw t (LowestBit-suc byte n b (find_bit byte n (b + 1)) t (find_bit-LowestBit byte n (b + 1)))
  | inr t ↦ rw t (le_refl b, omega arith, t, λ j p q. absurd (omega arith))
]

bit-ff : (j : ℕ) → j < 8 → bit 0xff j ≡ 1
bit-ff j h = omega (arith, bit-complement 8 0 j (omega arith) h, bit-zero j)

pub test_bit-ff : (j : ℕ) → j < 8 → test_bit 0xff j ≡ true
test_bit-ff j h = ground (arith, bit-ff j h, test_bit-bit 0xff j)

-- `r` is the lowest free frame from `lo` up to `hi`, or `max_frames` if there is none.
abbrev pub LowestFree : Bytes → (lo hi r : ℕ) → Type 0
LowestFree m lo hi r =
    ((r ≡ max_frames) × ((g : ℕ) → lo ≤ g → g < hi → bitmap_test m g ≡ true))
    ⊎ ((lo ≤ r)
        × (r < hi)
        × (bitmap_test m r ≡ false)
        × ((g : ℕ) → lo ≤ g → g < r → bitmap_test m g ≡ true))

-- A full byte in front of the rest.
LowestFree-full :
    (m : Bytes) (lo hi r : ℕ)
    → ((g : ℕ) → lo ≤ g → g < lo + 8 → bitmap_test m g ≡ true)
    → LowestFree m (lo + 8) hi r
    → LowestFree m lo hi r
LowestFree-full m lo hi r full (inl (e, h)) =
    inl (e, λ g p q. elim (dec_lt g (lo + 8)) [ yes k ↦ full g p k | no k ↦ h g (omega arith) q ])
LowestFree-full m lo hi r full (inr (a, b, c, h)) = inr (
  omega arith,
  b,
  c,
  λ g p q. elim (dec_lt g (lo + 8)) [ yes k ↦ full g p k | no k ↦ h g (omega arith) q ],
)

test-byte :
    (m : Bytes) (i g : ℕ) → i * 8 ≤ g → g < i * 8 + 8 → bitmap_test m g ≡ test_bit (m i) (g - i * 8)
unfolding bitmap_test
test-byte m i g p q =
    let e : g / 8 ≡ i = omega arith in let f : g % 8 ≡ g - i * 8 = omega arith in rw (e, f)

-- What the byte at `i` contributes, when the inner loop has found `o` in it.
LowestFree-byte :
    (m : Bytes) (i hi rest : ℕ) (o : Option ℕ)
    → LowestBit (m i) 8 0 o
    → i * 8 + 8 ≤ hi
    → LowestFree m (i * 8 + 8) hi rest
    → LowestFree m (i * 8) hi (elim o [ none ↦ rest | some bit ↦ i * 8 + bit ])
LowestFree-byte m i hi rest none all le h =
    LowestFree-full m (i * 8) hi rest
      (λ g p q. test-byte m i g p q ∙ all (g - i * 8) (omega arith) (omega arith)) h
LowestFree-byte m i hi rest (some k) (lo, up, clear, below) le h =
    let at : i * 8 + k - i * 8 ≡ k = omega arith in
    inr (
      omega arith,
      omega arith,
      test-byte m i (i * 8 + k) (omega arith) (omega arith) ∙ ap (test_bit (m i)) at ∙ clear,
      λ g p q. test-byte m i g p (omega arith) ∙ below (g - i * 8) (omega arith) (omega arith),
    )

find_byte-LowestFree : (m : Bytes) (n i : ℕ) → LowestFree m (i * 8) ((i + n) * 8) (find_byte m n i)
unfolding find_byte
find_byte-LowestFree m zero i = inl (refl, λ g p q. absurd (omega arith))
find_byte-LowestFree m (suc n) i =
    let next : LowestFree m (i * 8 + 8) ((i + suc n) * 8) (find_byte m n (i + 1)) =
      (let e : (i + 1) * 8 ≡ i * 8 + 8 = omega arith in
        let f : (i + 1 + n) * 8 ≡ (i + suc n) * 8 = omega arith in
        rw (e, f) at (find_byte-LowestFree m n (i + 1))) in
    elim (Bool-cases (m i == 0xff)) [
      | inl e ↦ rw e (
          LowestFree-full m (i * 8) ((i + suc n) * 8) (find_byte m n (i + 1))
            (λ g p q.
              test-byte m i g p q
              ∙ rw ((==_iff (m i) 0xff).0 e) (test_bit-ff (g - i * 8) (omega arith)))
            next)
      | inr e ↦ rw e (
          LowestFree-byte m i ((i + suc n) * 8) (find_byte m n (i + 1)) (find_bit (m i) 8 0)
            (find_bit-LowestBit (m i) 8 0) (omega arith) next)
    ]

-- The scan of the bitmap returns the lowest frame whose bit is clear, or MAX_FRAMES if every bit
-- is set.
pub bitmap_find_free-LowestFree : (m : Bytes) → LowestFree m 0 max_frames (bitmap_find_free m)
unfolding bitmap_find_free
bitmap_find_free-LowestFree m = find_byte-LowestFree m bitmap_size 0
