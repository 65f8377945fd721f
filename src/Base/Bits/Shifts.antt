-- ===== src/Base/Bits/Shifts.antt =====
-- Words made of a high part and low bits, under the native bit operations.
use Prim.Native.Nat.{bit_and, bit_or}
use aioncore.Base.{ℕ, zero, suc, ◌+◌, ◌*◌, ◌/◌, ◌%◌, ◌^◌, ◌<◌, ◌≡◌, refl, arith}
use aioncore.Base.Bits.{bit_and-mask}
use aioncore.Base.Bits.Digits.{bit_or_step, bit_and_step, zero-bit_or}
use aioncore.Base.Bits.Nibbles.{bit_or-zero}

-- `x << k`, and `x >> k`
abbrev shift : (k x : ℕ) → ℕ
shift zero x = x
shift (suc k) x = 2 * shift k x

abbrev halve : (k x : ℕ) → ℕ
halve zero x = x
halve (suc k) x = halve k (x / 2)

bit_or-shift : (k h l : ℕ) → l < shift k 1 → bit_or (shift k h) l ≡ shift k h + l
bit_or-shift zero h l lt = let z : l ≡ 0 = omega arith in rw z (omega (arith, bit_or-zero h))
bit_or-shift (suc k) h l lt =
    let half : 2 * shift k h / 2 ≡ shift k h = omega arith in
    omega
      (arith, rw half at (bit_or_step (2 * shift k h) l), bit_or-shift k h (l / 2) (omega arith))

bit_and-shift : (k x m : ℕ) → bit_and x (shift k m) ≡ shift k (bit_and (halve k x) m)
bit_and-shift zero x m = refl
bit_and-shift (suc k) x m =
    let half : 2 * shift k m / 2 ≡ shift k m = omega arith in
    omega (arith, rw half at (bit_and_step x (2 * shift k m)), bit_and-shift k (x / 2) m)

-- `frame | flags`, for a frame's address and flags below the frame size
pub bit_or-frame : (f l : ℕ) → l < 4096 → bit_or (f * 4096) l ≡ f * 4096 + l
bit_or-frame f l lt =
    let e : shift 12 f ≡ f * 4096 = omega arith in rw e at (bit_or-shift 12 f l (omega arith))

-- `(high << 8) | low`
pub bit_or-below : (h l : ℕ) → l < 256 → bit_or (h * 256) l ≡ h * 256 + l
bit_or-below h l lt =
    let e : shift 8 h ≡ h * 256 = omega arith in rw e at (bit_or-shift 8 h l (omega arith))

-- `x & ~0xFFF`
pub bit_and-frame : (x : ℕ) → bit_and x 0xFFFFF000 ≡ x / 4096 % 2 ^ 20 * 4096
bit_and-frame x =
    let e : halve 12 x ≡ x / 4096 = omega arith in
    let s = rw e at (bit_and-shift 12 x 0xFFFFF) in omega (arith, s, bit_and-mask 20 (x / 4096))

bit_or-fresh : (k x : ℕ) → halve k x % 2 ≡ 0 → bit_or x (shift k 1) ≡ x + shift k 1
bit_or-fresh zero x z = omega (arith, bit_or_step x 1, bit_or-zero (x / 2))
bit_or-fresh (suc k) x z =
    let half : 2 * shift k 1 / 2 ≡ shift k 1 = omega arith in
    omega (arith, rw half at (bit_or_step x (2 * shift k 1)), bit_or-fresh k (x / 2) z)

-- Setting the bits 1 and 2, and reading the bits 1, 2 and 3.
pub bit_or-two : (x : ℕ) → x / 2 % 2 ≡ 0 → bit_or x 2 ≡ x + 2
bit_or-two = bit_or-fresh 1

pub bit_or-four : (x : ℕ) → x / 4 % 2 ≡ 0 → bit_or x 4 ≡ x + 4
bit_or-four x z = bit_or-fresh 2 x (omega arith)

pub bit_and-two : (x : ℕ) → bit_and x 2 ≡ 2 * (x / 2 % 2)
bit_and-two x = omega (arith, bit_and-shift 1 x 1, bit_and-mask 1 (x / 2))

pub bit_and-four : (x : ℕ) → bit_and x 4 ≡ 4 * (x / 4 % 2)
bit_and-four x = omega (arith, bit_and-shift 2 x 1, bit_and-mask 1 (x / 2 / 2))

pub bit_and-eight : (x : ℕ) → bit_and x 8 ≡ 8 * (x / 8 % 2)
bit_and-eight x = omega (arith, bit_and-shift 3 x 1, bit_and-mask 1 (x / 2 / 2 / 2))

-- `x & ~7`
pub bit_and-eights : (x : ℕ) → bit_and x 0xFFFFFFF8 ≡ x / 8 % 2 ^ 29 * 8
bit_and-eights x =
    let e : halve 3 x ≡ x / 8 = omega arith in
    let s = rw e at (bit_and-shift 3 x 0x1FFFFFFF) in omega (arith, s, bit_and-mask 29 (x / 8))

-- Low bits that are joined with bits above them, and bits that are all set.
bit_or-above :
    (k x l h : ℕ) → l < shift k 1 → bit_or (shift k x + l) (shift k h) ≡ shift k (bit_or x h) + l
bit_or-above zero x l h lt =
    let z : l ≡ 0 = omega arith in let e : x + 0 ≡ x = omega arith in rw z (rw e (omega arith))
bit_or-above (suc k) x l h lt =
    let a : (2 * shift k x + l) / 2 ≡ shift k x + l / 2 = omega arith in
    let b : 2 * shift k h / 2 ≡ shift k h = omega arith in
    let step = rw a at (rw b at (bit_or_step (2 * shift k x + l) (2 * shift k h))) in
    omega (arith, step, bit_or-above k x (l / 2) h (omega arith))

ones : ℕ → ℕ
ones zero = 0
ones (suc k) = 1 + 2 * ones k

bit_or-ones : (k x : ℕ) → x < shift k 1 → bit_or (ones k) x ≡ ones k
unfolding ones
bit_or-ones zero x lt = let z : x ≡ 0 = omega arith in rw z refl
bit_or-ones (suc k) x lt =
    let a : (1 + 2 * ones k) / 2 ≡ ones k = omega arith in
    let step = rw a at (bit_or_step (1 + 2 * ones k) x) in
    omega (arith, step, bit_or-ones k (x / 2) (omega arith))

pub bit_or-byte : (l h : ℕ) → l < 256 → bit_or l (h * 256) ≡ l + h * 256
bit_or-byte l h lt =
    let a : shift 8 h ≡ h * 256 = omega arith in
    let b : shift 8 0 + l ≡ l = omega arith in
    let s = rw b at (rw a at (bit_or-above 8 0 l h (omega arith))) in
    omega (arith, s, zero-bit_or h)

-- a byte below a byte of ones
pub bit_or-full : (l h : ℕ) → l < 256 → h < 256 → bit_or (0xFF00 + l) (h * 256) ≡ 0xFF00 + l
unfolding ones
bit_or-full l h a b =
    let e : shift 8 h ≡ h * 256 = omega arith in
    let s = rw e at (bit_or-above 8 255 l h (omega arith)) in
    omega (arith, s, bit_or-ones 8 h (omega arith))

pub bit_or-nibbles : (l h : ℕ) → l < 16 → bit_or l (h * 2 ^ 4) ≡ l + h * 16
bit_or-nibbles l h lt =
    let a : shift 4 h ≡ h * 2 ^ 4 = omega arith in
    let b : shift 4 0 + l ≡ l = omega arith in
    let s = rw b at (rw a at (bit_or-above 4 0 l h (omega arith))) in
    omega (arith, s, zero-bit_or h)
