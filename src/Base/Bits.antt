-- ===== src/Base/Bits.antt =====
-- Bits of a number, and what `|`, `&` and `~` of C do to each of them.
mod Digits
pub mod Nibbles
pub mod Shifts
use Prim.Native.Nat.{bit_and, bit_or, min, max}
use native.Mathlib.Nat.{
  two-pow-succ, mod-lt, mod-eq_of_lt, div-add-mod, mul-add-mod_self_left, mul_assoc, le_refl,
}
use aioncore.Base.{
  ℕ, zero, suc, ◌+◌, ◌-◌, ◌*◌, ◌/◌, ◌%◌, ◌^◌, ◌≤◌, ◌<◌, ◌≡◌, ◌≢◌, refl, Bool, true, false, ap, ◌∙◌,
  not, inl, inr, Bool-cases, arith, ◌==◌, ==_iff, ltb, if◌then◌else◌,
}
use Digits.{zero-bit_and, zero-bit_or, bit_and_step, bit_or_step}

-- bit `j` of `x`, as 0 or 1
unfoldable pub bit : ℕ → ℕ → ℕ
bit x zero = x % 2
bit x (suc j) = bit (x / 2) j

pub bit-le-one : (x j : ℕ) → bit x j ≤ 1
unfolding bit
bit-le-one x zero = omega arith
bit-le-one x (suc j) = bit-le-one (x / 2) j

pub bit-zero : (j : ℕ) → bit 0 j ≡ 0
unfolding bit
bit-zero zero = refl
bit-zero (suc j) = bit-zero j

-- Each bit of a conjunction or disjunction is that of the operands.
pub bit-bit_and : (a b j : ℕ) → bit (bit_and a b) j ≡ min (bit a j) (bit b j)
unfolding bit
bit-bit_and a b zero = omega (arith, bit_and_step a b)
bit-bit_and a b (suc j) =
    let e : bit_and a b / 2 ≡ bit_and (a / 2) (b / 2) = omega (arith, bit_and_step a b) in
    rw e (bit-bit_and (a / 2) (b / 2) j)

pub bit-bit_or : (a b j : ℕ) → bit (bit_or a b) j ≡ max (bit a j) (bit b j)
unfolding bit
bit-bit_or a b zero = omega (arith, bit_or_step a b)
bit-bit_or a b (suc j) =
    let e : bit_or a b / 2 ≡ bit_or (a / 2) (b / 2) = omega (arith, bit_or_step a b) in
    rw e (bit-bit_or (a / 2) (b / 2) j)

pub pow-pos : (k : ℕ) → 0 < 2 ^ k
pow-pos zero = omega arith
pow-pos (suc k) = omega (arith, pow-pos k, two-pow-succ k)

-- `1 << k` has the one bit `k`.
pub bit-pow : (k j : ℕ) → bit (2 ^ k) j ≡ (if k == j then 1 else 0)
unfolding bit
bit-pow zero zero = refl
bit-pow zero (suc j) = ground (arith, bit-zero j)
bit-pow (suc k) zero = ground (arith, two-pow-succ k)
bit-pow (suc k) (suc j) =
    let e : 2 ^ suc k / 2 ≡ 2 ^ k = omega (arith, two-pow-succ k) in
    rw e (ground (arith, bit-pow k j))

-- `~x` on a word of `w` bits turns every bit round.
pub bit-complement : (w x j : ℕ) → x < 2 ^ w → j < w → bit (2 ^ w - 1 - x) j ≡ 1 - bit x j
unfolding bit
bit-complement zero x j hx hj = elim hj [ ]
bit-complement (suc w) x zero hx hj = omega (arith, two-pow-succ w)
bit-complement (suc w) x (suc j) hx hj =
    let e : (2 ^ suc w - 1 - x) / 2 ≡ 2 ^ w - 1 - x / 2 = omega (arith, two-pow-succ w) in
    rw e (bit-complement w (x / 2) j (omega (arith, two-pow-succ w)) (omega arith))

bit_and-zero_below : (n a : ℕ) → a ≤ n → bit_and a 0 ≡ 0
bit_and-zero_below zero a h = let e : a ≡ 0 = omega arith in rw e (zero-bit_and 0)
bit_and-zero_below (suc n) a h = elim (Bool-cases (a == 0)) [
  | inl e ↦ rw ((==_iff a 0).0 e) (zero-bit_and 0)
  | inr e ↦ omega (arith, bit_and_step a 0, bit_and-zero_below n (a / 2) (ground arith))
]

-- `x & (1 << k)` is the bit, in its place.
pub bit_and-pow : (x k : ℕ) → bit_and x (2 ^ k) ≡ bit x k * 2 ^ k
unfolding bit
bit_and-pow x zero =
    omega (arith, bit_and_step x 1, bit_and-zero_below (x / 2) (x / 2) (omega arith))
bit_and-pow x (suc k) =
    let e : 2 ^ suc k / 2 ≡ 2 ^ k = omega (arith, two-pow-succ k) in
    let step = bit_and_step x (2 ^ suc k) in
    omega (
      arith,
      (rw e at step),
      bit_and-pow (x / 2) k,
      two-pow-succ k,
      ap (λ (t : ℕ). bit (x / 2) k * t) (two-pow-succ k),
    )

-- A remainder by twice a number, from the remainder of the half.
mod_double : (x m : ℕ) → 0 < m → x % (2 * m) ≡ x / 2 % m * 2 + x % 2
mod_double x m h =
    let low = x / 2 % m * 2 + x % 2 in
    let small : low < 2 * m = omega (arith, mod-lt (x / 2) h) in
    let parts : x ≡ 2 * m * (x / 2 / m) + low =
      omega (arith, div-add-mod (x / 2) m, mul_assoc 2 m (x / 2 / m)) in
    ap (λ (t : ℕ). t % (2 * m)) parts
    ∙ mul-add-mod_self_left (2 * m) (x / 2 / m) low
    ∙ mod-eq_of_lt small

-- `x & ((1 << k) - 1)` keeps the low bits.
pub bit_and-mask : (k x : ℕ) → bit_and x (2 ^ k - 1) ≡ x % 2 ^ k
bit_and-mask zero x = omega (arith, bit_and-zero_below x x (le_refl x))
bit_and-mask (suc k) x =
    let half : (2 ^ suc k - 1) / 2 ≡ 2 ^ k - 1 = omega (arith, two-pow-succ k) in
    let step = bit_and_step x (2 ^ suc k - 1) in
    let double : 2 ^ suc k ≡ 2 * 2 ^ k = omega (arith, two-pow-succ k) in
    omega (
      arith,
      (rw half at step),
      bit_and-mask k (x / 2),
      two-pow-succ k,
      pow-pos k,
      mod_double x (2 ^ k) (pow-pos k),
      ap (λ (t : ℕ). x % t) double,
    )

pub bit_and-lt : (w a b : ℕ) → a < 2 ^ w → bit_and a b < 2 ^ w
bit_and-lt zero a b h = let e : a ≡ 0 = omega arith in rw e (omega (arith, zero-bit_and b))
bit_and-lt (suc w) a b h =
    let ih = bit_and-lt w (a / 2) (b / 2) (omega (arith, two-pow-succ w)) in
    omega (arith, bit_and_step a b, two-pow-succ w, ih)

pub bit_or-lt : (w a b : ℕ) → a < 2 ^ w → b < 2 ^ w → bit_or a b < 2 ^ w
bit_or-lt zero a b h k = let e : a ≡ 0 = omega arith in rw e (omega (arith, zero-bit_or b))
bit_or-lt (suc w) a b h k =
    let ih =
      bit_or-lt w (a / 2) (b / 2) (omega (arith, two-pow-succ w)) (omega (arith, two-pow-succ w)) in
    omega (arith, bit_or_step a b, two-pow-succ w, ih)

-- A word is determined by its bits.
pub eq_of_bits : (w x y : ℕ) → x < 2 ^ w → y < 2 ^ w → ((j : ℕ) → j < w → bit x j ≡ bit y j) → x ≡ y
unfolding bit
eq_of_bits zero x y hx hy h = omega arith
eq_of_bits (suc w) x y hx hy h = omega (
  arith,
  h 0 (omega arith),
  eq_of_bits w (x / 2) (y / 2) (omega (arith, two-pow-succ w)) (omega (arith, two-pow-succ w))
      λ j hj. h (suc j) (omega arith),
)

-- Writing one bit of a word, and testing it, as C spells them.
abbrev pub set_bit : ℕ → ℕ → ℕ
set_bit x k = bit_or x (2 ^ k)

-- `x & ~(1 << k)` on a word of `w` bits
abbrev pub clear_bit : ℕ → ℕ → ℕ → ℕ
clear_bit w x k = bit_and x (2 ^ w - 1 - 2 ^ k)

-- `(x & (1 << k)) != 0`
abbrev pub test_bit : ℕ → ℕ → Bool
test_bit x k = not (bit_and x (2 ^ k) == 0)

pub pow-lt-pow : (k w : ℕ) → k < w → 2 ^ k < 2 ^ w
pow-lt-pow k zero h = elim h [ ]
pow-lt-pow zero (suc w) h = omega (arith, two-pow-succ w, pow-pos w)
pow-lt-pow (suc k) (suc w) h =
    omega (arith, two-pow-succ w, two-pow-succ k, pow-lt-pow k w (omega arith))

pub test_bit-bit : (x k : ℕ) → test_bit x k ≡ (bit x k == 1)
test_bit-bit x k = elim (Bool-cases (bit x k == 1)) [
  | inl e ↦
      ground
        (arith, bit_and-pow x k, pow-pos k, ap (λ (t : ℕ). t * 2 ^ k) ((==_iff (bit x k) 1).0 e))
  | inr e ↦
      let z : bit x k ≡ 0 = ground (arith, bit-le-one x k) in
      ground (arith, bit_and-pow x k, ap (λ (t : ℕ). t * 2 ^ k) z)
]

pub bit-set_bit : (x k j : ℕ) → bit (set_bit x k) j ≡ (if k == j then 1 else bit x j)
bit-set_bit x k j = ground (arith, bit-bit_or x (2 ^ k) j, bit-pow k j, bit-le-one x j)

pub bit-clear_bit :
    (w x k j : ℕ) → k < w → j < w → bit (clear_bit w x k) j ≡ (if k == j then 0 else bit x j)
bit-clear_bit w x k j hk hj = ground (
  arith,
  bit-bit_and x (2 ^ w - 1 - 2 ^ k) j,
  bit-complement w (2 ^ k) j (pow-lt-pow k w hk) hj,
  bit-pow k j,
  bit-le-one x j,
)

pub set_bit-lt : (w x k : ℕ) → x < 2 ^ w → k < w → set_bit x k < 2 ^ w
set_bit-lt w x k hx hk = bit_or-lt w x (2 ^ k) hx (pow-lt-pow k w hk)

pub clear_bit-lt : (w x k : ℕ) → x < 2 ^ w → clear_bit w x k < 2 ^ w
clear_bit-lt w x k hx = bit_and-lt w x (2 ^ w - 1 - 2 ^ k) hx
