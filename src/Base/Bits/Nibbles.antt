-- ===== src/Base/Bits/Nibbles.antt =====
-- Numbers made of a high part and a low hexadecimal digit, under the native bit operations.
use Prim.Native.Nat.{bit_and, bit_or}
use aioncore.Base.{ℕ, zero, suc, ◌+◌, ◌*◌, ◌/◌, ◌%◌, ◌≤◌, ◌<◌, ◌≡◌, arith}
use aioncore.Base.Bits.{bit_and-mask}
use aioncore.Base.Bits.Digits.{bit_or_step, bit_and_step, zero-bit_or}

bit_or-zero_below : (n x : ℕ) → x ≤ n → bit_or x 0 ≡ x
bit_or-zero_below n zero le = zero-bit_or 0
bit_or-zero_below zero (suc x) le = elim le [ ]
bit_or-zero_below (suc n) (suc x) le =
    let half : suc x / 2 ≤ n = omega arith in
    omega (arith, bit_or_step (suc x) 0, bit_or-zero_below n (suc x / 2) half)

pub bit_or-zero : (x : ℕ) → bit_or x 0 ≡ x
bit_or-zero x = bit_or-zero_below x x (omega arith)

-- A number whose low digit is free, and a low digit.
pub bit_or-nibble : (h l : ℕ) → l < 16 → bit_or (16 * h) l ≡ 16 * h + l
bit_or-nibble h l lt =
    let a : 16 * h / 2 ≡ 8 * h = omega arith in
    let b : 8 * h / 2 ≡ 4 * h = omega arith in
    let c : 4 * h / 2 ≡ 2 * h = omega arith in
    let d : 2 * h / 2 ≡ h = omega arith in
    let z : l / 2 / 2 / 2 / 2 ≡ 0 = omega arith in
    let e0 : bit_or (2 * h / 2) (l / 2 / 2 / 2 / 2) ≡ h + l / 2 / 2 / 2 / 2 =
      rw (d, z) (omega (arith, bit_or-zero h)) in
    let e1 : bit_or (2 * h) (l / 2 / 2 / 2) ≡ 2 * h + l / 2 / 2 / 2 =
      omega (arith, bit_or_step (2 * h) (l / 2 / 2 / 2), e0) in
    let e2 : bit_or (4 * h) (l / 2 / 2) ≡ 4 * h + l / 2 / 2 =
      omega (arith, rw c at (bit_or_step (4 * h) (l / 2 / 2)), e1) in
    let e3 : bit_or (8 * h) (l / 2) ≡ 8 * h + l / 2 =
      omega (arith, rw b at (bit_or_step (8 * h) (l / 2)), e2) in
    omega (arith, rw a at (bit_or_step (16 * h) l), e3)

-- `x & 0xF0` on a byte
pub bit_and-high : (x : ℕ) → bit_and x 0xF0 ≡ 16 * (x / 16 % 16)
bit_and-high x =
    let q : x / 2 / 2 / 2 / 2 ≡ x / 16 = omega arith in
    let m : bit_and (x / 2 / 2 / 2 / 2) 15 ≡ x / 16 % 16 = rw q (bit_and-mask 4 (x / 16)) in
    omega (
      arith,
      bit_and_step x 240,
      bit_and_step (x / 2) 120,
      bit_and_step (x / 2 / 2) 60,
      bit_and_step (x / 2 / 2 / 2) 30,
      m,
    )
