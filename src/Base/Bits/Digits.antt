-- ===== src/Base/Bits/Digits.antt =====
-- One step of the native bit operations, from the digit recursion that defines them.
use Prim.Native.Nat.{bit_and, bit_or, digits, bit_and-bitwise, bit_or-bitwise, min, max}
use aioncore.Base.{ℕ, zero, suc, ◌+◌, ◌-◌, ◌*◌, ◌/◌, ◌%◌, ◌≤◌, ◌≡◌, refl, arith}

-- The recursion has ended once its count of rounds covers the left operand.
module _ (rest : ℕ → ℕ) (op : ℕ → ℕ → ℕ) where
  extra_rounds :
      (more rounds x y : ℕ)
      → x ≤ rounds
      → digits rest op (rounds + more) x y ≡ digits rest op rounds x y
  extra_rounds zero zero x y le = refl
  extra_rounds (suc more) zero zero y le =
      let z : 0 + suc more ≡ suc more = omega arith in rw z refl
  extra_rounds (suc more) zero (suc x) y le = elim le [ ]
  extra_rounds more (suc rounds) zero y le =
      let z : suc rounds + more ≡ suc (rounds + more) = omega arith in rw z refl
  extra_rounds more (suc rounds) (suc x) y le =
      let halves : suc x / 2 ≤ rounds = omega arith in
      let z : suc rounds + more ≡ suc (rounds + more) = omega arith in
      rw z (omega (arith, extra_rounds more rounds (suc x / 2) (y / 2) halves))

pub zero-bit_and : (y : ℕ) → bit_and 0 y ≡ 0
zero-bit_and = bit_and-bitwise 0

pub zero-bit_or : (y : ℕ) → bit_or 0 y ≡ y
zero-bit_or = bit_or-bitwise 0

-- Half of `suc x`, and the rounds that it leaves over.
spare : (x : ℕ) → suc x / 2 + (x - suc x / 2) ≡ x
spare x = omega arith

pub bit_and_step : (x y : ℕ) → bit_and x y ≡ min (x % 2) (y % 2) + 2 * bit_and (x / 2) (y / 2)
bit_and_step zero y =
    let here = zero-bit_and y in let below = zero-bit_and (y / 2) in omega (arith, here, below)
bit_and_step (suc x) y =
    let h = suc x / 2 in
    let same = extra_rounds (λ _. 0) min (x - h) h h (y / 2) (omega arith) in
    omega (arith, rw (spare x) at same, bit_and-bitwise h (y / 2), bit_and-bitwise (suc x) y)

pub bit_or_step : (x y : ℕ) → bit_or x y ≡ max (x % 2) (y % 2) + 2 * bit_or (x / 2) (y / 2)
bit_or_step zero y =
    let here = zero-bit_or y in let below = zero-bit_or (y / 2) in omega (arith, here, below)
bit_or_step (suc x) y =
    let h = suc x / 2 in
    let same = extra_rounds (λ d. d) max (x - h) h h (y / 2) (omega arith) in
    omega (arith, rw (spare x) at same, bit_or-bitwise h (y / 2), bit_or-bitwise (suc x) y)
