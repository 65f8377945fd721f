-- ===== src/Number/Printed.antt =====
-- A number as text in the buffer of drivers/vga/vga.c: the digits turned round, with a terminator.
use native.Mathlib.Nat.{mul_comm}
use aioncore.Base.{
  ℕ, zero, suc, ◌+◌, ◌-◌, ◌*◌, ◌≤◌, ◌<◌, ◌≡◌, ◌≢◌, refl, update, arith, ◌⊎◌, ◌∙◌, sym, ap,
}
use aioncore.Number.{Memory, finish}
use aioncore.Number.Digits.{digit_value, low, IsDigit, Emitted}
use aioncore.Number.Reverse.{reverse-at}

-- The number that `n` characters stand for, the first digit first.
unfoldable pub reads : (base : ℕ) → Memory → (buf n : ℕ) → ℕ
reads base m buf zero = 0
reads base m buf (suc n) = reads base m buf n * base + digit_value (m (buf + n))

-- `n` characters that are the number in a base, without a leading zero, and a terminator.
pub record Text (base value buf : ℕ) (m : Memory) (n : ℕ) : Type 0 where
  pub some_digit : 1 ≤ n
  pub number : reads base m buf n ≡ value
  pub digits : (i : ℕ) → i < n → IsDigit base (m (buf + i))
  pub leading : value ≢ 0 → digit_value (m buf) ≢ 0
  pub shortest : value ≡ 0 → n ≡ 1
  pub terminated : m (buf + n) ≡ 0

-- The bytes that are not of the text.
unfoldable pub Untouched : (buf n : ℕ) → (m k : Memory) → Type 0
Untouched buf n m k = (a : ℕ) → (a < buf) ⊎ (buf + n < a) → k a ≡ m a

reads-low :
    (base : ℕ) (m k : Memory) (buf ptr n : ℕ)
    → ((i : ℕ) → i < n → m (buf + i) ≡ k (ptr + n - 1 - i))
    → reads base m buf n ≡ low base k ptr n
unfolding reads
reads-low base m k buf ptr zero h = refl
reads-low base m k buf ptr (suc n) h =
    let at : ptr + suc n - 1 - n ≡ ptr = omega arith in
    let last : m (buf + n) ≡ k ptr = h n (omega arith) ∙ ap k at in
    let rest = reads-low base m k buf (ptr + 1) n λ i lt.
      h i (omega arith)
      ∙ ap k (let e : ptr + suc n - 1 - i ≡ ptr + 1 + n - 1 - i = omega arith in e) in
    let c = mul_comm (low base k (ptr + 1) n) base in rw last (rw rest (omega arith))

-- `finish`, on `n` bytes
pub record Finished (buf n : ℕ) (k : Memory) (out : Memory × ℕ) : Type 0 where
  pub length : out.1 ≡ n
  pub turned : (i : ℕ) → i < n → out.0 (buf + i) ≡ k (buf + n - 1 - i)
  pub terminated : out.0 (buf + n) ≡ 0
  pub outside : (a : ℕ) → (a < buf) ⊎ (buf + n < a) → out.0 a ≡ k a

pub finish-Finished :
    (buf n : ℕ) (made : Memory × ℕ)
    → 1 ≤ n
    → made.1 ≡ buf + n
    → Finished buf n made.0 (finish buf made)
unfolding finish
finish-Finished buf n made ge e =
    let len : buf + n - buf ≡ n = omega arith in
    let k = update made.0 (buf + n) 0 in
    let at = λ (a : ℕ). reverse-at n buf (buf + n - 1) k a (omega arith) in
    rw e (
      rw len (record {
        length = refl;
        turned = λ i lt.
            let far : buf + (buf + n - 1) - (buf + i) ≡ buf + n - 1 - i = omega arith in
            at (buf + i) ∙ rw far (ground arith);
        terminated = at (buf + n) ∙ ground arith;
        outside = λ a h. at a ∙ ground arith;
      }))

-- digits turned round are a text
pub turned-Text :
    (base value buf ptr fuel : ℕ) (m : Memory) (made : Memory × ℕ) (out : Memory)
    → (d : Emitted base value ptr fuel m made)
    → ((i : ℕ) → i < d.count → out (buf + i) ≡ made.0 (ptr + d.count - 1 - i))
    → out (buf + d.count) ≡ 0
    → Text base value buf out d.count
turned-Text base value buf ptr fuel m made out d turned end = record {
  some_digit = d.some_digit;
  number = reads-low base out made.0 buf ptr d.count turned ∙ d.number;
  digits = λ i lt.
      let e : ptr + d.count - 1 - i ≡ ptr + (d.count - 1 - i) = omega arith in
      let t = turned i lt in rw t (rw e (d.digits (d.count - 1 - i) (omega arith)));
  leading = λ ne.
      let e : buf + 0 ≡ buf = omega arith in
      let f : ptr + d.count - 1 - 0 ≡ ptr + d.count - 1 = omega arith in
      let t : out buf ≡ made.0 (ptr + d.count - 1) =
        ap out (sym e) ∙ turned 0 (omega (arith, d.some_digit)) ∙ ap made.0 f in
      rw t (d.leading ne);
  shortest = d.shortest;
  terminated = end;
}

reads-same :
    (base : ℕ) (m k : Memory) (buf n : ℕ)
    → ((i : ℕ) → i < n → k (buf + i) ≡ m (buf + i))
    → reads base k buf n ≡ reads base m buf n
unfolding reads
reads-same base m k buf zero h = refl
reads-same base m k buf (suc n) h =
    let last = h n (omega arith) in
    let rest = reads-same base m k buf n λ i lt. h i (omega arith) in rw last (rw rest refl)

-- the same bytes are the same text
pub Text-same :
    (base value buf n : ℕ) (m k : Memory)
    → ((i : ℕ) → i ≤ n → k (buf + i) ≡ m (buf + i))
    → Text base value buf m n
    → Text base value buf k n
Text-same base value buf n m k h t =
    let z : buf + 0 ≡ buf = omega arith in
    let first : k buf ≡ m buf = rw z at (h 0 (omega arith)) in
    record {
      some_digit = t.some_digit;
      number = reads-same base m k buf n (λ i lt. h i (omega arith)) ∙ t.number;
      digits = λ i lt. let e = h i (omega arith) in rw e (t.digits i lt);
      leading = rw first t.leading;
      shortest = t.shortest;
      terminated = h n (omega arith) ∙ t.terminated;
    }
