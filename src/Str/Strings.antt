-- ===== src/Str/Strings.antt =====
-- The string operations of lib/string.c, on strings that end in a 0 byte.
use Prim.Native.Nat.{min}
use aioncore.Base.{
  ℕ, zero, suc, ◌+◌, ◌-◌, ◌≤◌, ◌<◌, ◌≡◌, ◌≢◌, refl, false, arith, ◌⊎◌, inl, inr, ◌==◌, ==_iff,
  if◌then◌else◌, update, Bool-cases, ◌∙◌, some,
}
use aioncore.Str.{Memory, strlen_from, strlen, copy_string, copy_forward, strlcpy}
use aioncore.Str.Copy.{in_block, forward-at}

-- `n` characters from `str` on, and the terminator behind them
abbrev pub IsString : Memory → (str n : ℕ) → Type 0
IsString m str n = ((i : ℕ) → i < n → m (str + i) ≢ 0) × (m (str + n) ≡ 0)

strlen_from-IsString :
    (fuel : ℕ) (m : Memory) (str n len : ℕ)
    → IsString m str n
    → len ≤ n
    → n - len < fuel
    → strlen_from fuel m str len ≡ some n
unfolding strlen_from
strlen_from-IsString zero m str n len s le lt = elim lt [ ]
strlen_from-IsString (suc fuel) m str n len (all, end) le lt = elim (Bool-cases (len == n)) [
  | inl e ↦ let e : len ≡ n = (==_iff len n).0 e in rw (e, end) refl
  | inr e ↦
      let ne : m (str + len) ≢ 0 = all len (ground arith) in
      ground (
        arith,
        strlen_from-IsString fuel m str n (len + 1) (all, end) (ground arith) (ground arith),
      )
]

-- With fuel above the length, `strlen` returns the length of a string.
pub strlen-IsString :
    (fuel : ℕ) (m : Memory) (str n : ℕ) → IsString m str n → n < fuel → strlen fuel m str ≡ some n
unfolding strlen
strlen-IsString fuel m str n s lt =
    strlen_from-IsString fuel m str n 0 s (omega arith) (omega arith)

-- The source, terminator included, lies apart from the `size` bytes of the destination.
abbrev pub Apart : (dst size src n : ℕ) → Type 0
Apart dst size src n = (src + n < dst) ⊎ (dst + size ≤ src)

-- The loop copies a block: as many characters as there are, or as there is room for.
copy_string-forward :
    (k dst src n i : ℕ) (m : Memory)
    → ((j : ℕ) → i ≤ j → j < n → m (src + j) ≢ 0)
    → m (src + n) ≡ 0
    → i ≤ n
    → Apart dst (i + k) src n
    → copy_string k dst src i m ≡ (copy_forward (min k (n - i)) dst src i m, i + min k (n - i))
unfolding copy_string copy_forward
copy_string-forward zero dst src n i m all end le apart = ground arith
copy_string-forward (suc k) dst src n i m all end le apart = elim (Bool-cases (i == n)) [
  | inl e ↦
      let e : i ≡ n = (==_iff i n).0 e in
      let z : min (suc k) (n - i) ≡ 0 = omega arith in
      let f : i + 0 ≡ i = omega arith in let b : m (src + i) ≡ 0 = rw e end in rw (z, f, b) refl
  | inr e ↦
      let lt : i < n = ground arith in
      let b : (m (src + i) == 0) ≡ false = ground (arith, all i (omega arith) lt) in
      let c : min (suc k) (n - i) ≡ suc (min k (n - (i + 1))) = omega arith in
      let f : i + suc (min k (n - (i + 1))) ≡ i + 1 + min k (n - (i + 1)) = omega arith in
      rw b (
        rw c (
          rw f (
            copy_string-forward k dst src n (i + 1) (update m (dst + i) (m (src + i)))
              (λ j lo hi. ground (arith, all j (omega arith) hi)) (ground arith) (omega arith)
              (ground arith))))
]

-- What a bounded copy of a string leaves: `c` of its characters and a terminator.
pub record Copied (m : Memory) (dst src c : ℕ) (out : Memory) : Type 0 where
  pub bytes :
      (a : ℕ)
      → out a ≡ (if dst + c == a then 0 else if in_block dst c a then m (src + (a - dst)) else m a)
  pub terminated : IsString out dst c

pub Copied_lem :
    (m : Memory) (dst src size n c : ℕ)
    → IsString m src n
    → Apart dst size src n
    → c ≤ n
    → c < size
    → Copied m dst src c (update (copy_forward c dst src 0 m) (dst + c) 0)
Copied_lem m dst src size n c (all, end) apart le lt =
    let at = λ (a : ℕ). forward-at c dst src 0 m a (ground (arith, apart)) in
    record {
      bytes = λ a. ground (arith, at a);
      terminated = (λ i small. ground (arith, at (dst + i), all i (omega arith)), ground arith);
    }

-- strlcpy into a buffer of positive size that lies apart from a terminated source copies as many
-- characters as fit before the terminator, always writes the terminator, changes no other byte,
-- and returns the number of characters copied.
pub strlcpy-Copied :
    (m : Memory) (dst src size n : ℕ)
    → IsString m src n
    → 0 < size
    → Apart dst size src n
    → ((strlcpy m dst src size).1 ≡ min n (size - 1))
      × Copied m dst src (min n (size - 1)) (strlcpy m dst src size).0
unfolding strlcpy
strlcpy-Copied m dst src size n (all, end) pos apart =
    let c = min n (size - 1) in
    let e : copy_string (size - 1) dst src 0 m ≡ (copy_forward c dst src 0 m, c) =
      copy_string-forward (size - 1) dst src n 0 m (λ j lo hi. all j hi) end (omega arith)
        (ground arith)
      ∙ (let k : min (size - 1) (n - 0) ≡ c = omega arith in
          let z : 0 + c ≡ c = omega arith in rw k (rw z refl)) in
    let b : (size == 0) ≡ false = ground arith in
    rw b (rw e (refl, Copied_lem m dst src size n c (all, end) apart (omega arith) (omega arith)))
