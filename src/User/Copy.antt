-- ===== src/User/Copy.antt =====
-- The copy of the code in `task_create_user` of core/user.c, through the page tables.
use aioncore.Base.{
  ℕ, zero, suc, ◌+◌, ◌-◌, ◌*◌, ◌/◌, ◌%◌, ◌^◌, ◌≤◌, ◌<◌, ◌≡◌, ◌≢◌, refl, true, false, arith, ◌==◌,
  if◌then◌else◌, some, ◌∙◌, Bool-cases, inl, inr, ◌⊎◌,
}
use aioncore.Base.Words.{add32}
use aioncore.Mmu.{Mmu}
use aioncore.Mmu.Walk.{entry, IsOutside}
use aioncore.Mmu.Outside.{OnlyIn, outside-entry}
use aioncore.User.{physical, byte_at, put_byte, move_byte, copy_code}

-- the four bytes of a word
four : (k : ℕ) → k < 4 → (k ≡ 0) ⊎ (k ≡ 1) ⊎ (k ≡ 2) ⊎ (k ≡ 3)
four k lt = ground arith

-- a byte of a word in which one byte was replaced
byte_of_word :
    (w b i k : ℕ)
    → b < 256
    → i < 4
    → k < 4
    → (w - w / 256 ^ i % 256 * 256 ^ i + b * 256 ^ i) / 256 ^ k % 256
      ≡ (if i == k then b else w / 256 ^ k % 256)
byte_of_word w b i k lb li lk = elim (four i li) [
  | inl e ↦ elim (four k lk) [
    | inl f ↦ rw e (rw f (omega arith))
    | inr (inl f) ↦ rw e (rw f (omega arith))
    | inr (inr (inl f)) ↦ rw e (rw f (omega arith))
    | inr (inr (inr f)) ↦ rw e (rw f (omega arith))
  ]
  | inr (inl e) ↦ elim (four k lk) [
    | inl f ↦ rw e (rw f (omega arith))
    | inr (inl f) ↦ rw e (rw f (omega arith))
    | inr (inr (inl f)) ↦ rw e (rw f (omega arith))
    | inr (inr (inr f)) ↦ rw e (rw f (omega arith))
  ]
  | inr (inr (inl e)) ↦ elim (four k lk) [
    | inl f ↦ rw e (rw f (omega arith))
    | inr (inl f) ↦ rw e (rw f (omega arith))
    | inr (inr (inl f)) ↦ rw e (rw f (omega arith))
    | inr (inr (inr f)) ↦ rw e (rw f (omega arith))
  ]
  | inr (inr (inr e)) ↦ elim (four k lk) [
    | inl f ↦ rw e (rw f (omega arith))
    | inr (inl f) ↦ rw e (rw f (omega arith))
    | inr (inr (inl f)) ↦ rw e (rw f (omega arith))
    | inr (inr (inr f)) ↦ rw e (rw f (omega arith))
  ]
]

byte-lt : (m : ℕ → ℕ) (a : ℕ) → byte_at m a < 256
unfolding byte_at
byte-lt m a = omega arith

-- A byte that is stored is read back, and no other byte changes.
byte-put :
    (m : ℕ → ℕ) (a b x : ℕ)
    → b < 256
    → byte_at (put_byte m a b) x ≡ (if a == x then b else byte_at m x)
unfolding byte_at put_byte
byte-put m a b x lb = elim (Bool-cases (a - a % 4 == x - x % 4)) [
  | inl e ↦
      let s : a - a % 4 ≡ x - x % 4 = ground arith in
      let w = byte_of_word (m (x - x % 4)) b (a % 4) (x % 4) lb (omega arith) (omega arith) in
      let same : (a == x) ≡ (a % 4 == x % 4) = ground arith in rw e (rw same (rw s w))
  | inr e ↦ let other : (a == x) ≡ false = ground arith in rw e (rw other refl)
]

-- a store in frame `c`
put-OnlyIn : (m : ℕ → ℕ) (c a b : ℕ) → a / 4096 ≡ c → OnlyIn c m (put_byte m a b)
unfolding put_byte
put-OnlyIn m c a b e g j lt ne =
    let off : (a - a % 4 == g * 4096 + 4 * j) ≡ false = ground arith in rw off refl

-- The bytes of other frames are kept.
other_byte : (m n : ℕ → ℕ) (c x : ℕ) → OnlyIn c m n → x / 4096 ≢ c → byte_at n x ≡ byte_at m x
unfolding byte_at
other_byte m n c x only ne =
    let e : x - x % 4 ≡ x / 4096 * 4096 + 4 * (x % 4096 / 4) = omega arith in
    let s = only (x / 4096) (x % 4096 / 4) (omega arith) ne in rw e (rw s refl)

abbrev pub with_memory : Mmu → (ℕ → ℕ) → Mmu
with_memory u memory = record u { memory = memory }

-- The first `n` bytes from `src` on can be read, byte `k` at the physical address `p k`, which is outside
-- frame `c`.
pub record IsSource (u : Mmu) (c src n : ℕ) (p : ℕ → ℕ) : Type 0 where
  pub in_range : src + n ≤ 2 ^ 32
  pub read : (k : ℕ) → k < n → physical u (src + k) ≡ some (p k)
  pub elsewhere : (k : ℕ) → k < n → p k / 4096 ≢ c

-- The first `n` bytes of frame `c` are those read before, and no other frame differs.
pub record Copied (u : Mmu) (c n : ℕ) (p : ℕ → ℕ) (memory : ℕ → ℕ) : Type 0 where
  pub bytes : (k : ℕ) → k < n → byte_at memory (c * 4096 + k) ≡ byte_at u.memory (p k)
  pub only : OnlyIn c u.memory memory

module _ (u : Mmu) (d c src n : ℕ) (p : ℕ → ℕ) (on : u.paging ≡ true) (cr3 : u.cr3 ≡ d * 4096)
    (o : IsOutside u.memory d c) (small : c < 2 ^ 20)
    (mapped : entry u.memory d 0x400 ≡ c * 4096 + 7) (le : n ≤ 4096)
    (v : IsSource u c src n p) where
  -- the translation of an address during the copy
  physical-same :
      (memory : ℕ → ℕ) (a : ℕ)
      → OnlyIn c u.memory memory
      → a < 2 ^ 32
      → physical (with_memory u memory) a ≡ physical u a
  unfolding physical
  physical-same memory a only lt =
      let q : u.cr3 / 4096 ≡ d = omega arith in
      let e = outside-entry u.memory memory d c only o (a / 4096) (omega arith) in rw q (rw e refl)

  physical-code : (k : ℕ) → k < 4096 → physical u (0x400000 + k) ≡ some (c * 4096 + k)
  unfolding physical
  physical-code k lt =
      let q : u.cr3 / 4096 ≡ d = omega arith in
      let page : (0x400000 + k) / 4096 ≡ 0x400 = omega arith in
      let odd : ((c * 4096 + 7) % 2 == 0) ≡ false = ground arith in
      let a : (c * 4096 + 7) / 4096 % 2 ^ 20 * 4096 + (0x400000 + k) % 4096 ≡ c * 4096 + k =
        omega arith in
      rw on (rw q (rw page (rw mapped (rw odd (rw a refl)))))

  move-eq :
      (memory : ℕ → ℕ) (k : ℕ)
      → OnlyIn c u.memory memory
      → k < n
      → move_byte (add32 0x400000 k) (add32 src k) (with_memory u memory)
        ≡ some (with_memory u (put_byte memory (c * 4096 + k) (byte_at memory (p k))))
  unfolding move_byte
  move-eq memory k only lt =
      let r = v.in_range in
      let a : (src + k) % 2 ^ 32 ≡ src + k = omega arith in
      let b : (0x400000 + k) % 2 ^ 32 ≡ 0x400000 + k = omega arith in
      let x = physical-same memory (src + k) only (omega arith) ∙ v.read k lt in
      let y =
        physical-same memory (0x400000 + k) only (omega arith) ∙ physical-code k (omega arith) in
      rw a (rw b (rw x (rw y refl)))

  copy-Copied :
      (left k : ℕ) (memory : ℕ → ℕ)
      → k + left ≡ n
      → OnlyIn c u.memory memory
      → ((i : ℕ) → i < k → byte_at memory (c * 4096 + i) ≡ byte_at u.memory (p i))
      → (out : ℕ → ℕ) × (copy_code left 0x400000 src k (with_memory u memory)
          ≡ some (with_memory u out))
        × Copied u c n p out
  unfolding copy_code
  copy-Copied zero k memory e only done =
      (memory, refl, record { bytes = λ i lt. done i (omega arith); only = only })
  copy-Copied (suc left) k memory e only done =
      let next = put_byte memory (c * 4096 + k) (byte_at memory (p k)) in
      let stored = byte-put memory (c * 4096 + k) (byte_at memory (p k)) in
      let b = byte-lt memory (p k) in
      let lt : k < n = omega arith in
      let same = other_byte u.memory memory c (p k) only (v.elsewhere k lt) in
      let here = put-OnlyIn memory c (c * 4096 + k) (byte_at memory (p k)) (omega arith) in
      let (out, eq, copied) =
        copy-Copied left (k + 1) next (omega arith) (λ g j a ne. here g j a ne ∙ only g j a ne)
          (λ i a. stored (c * 4096 + i) b ∙ ground (arith, done i, same)) in
      let m = move-eq memory k only lt in (out, rw m eq, copied)

  -- The copy does not fault.
  pub copied_lem :
      (out : ℕ → ℕ) × (copy_code n 0x400000 src 0 u ≡ some (with_memory u out)) × Copied u c n p out
  copied_lem =
      copy-Copied n 0 u.memory (omega arith) (λ g j a ne. refl) (λ i a. absurd (omega arith))
