-- ===== src/Str/Compare.antt =====
-- The comparisons of lib/string.c: they decide at the first place where the operands differ.
use aioncore.Base.{
  ℕ, zero, suc, ◌+◌, ◌-◌, ◌≤◌, ◌<◌, ◌≡◌, ◌≢◌, refl, arith, ◌⊎◌, inl, inr, ◌==◌, ==_iff, Bool-cases,
  ◌&&◌, some, not,
}
use aioncore.Str.{Memory, Difference, difference, compare_bytes, memcmp, strcmp, strncmp}
use aioncore.Str.Strings.{IsString}

-- Among the indices from `i` up to `hi` the bytes agree.
abbrev pub Agree : Memory → (p q i hi : ℕ) → Type 0
Agree m p q i hi = (j : ℕ) → i ≤ j → j < hi → m (p + j) ≡ m (q + j)

-- The outcome of comparing from index `i` up to `hi`.
abbrev pub Compared : Memory → (p q i hi : ℕ) → Difference → Type 0
Compared m p q i hi d =
    ((d ≡ Difference.same) × Agree m p q i hi)
    ⊎ ((k : ℕ) × (i ≤ k)
        × (k < hi)
        × Agree m p q i k
        × (m (p + k) ≢ m (q + k))
        × (d ≡ difference (m (p + k)) (m (q + k))))

Compared-step :
    (m : Memory) (p q i hi : ℕ) (d : Difference)
    → m (p + i) ≡ m (q + i)
    → Compared m p q (i + 1) hi d
    → Compared m p q i hi d
Compared-step m p q i hi d e (inl (s, all)) = inl (
  s,
  λ j lo h. elim (Bool-cases (i == j)) [
    | inl f ↦ rw ((==_iff i j).0 f) at e
    | inr f ↦ all j (ground arith) h
  ],
)
Compared-step m p q i hi d e (inr (k, le, lt, all, ne, r)) = inr (
  k,
  omega arith,
  lt,
  (λ j lo h. elim (Bool-cases (i == j)) [
    | inl f ↦ rw ((==_iff i j).0 f) at e
    | inr f ↦ all j (ground arith) h
  ]),
  ne,
  r,
)

compare_bytes-Compared :
    (n : ℕ) (p q i : ℕ) (m : Memory) → Compared m p q i (i + n) (compare_bytes n p q i m)
unfolding compare_bytes
compare_bytes-Compared zero p q i m = inl (refl, λ j lo hi. absurd (omega arith))
compare_bytes-Compared (suc n) p q i m = elim (Bool-cases (m (p + i) == m (q + i))) [
  | inl e ↦
      let f : i + suc n ≡ i + 1 + n = omega arith in
      rw e (
        rw f (
          Compared-step m p q i (i + 1 + n) (compare_bytes n p q (i + 1) m)
            ((==_iff (m (p + i)) (m (q + i))).0 e) (compare_bytes-Compared n p q (i + 1) m)))
  | inr e ↦ rw e (
      inr (i, omega arith, omega arith, (λ j lo hi. absurd (omega arith)), ground (arith, e), refl))
]

-- memcmp gives 0 if the blocks agree in all bytes, and otherwise the difference of the first two
-- bytes that are not the same.
pub memcmp-Compared : (m : Memory) (s1 s2 n : ℕ) → Compared m s1 s2 0 n (memcmp m s1 s2 n)
unfolding memcmp
memcmp-Compared m s1 s2 n =
    let z : 0 + n ≡ n = omega arith in rw z at (compare_bytes-Compared n s1 s2 0 m)

-- Where a comparison of strings stops: the characters before `k` agree and are not 0, and those at `k` differ
-- or are 0.
abbrev pub StopsAt : Memory → (s1 s2 k : ℕ) → Type 0
StopsAt m s1 s2 k =
    ((j : ℕ) → j < k → (m (s1 + j) ≡ m (s2 + j)) × (m (s1 + j) ≢ 0))
    × ((m (s1 + k) ≡ 0) ⊎ (m (s1 + k) ≢ m (s2 + k)))

StopsAt-step :
    (m : Memory) (s1 s2 k : ℕ)
    → m s1 ≡ m s2
    → m s1 ≢ 0
    → StopsAt m (s1 + 1) (s2 + 1) k
    → StopsAt m s1 s2 (k + 1)
StopsAt-step m s1 s2 k e ne (all, end) =
    let a : s1 + (k + 1) ≡ s1 + 1 + k = omega arith in
    let b : s2 + (k + 1) ≡ s2 + 1 + k = omega arith in
    (
      λ j lt. elim (Bool-cases (j == 0)) [
        | inl z ↦ let z : j ≡ 0 = (==_iff j 0).0 z in rw z (ground arith)
        | inr z ↦
            let f : s1 + j ≡ s1 + 1 + (j - 1) = ground arith in
            let g : s2 + j ≡ s2 + 1 + (j - 1) = ground arith in
            rw (f, g) (all (j - 1) (ground arith))
      ],
      rw (a, b) end,
    )

-- With fuel above the length of the first string strcmp returns the difference of the characters
-- at the first place where the strings differ or the first one ends.
pub strcmp-StopsAt :
    (fuel : ℕ) (m : Memory) (s1 s2 n : ℕ)
    → IsString m s1 n
    → n < fuel
    → (k : ℕ) × (k ≤ n)
      × StopsAt m s1 s2 k
      × (strcmp fuel m s1 s2 ≡ some (difference (m (s1 + k)) (m (s2 + k))))
unfolding strcmp
strcmp-StopsAt zero m s1 s2 n s lt = elim lt [ ]
strcmp-StopsAt (suc fuel) m s1 s2 n s lt = elim (Bool-cases (not (m s1 == 0) && (m s1 == m s2))) [
  | inr e ↦
      let a : s1 + 0 ≡ s1 = omega arith in
      let b : s2 + 0 ≡ s2 = omega arith in
      (
        0,
        omega arith,
        rw (a, b) ((λ j h. absurd (omega arith)), ground (arith, e)),
        rw e (rw (a, b) refl),
      )
  | inl e ↦
      let ne : m s1 ≢ 0 = ground (arith, e) in
      let pos : 0 < n = ground (arith, s.1) in
      let (k, le, at, r) =
        strcmp-StopsAt fuel m (s1 + 1) (s2 + 1) (n - 1) (tail s pos) (omega arith) in
      let a : s1 + (k + 1) ≡ s1 + 1 + k = omega arith in
      let b : s2 + (k + 1) ≡ s2 + 1 + k = omega arith in
      (k + 1, omega arith, StopsAt-step m s1 s2 k (ground (arith, e)) ne at, rw e (rw (a, b) r))
]
  where
    tail : IsString m s1 n → 0 < n → IsString m (s1 + 1) (n - 1)
    tail (all, end) pos = (
      λ i small.
          (let f : s1 + 1 + i ≡ s1 + (i + 1) = omega arith in rw f (all (i + 1) (omega arith))),
      (let f : s1 + 1 + (n - 1) ≡ s1 + n = omega arith in rw f end),
    )

tail-same :
    (m : Memory) (s1 s2 n : ℕ)
    → m s1 ≡ m s2
    → m s1 ≢ 0
    → ((j : ℕ) → j < n → (m (s1 + 1 + j) ≡ m (s2 + 1 + j)) × (m (s1 + 1 + j) ≢ 0))
    → (j : ℕ) → j < suc n
    → (m (s1 + j) ≡ m (s2 + j)) × (m (s1 + j) ≢ 0)
tail-same m s1 s2 n e ne all zero lt =
    let a : s1 + 0 ≡ s1 = omega arith in let b : s2 + 0 ≡ s2 = omega arith in rw (a, b) (e, ne)
tail-same m s1 s2 n e ne all (suc j) lt =
    let a : s1 + suc j ≡ s1 + 1 + j = omega arith in
    let b : s2 + suc j ≡ s2 + 1 + j = omega arith in rw (a, b) (all j (omega arith))

-- strncmp gives the difference of the characters at the first of n places where the strings
-- differ or the first ends, and 0 if there is none.
pub strncmp-StopsAt :
    (n : ℕ) (m : Memory) (s1 s2 : ℕ)
    → ((k : ℕ) × (k < n)
        × StopsAt m s1 s2 k
        × (strncmp n m s1 s2 ≡ difference (m (s1 + k)) (m (s2 + k))))
      ⊎ ((strncmp n m s1 s2 ≡ Difference.same)
          × ((j : ℕ) → j < n → (m (s1 + j) ≡ m (s2 + j)) × (m (s1 + j) ≢ 0)))
unfolding strncmp
strncmp-StopsAt zero m s1 s2 = inr (refl, λ j lt. absurd (omega arith))
strncmp-StopsAt (suc n) m s1 s2 = elim (Bool-cases (not (m s1 == 0) && (m s1 == m s2))) [
  | inr e ↦
      let a : s1 + 0 ≡ s1 = omega arith in
      let b : s2 + 0 ≡ s2 = omega arith in
      inl (
        0,
        omega arith,
        rw (a, b) ((λ j h. absurd (omega arith)), ground (arith, e)),
        rw e (rw (a, b) refl),
      )
  | inl e ↦
      let ne : m s1 ≢ 0 = ground (arith, e) in
      let same : m s1 ≡ m s2 = ground (arith, e) in
      elim (strncmp-StopsAt n m (s1 + 1) (s2 + 1)) [
        | inl (k, lt, at, r) ↦
            let a : s1 + (k + 1) ≡ s1 + 1 + k = omega arith in
            let b : s2 + (k + 1) ≡ s2 + 1 + k = omega arith in
            inl (k + 1, omega arith, StopsAt-step m s1 s2 k same ne at, rw e (rw (a, b) r))
        | inr (r, all) ↦ inr (rw e r, tail-same m s1 s2 n same ne all)
      ]
]
