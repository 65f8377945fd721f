-- ===== src/Base/Links.antt =====
-- What a doubly linked list stores, read off the sequence of its nodes: 0 is NULL, `first` and
-- `last_from 0` are the head and tail pointers, `next_in` and `prev_from 0` the links of a node.
use aioncore.Base.{
  ℕ, ◌≡◌, ◌≢◌, refl, true, false, ◌&&◌, not, arith, ◌⊎◌, ◌==◌, if◌then◌else◌, List, [], ◌∷◌, ◌++◌,
}
use aioncore.Base.Seqs.{has, Distinct, erase}

unfoldable pub first : List ℕ → ℕ
first [] = 0
first (x ∷ xs) = x

unfoldable pub last_from : ℕ → List ℕ → ℕ
last_from d [] = d
last_from d (x ∷ xs) = last_from x xs

unfoldable pub next_in : ℕ → List ℕ → ℕ
unfolding first
next_in a [] = 0
next_in a (x ∷ xs) = if a == x then first xs else next_in a xs

unfoldable pub prev_from : ℕ → ℕ → List ℕ → ℕ
prev_from p a [] = 0
prev_from p a (x ∷ xs) = if a == x then p else prev_from x a xs

-- Nodes that are not in the list have no links.
pub next_in_outside : (a : ℕ) (xs : List ℕ) → has a xs ≡ false → next_in a xs ≡ 0
unfolding next_in
next_in_outside a [] h = refl
next_in_outside a (x ∷ xs) h = ground (arith, next_in_outside a xs)

pub prev_from_outside : (p a : ℕ) (xs : List ℕ) → has a xs ≡ false → prev_from p a xs ≡ 0
unfolding prev_from
prev_from_outside p a [] h = refl
prev_from_outside p a (x ∷ xs) h = ground (arith, prev_from_outside x a xs)

-- Links lead to nodes of the list.
pub has-first : (xs : List ℕ) → first xs ≢ 0 → has (first xs) xs ≡ true
unfolding first
has-first [] h = absurd (h refl)
has-first (x ∷ xs) h = ground arith

pub has-next_in : (a : ℕ) (xs : List ℕ) → next_in a xs ≢ 0 → has (next_in a xs) xs ≡ true
unfolding next_in
has-next_in a [] h = absurd (h refl)
has-next_in a (x ∷ xs) h = ground (arith, has-first xs, has-next_in a xs)

pub has-prev_from :
    (p a : ℕ) (xs : List ℕ)
    → has a xs ≡ true
    → (prev_from p a xs ≡ p) ⊎ (has (prev_from p a xs) xs ≡ true)
unfolding prev_from
has-prev_from p a [] h = ground arith
has-prev_from p a (x ∷ xs) h = ground (arith, has-prev_from x a xs)

pub has-last_from : (x : ℕ) (xs : List ℕ) → has (last_from x xs) (x ∷ xs) ≡ true
unfolding last_from
has-last_from x [] = ground arith
has-last_from x (y ∷ ys) = ground (arith, has-last_from y ys)

pub has-last : (d : ℕ) (xs : List ℕ) → first xs ≢ 0 → has (last_from d xs) xs ≡ true
unfolding first last_from
has-last d [] h = absurd (h refl)
has-last d (x ∷ xs) h = has-last_from x xs

-- Appending a node.
pub first-snoc :
    (a : ℕ) (xs : List ℕ)
    → has 0 xs ≡ false
    → first (xs ++ (a ∷ [])) ≡ (if first xs == 0 then a else first xs)
unfolding first
first-snoc a [] h = refl
first-snoc a (x ∷ xs) h = ground arith

pub last_from-snoc : (d a : ℕ) (xs : List ℕ) → last_from d (xs ++ (a ∷ [])) ≡ a
unfolding last_from
last_from-snoc d a [] = refl
last_from-snoc d a (x ∷ xs) = last_from-snoc x a xs

pub next_in-snoc :
    (a b d : ℕ) (xs : List ℕ)
    → Distinct xs
    → has d xs ≡ false
    → has a xs ≡ false
    → has 0 xs ≡ false
    → next_in b (xs ++ (a ∷ [])) ≡ (if (last_from d xs == b) && has b xs then a else next_in b xs)
unfolding next_in last_from
next_in-snoc a b d [] u f h z = ground arith
next_in-snoc a b d (x ∷ []) u f h z = ground arith
next_in-snoc a b d (x ∷ (y ∷ ys)) u f h z =
    ground (arith, next_in-snoc a b x (y ∷ ys) u.1 u.0, has-last_from y ys)

pub prev_from-snoc :
    (p a b : ℕ) (xs : List ℕ)
    → has a xs ≡ false
    → prev_from p b (xs ++ (a ∷ [])) ≡ (if b == a then last_from p xs else prev_from p b xs)
unfolding prev_from last_from
prev_from-snoc p a b [] h = ground arith
prev_from-snoc p a b (x ∷ xs) h = ground (arith, prev_from-snoc x a b xs)

-- Removing a node: its neighbours are linked to one another.
pub first-erase :
    (a : ℕ) (xs : List ℕ)
    → has a xs ≡ true
    → first (erase a xs) ≡ (if first xs == a then next_in a xs else first xs)
unfolding first next_in erase
first-erase a [] h = ground arith
first-erase a (x ∷ xs) h = ground arith

pub last_from-erase :
    (d a : ℕ) (xs : List ℕ)
    → Distinct xs
    → has d xs ≡ false
    → has a xs ≡ true
    → last_from d (erase a xs) ≡ (if last_from d xs == a then prev_from d a xs else last_from d xs)
unfolding last_from prev_from erase
last_from-erase d a [] u f h = ground arith
last_from-erase d a (x ∷ []) u f h = ground arith
last_from-erase d a (x ∷ (y ∷ ys)) u f h =
    ground (arith, last_from-erase x a (y ∷ ys) u.1 u.0, has-last_from y ys)

-- The node before `a` is the one whose successor is `a`.
pub first-eq_iff_prev :
    (x a : ℕ) (ys : List ℕ)
    → has x ys ≡ false
    → has a ys ≡ true
    → (first ys == a) ≡ (prev_from x a ys == x)
unfolding first prev_from
first-eq_iff_prev x a [] f h = ground arith
first-eq_iff_prev x a (y ∷ ys) f h = ground (arith, has-prev_from y a ys)

pub next_in-erase :
    (p a b : ℕ) (xs : List ℕ)
    → Distinct xs
    → has p xs ≡ false
    → has a xs ≡ true
    → b ≢ a
    → next_in b (erase a xs)
      ≡ (if (prev_from p a xs == b) && not (b == p) then next_in a xs else next_in b xs)
unfolding next_in prev_from erase
next_in-erase p a b [] u f h ne = ground arith
next_in-erase p a b (x ∷ xs) u f h ne = ground (
  arith,
  next_in-erase x a b xs u.1 u.0,
  first-eq_iff_prev x a xs u.0,
  first-erase a xs,
  has-prev_from x a xs,
)

-- Only the first node's predecessor depends on `p`.
prev_from-first :
    (p x b : ℕ) (xs : List ℕ)
    → b ≢ 0
    → prev_from p b xs ≡ (if first xs == b then p else prev_from x b xs)
unfolding first prev_from
prev_from-first p x b [] ne = ground arith
prev_from-first p x b (y ∷ ys) ne = ground arith

pub prev_from-erase :
    (p a b : ℕ) (xs : List ℕ)
    → Distinct xs
    → has a xs ≡ true
    → b ≢ a
    → b ≢ 0
    → prev_from p b (erase a xs)
      ≡ (if next_in a xs == b then prev_from p a xs else prev_from p b xs)
unfolding next_in prev_from erase
prev_from-erase p a b [] u h ne nz = ground arith
prev_from-erase p a b (x ∷ xs) u h ne nz =
    ground (arith, prev_from-erase x a b xs u.1, prev_from-first p x b xs nz, has-next_in a xs)

-- No node is its own neighbour.
pub prev_from-ne :
    (p a : ℕ) (xs : List ℕ) → Distinct xs → p ≢ a → has a xs ≡ true → prev_from p a xs ≢ a
unfolding prev_from
prev_from-ne p a [] u ne h = ground arith
prev_from-ne p a (x ∷ xs) u ne h = ground (arith, prev_from-ne x a xs u.1)

pub next_in-ne : (a : ℕ) (xs : List ℕ) → Distinct xs → a ≢ 0 → next_in a xs ≢ a
unfolding next_in
next_in-ne a [] u ne = ground arith
next_in-ne a (x ∷ xs) u ne = ground (arith, next_in-ne a xs u.1 ne, has-first xs)

-- The last node is the one without a successor.
pub last-eq_iff_next :
    (d a : ℕ) (xs : List ℕ)
    → Distinct xs
    → has d xs ≡ false
    → has 0 xs ≡ false
    → has a xs ≡ true
    → (last_from d xs == a) ≡ (next_in a xs == 0)
unfolding last_from next_in
last-eq_iff_next d a [] u f z h = ground arith
last-eq_iff_next d a (x ∷ []) u f z h = ground arith
last-eq_iff_next d a (x ∷ (y ∷ ys)) u f z h =
    ground (arith, last-eq_iff_next x a (y ∷ ys) u.1 u.0, has-last_from y ys)
