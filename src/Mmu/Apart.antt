-- ===== src/Mmu/Apart.antt =====
-- Changes of physical memory outside the taken frames leave the address spaces of arch/x86/mmu.c
-- as they are.
use aioncore.Base.{ℕ, ◌+◌, ◌*◌, ◌/◌, ◌%◌, ◌^◌, ◌<◌, ◌≡◌, ◌≢◌, refl, true, false, arith, update}
use aioncore.Pmm.{Bytes, bitmap_test}
use aioncore.Mmu.Tables.{cell}
use aioncore.Mmu.Walk.{table, entry, IsSpace}

-- The taken frames hold the same words.
unfoldable pub SameWords : Bytes → (m n : ℕ → ℕ) → Type 0
SameWords taken m n = (g i : ℕ) → i < 1024 → bitmap_test taken g ≡ true → cell n g i ≡ cell m g i

module _ (taken : Bytes) (m n : ℕ → ℕ) (same : SameWords taken m n) (d : ℕ)
    (v : IsSpace m taken d) where
  directory_same : (i : ℕ) → i < 1024 → cell n d i ≡ cell m d i
  unfolding SameWords
  directory_same i lt = same d i lt v.directory

  pub same-IsSpace : IsSpace n taken d
  same-IsSpace = record {
    in_memory = v.in_memory;
    directory = v.directory;
    apart = λ i a p. ground (arith, directory_same i a, v.apart i a);
    distinct =
        λ i j a b p q e. ground (arith, directory_same i a, directory_same j b, v.distinct i j a b);
    marked = λ i a p. ground (arith, directory_same i a, v.marked i a);
  }

  pub same_entry : (page : ℕ) → page < 2 ^ 20 → entry n d page ≡ entry m d page
  unfolding entry SameWords
  same_entry page lt =
      let j = page / 1024 in
      ground (
        arith,
        directory_same j (omega arith),
        same (table m d j) (page % 1024) (omega arith),
        v.marked j (omega arith),
      )

pub refl-SameWords : (taken : Bytes) (m : ℕ → ℕ) → SameWords taken m m
unfolding SameWords
refl-SameWords taken m g i lt h = refl

-- a store in a free frame
pub update-SameWords :
    (taken : Bytes) (m n : ℕ → ℕ) (f a w : ℕ)
    → a / 4096 ≡ f
    → bitmap_test taken f ≡ false
    → SameWords taken m n
    → SameWords taken m (update n a w)
unfolding SameWords
update-SameWords taken m n f a w e free same g j lt h =
    let elsewhere : a ≢ g * 4096 + 4 * j = (λ c. ground (arith, free)) in
    ground (arith, same g j lt h)
