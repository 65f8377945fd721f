-- ===== src/Mmu/Outside.antt =====
-- Stores in a frame that holds neither the directory nor a table leave an address space of
-- arch/x86/mmu.c as it is.
use aioncore.Base.{ℕ, ◌/◌, ◌%◌, ◌^◌, ◌<◌, ◌≡◌, ◌≢◌, arith, sym}
use aioncore.Pmm.{Bytes}
use aioncore.Mmu.Tables.{cell}
use aioncore.Mmu.Walk.{table, entry, IsSpace, IsOutside}

-- Only frame `c` differs.
abbrev pub OnlyIn : (c : ℕ) → (m n : ℕ → ℕ) → Type 0
OnlyIn c m n = (g j : ℕ) → j < 1024 → g ≢ c → cell n g j ≡ cell m g j

module _ (m n : ℕ → ℕ) (d c : ℕ) (only : OnlyIn c m n) (o : IsOutside m d c) where
  directory_kept : (i : ℕ) → i < 1024 → cell n d i ≡ cell m d i
  directory_kept i lt = only d i lt (λ e. o.no_directory (sym e))

  pub outside-IsSpace : (taken : Bytes) → IsSpace m taken d → IsSpace n taken d
  outside-IsSpace taken v = record {
    in_memory = v.in_memory;
    directory = v.directory;
    apart = λ i a p. ground (arith, directory_kept i a, v.apart i a);
    distinct =
        λ i j a b p q e. ground (arith, directory_kept i a, directory_kept j b, v.distinct i j a b);
    marked = λ i a p. ground (arith, directory_kept i a, v.marked i a);
  }

  pub kept-IsOutside : IsOutside n d c
  kept-IsOutside = record {
    no_directory = o.no_directory;
    no_table = λ i a p. ground (arith, directory_kept i a, o.no_table i a);
  }

  -- for another frame too
  pub others-IsOutside : (g : ℕ) → IsOutside m d g → IsOutside n d g
  others-IsOutside g v = record {
    no_directory = v.no_directory;
    no_table = λ i a p. ground (arith, directory_kept i a, v.no_table i a);
  }

  pub outside-entry : (page : ℕ) → page < 2 ^ 20 → entry n d page ≡ entry m d page
  unfolding entry
  outside-entry page lt =
      let j = page / 1024 in
      ground (
        arith,
        directory_kept j (omega arith),
        only (table m d j) (page % 1024) (omega arith),
        o.no_table j (omega arith),
      )
