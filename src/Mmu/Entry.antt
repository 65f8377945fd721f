-- ===== src/Mmu/Entry.antt =====
-- A write to one table entry, as the code of arch/x86/mmu.c makes it, changes the entry of one page.
use aioncore.Base.{
  ℕ, ◌+◌, ◌*◌, ◌/◌, ◌%◌, ◌^◌, ◌<◌, ◌≡◌, true, arith, ◌==◌, ◌&&◌, if◌then◌else◌, update,
}
use aioncore.Pmm.{Bytes}
use aioncore.Mmu.Tables.{cell, update-cell}
use aioncore.Mmu.Walk.{present, table, entry, IsSpace, IsOutside, StaysOutside}

unfoldable pub with_entry : (m : ℕ → ℕ) → (d page e : ℕ) → ℕ → ℕ
with_entry m d page e = update m (table m d (page / 1024) * 4096 + 4 * (page % 1024)) e

module _ (m : ℕ → ℕ) (taken : Bytes) (d page e : ℕ) (v : IsSpace m taken d) (lt : page < 2 ^ 20)
    (there : present m d (page / 1024) ≡ true) where
  cell-with_entry :
      (g j : ℕ)
      → j < 1024
      → cell (with_entry m d page e) g j
        ≡ (if (table m d (page / 1024) == g) && (page % 1024 == j) then e else cell m g j)
  unfolding with_entry
  cell-with_entry g j small =
      update-cell m (table m d (page / 1024)) (page % 1024) e g j (omega arith) small

  directory-with_entry : (j : ℕ) → j < 1024 → cell (with_entry m d page e) d j ≡ cell m d j
  directory-with_entry j small =
      ground (arith, cell-with_entry d j small, v.apart (page / 1024) (omega arith) there)

  -- The page has the entry `e` now, and every other page keeps its entry.
  pub entry-with_entry :
      (q : ℕ)
      → q < 2 ^ 20
      → entry (with_entry m d page e) d q ≡ (if page == q then e else entry m d q)
  unfolding entry
  entry-with_entry q small =
      let j = q / 1024 in
      ground (
        arith,
        directory-with_entry j (omega arith),
        cell-with_entry (table m d j) (q % 1024) (omega arith),
        v.distinct (page / 1024) j (omega arith) (omega arith) there,
      )

  pub with_entry-IsSpace : IsSpace (with_entry m d page e) taken d
  with_entry-IsSpace = record {
    in_memory = v.in_memory;
    directory = v.directory;
    apart = λ j a p. ground (arith, directory-with_entry j a, v.apart j a);
    distinct = λ j k a b p q h.
        ground (arith, directory-with_entry j a, directory-with_entry k b, v.distinct j k a b);
    marked = λ j a p. ground (arith, directory-with_entry j a, v.marked j a);
  }

  pub with_entry-StaysOutside :
      (c : ℕ) → IsOutside m d c → StaysOutside m (with_entry m d page e) d c
  with_entry-StaysOutside c o = record {
    outside = record {
      no_directory = o.no_directory;
      no_table = λ j a p. ground (arith, directory-with_entry j a, o.no_table j a);
    };
    words =
        λ j a. ground (arith, cell-with_entry c j a, o.no_table (page / 1024) (omega arith) there);
  }
