-- ===== src/Mmu/Walk.antt =====
-- What the processor finds in the tables of arch/x86/mmu.c for each page, and the invariant of an
-- address space: its directory and its tables stand in different frames, all taken.
use aioncore.Base.{
  ℕ, ◌+◌, ◌*◌, ◌/◌, ◌%◌, ◌^◌, ◌<◌, ◌≡◌, ◌≢◌, Bool, true, false, arith, ◌==◌, if◌then◌else◌, update,
}
use aioncore.Pmm.{Bytes, bitmap_test}
use aioncore.Mmu.{clear_entries}
use aioncore.Mmu.Tables.{cell, clear-cell, update-cell}

-- The directory is in frame `d`: whether its entry `i` is present, and the frame of its table.
abbrev pub present : (m : ℕ → ℕ) → (d i : ℕ) → Bool
present m d i = cell m d i % 2 == 1

abbrev pub table : (m : ℕ → ℕ) → (d i : ℕ) → ℕ
table m d i = cell m d i / 4096 % 2 ^ 20

-- The table entry that the processor reads for a page; 0, which is not present, if there is no
-- table.
unfoldable pub entry : (m : ℕ → ℕ) → (d page : ℕ) → ℕ
entry m d page =
    if present m d (page / 1024) then cell m (table m d (page / 1024)) (page % 1024) else 0

-- `taken` is the frame bitmap.
pub record IsSpace (m : ℕ → ℕ) (taken : Bytes) (d : ℕ) : Type 0 where
  pub in_memory : d < 2 ^ 20
  pub directory : bitmap_test taken d ≡ true
  pub apart : (i : ℕ) → i < 1024 → present m d i ≡ true → table m d i ≢ d
  pub distinct :
      (i j : ℕ)
      → i < 1024
      → j < 1024
      → present m d i ≡ true
      → present m d j ≡ true
      → table m d i ≡ table m d j
      → i ≡ j
  pub marked : (i : ℕ) → i < 1024 → present m d i ≡ true → bitmap_test taken (table m d i) ≡ true

-- More frames may be taken.
pub IsSpace-more :
    {m : ℕ → ℕ} {taken more : Bytes} {d : ℕ}
    → ((g : ℕ) → bitmap_test taken g ≡ true → bitmap_test more g ≡ true)
    → IsSpace m taken d
    → IsSpace m more d
IsSpace-more {m} {d} h v = record {
  in_memory = v.in_memory;
  directory = h d v.directory;
  apart = v.apart;
  distinct = v.distinct;
  marked = λ i lt p. h (table m d i) (v.marked i lt p);
}

-- Frame `c` holds neither the directory nor a table.
pub record IsOutside (m : ℕ → ℕ) (d c : ℕ) : Type 0 where
  pub no_directory : c ≢ d
  pub no_table : (i : ℕ) → i < 1024 → present m d i ≡ true → table m d i ≢ c

-- A frame outside the tables stays outside and keeps its words.
pub record StaysOutside (m n : ℕ → ℕ) (d c : ℕ) : Type 0 where
  pub outside : IsOutside n d c
  pub words : (j : ℕ) → j < 1024 → cell n c j ≡ cell m c j

-- Memory with a new, empty table in frame `f` for the directory entry `i`.
unfoldable pub with_table : (m : ℕ → ℕ) → (d i f : ℕ) → ℕ → ℕ
with_table m d i f = update (clear_entries 1024 (f * 4096) m) (d * 4096 + 4 * i) (f * 4096 + 7)

module _ (m : ℕ → ℕ) (taken : Bytes) (d i f : ℕ) (v : IsSpace m taken d) (lt : i < 1024)
    (small : f < 2 ^ 20) (free : bitmap_test taken f ≡ false) where
  not_directory : f ≢ d
  not_directory e = ground (arith, v.directory)

  -- the directory after the write
  directory-with_table :
      (j : ℕ)
      → j < 1024
      → cell (with_table m d i f) d j ≡ (if i == j then f * 4096 + 7 else cell m d j)
  unfolding with_table
  directory-with_table j small_j = ground (
    arith,
    update-cell (clear_entries 1024 (f * 4096) m) d i (f * 4096 + 7) d j lt small_j,
    clear-cell 1024 f m d j (omega arith) small_j,
    not_directory,
  )

  -- another frame after the write
  cell-with_table :
      (g j : ℕ)
      → j < 1024
      → g ≢ d
      → cell (with_table m d i f) g j ≡ (if f == g then 0 else cell m g j)
  unfolding with_table
  cell-with_table g j small_j ne = ground (
    arith,
    update-cell (clear_entries 1024 (f * 4096) m) d i (f * 4096 + 7) g j lt small_j,
    clear-cell 1024 f m g j (omega arith) small_j,
  )

  pub present-with_table :
      (j : ℕ)
      → j < 1024
      → present (with_table m d i f) d j ≡ (if i == j then true else present m d j)
  present-with_table j small_j = ground (arith, directory-with_table j small_j)

  table-with_table :
      (j : ℕ) → j < 1024 → table (with_table m d i f) d j ≡ (if i == j then f else table m d j)
  table-with_table j small_j = ground (arith, directory-with_table j small_j)

  -- The new table maps nothing, and the other pages keep their entries.
  pub entry-with_table :
      (page : ℕ)
      → page < 2 ^ 20
      → present m d i ≡ false
      → entry (with_table m d i f) d page ≡ entry m d page
  unfolding entry
  entry-with_table page lt_page missing =
      let j = page / 1024 in
      let small_j : j < 1024 = omega arith in
      let k = page % 1024 in
      ground (
        arith,
        present-with_table j small_j,
        table-with_table j small_j,
        cell-with_table f k (omega arith) not_directory,
        cell-with_table (table m d j) k (omega arith),
        v.apart j,
        v.marked j small_j,
      )

  pub with_table-IsSpace :
      (more : Bytes)
      → ((g : ℕ) → bitmap_test more g ≡ (if f == g then true else bitmap_test taken g))
      → IsSpace (with_table m d i f) more d
  with_table-IsSpace more h = record {
    in_memory = v.in_memory;
    directory = ground (arith, h d, v.directory);
    apart = λ j a p.
        ground (arith, present-with_table j a, table-with_table j a, not_directory, v.apart j a);
    distinct = λ j k a b p q e. ground (
      arith,
      present-with_table j a,
      present-with_table k b,
      table-with_table j a,
      table-with_table k b,
      v.distinct j k a b,
      v.marked j a,
      v.marked k b,
    );
    marked = λ j a p. ground (
      arith,
      present-with_table j a,
      table-with_table j a,
      v.marked j a,
      h (table (with_table m d i f) d j),
    );
  }

  pub with_table-StaysOutside :
      (c : ℕ)
      → bitmap_test taken c ≡ true
      → IsOutside m d c
      → StaysOutside m (with_table m d i f) d c
  with_table-StaysOutside c full o = record {
    outside = record {
      no_directory = o.no_directory;
      no_table =
          λ j a p. ground (arith, present-with_table j a, table-with_table j a, o.no_table j a);
    };
    words = λ j a. ground (arith, cell-with_table c j a o.no_directory);
  }
