-- ===== src/Vga/Rows.antt =====
-- What the loops of drivers/vga/vga_text.c write: the cells of the screen, and nothing else.
use aioncore.Base.{
  ℕ, zero, suc, ◌+◌, ◌*◌, ◌≤◌, ◌<◌, ◌≡◌, ◌≢◌, refl, arith, ◌==◌, ◌&&◌, ◌||◌, ltb, leb,
  if◌then◌else◌, update, ap, ◌∙◌, Bool-cases, inl, inr,
}
use aioncore.Vga.{
  Vga, make_entry, put_cell, cell, fill_cells, fill_rows, copy_cells, copy_rows, vga_text_scroll,
  vga_text_putchar_at,
}

-- Only cells of the screen differ between `s` and `t`.
pub record Drawn (s t : Vga) : Type 0 where
  pub rest : t ≡ record s { memory = t.memory }
  pub outside : (a : ℕ) → ((i : ℕ) → i < 2000 → a ≢ s.buffer + 2 * i) → t.memory a ≡ s.memory a

pub refl-Drawn : (s : Vga) → Drawn s s
refl-Drawn s = record { rest = refl; outside = λ a h. refl }

pub put_cell-Drawn : (s t : Vga) (i v : ℕ) → i < 2000 → Drawn s t → Drawn s (put_cell t i v)
put_cell-Drawn s t i v lt d =
    let b : t.buffer ≡ s.buffer = ap (λ (x : Vga). x.buffer) d.rest in
    record {
      rest = ap (λ (x : Vga). record x { memory = update t.memory (t.buffer + 2 * i) v }) d.rest;
      outside = λ a h. ground (arith, h i lt, d.outside a h);
    }

pub same_buffer : (s t : Vga) → Drawn s t → t.buffer ≡ s.buffer
same_buffer s t d = ap (λ (x : Vga). x.buffer) d.rest

fill_cells-Drawn :
    (n base blank : ℕ) (s t : Vga)
    → base + n ≤ 2000
    → Drawn s t
    → Drawn s (fill_cells n base blank t)
unfolding fill_cells
fill_cells-Drawn zero base blank s t le d = d
fill_cells-Drawn (suc n) base blank s t le d =
    put_cell-Drawn s (fill_cells n base blank t) (base + n) blank (omega arith)
      (fill_cells-Drawn n base blank s t (omega arith) d)

fill_cells-cell :
    (n base blank : ℕ) (s : Vga) (i : ℕ)
    → cell (fill_cells n base blank s) i
      ≡ (if leb base i && ltb i (base + n) then blank else cell s i)
unfolding fill_cells
fill_cells-cell zero base blank s i = ground arith
fill_cells-cell (suc n) base blank s i = ground (arith, fill_cells-cell n base blank s i)

pub fill_rows-Drawn : (n blank : ℕ) (s : Vga) → n ≤ 25 → Drawn s (fill_rows n blank s)
unfolding fill_rows
fill_rows-Drawn zero blank s le = refl-Drawn s
fill_rows-Drawn (suc n) blank s le =
    fill_cells-Drawn 80 (n * 80) blank s (fill_rows n blank s) (omega arith)
      (fill_rows-Drawn n blank s (omega arith))

pub fill_rows-cell :
    (n blank : ℕ) (s : Vga) (i : ℕ)
    → cell (fill_rows n blank s) i ≡ (if ltb i (n * 80) then blank else cell s i)
unfolding fill_rows
fill_rows-cell zero blank s i = ground arith
fill_rows-cell (suc n) blank s i =
    fill_cells-cell 80 (n * 80) blank (fill_rows n blank s) i
    ∙ ground (arith, fill_rows-cell n blank s i)

copy_cells-Drawn : (n y : ℕ) (s t : Vga) → n ≤ 80 → y < 24 → Drawn s t → Drawn s (copy_cells n y t)
unfolding copy_cells
copy_cells-Drawn zero y s t le lt d = d
copy_cells-Drawn (suc n) y s t le lt d =
    put_cell-Drawn s (copy_cells n y t) (y * 80 + n) _ (omega arith)
      (copy_cells-Drawn n y s t (omega arith) lt d)

copy_cells-cell :
    (n y : ℕ) (s : Vga) (i : ℕ)
    → n ≤ 80
    → cell (copy_cells n y s) i
      ≡ (if leb (y * 80) i && ltb i (y * 80 + n) then cell s (i + 80) else cell s i)
unfolding copy_cells
copy_cells-cell zero y s i le = ground arith
copy_cells-cell (suc n) y s i le =
    let j = (y + 1) * 80 + n in
    let e : y * 80 + n + 80 ≡ j = omega arith in
    let source : cell (copy_cells n y s) j ≡ cell s (y * 80 + n + 80) =
      rw e (copy_cells-cell n y s j (omega arith) ∙ ground arith) in
    ground (arith, copy_cells-cell n y s i (omega arith), source)

copy_rows-Drawn : (n : ℕ) (s : Vga) → n ≤ 24 → Drawn s (copy_rows n s)
unfolding copy_rows
copy_rows-Drawn zero s le = refl-Drawn s
copy_rows-Drawn (suc n) s le =
    copy_cells-Drawn 80 n s (copy_rows n s) (omega arith) (omega arith)
      (copy_rows-Drawn n s (omega arith))

copy_rows-cell :
    (n : ℕ) (s : Vga) (i : ℕ)
    → cell (copy_rows n s) i ≡ (if ltb i (n * 80) then cell s (i + 80) else cell s i)
unfolding copy_rows
copy_rows-cell zero s i = ground arith
copy_rows-cell (suc n) s i =
    copy_cells-cell 80 n (copy_rows n s) i (omega arith)
    ∙ ground (arith, copy_rows-cell n s i, copy_rows-cell n s (i + 80))

pub scroll-Drawn : (s : Vga) → Drawn s (vga_text_scroll s)
unfolding vga_text_scroll
scroll-Drawn s =
    fill_cells-Drawn 80 1920 (make_entry 32 s.current_color) s (copy_rows 24 s) (omega arith)
      (copy_rows-Drawn 24 s (omega arith))

-- Scrolling gives each cell of the first 24 rows what the cell below it held and fills the last
-- row with blanks in the current color.
pub scroll-cell :
    (s : Vga) (i : ℕ)
    → i < 2000
    → cell (vga_text_scroll s) i
      ≡ (if ltb i 1920 then cell s (i + 80) else make_entry 32 s.current_color)
unfolding vga_text_scroll
scroll-cell s i lt =
    fill_cells-cell 80 1920 (make_entry 32 s.current_color) (copy_rows 24 s) i
    ∙ ground (arith, copy_rows-cell 24 s i)

pub putchar_at-Drawn : (c x y : ℕ) (s : Vga) → Drawn s (vga_text_putchar_at c x y s)
unfolding vga_text_putchar_at
putchar_at-Drawn c x y s = elim (Bool-cases (leb 80 x || leb 25 y)) [
  | inl h ↦ rw h (refl-Drawn s)
  | inr h ↦
      rw h (
        put_cell-Drawn s s (y * 80 + x) (make_entry c s.current_color) (ground arith)
          (refl-Drawn s))
]

pub putchar_at-cell :
    (c x y : ℕ) (s : Vga) (i : ℕ)
    → x < 80
    → y < 25
    → cell (vga_text_putchar_at c x y s) i
      ≡ (if y * 80 + x == i then make_entry c s.current_color else cell s i)
unfolding vga_text_putchar_at
putchar_at-cell c x y s i a b = ground arith
