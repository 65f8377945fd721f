-- ===== src/Vga/Typing.antt =====
-- What each character does in drivers/vga/vga_text.c, before line wrap and scrolling.
use Prim.Native.Nat.{bit_and}
use mathlib.Core.Path.{subst}
use aioncore.Base.{
  ℕ, ◌+◌, ◌-◌, ◌*◌, ◌%◌, ◌^◌, ◌≤◌, ◌≡◌, ◌≢◌, refl, true, false, arith, ap, sym, ◌∙◌, inl, inr, ◌⊎◌,
}
use aioncore.Base.Bits.Shifts.{bit_and-eights}
use aioncore.Vga.{Vga, cell, move_to, inc16, type_char, vga_text_putchar_at}
use aioncore.Vga.Rows.{putchar_at-Drawn, putchar_at-cell}
use aioncore.Vga.Cursor.{
  InBounds, position, is_printable, next_position, shown, Moved, refl-Moved, trans-Moved,
  Drawn-Moved, move_to-Moved,
}

-- the result of `type_char`
pub record Typed (c : ℕ) (s t : Vga) : Type 0 where
  pub width : t.cursor_x ≤ 80
  pub height : t.cursor_y ≤ 25
  pub bottom : t.cursor_y ≡ 25 → t.cursor_x ≡ 0
  pub moved : position t ≡ next_position c (position s)
  pub cells : (i : ℕ) → cell t i ≡ shown c (position s) s.current_color (cell s) i
  pub others : Moved s t
  pub ports : t.ports ≡ s.ports

-- a character that only moves the cursor
goes_to :
    (c : ℕ) (s : Vga) (x y : ℕ)
    → x ≤ 80
    → y ≤ 25
    → (y ≡ 25 → x ≡ 0)
    → y * 80 + x ≡ next_position c (position s)
    → ((i : ℕ) → shown c (position s) s.current_color (cell s) i ≡ cell s i)
    → Typed c s (move_to s x y)
goes_to c s x y a b e n k = record {
  width = a;
  height = b;
  bottom = e;
  moved = n;
  cells = λ i. sym (k i);
  others = move_to-Moved s s x y (refl-Moved s);
  ports = refl;
}

-- What `type_char` computes for the kinds of characters.
type_char-cases :
    (c : ℕ) (s : Vga)
    → let x = s.cursor_x in
      let y = s.cursor_y in
      let t = type_char c s in
      ((c ≡ 10) × (t ≡ move_to s 0 (inc16 y)))
      ⊎ ((c ≡ 13) × (t ≡ move_to s 0 y))
      ⊎ ((c ≡ 9) × (t ≡ move_to s (bit_and (x + 8) 0xFFFFFFF8 % 2 ^ 16) y))
      ⊎ ((c ≡ 8) × (x ≢ 0) × (t ≡ vga_text_putchar_at 32 (x - 1) y (move_to s (x - 1) y)))
      ⊎ ((c ≡ 8) × (x ≡ 0) × (t ≡ s))
      ⊎ ((is_printable c ≡ true)
          × (let u = vga_text_putchar_at c x y s in t ≡ move_to u (inc16 u.cursor_x) u.cursor_y))
      ⊎ ((c ≢ 8) × (c ≢ 9) × (c ≢ 10) × (c ≢ 13) × (is_printable c ≡ false) × (t ≡ s))
unfolding type_char
type_char-cases c s = ground arith

stays :
    (c : ℕ) (s : Vga)
    → InBounds s
    → next_position c (position s) ≡ position s
    → ((i : ℕ) → shown c (position s) s.current_color (cell s) i ≡ cell s i)
    → Typed c s s
stays c s v n k =
    goes_to c s s.cursor_x s.cursor_y (omega (arith, v.column)) (omega (arith, v.row))
      (λ e. ground (arith, v.row)) (sym n) k

-- a backspace that is not at the start of a line
backs :
    (s : Vga)
    → InBounds s
    → s.cursor_x ≢ 0
    → Typed 8 s
        (vga_text_putchar_at 32 (s.cursor_x - 1) s.cursor_y (move_to s (s.cursor_x - 1) s.cursor_y))
backs s v ne =
    let m = move_to s (s.cursor_x - 1) s.cursor_y in
    let d = putchar_at-Drawn 32 m.cursor_x m.cursor_y m in
    let x = ap (λ (t : Vga). t.cursor_x) d.rest in
    let y = ap (λ (t : Vga). t.cursor_y) d.rest in
    record {
      width = omega (arith, x, v.column);
      height = omega (arith, y, v.row);
      bottom = λ e. omega (arith, y, v.row);
      moved = ground (arith, x, y, v.column, v.row);
      cells = λ i.
          putchar_at-cell 32 m.cursor_x m.cursor_y m i (omega (arith, v.column)) v.row
          ∙ ground (arith, v.column, v.row);
      others = trans-Moved s m _ (move_to-Moved s s _ _ (refl-Moved s)) (Drawn-Moved m _ d);
      ports = ap (λ (t : Vga). t.ports) d.rest;
    }

prints :
    (c : ℕ) (s : Vga)
    → InBounds s
    → is_printable c ≡ true
    → let u = vga_text_putchar_at c s.cursor_x s.cursor_y s in
      Typed c s (move_to u (inc16 u.cursor_x) u.cursor_y)
prints c s v p =
    let u = vga_text_putchar_at c s.cursor_x s.cursor_y s in
    let d = putchar_at-Drawn c s.cursor_x s.cursor_y s in
    let x = ap (λ (t : Vga). t.cursor_x) d.rest in
    let y = ap (λ (t : Vga). t.cursor_y) d.rest in
    record {
      width = omega (arith, x, v.column);
      height = omega (arith, y, v.row);
      bottom = λ e. omega (arith, y, v.row);
      moved = ground (arith, x, y, v.column, v.row);
      cells = λ i. putchar_at-cell c s.cursor_x s.cursor_y s i v.column v.row ∙ ground arith;
      others = move_to-Moved s u _ _ (Drawn-Moved s u d);
      ports = ap (λ (t : Vga). t.ports) d.rest;
    }

pub type_char-Typed : (c : ℕ) (s : Vga) → InBounds s → Typed c s (type_char c s)
type_char-Typed c s v = elim (type_char-cases c s) [
  | inl (h, e) ↦ rw e (
      goes_to c s 0 (inc16 s.cursor_y) (omega arith) (omega (arith, v.row)) (λ e. refl)
        (ground (arith, v.row, v.column)) (λ i. ground arith))
  | inr (inl (h, e)) ↦ rw e (
      goes_to c s 0 s.cursor_y (omega arith) (omega (arith, v.row)) (λ e. refl)
        (ground (arith, v.row, v.column)) (λ i. ground arith))
  | inr (inr (inl (h, e))) ↦
      let tab = bit_and-eights (s.cursor_x + 8) in
      rw e (
        goes_to c s (bit_and (s.cursor_x + 8) 0xFFFFFFF8 % 2 ^ 16) s.cursor_y
          (omega (arith, v.column, tab)) (omega (arith, v.row)) (λ e. ground arith)
          (ground (arith, v.row, v.column, tab)) (λ i. ground arith))
  | inr (inr (inr (inl (h, ne, e)))) ↦ rw e (
      subst
        (λ k. Typed k s (
          vga_text_putchar_at 32 (s.cursor_x - 1) s.cursor_y
            (move_to s (s.cursor_x - 1) s.cursor_y)))
        (sym h) (backs s v ne))
  | inr (inr (inr (inr (inl (h, z, e))))) ↦
      rw e (stays c s v (ground (arith, v.column)) (λ i. ground (arith, v.column)))
  | inr (inr (inr (inr (inr (inl (h, e)))))) ↦ rw e (prints c s v h)
  | inr (inr (inr (inr (inr (inr (a, b, d, f, h, e)))))) ↦
      rw e (stays c s v (ground arith) (λ i. ground arith))
]
