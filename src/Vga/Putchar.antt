-- ===== src/Vga/Putchar.antt =====
-- `vga_text_putchar` of drivers/vga/vga_text.c: the position on the screen and the cells after a
-- character, with line wrap and scrolling.
use Prim.Native.Nat.{bit_and}
use mathlib.Core.Path.{subst}
use aioncore.Base.{
  ℕ, ◌+◌, ◌-◌, ◌/◌, ◌%◌, ◌^◌, ◌≤◌, ◌<◌, ◌≡◌, refl, arith, ltb, leb, if◌then◌else◌, ap, sym, ◌∙◌,
  Bool-cases, inl, inr, List, ◌∷◌,
}
use aioncore.Base.Bits.{bit_and-mask}
use aioncore.Vga.{
  Vga, vga_ctrl_reg, vga_data_reg, make_entry, cell, move_to, type_char, wrap_line, scroll_screen,
  update_hardware_cursor, vga_text_scroll, vga_text_putchar,
}
use aioncore.Vga.Rows.{scroll-Drawn, scroll-cell}
use aioncore.Vga.Cursor.{
  InBounds, position, next_position, shown, Moved, refl-Moved, trans-Moved, Drawn-Moved,
  move_to-Moved,
}
use aioncore.Vga.Typing.{type_char-Typed}

-- A position below the screen takes it up by one line.
abbrev pub scrolled : ℕ → ℕ
scrolled p = if leb 2000 p then p - 80 else p

abbrev pub scrolled_cells : (p blank : ℕ) → (cells : ℕ → ℕ) → ℕ → ℕ
scrolled_cells p blank cells i =
    if leb 2000 p then (if ltb i 1920 then cells (i + 80) else blank) else cells i

-- The bytes that tell the hardware a position, before the ones that were sent.
abbrev pub position_sent : (p : ℕ) → List (ℕ × ℕ) → List (ℕ × ℕ)
position_sent p ports =
    (vga_data_reg, p / 256)
    ∷ (vga_ctrl_reg, 0x0E)
    ∷ (vga_data_reg, p % 256)
    ∷ (vga_ctrl_reg, 0x0F)
    ∷ ports

pub update_hardware_cursor-eq :
    (s : Vga)
    → InBounds s
    → update_hardware_cursor s
      ≡ record s { ports = if s.hal then position_sent (position s) s.ports else s.ports }
unfolding update_hardware_cursor
update_hardware_cursor-eq s v =
    let p = position s in
    let m : p % 2 ^ 16 ≡ p = omega (arith, v.column, v.row) in
    let a = bit_and-mask 8 p in
    let b : bit_and (p / 2 ^ 8) 0xFF ≡ p / 256 =
      omega (arith, bit_and-mask 8 (p / 256), v.column, v.row) in
    rw m (rw a (rw b (elim (Bool-cases s.hal) [ inl h ↦ rw h refl | inr h ↦ rw h refl ])))

-- What `vga_text_putchar` leaves in `out`.
pub record Put (c : ℕ) (s out : Vga) : Type 0 where
  pub bounds : InBounds out
  pub moved : position out ≡ scrolled (next_position c (position s))
  pub cells :
      (i : ℕ)
      → i < 2000
      → cell out i
        ≡ scrolled_cells
            (next_position c (position s))
            (make_entry 32 s.current_color)
            (shown c (position s) s.current_color (cell s))
            i
  pub sent : out.ports ≡ (if s.hal then position_sent (position out) s.ports else s.ports)
  pub others : Moved s out

-- line wrap, which keeps the position
record Wrapped (s t : Vga) : Type 0 where
  column : t.cursor_x < 80
  row : t.cursor_y ≤ 25
  bottom : t.cursor_y ≡ 25 → t.cursor_x ≡ 0
  same : t ≡ move_to s t.cursor_x t.cursor_y
  position : position t ≡ position s

wrap_line-Wrapped :
    (s : Vga)
    → s.cursor_x ≤ 80
    → s.cursor_y ≤ 25
    → (s.cursor_y ≡ 25 → s.cursor_x ≡ 0)
    → Wrapped s (wrap_line s)
unfolding wrap_line
wrap_line-Wrapped s a b h = elim (Bool-cases (leb 80 s.cursor_x)) [
  | inl e ↦ rw e (record {
    column = omega arith;
    row = ground arith;
    bottom = λ _. refl;
    same = refl;
    position = ground arith;
  })
  | inr e ↦
      rw e (record { column = ground arith; row = b; bottom = h; same = refl; position = refl })
]

-- scrolling
record Scrolled (s t : Vga) : Type 0 where
  bounds : InBounds t
  moved : position t ≡ scrolled (position s)
  cells :
      (i : ℕ)
      → i < 2000
      → cell t i ≡ scrolled_cells (position s) (make_entry 32 s.current_color) (cell s) i
  others : Moved s t
  ports : t.ports ≡ s.ports

scroll_screen-Scrolled :
    (s : Vga)
    → s.cursor_x < 80
    → s.cursor_y ≤ 25
    → (s.cursor_y ≡ 25 → s.cursor_x ≡ 0)
    → Scrolled s (scroll_screen s)
unfolding scroll_screen
scroll_screen-Scrolled s a b h = elim (Bool-cases (leb 25 s.cursor_y)) [
  | inl e ↦
      let d = scroll-Drawn s in
      let x : (vga_text_scroll s).cursor_x ≡ s.cursor_x = ap (λ (t : Vga). t.cursor_x) d.rest in
      rw e (record {
        bounds = record { column = omega (arith, x); row = omega arith };
        moved = ground (arith, x);
        cells = λ i lt. scroll-cell s i lt ∙ ground arith;
        others = move_to-Moved s _ _ _ (Drawn-Moved s _ d);
        ports = ap (λ (t : Vga). t.ports) d.rest;
      })
  | inr e ↦ rw e (record {
    bounds = record { column = a; row = ground arith };
    moved = ground arith;
    cells = λ i lt. ground arith;
    others = refl-Moved s;
    ports = refl;
  })
]

-- the new cursor reported to the hardware
reported :
    (c : ℕ) (s u : Vga)
    → InBounds u
    → position u ≡ scrolled (next_position c (position s))
    → ((i : ℕ)
        → i < 2000
        → cell u i
          ≡ scrolled_cells
              (next_position c (position s))
              (make_entry 32 s.current_color)
              (shown c (position s) s.current_color (cell s))
              i)
    → u.ports ≡ s.ports
    → Moved s u
    → Put c s (update_hardware_cursor u)
reported c s u v p k ports m =
    let hal = m.hal in
    rw (update_hardware_cursor-eq u v) (record {
      bounds = record { column = v.column; row = v.row };
      moved = p;
      cells = k;
      sent = rw hal (rw ports refl);
      others = record {
        buffer = m.buffer;
        color = m.color;
        initialized = m.initialized;
        hal = m.hal;
        outside = m.outside;
      };
    })

scrolled_cells-same :
    {p q blank white : ℕ} (cells others : ℕ → ℕ) (i : ℕ)
    → p ≡ q
    → blank ≡ white
    → ((j : ℕ) → cells j ≡ others j)
    → scrolled_cells p blank cells i ≡ scrolled_cells q white others i
scrolled_cells-same cells others i e f h = ground (arith, h i, h (i + 80))

-- From a cursor on the screen, a character moves the position as its kind says (new line, carriage
-- return, tab, backspace, printable or other), by one line less if the screen scrolls; every cell
-- holds what it held, the character or a blank, a line higher if the screen scrolls; the hardware
-- is sent the new position if it is there; and nothing besides the screen, the cursor and the
-- ports changes.
pub putchar-Put : (c : ℕ) (s : Vga) → InBounds s → Put c s (vga_text_putchar c s)
unfolding vga_text_putchar
putchar-Put c s v =
    let t = type_char c s in
    let w = wrap_line t in
    let u = scroll_screen w in
    let a = type_char-Typed c s v in
    let b = wrap_line-Wrapped t a.width a.height a.bottom in
    let d = scroll_screen-Scrolled w b.column b.row b.bottom in
    let kept : (i : ℕ) → cell w i ≡ cell t i = λ i. ap (λ (x : Vga). cell x i) b.same in
    let blank : make_entry 32 w.current_color ≡ make_entry 32 s.current_color =
      ap (λ (x : Vga). make_entry 32 x.current_color) b.same ∙ ap (make_entry 32) a.others.color in
    let at : position w ≡ next_position c (position s) = b.position ∙ a.moved in
    let wrapped : Moved s w =
      subst (λ x. Moved s x) (sym b.same) (move_to-Moved s t w.cursor_x w.cursor_y a.others) in
    reported c s u d.bounds (d.moved ∙ ap scrolled at)
      (λ i lt.
        d.cells i lt
        ∙ scrolled_cells-same (cell w) (shown c (position s) s.current_color (cell s)) i at blank
            (λ j. kept j ∙ a.cells j))
      (d.ports ∙ ap (λ (x : Vga). x.ports) b.same ∙ a.ports) (trans-Moved s w u wrapped d.others)
