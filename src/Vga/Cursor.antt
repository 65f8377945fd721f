-- ===== src/Vga/Cursor.antt =====
-- The cursor of drivers/vga/vga_text.c as one position on the screen, which typing moves forward.
use aioncore.Base.{
  ℕ, ◌+◌, ◌-◌, ◌*◌, ◌/◌, ◌%◌, ◌<◌, ◌≡◌, ◌≢◌, refl, Bool, not, ◌==◌, ◌&&◌, leb, if◌then◌else◌, ap,
  ◌∙◌,
}
use aioncore.Vga.{Vga, make_entry, move_to}
use aioncore.Vga.Rows.{Drawn}

pub record InBounds (s : Vga) : Type 0 where
  pub column : s.cursor_x < 80
  pub row : s.cursor_y < 25

abbrev pub position : Vga → ℕ
position s = s.cursor_y * 80 + s.cursor_x

abbrev pub is_printable : ℕ → Bool
is_printable c = leb 32 c && leb c 126

-- Where a character takes the position `p`, before the screen scrolls.
abbrev pub next_position : (c p : ℕ) → ℕ
next_position c p =
    if c == 10
    then (p / 80 + 1) * 80
    else if c == 13
    then p / 80 * 80
    else if c == 9
    then (p / 8 + 1) * 8
    else if c == 8
    then (if p % 80 == 0 then p else p - 1)
    else if is_printable c
    then p + 1
    else p

-- What a character leaves in cell `i`, before the screen scrolls.
abbrev pub shown : (c p color : ℕ) → (cells : ℕ → ℕ) → ℕ → ℕ
shown c p color cells i =
    if (c == 8) && not (p % 80 == 0) && (p - 1 == i)
    then make_entry 32 color
    else if is_printable c && (p == i)
    then make_entry c color
    else cells i

-- Only cells of the screen, the cursor and the ports differ between `s` and `t`.
pub record Moved (s t : Vga) : Type 0 where
  pub buffer : t.buffer ≡ s.buffer
  pub color : t.current_color ≡ s.current_color
  pub initialized : t.initialized ≡ s.initialized
  pub hal : t.hal ≡ s.hal
  pub outside : (a : ℕ) → ((i : ℕ) → i < 2000 → a ≢ s.buffer + 2 * i) → t.memory a ≡ s.memory a

pub refl-Moved : (s : Vga) → Moved s s
refl-Moved s = record {
  buffer = refl;
  color = refl;
  initialized = refl;
  hal = refl;
  outside = λ a h. refl;
}

pub trans-Moved : (s t u : Vga) → Moved s t → Moved t u → Moved s u
trans-Moved s t u m d =
    let b = m.buffer in
    record {
      buffer = d.buffer ∙ m.buffer;
      color = d.color ∙ m.color;
      initialized = d.initialized ∙ m.initialized;
      hal = d.hal ∙ m.hal;
      outside = λ a h. d.outside a (rw b h) ∙ m.outside a h;
    }

pub Drawn-Moved : (s t : Vga) → Drawn s t → Moved s t
Drawn-Moved s t d = record {
  buffer = ap (λ (x : Vga). x.buffer) d.rest;
  color = ap (λ (x : Vga). x.current_color) d.rest;
  initialized = ap (λ (x : Vga). x.initialized) d.rest;
  hal = ap (λ (x : Vga). x.hal) d.rest;
  outside = d.outside;
}

pub move_to-Moved : (s t : Vga) (x y : ℕ) → Moved s t → Moved s (move_to t x y)
move_to-Moved s t x y m = record {
  buffer = m.buffer;
  color = m.color;
  initialized = m.initialized;
  hal = m.hal;
  outside = m.outside;
}
