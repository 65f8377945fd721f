-- ===== src/Vga.antt =====
-- drivers/vga/vga_text.c and the driver calls of drivers/vga/vga.c: the 80 by 25 text screen. A
-- character is its byte.
pub mod Colors
pub mod Rows
pub mod Cursor
pub mod Typing
pub mod Putchar
pub mod Reach
pub mod Driver
mod Tests
use Prim.Native.Nat.{bit_and, bit_or}
use aioncore.Base.{
  ℕ, zero, suc, ◌+◌, ◌-◌, ◌*◌, ◌/◌, ◌%◌, ◌^◌, Bool, true, false, not, ◌&&◌, ◌||◌, ◌==◌, ltb, leb,
  if◌then◌else◌, update, List, [], ◌∷◌, Option, none, some,
}

abbrev pub vga_width : ℕ
vga_width = 80

abbrev pub vga_height : ℕ
vga_height = 25

abbrev pub vga_memory : ℕ
vga_memory = 0xB8000

abbrev pub vga_ctrl_reg : ℕ
vga_ctrl_reg = 0x3D4

abbrev pub vga_data_reg : ℕ
vga_data_reg = 0x3D5

-- `vga_state`, the 16-bit word at each address, whether `hal` is there, and the bytes sent to ports,
-- with the port, the last one first.
pub record Vga : Type 0 where
  pub buffer : ℕ
  pub cursor_x : ℕ
  pub cursor_y : ℕ
  pub current_color : ℕ
  pub initialized : Bool
  pub memory : ℕ → ℕ
  pub hal : Bool
  pub ports : List (ℕ × ℕ)

-- The result is a uint8_t.
unfoldable pub make_color : (fg bg : ℕ) → ℕ
make_color fg bg = bit_or fg (bg * 2 ^ 4) % 2 ^ 8

-- A `char` is signed, so its conversion to uint16_t repeats the sign bit.
abbrev pub extended : ℕ → ℕ
extended c = if ltb c 0x80 then c else c + 0xFF00

unfoldable pub make_entry : (c color : ℕ) → ℕ
make_entry c color = bit_or (extended c) (color * 2 ^ 8) % 2 ^ 16

-- `vga_state.buffer[index] = v`, and the element
abbrev pub put_cell : Vga → (index v : ℕ) → Vga
put_cell s index v = record s { memory = update s.memory (s.buffer + 2 * index) v }

abbrev pub cell : Vga → ℕ → ℕ
cell s index = s.memory (s.buffer + 2 * index)

abbrev pub io_outb : Vga → (port byte : ℕ) → Vga
io_outb s port byte = record s { ports = (port, byte) ∷ s.ports }

unfoldable pub update_hardware_cursor : Vga → Vga
update_hardware_cursor s =
    let pos = (s.cursor_y * vga_width + s.cursor_x) % 2 ^ 16 in
    let t = io_outb s vga_ctrl_reg 0x0F in
    let t = io_outb t vga_data_reg (bit_and pos 0xFF) in
    let t = io_outb t vga_ctrl_reg 0x0E in
    let t = io_outb t vga_data_reg (bit_and (pos / 2 ^ 8) 0xFF) in if not s.hal then s else t

-- The loops that set the first `n` cells from `base` on, and the first `n` rows, to `blank`.
unfoldable pub fill_cells : (n base blank : ℕ) → Vga → Vga
fill_cells zero base blank s = s
fill_cells (suc n) base blank s = put_cell (fill_cells n base blank s) (base + n) blank

unfoldable pub fill_rows : (n blank : ℕ) → Vga → Vga
fill_rows zero blank s = s
fill_rows (suc n) blank s = fill_cells vga_width (n * vga_width) blank (fill_rows n blank s)

abbrev pub move_to : Vga → (x y : ℕ) → Vga
move_to s x y = record s { cursor_x = x; cursor_y = y }

unfoldable pub vga_text_clear : Vga → Vga
vga_text_clear s =
    let blank = make_entry 32 s.current_color in
    update_hardware_cursor (move_to (fill_rows vga_height blank s) 0 0)

unfoldable pub vga_text_cursor_enable : (enable : Bool) → Vga → Vga
vga_text_cursor_enable enable s =
    let on = io_outb s vga_ctrl_reg 0x0A in
    let on = io_outb on vga_data_reg 0x00 in
    let on = io_outb on vga_ctrl_reg 0x0B in
    let on = io_outb on vga_data_reg 0x0F in
    let off = io_outb s vga_ctrl_reg 0x0A in
    let off = io_outb off vga_data_reg 0x20 in if not s.hal then s else if enable then on else off

-- Light grey on black. The result is always 0.
unfoldable pub vga_text_init : Vga → Vga
vga_text_init s =
    let t = record s {
      buffer = vga_memory;
      cursor_x = 0;
      cursor_y = 0;
      current_color = make_color 7 0;
      initialized = true;
    } in
    if s.initialized then s else vga_text_cursor_enable true (vga_text_clear t)

unfoldable pub vga_text_shutdown : Vga → Vga
vga_text_shutdown s = let t = vga_text_clear s in record t { initialized = false }

-- The first `n` cells of row `y` become those of row `y + 1`, and so the first `n` rows.
unfoldable pub copy_cells : (n y : ℕ) → Vga → Vga
copy_cells zero y s = s
copy_cells (suc n) y s =
    let s = copy_cells n y s in put_cell s (y * vga_width + n) (cell s ((y + 1) * vga_width + n))

unfoldable pub copy_rows : (n : ℕ) → Vga → Vga
copy_rows zero s = s
copy_rows (suc n) s = copy_cells vga_width n (copy_rows n s)

unfoldable pub vga_text_scroll : Vga → Vga
vga_text_scroll s =
    let blank = make_entry 32 s.current_color in
    fill_cells vga_width ((vga_height - 1) * vga_width) blank (copy_rows (vga_height - 1) s)

unfoldable pub vga_text_putchar_at : (c x y : ℕ) → Vga → Vga
vga_text_putchar_at c x y s =
    if leb vga_width x || leb vga_height y
    then s
    else put_cell s (y * vga_width + x) (make_entry c s.current_color)

-- `x + 1` on uint16_t
abbrev pub inc16 : ℕ → ℕ
inc16 x = (x + 1) % 2 ^ 16

-- What the character itself does, before line wrap and scrolling.
unfoldable pub type_char : (c : ℕ) → Vga → Vga
type_char c s =
    let back = move_to s (s.cursor_x - 1) s.cursor_y in
    let shown = vga_text_putchar_at c s.cursor_x s.cursor_y s in
    if c == 10
    then move_to s 0 (inc16 s.cursor_y)
    else if c == 13
    then move_to s 0 s.cursor_y
    else if c == 9
    then move_to s (bit_and (s.cursor_x + 8) 0xFFFFFFF8 % 2 ^ 16) s.cursor_y
    else if c == 8
    then (if ltb 0 s.cursor_x then vga_text_putchar_at 32 back.cursor_x back.cursor_y back else s)
    else if leb 32 c && leb c 126
    then move_to shown (inc16 shown.cursor_x) shown.cursor_y
    else s

unfoldable pub wrap_line : Vga → Vga
wrap_line s = if leb vga_width s.cursor_x then move_to s 0 (inc16 s.cursor_y) else s

unfoldable pub scroll_screen : Vga → Vga
scroll_screen s =
    let t = vga_text_scroll s in
    if leb vga_height s.cursor_y then move_to t t.cursor_x (vga_height - 1) else s

unfoldable pub vga_text_putchar : (c : ℕ) → Vga → Vga
vga_text_putchar c s = update_hardware_cursor (scroll_screen (wrap_line (type_char c s)))

unfoldable pub vga_text_write : List ℕ → Vga → Vga
vga_text_write [] s = s
vga_text_write (c ∷ str) s = vga_text_write str (vga_text_putchar c s)

-- `x` is the column of the first character that is left: the loop's `x + i`. The parameter is a
-- uint16_t, and so is the column that is passed on.
unfoldable pub vga_text_write_at : (str : List ℕ) → (x y : ℕ) → Vga → Vga
vga_text_write_at [] x y s = s
vga_text_write_at (c ∷ str) x y s =
    let rest = vga_text_write_at str (x + 1) y (vga_text_putchar_at c (x % 2 ^ 16) y s) in
    if ltb x vga_width && ltb y vga_height then rest else s

unfoldable pub vga_text_set_color : (fg bg : ℕ) → Vga → Vga
vga_text_set_color fg bg s = record s { current_color = make_color fg bg }

unfoldable pub vga_text_move_cursor : (x y : ℕ) → Vga → Vga
vga_text_move_cursor x y s =
    if ltb x vga_width && ltb y vga_height then update_hardware_cursor (move_to s x y) else s

unfoldable pub vga_text_get_cursor : Vga → ℕ × ℕ
vga_text_get_cursor s = (s.cursor_x, s.cursor_y)
