-- ===== src/Vga/Reach.antt =====
-- Every sequence of driver calls of drivers/vga/vga_text.c stays on the screen.
use aioncore.Base.{
  ℕ, ◌+◌, ◌*◌, ◌%◌, ◌^◌, ◌<◌, ◌≡◌, ◌≢◌, refl, Bool, true, false, not, arith, ◌&&◌, ltb,
  if◌then◌else◌, ap, ◌∙◌, Bool-cases, inl, inr, List, [], ◌∷◌,
}
use aioncore.Vga.{
  Vga, vga_memory, make_entry, make_color, move_to, fill_rows, vga_text_init, vga_text_shutdown,
  vga_text_clear, vga_text_scroll, vga_text_putchar_at, vga_text_putchar, vga_text_write,
  vga_text_write_at, vga_text_set_color, vga_text_move_cursor, vga_text_cursor_enable,
  update_hardware_cursor,
}
use aioncore.Vga.Rows.{Drawn, fill_rows-Drawn, scroll-Drawn, putchar_at-Drawn}
use aioncore.Vga.Cursor.{InBounds, Moved, Drawn-Moved}
use aioncore.Vga.Putchar.{putchar-Put, update_hardware_cursor-eq}

-- `m` is memory before the first call: it differs on the screen only, and the cursor stands there.
pub record IsScreen (m : ℕ → ℕ) (s : Vga) : Type 0 where
  pub bounds : InBounds s
  pub buffer : s.buffer ≡ vga_memory
  pub outside : (a : ℕ) → ((i : ℕ) → i < 2000 → a ≢ vga_memory + 2 * i) → s.memory a ≡ m a

pub data Step (s : Vga) : Vga → Type 0 where
  init : Step s (vga_text_init s)
  shutdown : Step s (vga_text_shutdown s)
  clear : Step s (vga_text_clear s)
  putchar : (c : ℕ) → Step s (vga_text_putchar c s)
  putchar_at : (c x y : ℕ) → Step s (vga_text_putchar_at c x y s)
  write : (str : List ℕ) → Step s (vga_text_write str s)
  write_at : (str : List ℕ) (x y : ℕ) → Step s (vga_text_write_at str x y s)
  set_color : (fg bg : ℕ) → Step s (vga_text_set_color fg bg s)
  move_cursor : (x y : ℕ) → Step s (vga_text_move_cursor x y s)
  scroll : Step s (vga_text_scroll s)
  cursor_enable : (enable : Bool) → Step s (vga_text_cursor_enable enable s)

pub data Reach (s : Vga) : Vga → Type 0 where
  start : Reach s s
  then : {t u : Vga} → Reach s t → Step t u → Reach s u

Moved-IsScreen : (m : ℕ → ℕ) (s t : Vga) → IsScreen m s → InBounds t → Moved s t → IsScreen m t
Moved-IsScreen m s t v b d =
    let e = v.buffer in
    record {
      bounds = b;
      buffer = d.buffer ∙ v.buffer;
      outside = λ a h. d.outside a (rw e h) ∙ v.outside a h;
    }

-- drawing leaves the cursor
Drawn-IsScreen : (m : ℕ → ℕ) (s t : Vga) → IsScreen m s → Drawn s t → IsScreen m t
Drawn-IsScreen m s t v d =
    let x = ap (λ (u : Vga). u.cursor_x) d.rest in
    let y = ap (λ (u : Vga). u.cursor_y) d.rest in
    Moved-IsScreen m s t v (record { column = rw x v.bounds.column; row = rw y v.bounds.row })
      (Drawn-Moved s t d)

hardware-IsScreen : (m : ℕ → ℕ) (s : Vga) → IsScreen m s → IsScreen m (update_hardware_cursor s)
hardware-IsScreen m s v = rw (update_hardware_cursor-eq s v.bounds) (record {
  bounds = record { column = v.bounds.column; row = v.bounds.row };
  buffer = v.buffer;
  outside = v.outside;
})

move_to-IsScreen :
    (m : ℕ → ℕ) (s : Vga) (x y : ℕ) → x < 80 → y < 25 → IsScreen m s → IsScreen m (move_to s x y)
move_to-IsScreen m s x y a b v = record {
  bounds = record { column = a; row = b };
  buffer = v.buffer;
  outside = v.outside;
}

clear-IsScreen : (m : ℕ → ℕ) (s : Vga) → IsScreen m s → IsScreen m (vga_text_clear s)
unfolding vga_text_clear
clear-IsScreen m s v =
    let blank = make_entry 32 s.current_color in
    hardware-IsScreen m _ (
      move_to-IsScreen m _ 0 0 (omega arith) (omega arith)
        (Drawn-IsScreen m s (fill_rows 25 blank s) v (fill_rows-Drawn 25 blank s (omega arith))))

-- bytes sent to ports leave the screen
ports-IsScreen :
    (m : ℕ → ℕ) (s : Vga) (ports : List (ℕ × ℕ))
    → IsScreen m s
    → IsScreen m (record s { ports = ports })
ports-IsScreen m s ports v = record {
  bounds = record { column = v.bounds.column; row = v.bounds.row };
  buffer = v.buffer;
  outside = v.outside;
}

either-IsScreen :
    (m : ℕ → ℕ) {s t : Vga} (b : Bool)
    → IsScreen m s
    → IsScreen m t
    → IsScreen m (if b then s else t)
either-IsScreen m true v w = v
either-IsScreen m false v w = w

cursor_enable-IsScreen :
    (enable : Bool) (m : ℕ → ℕ) (s : Vga)
    → IsScreen m s
    → IsScreen m (vga_text_cursor_enable enable s)
unfolding vga_text_cursor_enable
cursor_enable-IsScreen enable m s v =
    either-IsScreen m (not s.hal) v
      (either-IsScreen m enable (ports-IsScreen m s _ v) (ports-IsScreen m s _ v))

-- before the first call, with no word of the screen in use for anything else
started-IsScreen :
    (s : Vga) (color : ℕ) (initialized : Bool)
    → IsScreen s.memory (record s {
      buffer = vga_memory;
      cursor_x = 0;
      cursor_y = 0;
      current_color = color;
      initialized = initialized;
    })
started-IsScreen s color initialized = record {
  bounds = record { column = omega arith; row = omega arith };
  buffer = refl;
  outside = λ a h. refl;
}

again-IsScreen :
    (m : ℕ → ℕ) (s : Vga) (color : ℕ)
    → IsScreen m s
    → IsScreen m (record s {
      buffer = vga_memory;
      cursor_x = 0;
      cursor_y = 0;
      current_color = color;
      initialized = true;
    })
again-IsScreen m s color v = record {
  bounds = record { column = omega arith; row = omega arith };
  buffer = refl;
  outside = v.outside;
}

init-again : (m : ℕ → ℕ) (s : Vga) → IsScreen m s → IsScreen m (vga_text_init s)
unfolding vga_text_init
init-again m s v =
    let again = again-IsScreen m s (make_color 7 0) v in
    either-IsScreen m s.initialized v (cursor_enable-IsScreen true m _ (clear-IsScreen m _ again))

-- The first call.
first_init :
    (s : Vga)
    → s.initialized ≡ false
    → vga_text_init s
      ≡ vga_text_cursor_enable true (
          vga_text_clear (record s {
            buffer = vga_memory;
            cursor_x = 0;
            cursor_y = 0;
            current_color = make_color 7 0;
            initialized = true;
          }))
unfolding vga_text_init
first_init s h = ground arith

pub init-IsScreen : (s : Vga) → s.initialized ≡ false → IsScreen s.memory (vga_text_init s)
init-IsScreen s h = rw (first_init s h) (
    let up = started-IsScreen s (make_color 7 0) true in
    cursor_enable-IsScreen true s.memory _ (clear-IsScreen s.memory _ up))

putchar-IsScreen : (m : ℕ → ℕ) (c : ℕ) (s : Vga) → IsScreen m s → IsScreen m (vga_text_putchar c s)
putchar-IsScreen m c s v =
    let p = putchar-Put c s v.bounds in Moved-IsScreen m s _ v p.bounds p.others

write-IsScreen :
    (m : ℕ → ℕ) (str : List ℕ) (s : Vga) → IsScreen m s → IsScreen m (vga_text_write str s)
unfolding vga_text_write
write-IsScreen m [] s v = v
write-IsScreen m (c ∷ str) s v =
    write-IsScreen m str (vga_text_putchar c s) (putchar-IsScreen m c s v)

write_at-IsScreen :
    (m : ℕ → ℕ) (str : List ℕ) (x y : ℕ) (s : Vga)
    → IsScreen m s
    → IsScreen m (vga_text_write_at str x y s)
unfolding vga_text_write_at
write_at-IsScreen m [] x y s v = v
write_at-IsScreen m (c ∷ str) x y s v = elim (Bool-cases (ltb x 80 && ltb y 25)) [
  | inl h ↦ rw h (
      write_at-IsScreen m str (x + 1) y (vga_text_putchar_at c (x % 2 ^ 16) y s)
        (Drawn-IsScreen m s _ v (putchar_at-Drawn c (x % 2 ^ 16) y s)))
  | inr h ↦ rw h v
]

move_cursor-IsScreen :
    (m : ℕ → ℕ) (x y : ℕ) (s : Vga) → IsScreen m s → IsScreen m (vga_text_move_cursor x y s)
unfolding vga_text_move_cursor
move_cursor-IsScreen m x y s v = elim (Bool-cases (ltb x 80 && ltb y 25)) [
  | inl h ↦ rw h (
      hardware-IsScreen m (move_to s x y)
        (move_to-IsScreen m s x y (ground arith) (ground arith) v))
  | inr h ↦ rw h v
]

Step-IsScreen : {s t : Vga} (m : ℕ → ℕ) → Step s t → IsScreen m s → IsScreen m t
unfolding vga_text_shutdown vga_text_set_color
Step-IsScreen {s} m Step.init v = init-again m s v
Step-IsScreen {s} m Step.shutdown v =
    let w = clear-IsScreen m s v in
    record {
      bounds = record { column = w.bounds.column; row = w.bounds.row };
      buffer = w.buffer;
      outside = w.outside;
    }
Step-IsScreen {s} m Step.clear v = clear-IsScreen m s v
Step-IsScreen {s} m (Step.putchar c) v = putchar-IsScreen m c s v
Step-IsScreen {s} m (Step.putchar_at c x y) v = Drawn-IsScreen m s _ v (putchar_at-Drawn c x y s)
Step-IsScreen {s} m (Step.write str) v = write-IsScreen m str s v
Step-IsScreen {s} m (Step.write_at str x y) v = write_at-IsScreen m str x y s v
Step-IsScreen {s} m (Step.set_color fg bg) v = record {
  bounds = record { column = v.bounds.column; row = v.bounds.row };
  buffer = v.buffer;
  outside = v.outside;
}
Step-IsScreen {s} m (Step.move_cursor x y) v = move_cursor-IsScreen m x y s v
Step-IsScreen {s} m Step.scroll v = Drawn-IsScreen m s _ v (scroll-Drawn s)
Step-IsScreen {s} m (Step.cursor_enable enable) v = cursor_enable-IsScreen enable m s v

-- After vga_text_init has set the driver up, every sequence of driver calls leaves the cursor
-- within 80 columns and 25 rows and every word of memory outside the 2000 cells of the screen as
-- it was before.
pub Reach-IsScreen :
    (s t : Vga) → s.initialized ≡ false → Reach (vga_text_init s) t → IsScreen s.memory t
Reach-IsScreen s t h Reach.start = init-IsScreen s h
Reach-IsScreen s t h (Reach.then {t = u} r st) = Step-IsScreen s.memory st (Reach-IsScreen s u h r)
