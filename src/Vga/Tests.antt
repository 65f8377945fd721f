-- ===== src/Vga/Tests.antt =====
-- Runs of the text screen at concrete states.
use aioncore.Base.{refl, true, false, arith, [], ◌∷◌}
use aioncore.Vga.{Vga, vga_text_init, vga_text_putchar, vga_text_write}
use aioncore.Vga.Putchar.{Put, putchar-Put}
use aioncore.Vga.Reach.{Step, Reach, IsScreen, Reach-IsScreen}

-- the cursor at the last cell, with the hardware there
abbrev full : Vga
full = record {
  buffer = 0xB8000;
  cursor_x = 79;
  cursor_y = 24;
  current_color = 7;
  initialized = true;
  memory = λ a. a;
  hal = true;
  ports = [];
}

abbrev fresh : Vga
fresh = record {
  buffer = 0;
  cursor_x = 0;
  cursor_y = 0;
  current_color = 0;
  initialized = false;
  memory = λ a. a;
  hal = false;
  ports = [];
}

putchar-Put_example : Put 65 full (vga_text_putchar 65 full)
putchar-Put_example = putchar-Put 65 full (record { column = omega arith; row = omega arith })

-- "Hi" and a new line after the first call
Reach-IsScreen_example :
    IsScreen (λ a. a) (vga_text_write (72 ∷ 105 ∷ 10 ∷ []) (vga_text_init fresh))
Reach-IsScreen_example =
    Reach-IsScreen fresh (vga_text_write (72 ∷ 105 ∷ 10 ∷ []) (vga_text_init fresh)) refl
      (Reach.then Reach.start (Step.write (72 ∷ 105 ∷ 10 ∷ [])))
