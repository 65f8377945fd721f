-- ===== src/Output/Tests.antt =====
-- Runs of core/console.c, drivers/vga/vga_console.c and drivers/serial/serial_console.c together.
use aioncore.Base.{◌≡◌, refl, true, false, arith, ◌==◌, if◌then◌else◌, List, [], ◌∷◌, some, ℕ}
use aioncore.Vga.{Vga, vga_text_putchar, vga_text_write, vga_text_set_color, vga_text_clear}
use aioncore.Serial.{Hardware, serial_init}
use aioncore.Serial.Write.{with_returns}
use aioncore.Output.{
  Output, vga_console, serial_console, start_console, output_putchar, output_write,
  output_set_color, output_clear,
}
use aioncore.Output.Both.{Shown, started-Shown}

-- hardware that is always ready
abbrev ready : Hardware
ready n port = 0x60

abbrev screen : Vga
screen = record {
  buffer = 0xB8000;
  cursor_x = 0;
  cursor_y = 0;
  current_color = 7;
  initialized = true;
  memory = λ a. 0;
  hal = true;
  ports = [];
}

-- the screen's descriptor at 4096, the serial port's elsewhere
abbrev before : Output
before = record {
  console = record {
    backends = λ i. 0;
    backend_count = 0;
    objects = λ b. if b == 4096 then vga_console else serial_console;
  };
  driver = record { vga = true; text = screen };
  com1 = record { port = 0; initialized = false; polls = 0; ports = [] };
}

abbrev after : Output
after = start_console 4096 8192 before

started-Shown_example :
    ((str : List ℕ)
      → (t : Output) × (output_write 4096 8192 5 ready str after ≡ some t)
        × Shown (vga_text_write str) (with_returns str) after t)
    × ((c : ℕ)
        → (t : Output) × (output_putchar 4096 8192 5 ready c after ≡ some t)
          × Shown (vga_text_putchar c) (c ∷ []) after t)
    × ((fg bg : ℕ)
        → (t : Output) × (output_set_color 4096 8192 fg bg after ≡ some t)
          × Shown (vga_text_set_color fg bg) [] after t)
    × (t : Output) × (output_clear 4096 8192 after ≡ some t)
    × Shown vga_text_clear [] after t
    × (after.driver ≡ before.driver)
    × (after.com1 ≡ serial_init 0x3F8 before.com1)
started-Shown_example =
    started-Shown 4096 8192 (λ e. omega arith) (λ e. omega arith) (λ e. omega arith) before 5 ready
      refl refl refl (λ n. (0, omega arith, refl))
