-- ===== src/Output.antt =====
-- drivers/vga/vga_console.c and drivers/serial/serial_console.c, the adapters between the console and
-- the two output drivers, and the part of core/init.c that registers them. The addresses of the two
-- backends are parameters, and what the serial port answers.
pub mod Both
mod Tests
use aioncore.Base.{
  ℕ, ◌-◌, ◌^◌, Bool, true, false, ◌==◌, if◌then◌else◌, List, [], ◌∷◌, Option, none, some,
}
use aioncore.Console.{
  Console, ConsoleBackend, console_init, console_register, console_putchar, console_write,
  console_set_color, console_clear,
}
use aioncore.Vga.{Vga, vga_text_putchar, vga_text_write, vga_text_set_color, vga_text_clear}
use aioncore.Vga.Driver.{Driver, through}
use aioncore.Serial.{Serial, Hardware, serial_init, serial_putchar, serial_write}

abbrev pub serial_com1 : ℕ
serial_com1 = 0x3F8

-- What the output calls reach.
pub record Output : Type 0 where
  pub console : Console
  pub driver : Driver
  pub com1 : Serial

-- 0, or -1 in 32 bits.
unfoldable pub vga_console_init : Driver → ℕ
vga_console_init d = if d.vga then 0 else 2 ^ 32 - 1

unfoldable pub vga_console_putchar : (c : ℕ) → Driver → Driver
vga_console_putchar c d = through (vga_text_putchar c) d

unfoldable pub vga_console_write : (str : List ℕ) → Driver → Driver
vga_console_write str d = through (vga_text_write str) d

unfoldable pub vga_console_set_color : (fg bg : ℕ) → Driver → Driver
vga_console_set_color fg bg d = through (vga_text_set_color fg bg) d

unfoldable pub vga_console_clear : Driver → Driver
vga_console_clear d = through vga_text_clear d

unfoldable pub serial_console_init : Serial → Serial
serial_console_init com1 = serial_init serial_com1 com1

unfoldable pub serial_console_putchar : (fuel : ℕ) → Hardware → (c : ℕ) → Serial → Option Serial
serial_console_putchar fuel inb c com1 = serial_putchar fuel inb c com1

unfoldable pub serial_console_write :
    (fuel : ℕ) → Hardware → (str : List ℕ) → Serial → Option Serial
serial_console_write fuel inb str com1 = serial_write fuel inb str com1

-- A descriptor as the source initialises it.
abbrev pub vga_console : ConsoleBackend
vga_console = record {
  init = true;
  putchar = true;
  write = true;
  set_color = true;
  clear = true;
  enabled = false;
}

abbrev pub serial_console : ConsoleBackend
serial_console = record {
  init = true;
  putchar = true;
  write = true;
  set_color = false;
  clear = false;
  enabled = false;
}

abbrev with_com1 : Output → Option Serial → Option Output
with_com1 o none = none
with_com1 o (some s) = some (record o { com1 = s })

-- the calls of a list of backends, in order
unfoldable pub each : (ℕ → Output → Option Output) → List ℕ → Option Output → Option Output
each call [] o = o
each call (b ∷ bs) none = none
each call (b ∷ bs) (some o) = each call bs (call b o)

module _ (vga_at serial_at : ℕ) where
  -- A call of `console_register`; `init` of the serial backend returns 0, so that it has been called
  -- exactly if the backend is registered.
  unfoldable pub register_vga : Output → Output
  register_vga o = record o {
    console = (console_register (λ _. vga_console_init o.driver) o.console vga_at).0;
  }

  unfoldable pub register_serial : Output → Output
  register_serial o =
      let made = console_register (λ _. 0) o.console serial_at in
      record o { console = made.0; com1 = if made.1 then serial_console_init o.com1 else o.com1 }

  -- "Initialize console multiplexer"
  unfoldable pub start_console : Output → Output
  start_console o =
      let o = record o { console = console_init o.console } in register_serial (register_vga o)

  module _ (fuel : ℕ) (inb : Hardware) where
    -- `b->putchar(c)` and `b->write(str, len)` for the backend at an address
    unfoldable pub backend_putchar : (c backend : ℕ) → Output → Option Output
    backend_putchar c backend o =
        if backend == vga_at
        then some (record o { driver = vga_console_putchar c o.driver })
        else if backend == serial_at
        then with_com1 o (serial_console_putchar fuel inb c o.com1)
        else some o

    unfoldable pub backend_write : (str : List ℕ) → (backend : ℕ) → Output → Option Output
    backend_write str backend o =
        if backend == vga_at
        then some (record o { driver = vga_console_write str o.driver })
        else if backend == serial_at
        then with_com1 o (serial_console_write fuel inb str o.com1)
        else some o

    -- `console_putchar` and `console_write` with the effects of the backends.
    unfoldable pub output_putchar : (c : ℕ) → Output → Option Output
    output_putchar c o = each (backend_putchar c) (console_putchar o.console) (some o)

    unfoldable pub output_write : (str : List ℕ) → Output → Option Output
    output_write str o = each (backend_write str) (console_write o.console) (some o)

  -- `b->set_color` and `b->clear`; only the screen's backend has them.
  abbrev pub backend_screen : (Driver → Driver) → (backend : ℕ) → Output → Option Output
  backend_screen call backend o =
      if backend == vga_at then some (record o { driver = call o.driver }) else some o

  unfoldable pub output_set_color : (fg bg : ℕ) → Output → Option Output
  output_set_color fg bg o =
      each (backend_screen (vga_console_set_color fg bg)) (console_set_color o.console) (some o)

  unfoldable pub output_clear : Output → Option Output
  output_clear o = each (backend_screen vga_console_clear) (console_clear o.console) (some o)
