-- ===== src/Output/Both.antt =====
-- Output to both devices: what drivers/vga/vga_console.c and drivers/serial/serial_console.c make of the
-- calls of core/console.c after start-up.
use mathlib.Core.Path.{subst}
use aioncore.Base.{
  ℕ, ◌≡◌, ◌≢◌, refl, true, false, arith, ◌==◌, List, [], ◌∷◌, Option, some, ◌∙◌, ap, sym,
}
use aioncore.Console.{
  console_init, console_register, called, console_putchar, console_write, console_set_color,
  console_clear,
}
use aioncore.Vga.{Vga, vga_text_putchar, vga_text_write, vga_text_set_color, vga_text_clear}
use aioncore.Serial.{Serial, Hardware, serial_init}
use aioncore.Serial.Write.{IsReady, Sent, with_returns, putchar-Sent, serial_write-Sent}
use aioncore.Output.{
  Output, vga_console, serial_console, vga_console_init, vga_console_putchar, vga_console_write,
  vga_console_set_color, vga_console_clear, serial_console_init, serial_console_putchar,
  serial_console_write, register_vga, register_serial, start_console, backend_putchar,
  backend_write, each, output_putchar, output_set_color, output_clear, output_write,
}

-- Both backends are registered and enabled, the screen first.
pub record IsOpen (vga_at serial_at : ℕ) (o : Output) : Type 0 where
  pub count : o.console.backend_count ≡ 2
  pub first : o.console.backends 0 ≡ vga_at
  pub second : o.console.backends 1 ≡ serial_at
  pub vga_enabled : let b = vga_console in o.console.objects vga_at ≡ record b { enabled = true }
  pub serial_enabled :
      let b = serial_console in o.console.objects serial_at ≡ record b { enabled = true }
  pub driver : o.driver.vga ≡ true
  pub initialized : o.com1.initialized ≡ true

-- The text is on the screen, and `bytes` have gone to the serial port.
pub record Shown (text : Vga → Vga) (bytes : List ℕ) (o t : Output) : Type 0 where
  pub screen : t.driver ≡ record { vga = true; text = text o.driver.text }
  pub sent : Sent bytes o.com1 t.com1
  pub console : t.console ≡ o.console

each-two :
    (call : ℕ → Output → Option Output) (x y : ℕ) (o p : Output) (q : Option Output)
    → call x o ≡ some p
    → call y p ≡ q
    → each call (x ∷ y ∷ []) (some o) ≡ q
unfolding each
each-two call x y o p q a b = ap (λ m. each call (y ∷ []) m) a ∙ b

module _ (vga_at serial_at : ℕ) (vga_there : vga_at ≢ 0) (serial_there : serial_at ≢ 0)
    (differ : vga_at ≢ serial_at) where
  start-IsOpen :
      (o : Output)
      → o.console.objects vga_at ≡ vga_console
      → o.console.objects serial_at ≡ serial_console
      → o.driver.vga ≡ true
      → IsOpen vga_at serial_at (start_console vga_at serial_at o)
        × ((start_console vga_at serial_at o).com1 ≡ serial_init 0x3F8 o.com1)
        × ((start_console vga_at serial_at o).driver ≡ o.driver)
  unfolding start_console register_vga register_serial console_register console_init
      vga_console_init serial_console_init serial_init
  start-IsOpen o v s on =
      let a : (vga_at == 0) ≡ false = ground arith in
      let b : (serial_at == 0) ≡ false = ground arith in
      let c : (vga_at == serial_at) ≡ false = ground arith in
      let d : (serial_at == vga_at) ≡ false = ground arith in
      let e : (vga_at == vga_at) ≡ true = ground arith in
      let f : (serial_at == serial_at) ≡ true = ground arith in
      rw on (
        rw a (
          rw b (
            rw v (
              rw s (
                rw c (
                  record {
                    count = refl;
                    first = refl;
                    second = refl;
                    vga_enabled = rw d (rw e refl);
                    serial_enabled = rw f refl;
                    driver = refl;
                    initialized = refl;
                  },
                  refl,
                  refl,
                ))))))

  each-called :
      (o : Output)
      → IsOpen vga_at serial_at o
      → (console_write o.console ≡ vga_at ∷ serial_at ∷ [])
        × (console_putchar o.console ≡ vga_at ∷ serial_at ∷ [])
        × (console_set_color o.console ≡ vga_at ∷ [])
        × (console_clear o.console ≡ vga_at ∷ [])
  unfolding console_write console_putchar console_set_color console_clear called
  each-called o h =
      let n = h.count in
      let x = h.first in
      let y = h.second in
      let p = h.vga_enabled in
      let q = h.serial_enabled in
      let a : (vga_at == 0) ≡ false = ground arith in
      let b : (serial_at == 0) ≡ false = ground arith in
      (
        rw n (rw x (rw y (rw a (rw b (rw p (rw q refl)))))),
        rw n (rw x (rw y (rw a (rw b (rw p (rw q refl)))))),
        rw n (rw x (rw y (rw a (rw b (rw p (rw q refl)))))),
        rw n (rw x (rw y (rw a (rw b (rw p (rw q refl)))))),
      )

  module _ (fuel : ℕ) (inb : Hardware) where
    output_write-Shown :
        (str : List ℕ) (o : Output)
        → IsOpen vga_at serial_at o
        → IsReady fuel inb o.com1.port
        → (t : Output) × (output_write vga_at serial_at fuel inb str o ≡ some t)
          × Shown (vga_text_write str) (with_returns str) o t
    unfolding output_write backend_write vga_console_write serial_console_write
    output_write-Shown str o h ready =
        let (w, _, _, _) = each-called o h in
        let d = h.driver in
        let a : (vga_at == vga_at) ≡ true = ground arith in
        let b : (serial_at == serial_at) ≡ true = ground arith in
        let c : (serial_at == vga_at) ≡ false = ground arith in
        let (s, e, v) = serial_write-Sent fuel inb str o.com1 h.initialized ready in
        let p : Output = record o { driver = vga_console_write str o.driver } in
        let t : Output = record p { com1 = s } in
        (
          t,
          rw w (
              each-two (backend_write vga_at serial_at fuel inb str) vga_at serial_at o p (some t)
                (rw a refl) (rw c (rw b (rw e refl)))),
          record { screen = rw d refl; sent = v; console = refl },
        )

    output_putchar-Shown :
        (c : ℕ) (o : Output)
        → IsOpen vga_at serial_at o
        → IsReady fuel inb o.com1.port
        → (t : Output) × (output_putchar vga_at serial_at fuel inb c o ≡ some t)
          × Shown (vga_text_putchar c) (c ∷ []) o t
    unfolding output_putchar backend_putchar vga_console_putchar serial_console_putchar
    output_putchar-Shown c o h ready =
        let (_, w, _, _) = each-called o h in
        let d = h.driver in
        let a : (vga_at == vga_at) ≡ true = ground arith in
        let b : (serial_at == serial_at) ≡ true = ground arith in
        let k : (serial_at == vga_at) ≡ false = ground arith in
        let (s, e, v) = putchar-Sent fuel inb c o.com1 h.initialized ready in
        let p : Output = record o { driver = vga_console_putchar c o.driver } in
        let t : Output = record p { com1 = s } in
        (
          t,
          rw w (
              each-two (backend_putchar vga_at serial_at fuel inb c) vga_at serial_at o p (some t)
                (rw a refl) (rw k (rw b (rw e refl)))),
          record { screen = rw d refl; sent = v; console = refl },
        )

  -- When the two descriptors are as they are initialised, at different addresses that are not
  -- NULL, the text driver is there, and the serial port finds its transmit buffer empty within any
  -- fuel readings, then after the start of the console its write puts a string on the screen and
  -- sends it, with a carriage return before each line feed, to port 0x3F8; its putchar puts the
  -- character on the screen and sends it alone; its set_color and clear change the screen and send
  -- nothing. The start has set the serial port up and left the screen as it was.
  pub started-Shown :
      (o : Output) (fuel : ℕ) (inb : Hardware)
      → o.console.objects vga_at ≡ vga_console
      → o.console.objects serial_at ≡ serial_console
      → o.driver.vga ≡ true
      → IsReady fuel inb 0x3F8
      → let p = start_console vga_at serial_at o in
        ((str : List ℕ)
          → (t : Output) × (output_write vga_at serial_at fuel inb str p ≡ some t)
            × Shown (vga_text_write str) (with_returns str) p t)
        × ((c : ℕ)
            → (t : Output) × (output_putchar vga_at serial_at fuel inb c p ≡ some t)
              × Shown (vga_text_putchar c) (c ∷ []) p t)
        × ((fg bg : ℕ)
            → (t : Output) × (output_set_color vga_at serial_at fg bg p ≡ some t)
              × Shown (vga_text_set_color fg bg) [] p t)
        × (t : Output) × (output_clear vga_at serial_at p ≡ some t)
        × Shown vga_text_clear [] p t
        × (p.driver ≡ o.driver)
        × (p.com1 ≡ serial_init 0x3F8 o.com1)
  unfolding output_set_color output_clear vga_console_set_color vga_console_clear serial_init each
  started-Shown o fuel inb v s on ready =
      let (h, same, kept) = start-IsOpen o v s on in
      let p = start_console vga_at serial_at o in
      let (_, _, f, g) = each-called p h in
      let port : 0x3F8 ≡ p.com1.port = sym (ap (λ (x : Serial). x.port) same) in
      let r : IsReady fuel inb p.com1.port = subst (IsReady fuel inb) port ready in
      let d = h.driver in
      let a : (vga_at == vga_at) ≡ true = ground arith in
      let none_sent : Sent [] p.com1 p.com1 = record {
        port = refl;
        initialized = refl;
        ports = refl;
      } in
      (
        (λ str. output_write-Shown fuel inb str p h r),
        (λ c. output_putchar-Shown fuel inb c p h r),
        (λ fg bg. (
          record p { driver = vga_console_set_color fg bg p.driver },
          rw f (rw a refl),
          record { screen = rw d refl; sent = none_sent; console = refl },
        )),
        record p { driver = vga_console_clear p.driver },
        rw g (rw a refl),
        record { screen = rw d refl; sent = none_sent; console = refl },
        kept,
        same,
      )
