-- ===== src/Serial.antt =====
-- drivers/serial/uart.c: the serial port. What the hardware answers to each reading of a port is a
-- parameter.
pub mod Write
mod Tests
use Prim.Native.Nat.{bit_and}
use aioncore.Base.{
  ℕ, zero, suc, ◌+◌, ◌^◌, Bool, true, false, not, ◌&&◌, ◌||◌, ◌==◌, if◌then◌else◌, List, [], ◌∷◌,
  Option, none, some,
}

abbrev pub uart_data : ℕ
uart_data = 0

abbrev pub uart_int_enable : ℕ
uart_int_enable = 1

abbrev pub uart_fifo_ctrl : ℕ
uart_fifo_ctrl = 2

abbrev pub uart_line_ctrl : ℕ
uart_line_ctrl = 3

abbrev pub uart_modem_ctrl : ℕ
uart_modem_ctrl = 4

abbrev pub uart_line_status : ℕ
uart_line_status = 5

abbrev pub uart_lsr_data_ready : ℕ
uart_lsr_data_ready = 2 ^ 0

abbrev pub uart_lsr_transmit_empty : ℕ
uart_lsr_transmit_empty = 2 ^ 5

-- `struct serial_port`, how often a port has been read, and the bytes sent to ports, with the port, the
-- last one first.
pub record Serial : Type 0 where
  pub port : ℕ
  pub initialized : Bool
  pub polls : ℕ
  pub ports : List (ℕ × ℕ)

-- The answer to reading number `n`, of a port.
abbrev pub Hardware : Type 0
Hardware = (n port : ℕ) → ℕ

abbrev pub io_outb : Serial → (port byte : ℕ) → Serial
io_outb s port byte = record s { ports = (port, byte) ∷ s.ports }

-- The result of a call with NULL is -1 and no change; otherwise it is 0.
unfoldable pub serial_init : (port : ℕ) → Serial → Serial
serial_init port s =
    let s = record s { port = port } in
    let s = io_outb s (port + uart_int_enable) 0x00 in
    let s = io_outb s (port + uart_line_ctrl) (2 ^ 7) in
    let s = io_outb s (port + uart_data) 1 in
    let s = io_outb s (port + uart_int_enable) 0x00 in
    let s = io_outb s (port + uart_line_ctrl) 0x03 in
    let s = io_outb s (port + uart_fifo_ctrl) 0x07 in
    let s = io_outb s (port + uart_modem_ctrl) 0x0B in record s { initialized = true }

-- A bit of the line status, which is read if the port has been initialised.
unfoldable pub status_bit : Hardware → (bit : ℕ) → Serial → Serial × Bool
status_bit inb bit s =
    let status = inb s.polls (s.port + uart_line_status) in
    if not s.initialized
    then (s, false)
    else (record s { polls = s.polls + 1 }, not (bit_and status bit == 0))

unfoldable pub serial_transmit_empty : Hardware → Serial → Serial × Bool
serial_transmit_empty inb s = status_bit inb uart_lsr_transmit_empty s

-- "Wait for transmit buffer to be empty". `none` if the fuel does not reach that.
unfoldable pub wait_empty : (fuel : ℕ) → Hardware → Serial → Option Serial
wait_empty zero inb s = none
wait_empty (suc fuel) inb s =
    let polled = serial_transmit_empty inb s in
    let rest = wait_empty fuel inb polled.0 in if polled.1 then some polled.0 else rest

unfoldable pub send : (c : ℕ) → Option Serial → Option Serial
send c none = none
send c (some s) = some (io_outb s (s.port + uart_data) c)

unfoldable pub serial_putchar : (fuel : ℕ) → Hardware → (c : ℕ) → Serial → Option Serial
serial_putchar fuel inb c s = if not s.initialized then some s else send c (wait_empty fuel inb s)

-- `serial_putchar` after what came before.
unfoldable pub put_next : (fuel : ℕ) → Hardware → (c : ℕ) → Option Serial → Option Serial
put_next fuel inb c none = none
put_next fuel inb c (some s) = serial_putchar fuel inb c s

-- The loop of `serial_write`.
unfoldable pub write_from : (fuel : ℕ) → Hardware → List ℕ → Option Serial → Option Serial
write_from fuel inb [] s = s
write_from fuel inb (c ∷ str) s =
    let s = if c == 10 then put_next fuel inb 13 s else s in
    write_from fuel inb str (put_next fuel inb c s)

unfoldable pub serial_write : (fuel : ℕ) → Hardware → List ℕ → Serial → Option Serial
serial_write fuel inb str s = write_from fuel inb str (some s)

unfoldable pub serial_data_available : Hardware → Serial → Serial × Bool
serial_data_available inb s = status_bit inb uart_lsr_data_ready s

-- `none` stands for -1.
unfoldable pub serial_getchar : Hardware → Serial → Serial × Option ℕ
serial_getchar inb s =
    let polled = serial_data_available inb s in
    let t = polled.0 in
    let read : Serial × Option ℕ =
      (record t { polls = t.polls + 1 }, some (inb t.polls (t.port + uart_data))) in
    if not s.initialized then (s, none) else if not polled.1 then (t, none) else read
