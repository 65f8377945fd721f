-- ===== src/Serial/Tests.antt =====
-- Runs of the serial port at concrete states.
use aioncore.Base.{◌≡◌, refl, true, arith, [], ◌∷◌, some}
use aioncore.Serial.{Serial, Hardware, serial_write}
use aioncore.Serial.Write.{Sent, serial_write-Sent}

-- hardware that is always ready
abbrev ready : Hardware
ready n port = 0x60

abbrev com1 : Serial
com1 = record { port = 0x3F8; initialized = true; polls = 0; ports = [] }

-- "A" and a line feed
serial_write-Sent_example :
    (t : Serial) × (serial_write 5 ready (65 ∷ 10 ∷ []) com1 ≡ some t)
    × Sent (65 ∷ 13 ∷ 10 ∷ []) com1 t
serial_write-Sent_example =
    serial_write-Sent 5 ready (65 ∷ 10 ∷ []) com1 refl (λ n. (0, omega arith, refl))
