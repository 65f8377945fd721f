-- ===== src/Number/Tests.antt =====
-- Runs of the conversions at concrete numbers.
use aioncore.Base.{arith}
use aioncore.Number.{Memory, utoa}
use aioncore.Number.Convert.{Unsigned, utoa-Unsigned}

abbrev blank : Memory
blank a = 0xFF

utoa-Unsigned_example : Unsigned 16 0xBEEF 4 blank (utoa 0xBEEF 4 16 blank)
utoa-Unsigned_example = utoa-Unsigned 16 0xBEEF 4 blank (omega arith) (omega arith) (omega arith)
