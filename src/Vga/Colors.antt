-- ===== src/Vga/Colors.antt =====
-- The bytes that drivers/vga/vga_text.c puts together: a color attribute and the word of a cell.
use aioncore.Base.{ℕ, ◌+◌, ◌*◌, ◌<◌, ◌≡◌, arith, ltb, if◌then◌else◌, Bool-cases, inl, inr}
use aioncore.Base.Bits.Shifts.{bit_or-byte, bit_or-full, bit_or-nibbles}
use aioncore.Vga.{make_color, make_entry}

pub make_color-eq : (fg bg : ℕ) → fg < 16 → bg < 16 → make_color fg bg ≡ fg + 16 * bg
unfolding make_color
make_color-eq fg bg a b = omega (arith, bit_or-nibbles fg bg a)

-- The word of a cell has the color in its upper byte and the character in its lower byte for a
-- character below 128; for one from 128 on the upper byte is 255 whatever the color.
pub make_entry-eq :
    (c color : ℕ)
    → c < 256
    → color < 256
    → make_entry c color ≡ c + 256 * (if ltb c 128 then color else 255)
unfolding make_entry
make_entry-eq c color a b = elim (Bool-cases (ltb c 128)) [
  | inl h ↦ rw h (omega (arith, bit_or-byte c color a))
  | inr h ↦
      let e : 0xFF00 + c ≡ c + 0xFF00 = omega arith in
      let f = rw e at (bit_or-full c color a b) in rw h (omega (arith, f))
]
