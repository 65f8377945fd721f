-- ===== src/Hal/Masks.antt =====
-- The interrupt masks of include/kernel/idt.h: `irq_clear_mask` and `irq_set_mask`.
use aioncore.Base.{ℕ, ◌+◌, ◌*◌, ◌<◌, ◌≡◌, refl, arith, ◌==◌, ltb, if◌then◌else◌, [], ◌∷◌, ◌++◌}
use aioncore.Base.Bits.{
  bit, set_bit, clear_bit, bit-set_bit, bit-clear_bit, set_bit-lt, clear_bit-lt,
}
use aioncore.Hal.{Cpu, Hardware, io_inb, outb, mask_port, mask_line, irq_clear_mask, irq_set_mask}

-- One byte `value` goes to the port of the line, in which the line's bit is `set` and the others
-- are those of the byte that was read.
pub record Masked (hw : Hardware) (irq set : ℕ) (c out : Cpu) : Type 0 where
  pub value : ℕ
  pub small : value < 256
  pub written : out.idt.ports ≡ c.idt.ports ++ (if ltb irq 8 then 0x21 else 0xA1, value) ∷ []
  pub bits :
      (j : ℕ)
      → j < 8
      → bit value j ≡ (
          if irq == j + 8 * (if ltb irq 8 then 0 else 1)
          then set
          else bit (hw.inb c.reads (if ltb irq 8 then 0x21 else 0xA1)) j)

-- The byte that either function writes, from what it does to the byte that was read.
masked_lem :
    (hw : Hardware) (irq set : ℕ) (f : ℕ → ℕ → ℕ) (c out : Cpu)
    → irq < 16
    → ((b k : ℕ) → b < 256 → k < 8 → f b k < 256)
    → ((b k j : ℕ) → k < 8 → j < 8 → bit (f b k) j ≡ (if k == j then set else bit b j))
    → ((n port : ℕ) → hw.inb n port < 256)
    → out.idt.ports
      ≡ c.idt.ports ++ (mask_port irq, f (hw.inb c.reads (mask_port irq)) (mask_line irq)) ∷ []
    → Masked hw irq set c out
unfolding mask_port mask_line
masked_lem hw irq set f c out lt fits bits bytes e =
    let port = mask_port irq in
    let line = mask_line irq in
    let b = hw.inb c.reads port in
    let low : line < 8 = ground arith in
    record {
      value = f b line;
      small = fits b line (bytes c.reads port) low;
      written = e;
      bits = λ j lj. ground (arith, bits b line j);
    }

-- For an interrupt line below 16 and ports that answer with a byte, irq_clear_mask writes to the
-- mask of the line's controller the byte read there with the line's bit 0, and irq_set_mask with
-- it 1.
pub masks-Masked :
    (hw : Hardware) (irq : ℕ) (c : Cpu)
    → irq < 16
    → ((n port : ℕ) → hw.inb n port < 256)
    → Masked hw irq 0 c (irq_clear_mask hw irq c) × Masked hw irq 1 c (irq_set_mask hw irq c)
unfolding irq_clear_mask irq_set_mask io_inb outb
masks-Masked hw irq c lt bytes = (
  masked_lem hw irq 0 (λ b k. clear_bit 8 b k) c (irq_clear_mask hw irq c) lt
      (λ b k hb hk. clear_bit-lt 8 b k hb) (λ b k j hk hj. bit-clear_bit 8 b k j hk hj) bytes refl,
  masked_lem hw irq 1 (λ b k. set_bit b k) c (irq_set_mask hw irq c) lt
      (λ b k hb hk. set_bit-lt 8 b k hb hk) (λ b k j hk hj. bit-set_bit b k j) bytes refl,
)
