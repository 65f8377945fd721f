-- ===== src/Base/Words.antt =====
-- Machine words: a value is a native number, and every operation wraps as the C type does.
use aioncore.Base.{ℕ, ◌+◌, ◌-◌, ◌%◌}

abbrev pub u8_mod : ℕ
u8_mod = 0x100

abbrev pub u16_mod : ℕ
u16_mod = 0x1_0000

abbrev pub u32_mod : ℕ
u32_mod = 0x1_0000_0000

abbrev pub u64_mod : ℕ
u64_mod = 0x1_0000_0000_0000_0000

-- `x++` and `x--` on uint32_t or on the 32-bit size_t
abbrev pub inc32 : ℕ → ℕ
inc32 x = (x + 1) % u32_mod

abbrev pub dec32 : ℕ → ℕ
dec32 x = (x + u32_mod - 1) % u32_mod

-- `a + b` and `a - b` on uint32_t, size_t and uintptr_t
abbrev pub add32 : ℕ → ℕ → ℕ
add32 a b = (a + b) % u32_mod

abbrev pub sub32 : ℕ → ℕ → ℕ
sub32 a b = (a + u32_mod - b) % u32_mod

-- `a + b` on uint64_t
abbrev pub add64 : ℕ → ℕ → ℕ
add64 a b = (a + b) % u64_mod

-- `x++` on uint64_t
abbrev pub inc64 : ℕ → ℕ
inc64 x = (x + 1) % u64_mod
