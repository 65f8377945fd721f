-- ===== src/Str/Copy.antt =====
-- The block operations of lib/string.c: what each byte of memory is afterwards.
use aioncore.Base.{
  ℕ, zero, suc, ◌+◌, ◌-◌, ◌%◌, ◌≤◌, ◌≡◌, Bool, arith, ◌⊎◌, inl, inr, ◌&&◌, ltb, leb, if◌then◌else◌,
  update, Bool-cases, ◌∙◌,
}
use aioncore.Base.Words.{u8_mod}
use aioncore.Str.{Memory, copy_forward, copy_backward, memcpy, memmove, set_bytes, memset}

-- address `a` lies in the `n` bytes from `p` on
abbrev pub in_block : (p n a : ℕ) → Bool
in_block p n a = leb p a && ltb a (p + n)

-- A forward copy to a place at or below its source, or clear of it.
pub forward-at :
    (n d s i : ℕ) (m : Memory) (a : ℕ)
    → (d ≤ s) ⊎ (s + i + n ≤ d + i)
    → copy_forward n d s i m a ≡ (if in_block (d + i) n a then m (s + (a - d)) else m a)
unfolding copy_forward
forward-at zero d s i m a h = ground arith
forward-at (suc n) d s i m a h =
    ground (arith, forward-at n d s (i + 1) (update m (d + i) (m (s + i))) a)

-- A backward copy to a place at or above its source.
backward-at :
    (n d s : ℕ) (m : Memory) (a : ℕ)
    → s ≤ d
    → copy_backward n d s m a ≡ (if in_block d n a then m (s + (a - d)) else m a)
unfolding copy_backward
backward-at zero d s m a le = ground arith
backward-at (suc n) d s m a le =
    ground (arith, backward-at n d s (update m (d + n) (m (s + n))) a le)

-- For every destination, source and size, however they overlap, memmove leaves in the destination
-- what stood in the source before, and changes no other byte.
pub memmove-at :
    (m : Memory) (dest src n a : ℕ)
    → memmove m dest src n a ≡ (if in_block dest n a then m (src + (a - dest)) else m a)
unfolding memmove
memmove-at m dest src n a = elim (Bool-cases (ltb dest src)) [
  | inl e ↦ rw e (forward-at n dest src 0 m a (ground arith) ∙ ground arith)
  | inr e ↦ rw e (backward-at n dest src m a (ground arith))
]

-- `memcpy` does the same if the destination starts at or below the source or the blocks are apart.
pub memcpy-at :
    (m : Memory) (dest src n a : ℕ)
    → (dest ≤ src) ⊎ (src + n ≤ dest)
    → memcpy m dest src n a ≡ (if in_block dest n a then m (src + (a - dest)) else m a)
unfolding memcpy
memcpy-at m dest src n a h = forward-at n dest src 0 m a (ground arith) ∙ ground arith

set_bytes-at :
    (n p value i : ℕ) (m : Memory) (a : ℕ)
    → set_bytes n p value i m a ≡ (if in_block (p + i) n a then value % u8_mod else m a)
unfolding set_bytes
set_bytes-at zero p value i m a = ground arith
set_bytes-at (suc n) p value i m a =
    ground (arith, set_bytes-at n p value (i + 1) (update m (p + i) (value % u8_mod)) a)

-- `memset` stores the low byte of the value in every byte of the block and changes no other.
pub memset-at :
    (m : Memory) (ptr value n a : ℕ)
    → memset m ptr value n a ≡ (if in_block ptr n a then value % u8_mod else m a)
unfolding memset
memset-at m ptr value n a = set_bytes-at n ptr value 0 m a ∙ ground arith
