-- ===== src/Mmu/Tables.antt =====
-- Frames of physical memory as tables of 1024 words, and the bit fields of arch/x86/mmu.c in
-- numbers.
use Prim.Native.Nat.{bit_and, bit_or}
use aioncore.Base.{
  ℕ, zero, suc, ◌+◌, ◌*◌, ◌/◌, ◌%◌, ◌^◌, ◌≤◌, ◌<◌, ◌≡◌, arith, ◌==◌, ◌&&◌, ltb, if◌then◌else◌,
  update, ap,
}
use aioncore.Base.Bits.{bit_and-mask}
use aioncore.Base.Bits.Shifts.{
  bit_or-frame, bit_and-frame, bit_or-two, bit_or-four, bit_and-two, bit_and-four, bit_and-eight,
}
use aioncore.Mmu.{clear_entries, flags_to_x86, is_page_aligned, pd_index, pt_index, page_frame}

-- word `i` of frame `f`
abbrev pub cell : (ℕ → ℕ) → (f i : ℕ) → ℕ
cell m f i = m (f * 4096 + 4 * i)

pub clear-cell :
    (n base : ℕ) (m : ℕ → ℕ) (f i : ℕ)
    → n ≤ 1024
    → i < 1024
    → cell (clear_entries n (base * 4096) m) f i
      ≡ (if (base == f) && ltb i n then 0 else cell m f i)
unfolding clear_entries
clear-cell zero base m f i le lt = ground arith
clear-cell (suc n) base m f i le lt = ground (arith, clear-cell n base m f i (omega arith) lt)

-- a write to one word
pub update-cell :
    (m : ℕ → ℕ) (f i v g j : ℕ)
    → i < 1024
    → j < 1024
    → cell (update m (f * 4096 + 4 * i) v) g j ≡ (if (f == g) && (i == j) then v else cell m g j)
update-cell m f i v g j a b = ground arith

pub pd_index-eq : (virt : ℕ) → pd_index virt ≡ virt / 4096 / 1024 % 1024
pd_index-eq virt = omega (arith, bit_and-mask 10 (virt / 2 ^ 22))

pub pt_index-eq : (virt : ℕ) → pt_index virt ≡ virt / 4096 % 1024
pt_index-eq virt = bit_and-mask 10 (virt / 2 ^ 12)

pub page_frame-eq : (entry : ℕ) → page_frame entry ≡ entry / 4096 % 2 ^ 20 * 4096
page_frame-eq = bit_and-frame

pub is_page_aligned-eq : (a : ℕ) → is_page_aligned a ≡ (a % 4096 == 0)
is_page_aligned-eq a = let e = bit_and-mask 12 a in ap (λ (x : ℕ). x == 0) e

pub present-eq : (entry : ℕ) → bit_and entry (2 ^ 0) ≡ entry % 2
present-eq = bit_and-mask 1

-- The entry of a new table.
pub table_entry-eq :
    (f : ℕ) → bit_or (bit_or (bit_or (f * 4096) (2 ^ 0)) (2 ^ 1)) (2 ^ 2) ≡ f * 4096 + 7
table_entry-eq f =
    let a = bit_or-frame f 1 (omega arith) in
    let b = bit_or-two (f * 4096 + 1) (omega arith) in
    let c = bit_or-four (f * 4096 + 3) (omega arith) in
    rw a (rw b (let e : f * 4096 + 1 + 2 ≡ f * 4096 + 3 = omega arith in rw e (omega (arith, c))))

-- The flags of a page table entry: present, writable and user keep their places, and the bit that
-- turns the cache off moves from bit 3 to bit 4.
abbrev pub x86_flags_of : ℕ → ℕ
x86_flags_of flags = flags % 2 + 2 * (flags / 2 % 2) + 4 * (flags / 4 % 2) + 16 * (flags / 8 % 2)

-- The flags of a page table entry are the generic flags with present, writable and user in their
-- places and the bit that turns the cache off moved from bit 3 to bit 4; every other bit is
-- dropped.
pub flags_to_x86-eq : (flags : ℕ) → flags_to_x86 flags ≡ x86_flags_of flags
unfolding flags_to_x86
flags_to_x86-eq flags =
    ground (arith, bit_and-mask 1 flags, bit_and-two flags, bit_and-four flags, bit_and-eight flags)
