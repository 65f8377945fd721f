-- ===== src/Gdt/Decode.antt =====
-- What the processor reads from the descriptors that arch/x86/gdt.c encodes: the fields are put
-- together as the architecture lays them out.
use Prim.Native.Nat.{bit_and, bit_or}
use aioncore.Base.{
  ℕ, ◌+◌, ◌-◌, ◌*◌, ◌/◌, ◌%◌, ◌^◌, ◌<◌, ◌≡◌, refl, Bool, true, false, arith, ◌==◌, ◌&&◌,
}
use aioncore.Base.Bits.{bit_and-mask}
use aioncore.Base.Bits.Nibbles.{bit_or-nibble, bit_and-high}
use aioncore.Gdt.{
  GdtDescriptor, Gdt, encode_gdt_descriptor, gdt_init, gdt_kernel_code_sel, gdt_kernel_data_sel,
  gdt_user_code_sel, gdt_user_data_sel, gdt_tss_sel,
}

abbrev pub segment_base : GdtDescriptor → ℕ
segment_base d = d.base_low + d.base_mid * 2 ^ 16 + d.base_high * 2 ^ 24

abbrev pub segment_limit : GdtDescriptor → ℕ
segment_limit d = d.limit_low + d.granularity % 16 * 2 ^ 16

abbrev pub segment_flags : GdtDescriptor → ℕ
segment_flags d = d.granularity / 16

-- For a base of 32 bits, a limit of 20 bits and a granularity byte, the processor reads back
-- from an encoded descriptor the base, the limit, the access byte and the flags.
pub encode-decode :
    (base limit access gran : ℕ)
    → base < 2 ^ 32
    → limit < 2 ^ 20
    → gran < 2 ^ 8
    → let d = encode_gdt_descriptor base limit access gran in
      (segment_base d ≡ base)
      × (segment_limit d ≡ limit)
      × (d.access ≡ access)
      × (segment_flags d ≡ gran / 16)
unfolding encode_gdt_descriptor
encode-decode base limit access gran hb hl hg =
    let lo = bit_and-mask 16 base in
    let mid = bit_and-mask 8 (base / 2 ^ 16) in
    let hi = bit_and-mask 8 (base / 2 ^ 24) in
    let low = bit_and-mask 16 limit in
    let top : bit_and (limit / 2 ^ 16) 0x0F ≡ limit / 2 ^ 16 % 16 =
      bit_and-mask 4 (limit / 2 ^ 16) in
    let g : bit_or (bit_and gran 0xF0) (bit_and (limit / 2 ^ 16) 0x0F)
        ≡ 16 * (gran / 16 % 16) + limit / 2 ^ 16 % 16 =
      rw top (
        rw (bit_and-high gran)
          (bit_or-nibble (gran / 16 % 16) (limit / 2 ^ 16 % 16) (omega arith))) in
    (omega (arith, lo, mid, hi), rw g (omega (arith, low)), refl, rw g (omega arith))

-- the descriptor that a selector names, the privilege level of a descriptor, its kind
abbrev pub selected : Gdt → (selector : ℕ) → GdtDescriptor
selected s selector = s.gdt (selector / 8)

abbrev pub privilege : GdtDescriptor → ℕ
privilege d = d.access / 32 % 4

-- present, code or data: the bits 7 and 4
abbrev pub is_segment : GdtDescriptor → Bool
is_segment d = (d.access / 16 % 2 == 1) && (d.access / 128 == 1)

abbrev pub is_code : GdtDescriptor → Bool
is_code d = d.access / 8 % 2 == 1

-- A present segment from 0 to 4 GB, of 32 bits, at the privilege level in the selector.
pub record IsFlat (s : Gdt) (selector : ℕ) (code : Bool) : Type 0 where
  pub base : segment_base (selected s selector) ≡ 0
  pub limit : segment_limit (selected s selector) ≡ 2 ^ 20 - 1
  pub flags : segment_flags (selected s selector) ≡ 0xC
  pub level : privilege (selected s selector) ≡ selector % 4
  pub segment : is_segment (selected s selector) ≡ true
  pub kind : is_code (selected s selector) ≡ code

pub record IsLoaded (s : Gdt) (tss_addr gdt_addr : ℕ) : Type 0 where
  pub kernel_code : IsFlat s gdt_kernel_code_sel true
  pub kernel_data : IsFlat s gdt_kernel_data_sel false
  pub user_code : IsFlat s gdt_user_code_sel true
  pub user_data : IsFlat s gdt_user_data_sel false
  pub tss_base : segment_base (selected s gdt_tss_sel) ≡ tss_addr
  pub tss_limit : segment_limit (selected s gdt_tss_sel) ≡ 104 - 1
  pub tss_access : (selected s gdt_tss_sel).access ≡ 0x89
  pub pointer : s.gdt_ptr ≡ record { limit = 6 * 8 - 1; base = gdt_addr }
  pub stack_segment : s.tss.ss0 ≡ gdt_kernel_data_sel

-- What makes a descriptor flat, from the two bytes that differ.
flat_lem :
    (s : Gdt) (selector : ℕ) (code : Bool) (access : ℕ)
    → selected s selector ≡ encode_gdt_descriptor 0 0xFFFFF access 0xC0
    → access / 32 % 4 ≡ selector % 4
    → ((access / 16 % 2 == 1) && (access / 128 == 1)) ≡ true
    → (access / 8 % 2 == 1) ≡ code
    → IsFlat s selector code
flat_lem s selector code access e level segment kind =
    let (b, l, a, f) =
      encode-decode 0 0xFFFFF access 0xC0 (omega arith) (omega arith) (omega arith) in
    record {
      base = rw e b;
      limit = rw e l;
      flags = rw e f;
      level = rw e (rw a level);
      segment = rw e (rw a segment);
      kind = rw e (rw a kind);
    }

-- After gdt_init, for a 32-bit address of the task state segment, each of the four code and data
-- selectors of the header names a flat 32-bit segment of its kind at the privilege level in its
-- low bits, and the task selector names a present task state segment of 104 bytes at that address.
pub gdt_init-IsLoaded :
    (tss_addr gdt_addr : ℕ) (s : Gdt)
    → tss_addr < 2 ^ 32
    → IsLoaded (gdt_init tss_addr gdt_addr s) tss_addr gdt_addr
unfolding gdt_init
gdt_init-IsLoaded tss_addr gdt_addr s lt =
    let t = encode-decode tss_addr 103 0x89 0 lt (omega arith) (omega arith) in
    record {
      kernel_code = flat_lem _ _ _ _ refl refl refl refl;
      kernel_data = flat_lem _ _ _ _ refl refl refl refl;
      user_code = flat_lem _ _ _ _ refl refl refl refl;
      user_data = flat_lem _ _ _ _ refl refl refl refl;
      tss_base = t.0;
      tss_limit = t.1;
      tss_access = t.2;
      pointer = refl;
      stack_segment = refl;
    }
