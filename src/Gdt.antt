-- ===== src/Gdt.antt =====
-- arch/x86/gdt.c: the segment descriptors and the task state segment. The addresses of the static
-- tables are arguments; loading the registers, which is assembly, is not modelled.
pub mod Decode
mod Tests
use Prim.Native.Nat.{bit_and, bit_or}
use aioncore.Base.{ℕ, ◌+◌, ◌-◌, ◌*◌, ◌/◌, ◌%◌, ◌^◌, update}
use aioncore.Base.Words.{u16_mod, u8_mod}

abbrev pub gdt_kernel_code_sel : ℕ
gdt_kernel_code_sel = 0x08

abbrev pub gdt_kernel_data_sel : ℕ
gdt_kernel_data_sel = 0x10

abbrev pub gdt_user_code_sel : ℕ
gdt_user_code_sel = 0x1B

abbrev pub gdt_user_data_sel : ℕ
gdt_user_data_sel = 0x23

abbrev pub gdt_tss_sel : ℕ
gdt_tss_sel = 0x28

pub record GdtDescriptor : Type 0 where
  pub limit_low : ℕ
  pub base_low : ℕ
  pub base_mid : ℕ
  pub access : ℕ
  pub granularity : ℕ
  pub base_high : ℕ

pub record GdtPtr : Type 0 where
  pub limit : ℕ
  pub base : ℕ

-- The three fields of the task state segment that the kernel sets; the others stay 0.
pub record Tss : Type 0 where
  pub esp0 : ℕ
  pub ss0 : ℕ
  pub iomap_base : ℕ

pub record Gdt : Type 0 where
  pub gdt : ℕ → GdtDescriptor
  pub gdt_ptr : GdtPtr
  pub tss : Tss

abbrev pub gdt_access_present : ℕ
gdt_access_present = 2 ^ 7

abbrev pub gdt_access_dpl_0 : ℕ
gdt_access_dpl_0 = 0

abbrev pub gdt_access_dpl_3 : ℕ
gdt_access_dpl_3 = 3 * 2 ^ 5

abbrev pub gdt_access_descriptor : ℕ
gdt_access_descriptor = 2 ^ 4

abbrev pub gdt_access_executable : ℕ
gdt_access_executable = 2 ^ 3

abbrev pub gdt_access_rw : ℕ
gdt_access_rw = 2 ^ 1

abbrev pub gdt_gran_4k : ℕ
gdt_gran_4k = 2 ^ 7

abbrev pub gdt_gran_32bit : ℕ
gdt_gran_32bit = 2 ^ 6

-- Each field is stored in the width of its member.
unfoldable pub encode_gdt_descriptor : (base limit access gran : ℕ) → GdtDescriptor
encode_gdt_descriptor base limit access gran = record {
  limit_low = bit_and limit 0xFFFF;
  granularity = bit_or (bit_and gran 0xF0) (bit_and (limit / 2 ^ 16) 0x0F);
  base_low = bit_and base 0xFFFF;
  base_mid = bit_and (base / 2 ^ 16) 0xFF;
  base_high = bit_and (base / 2 ^ 24) 0xFF;
  access = access;
}

abbrev pub kernel_code_access : ℕ
kernel_code_access =
    bit_or
      (bit_or (bit_or (bit_or gdt_access_present gdt_access_dpl_0) gdt_access_descriptor)
        gdt_access_executable)
      gdt_access_rw

abbrev pub kernel_data_access : ℕ
kernel_data_access =
    bit_or (bit_or (bit_or gdt_access_present gdt_access_dpl_0) gdt_access_descriptor) gdt_access_rw

abbrev pub user_code_access : ℕ
user_code_access =
    bit_or
      (bit_or (bit_or (bit_or gdt_access_present gdt_access_dpl_3) gdt_access_descriptor)
        gdt_access_executable)
      gdt_access_rw

abbrev pub user_data_access : ℕ
user_data_access =
    bit_or (bit_or (bit_or gdt_access_present gdt_access_dpl_3) gdt_access_descriptor) gdt_access_rw

abbrev pub tss_access : ℕ
tss_access = bit_or (bit_or gdt_access_present gdt_access_dpl_0) 0x09

-- `gran` of the four flat segments
abbrev pub flat_gran : ℕ
flat_gran = bit_or gdt_gran_4k gdt_gran_32bit

abbrev pub sizeof_tss : ℕ
sizeof_tss = 104

abbrev pub sizeof_gdt : ℕ
sizeof_gdt = 6 * 8

-- `tss_addr` is `&tss` and `gdt_addr` is `&gdt`.
unfoldable pub gdt_init : (tss_addr gdt_addr : ℕ) → Gdt → Gdt
gdt_init tss_addr gdt_addr s =
    let g0 = update s.gdt 0 (encode_gdt_descriptor 0 0 0 0) in
    let g1 = update g0 1 (encode_gdt_descriptor 0 0xFFFFF kernel_code_access flat_gran) in
    let g2 = update g1 2 (encode_gdt_descriptor 0 0xFFFFF kernel_data_access flat_gran) in
    let g3 = update g2 3 (encode_gdt_descriptor 0 0xFFFFF user_code_access flat_gran) in
    let g4 = update g3 4 (encode_gdt_descriptor 0 0xFFFFF user_data_access flat_gran) in
    record {
      gdt = update g4 5 (encode_gdt_descriptor tss_addr (sizeof_tss - 1) tss_access 0);
      gdt_ptr = record { limit = sizeof_gdt - 1; base = gdt_addr };
      tss = record { esp0 = 0; ss0 = gdt_kernel_data_sel; iomap_base = sizeof_tss };
    }

unfoldable pub gdt_set_kernel_stack : ℕ → Gdt → Gdt
gdt_set_kernel_stack esp0 s = let t = s.tss in record s { tss = record t { esp0 = esp0 } }
