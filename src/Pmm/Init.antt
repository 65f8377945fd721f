-- ===== src/Pmm/Init.antt =====
-- `pmm_init` of mm/pmm.c and the multiboot structures of include/kernel/pmm.h. The memory that
-- the boot loader fills is a parameter `read`: the map entry at each address. The bounds of the
-- kernel image, which the linker sets, are parameters too.
pub mod Walk
pub mod Boot
use Prim.Native.Nat.{bit_and}
use aioncore.Base.{
  ℕ, zero, suc, ◌+◌, ◌-◌, ◌*◌, ◌/◌, ◌%◌, ◌^◌, Bool, true, false, not, ◌&&◌, ◌||◌, Option, none,
  some, ◌==◌, ltb, leb, if◌then◌else◌, update,
}
use mathlib.Core.Option
use aioncore.Base.Words.{u32_mod, u64_mod, inc32, dec32, add32, sub32, add64}
use aioncore.Pmm.{Pmm, Bytes, frame_size, max_frames, bitmap_size, bitmap_clear, pmm_reserve_region}

abbrev pub multiboot_magic : ℕ
multiboot_magic = 0x2BADB002

abbrev pub multiboot_flag_mmap : ℕ
multiboot_flag_mmap = 0x040

abbrev pub multiboot_memory_available : ℕ
multiboot_memory_available = 1

pub record MmapEntry : Type 0 where
  pub size : ℕ
  pub addr : ℕ
  pub len : ℕ
  pub type : ℕ

-- The fields of `struct multiboot_info` that `pmm_init` reads.
pub record MultibootInfo : Type 0 where
  pub flags : ℕ
  pub mmap_length : ℕ
  pub mmap_addr : ℕ

-- `bitmap_clear(frame); total_frames++; free_frames++`
pub free_frame : Pmm → ℕ → Pmm
free_frame s frame = record s {
  frame_bitmap = bitmap_clear s.frame_bitmap frame;
  total_frames = inc32 s.total_frames;
  free_frames = inc32 s.free_frames;
}

-- The loop over the frames of one available region: `n` rounds from `frame` on.
pub mark_free : (n frame : ℕ) → Pmm → Pmm
mark_free zero frame s = s
mark_free (suc n) frame s =
    mark_free n (frame + 1) (if ltb frame max_frames then free_frame s frame else s)

-- The frames that lie whole in the region, for memory of the type AVAILABLE.
pub mark_region : Pmm → MmapEntry → Pmm
mark_region s entry =
    let region_end = add64 entry.addr entry.len in
    if entry.type == multiboot_memory_available
    then (let frame_start = add64 entry.addr (frame_size - 1) / frame_size in
        let frame_end = region_end / frame_size in
        mark_free (frame_end - frame_start) frame_start s)
    else s

-- `mmap + mmap->size + sizeof(mmap->size)`
unfoldable pub next_entry : ℕ → MmapEntry → ℕ
next_entry mmap entry = add32 (add32 mmap entry.size) 4

module _ (read : ℕ → MmapEntry) where
  -- The walk over the map. `none` means that the fuel ran out.
  pub parse_mmap : (fuel mmap mmap_end : ℕ) → Pmm → Option Pmm
  parse_mmap zero mmap mmap_end s = none
  parse_mmap (suc fuel) mmap mmap_end s =
      let entry = read mmap in
      let rest = parse_mmap fuel (next_entry mmap entry) mmap_end (mark_region s entry) in
      if ltb mmap mmap_end then rest else some s

-- `frame_bitmap[i] = 0xFF` for every index of the array
pub fill_bitmap : Bytes → Bytes
fill_bitmap m i = if ltb i bitmap_size then 0xff else m i

pub reset : Pmm → Pmm
reset s = record s {
  frame_bitmap = fill_bitmap s.frame_bitmap;
  bitmap = true;
  total_frames = 0;
  free_frames = 0;
  reserved_frames = 0;
}

abbrev pub fallback_frames : ℕ
fallback_frames = 128 * 1024 * 1024 / frame_size

-- The label `fallback_init`: the first 128 MB are taken to be memory.
pub fallback_init : Pmm → Pmm
fallback_init s = mark_free fallback_frames 0 (reset s)

-- The label `reserve_regions`, to the end of `pmm_init`.
pub reserve_regions : (kernel_start kernel_end : ℕ) → Pmm → Pmm
reserve_regions kernel_start kernel_end s =
    let s = pmm_reserve_region s 0 frame_size in
    let s = pmm_reserve_region s 0xb8000 (32 * 1024) in
    let s = pmm_reserve_region s kernel_start (sub32 kernel_end kernel_start) in
    record s { initialized = true }

-- The three reasons for the fallback, in the order of the tests.
unfoldable pub use_fallback : (magic mbi : ℕ) → MultibootInfo → Bool
use_fallback magic mbi info =
    not (magic == multiboot_magic)
    || (mbi == 0 || ltb mbi 0x1000)
    || (bit_and info.flags multiboot_flag_mmap == 0)

module _ (read : ℕ → MmapEntry) (kernel_start kernel_end : ℕ) where
  -- `info` is what stands at the address `mbi`, read only after the tests on `magic` and `mbi`.
  unfoldable pub pmm_init : (fuel magic mbi : ℕ) → MultibootInfo → Pmm → Option Pmm
  pmm_init fuel magic mbi info s =
      if use_fallback magic mbi info
      then some (reserve_regions kernel_start kernel_end (fallback_init s))
      else Option.map (reserve_regions kernel_start kernel_end)
          (parse_mmap read fuel info.mmap_addr (add32 info.mmap_addr info.mmap_length) (reset s))
