-- ===== src/Pmm.antt =====
-- mm/pmm.c and include/kernel/pmm.h: the frame allocator over a bitmap with one bit per 4 KB frame.
-- `size_t` and `phys_addr_t` are the 32-bit types of the kernel target. The assertions are those
-- of a release build, which compiles them out.
pub mod Bitmap
pub mod Alloc
pub mod Owners
pub mod Reserve
pub mod Init
pub mod Samples
mod Tests
use Prim.Native.Nat.{bit_and}
use aioncore.Base.{
  ℕ, zero, suc, ◌+◌, ◌-◌, ◌*◌, ◌/◌, ◌%◌, ◌^◌, Bool, true, false, not, ◌&&◌, ◌||◌, Option, none,
  some, ◌==◌, ltb, leb, if◌then◌else◌, update,
}
use aioncore.Base.Words.{u32_mod, u64_mod, inc32, dec32, add32, sub32, add64}
use aioncore.Base.Bits.{set_bit, clear_bit, test_bit}

abbrev pub frame_size : ℕ
frame_size = 4096

abbrev pub max_frames : ℕ
max_frames = 4 * 1024 * 1024 * 1024 / frame_size

abbrev pub bitmap_size : ℕ
bitmap_size = max_frames / 8

-- `frame_bitmap`: the byte at each index
abbrev pub Bytes : Type 0
Bytes = ℕ → ℕ

-- `pmm_state` and `frame_bitmap`. `bitmap` says whether that pointer has been set.
pub record Pmm : Type 0 where
  pub frame_bitmap : Bytes
  pub bitmap : Bool
  pub total_frames : ℕ
  pub free_frames : ℕ
  pub reserved_frames : ℕ
  pub initialized : Bool

unfoldable pub bitmap_test : Bytes → ℕ → Bool
bitmap_test m frame = test_bit (m (frame / 8)) (frame % 8)

unfoldable pub bitmap_set : Bytes → ℕ → Bytes
bitmap_set m frame = update m (frame / 8) (set_bit (m (frame / 8)) (frame % 8))

-- `~(1 << bit)` is a 32-bit `int`.
unfoldable pub bitmap_clear : Bytes → ℕ → Bytes
bitmap_clear m frame = update m (frame / 8) (clear_bit 32 (m (frame / 8)) (frame % 8))

-- The inner loop: `n` bits left to look at, from `bit` on.
unfoldable pub find_bit : ℕ → (n bit : ℕ) → Option ℕ
find_bit byte zero bit = none
find_bit byte (suc n) bit =
    let rest = find_bit byte n (bit + 1) in if test_bit byte bit then rest else some bit

-- The outer loop: `n` bytes left, from index `i` on.
unfoldable pub find_byte : Bytes → (n i : ℕ) → ℕ
find_byte m zero i = max_frames
find_byte m (suc n) i =
    let rest = find_byte m n (i + 1) in
    if m i == 0xff then rest else elim (find_bit (m i) 8 0) [ none ↦ rest | some bit ↦ i * 8 + bit ]

unfoldable pub bitmap_find_free : Bytes → ℕ
bitmap_find_free m = find_byte m bitmap_size 0

unfoldable pub pmm_is_initialized : Pmm → Bool
pmm_is_initialized s = s.initialized

-- The bit is set, the count goes down, and the address is checked before it is handed out.
unfoldable pub take_frame : Pmm → ℕ → Pmm × ℕ
take_frame s frame =
    let s' = record s {
      frame_bitmap = bitmap_set s.frame_bitmap frame;
      free_frames = dec32 s.free_frames;
    } in
    let addr = frame * frame_size % u32_mod in
    if not (bit_and addr (frame_size - 1) == 0) then (s', 0) else (s', addr)

-- The new state and the address, 0 on failure.
unfoldable pub pmm_alloc_page : Pmm → Pmm × ℕ
pmm_alloc_page s =
    if not s.initialized || not s.bitmap
    then (s, 0)
    else if s.free_frames == 0
    then (s, 0)
    else let frame = bitmap_find_free s.frame_bitmap in
      if leb max_frames frame then (s, 0) else take_frame s frame

unfoldable pub pmm_free_page : Pmm → ℕ → Pmm
pmm_free_page s page =
    let frame = page / frame_size in
    if not (bitmap_test s.frame_bitmap frame) then s else record s {
      frame_bitmap = bitmap_clear s.frame_bitmap frame;
      free_frames = inc32 s.free_frames;
    }

-- The two nested tests that keep the counters.
count_reserved : Pmm → ℕ → Pmm
count_reserved s frame =
    if not (bitmap_test s.frame_bitmap frame) && ltb frame s.total_frames
    then if ltb 0 s.free_frames
      then record s { free_frames = dec32 s.free_frames; reserved_frames = inc32 s.reserved_frames }
      else s
    else s

-- One round of the loop of `pmm_reserve_region`.
pub reserve_frame : Pmm → ℕ → Pmm
unfolding count_reserved
reserve_frame s frame =
    if ltb frame max_frames
    then (let s' = count_reserved s frame in
        record s' { frame_bitmap = bitmap_set s'.frame_bitmap frame })
    else s

pub reserve_frames : (n frame : ℕ) → Pmm → Pmm
reserve_frames zero frame s = s
reserve_frames (suc n) frame s = reserve_frames n (frame + 1) (reserve_frame s frame)

unfoldable pub pmm_reserve_region : Pmm → (start size : ℕ) → Pmm
unfolding reserve_frames reserve_frame
pmm_reserve_region s start size =
    let frame_start = start / frame_size in
    let frame_end = add32 (add32 start size) (frame_size - 1) / frame_size in
    reserve_frames (frame_end - frame_start) frame_start s

pub record PmmStats : Type 0 where
  pub total_frames : ℕ
  pub free_frames : ℕ
  pub reserved_frames : ℕ
  pub kernel_frames : ℕ

-- What is stored through `stats`; nothing if that is NULL.
unfoldable pub pmm_get_stats : Pmm → (stats : ℕ) → Option PmmStats
pmm_get_stats s stats =
    if stats == 0
    then none
    else some (record {
      total_frames = s.total_frames;
      free_frames = s.free_frames;
      reserved_frames = s.reserved_frames;
      kernel_frames = s.reserved_frames;
    })
