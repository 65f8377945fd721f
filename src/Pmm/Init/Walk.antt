-- ===== src/Pmm/Init/Walk.antt =====
-- The walk of `pmm_init` of mm/pmm.c over the memory map: the entries that it visits, the frames
-- that they free, and how long it takes.
use aioncore.Base.{
  ℕ, zero, suc, refl, ◌+◌, ◌-◌, ◌*◌, ◌^◌, ◌/◌, ◌≤◌, ◌<◌, ◌≡◌, Bool, false, arith, ◌==◌, ◌&&◌, ◌||◌,
  leb, ltb, if◌then◌else◌, some, List, [], ◌∷◌, length,
}
use native.Mathlib.Decide.{dec_lt}
use aioncore.Base.Words.{add64, u32_mod}
use aioncore.Pmm.{Pmm, bitmap_test, max_frames, frame_size}
use aioncore.Pmm.Bitmap.{test-clear}
use aioncore.Pmm.Init.{
  MmapEntry, free_frame, mark_free, mark_region, next_entry, parse_mmap, multiboot_memory_available,
}

-- frame `g` lies from `lo` up to `hi`
abbrev pub within : (lo hi g : ℕ) → Bool
within lo hi g = leb lo g && ltb g hi

-- The loop clears the frames it runs over, up to the end of the bitmap.
pub test-mark_free :
    (n frame : ℕ) (s : Pmm) (g : ℕ)
    → g < max_frames
    → bitmap_test (mark_free n frame s).frame_bitmap g
      ≡ (if within frame (frame + n) g then false else bitmap_test s.frame_bitmap g)
unfolding mark_free free_frame
test-mark_free zero frame s g lt = ground arith
test-mark_free (suc n) frame s g lt = ground (
  arith,
  test-mark_free n (frame + 1) (if ltb frame max_frames then free_frame s frame else s) g lt,
  test-clear s.frame_bitmap frame g,
)

-- The entries that the walk visits from an address on.
pub data Walk (read : ℕ → MmapEntry) (mmap_end : ℕ) : ℕ → List MmapEntry → Type 0 where
  stop : {mmap : ℕ} → mmap_end ≤ mmap → Walk read mmap_end mmap []
  visit :
      {mmap : ℕ} {entries : List MmapEntry}
      → mmap < mmap_end
      → Walk read mmap_end (next_entry mmap (read mmap)) entries
      → Walk read mmap_end mmap (read mmap ∷ entries)

unfoldable pub mark_all : List MmapEntry → Pmm → Pmm
mark_all [] s = s
mark_all (entry ∷ entries) s = mark_all entries (mark_region s entry)

-- the frames that the code marks for an entry, with its 64-bit sums
abbrev pub marks : MmapEntry → ℕ → Bool
marks entry g =
    (entry.type == multiboot_memory_available)
    && within (add64 entry.addr (frame_size - 1) / frame_size)
        (add64 entry.addr entry.len / frame_size) g

abbrev pub marked : List MmapEntry → ℕ → Bool
marked [] g = false
marked (entry ∷ entries) g = marks entry g || marked entries g

-- Every byte of frame `g` lies in an available region.
abbrev pub covers : MmapEntry → ℕ → Bool
covers entry g =
    (entry.type == multiboot_memory_available)
    && (leb entry.addr (g * 4096) && leb ((g + 1) * 4096) (entry.addr + entry.len))

abbrev pub covered : List MmapEntry → ℕ → Bool
covered [] g = false
covered (entry ∷ entries) g = covers entry g || covered entries g

-- No entry reaches the end of the 64-bit addresses.
abbrev pub NoWrap : List MmapEntry → Type 0
NoWrap [] = 0 ≤ 0
NoWrap (entry ∷ entries) =
    (entry.addr + 4095 < 2 ^ 64) × (entry.addr + entry.len < 2 ^ 64) × NoWrap entries

marks-eq :
    (entry : MmapEntry) (g : ℕ)
    → entry.addr + 4095 < 2 ^ 64
    → entry.addr + entry.len < 2 ^ 64
    → marks entry g ≡ covers entry g
marks-eq entry g a b =
    let lo : add64 entry.addr 4095 ≡ entry.addr + 4095 = omega arith in
    let hi : add64 entry.addr entry.len ≡ entry.addr + entry.len = omega arith in
    rw lo (rw hi (ground arith))

-- Then the code marks the frames that lie whole in an available entry.
pub marked-eq :
    (entries : List MmapEntry) (g : ℕ) → NoWrap entries → marked entries g ≡ covered entries g
marked-eq [] g h = refl
marked-eq (entry ∷ entries) g (a, b, h) =
    let e = marks-eq entry g a b in let f = marked-eq entries g h in rw e (rw f refl)

pub parse_mmap-Walk :
    (read : ℕ → MmapEntry) (fuel mmap mmap_end : ℕ) (entries : List MmapEntry) (s : Pmm)
    → Walk read mmap_end mmap entries
    → length entries < fuel
    → parse_mmap read fuel mmap mmap_end s ≡ some (mark_all entries s)
unfolding parse_mmap mark_all
parse_mmap-Walk read zero mmap mmap_end entries s w h = elim h [ ]
parse_mmap-Walk read (suc fuel) mmap mmap_end entries s (stop le) h = ground arith
parse_mmap-Walk read (suc fuel) mmap mmap_end entries s (visit {entries = rest} lt w) h = ground (
  arith,
  parse_mmap-Walk read fuel (next_entry mmap (read mmap)) mmap_end rest (mark_region s (read mmap))
      w (omega arith),
)

test-mark_region :
    (s : Pmm) (entry : MmapEntry) (g : ℕ)
    → g < max_frames
    → bitmap_test (mark_region s entry).frame_bitmap g
      ≡ (if marks entry g then false else bitmap_test s.frame_bitmap g)
unfolding mark_region
test-mark_region s entry g lt =
    let lo = add64 entry.addr 4095 / 4096 in
    ground (arith, test-mark_free (add64 entry.addr entry.len / 4096 - lo) lo s g lt)

pub test-mark_all :
    (entries : List MmapEntry) (s : Pmm) (g : ℕ)
    → g < max_frames
    → bitmap_test (mark_all entries s).frame_bitmap g
      ≡ (if marked entries g then false else bitmap_test s.frame_bitmap g)
unfolding mark_all
test-mark_all [] s g lt = refl
test-mark_all (entry ∷ entries) s g lt =
    ground (arith, test-mark_all entries (mark_region s entry) g lt, test-mark_region s entry g lt)

next_entry-gt :
    (mmap : ℕ) (entry : MmapEntry) → mmap + entry.size + 4 < u32_mod → mmap < next_entry mmap entry
unfolding next_entry
next_entry-gt mmap entry h = omega arith

-- A memory map whose entries do not wrap round the address space is walked in at most as many
-- entries as it has bytes, so fuel above that number is enough.
pub Walk-bounded :
    (read : ℕ → MmapEntry) (mmap_end : ℕ)
    → ((a : ℕ) → a < mmap_end → a + (read a).size + 4 < u32_mod)
    → (k mmap : ℕ) → mmap_end - mmap ≤ k
    → (entries : List MmapEntry) × Walk read mmap_end mmap entries × (length entries ≤ k)
Walk-bounded read mmap_end h zero mmap le = ([], stop (omega arith), omega arith)
Walk-bounded read mmap_end h (suc k) mmap le = elim (dec_lt mmap mmap_end) [
  | no n ↦ ([], stop (omega arith), omega arith)
  | yes lt ↦
      let (rest, w, short) =
        Walk-bounded read mmap_end h k (next_entry mmap (read mmap)) (next-le lt) in
      (read mmap ∷ rest, visit lt w, omega arith)
]
  where
    next-le : mmap < mmap_end → mmap_end - next_entry mmap (read mmap) ≤ k
    next-le lt = omega (arith, h mmap lt, next_entry-gt mmap (read mmap) (h mmap lt))
