-- ===== src/Pmm/Alloc.antt =====
-- `pmm_alloc_page` and `pmm_free_page` of mm/pmm.c, on every path.
use aioncore.Base.{
  ℕ, ◌*◌, ◌/◌, ◌%◌, ◌^◌, ◌<◌, ◌≡◌, ◌≢◌, refl, true, false, arith, ◌⊎◌, inl, inr, ◌==◌, leb,
  if◌then◌else◌, Bool-cases,
}
use aioncore.Base.Bits.{bit_and-mask}
use aioncore.Base.Words.{inc32, dec32, u32_mod}
use aioncore.Pmm.{
  Pmm, bitmap_test, bitmap_set, bitmap_find_free, max_frames, frame_size, take_frame,
  pmm_alloc_page, pmm_free_page,
}
use aioncore.Pmm.Bitmap.{LowestFree, bitmap_find_free-LowestFree, test-set, test-clear}

-- Why an allocation is refused.
abbrev pub Refused : Pmm → Type 0
Refused s =
    (s.initialized ≡ false)
    ⊎ (s.bitmap ≡ false)
    ⊎ (s.free_frames ≡ 0)
    ⊎ ((g : ℕ) → g < max_frames → bitmap_test s.frame_bitmap g ≡ true)

-- What a successful allocation has done: `addr` is the lowest free frame, which alone is taken.
pub record Took (s : Pmm) (t : Pmm) (addr : ℕ) : Type 0 where
  pub ready : (s.initialized ≡ true) × (s.bitmap ≡ true) × (s.free_frames ≢ 0)
  pub aligned : addr % frame_size ≡ 0
  pub in_memory : addr / frame_size < max_frames
  pub was_free : bitmap_test s.frame_bitmap (addr / frame_size) ≡ false
  pub lowest : (g : ℕ) → g < addr / frame_size → bitmap_test s.frame_bitmap g ≡ true
  pub frames :
      (g : ℕ)
      → bitmap_test t.frame_bitmap g
        ≡ (if addr / frame_size == g then true else bitmap_test s.frame_bitmap g)
  pub free_frames : t.free_frames ≡ dec32 s.free_frames
  pub total_frames : t.total_frames ≡ s.total_frames
  pub reserved_frames : t.reserved_frames ≡ s.reserved_frames
  pub initialized : t.initialized ≡ s.initialized
  pub bitmap : t.bitmap ≡ s.bitmap

-- The alignment check of the allocator always passes.
take_frame-eq :
    (s : Pmm) (frame : ℕ)
    → frame < max_frames
    → take_frame s frame ≡ (
      record s {
        frame_bitmap = bitmap_set s.frame_bitmap frame;
        free_frames = dec32 s.free_frames;
      },
      frame * frame_size,
    )
unfolding take_frame
take_frame-eq s frame lt = ground (arith, bit_and-mask 12 (frame * 4096 % 2 ^ 32))

take_frame-Took :
    (s : Pmm) (frame : ℕ)
    → (s.initialized ≡ true) × (s.bitmap ≡ true) × (s.free_frames ≢ 0)
    → frame < max_frames
    → bitmap_test s.frame_bitmap frame ≡ false
    → ((g : ℕ) → g < frame → bitmap_test s.frame_bitmap g ≡ true)
    → Took s (take_frame s frame).0 (take_frame s frame).1
take_frame-Took s frame ready lt clear below =
    let f : frame * 4096 / 4096 ≡ frame = omega arith in
    rw (take_frame-eq s frame lt) (record {
      ready = ready;
      aligned = omega arith;
      in_memory = omega arith;
      was_free = rw f clear;
      lowest = rw f below;
      frames = rw f (test-set s.frame_bitmap frame);
      free_frames = refl;
      total_frames = refl;
      reserved_frames = refl;
      initialized = refl;
      bitmap = refl;
    })

abbrev Outcome : Pmm → Pmm × ℕ → Type 0
Outcome s out = (Refused s × (out ≡ (s, 0))) ⊎ Took s out.0 out.1

-- The last test of `pmm_alloc_page`, on what the scan has found.
take_found :
    (s : Pmm) (r : ℕ)
    → (s.initialized ≡ true) × (s.bitmap ≡ true) × (s.free_frames ≢ 0)
    → LowestFree s.frame_bitmap 0 max_frames r
    → Outcome s (if leb max_frames r then (s, 0) else take_frame s r)
take_found s r ready (inl (e, full)) =
    rw e (inl (inr (inr (inr λ g h. full g (omega arith) h)), refl))
take_found s r ready (inr (_, lt, clear, below)) =
    let small : leb max_frames r ≡ false = ground arith in
    rw small (inr (take_frame-Took s r ready lt clear λ g h. below g (omega arith) h))

-- Past its guards the allocator scans.
alloc-scan :
    (s : Pmm)
    → (s.initialized ≡ true) × (s.bitmap ≡ true) × (s.free_frames ≢ 0)
    → let r = bitmap_find_free s.frame_bitmap in
      pmm_alloc_page s ≡ (if leb max_frames r then (s, 0) else take_frame s r)
unfolding pmm_alloc_page
alloc-scan s (i, b, n) = ground arith

-- The guards.
alloc-unready :
    (s : Pmm)
    → (s.initialized ≡ false) ⊎ (s.bitmap ≡ false) ⊎ (s.free_frames ≡ 0)
    → pmm_alloc_page s ≡ (s, 0)
unfolding pmm_alloc_page
alloc-unready s h = ground arith

ready-cases :
    (s : Pmm)
    → ((s.initialized ≡ false) ⊎ (s.bitmap ≡ false) ⊎ (s.free_frames ≡ 0))
      ⊎ ((s.initialized ≡ true) × (s.bitmap ≡ true) × (s.free_frames ≢ 0))
ready-cases s = ground arith

unready-Refused :
    (s : Pmm) → (s.initialized ≡ false) ⊎ (s.bitmap ≡ false) ⊎ (s.free_frames ≡ 0) → Refused s
unready-Refused s (inl e) = inl e
unready-Refused s (inr (inl e)) = inr (inl e)
unready-Refused s (inr (inr e)) = inr (inr (inl e))

-- Every allocation is either refused for one of four listed reasons, returning 0 and changing
-- nothing, or takes the lowest free frame alone and returns its aligned address, with the counters
-- updated.
pub alloc-cases :
    (s : Pmm)
    → (Refused s × (pmm_alloc_page s ≡ (s, 0))) ⊎ Took s (pmm_alloc_page s).0 (pmm_alloc_page s).1
alloc-cases s = elim (ready-cases s) [
  | inl h ↦ inl (unready-Refused s h, alloc-unready s h)
  | inr ready ↦ rw (alloc-scan s ready) (
      take_found s (bitmap_find_free s.frame_bitmap) ready
        (bitmap_find_free-LowestFree s.frame_bitmap))
]

-- What freeing an allocated page has done: its frame alone is free again.
pub record Freed (s : Pmm) (page : ℕ) (t : Pmm) : Type 0 where
  pub was_set : bitmap_test s.frame_bitmap (page / frame_size) ≡ true
  pub frames :
      (g : ℕ)
      → bitmap_test t.frame_bitmap g
        ≡ (if page / frame_size == g then false else bitmap_test s.frame_bitmap g)
  pub free_frames : t.free_frames ≡ inc32 s.free_frames
  pub total_frames : t.total_frames ≡ s.total_frames
  pub reserved_frames : t.reserved_frames ≡ s.reserved_frames
  pub initialized : t.initialized ≡ s.initialized
  pub bitmap : t.bitmap ≡ s.bitmap

-- Freeing a page of a taken frame clears that frame alone and raises the free count; freeing a
-- page of a free frame changes nothing.
pub free-cases :
    (s : Pmm) (page : ℕ)
    → ((bitmap_test s.frame_bitmap (page / frame_size) ≡ false) × (pmm_free_page s page ≡ s))
      ⊎ Freed s page (pmm_free_page s page)
unfolding pmm_free_page
free-cases s page = elim (Bool-cases (bitmap_test s.frame_bitmap (page / frame_size))) [
  | inr e ↦ inl (e, rw e)
  | inl e ↦ inr (
      rw e (record {
        was_set = e;
        frames = test-clear s.frame_bitmap (page / frame_size);
        free_frames = refl;
        total_frames = refl;
        reserved_frames = refl;
        initialized = refl;
        bitmap = refl;
      }))
]

-- The same frames are taken, and the counters agree.
abbrev pub SameFrames : Pmm → Pmm → Type 0
SameFrames s t =
    ((g : ℕ) → bitmap_test t.frame_bitmap g ≡ bitmap_test s.frame_bitmap g)
    × (t.free_frames ≡ s.free_frames)
    × (t.total_frames ≡ s.total_frames)
    × (t.reserved_frames ≡ s.reserved_frames)

Freed-Took :
    (s t u : Pmm) (addr : ℕ)
    → s.free_frames < u32_mod
    → Took s t addr
    → ((bitmap_test t.frame_bitmap (addr / frame_size) ≡ false) × (u ≡ t)) ⊎ Freed t addr u
    → SameFrames s u
Freed-Took s t u addr small took (inl (e, _)) =
    absurd (ground (arith, took.frames (addr / frame_size)))
Freed-Took s t u addr small took (inr freed) = (
  λ g. ground (arith, freed.frames g, took.frames g, took.was_free),
  ground arith,
  ground arith,
  ground arith,
)

-- If an allocation is not refused and the free count is a 32-bit value, freeing its page restores
-- which frames are taken and all three counters.
pub free-alloc :
    (s : Pmm)
    → s.free_frames < u32_mod
    → ¬ Refused s
    → SameFrames s (pmm_free_page (pmm_alloc_page s).0 (pmm_alloc_page s).1)
free-alloc s small ok = elim (alloc-cases s) [
  | inl (refused, _) ↦ absurd (ok refused)
  | inr took ↦
      Freed-Took s (pmm_alloc_page s).0 _ (pmm_alloc_page s).1 small took
        (free-cases (pmm_alloc_page s).0 (pmm_alloc_page s).1)
]
