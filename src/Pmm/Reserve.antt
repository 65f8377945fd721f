-- ===== src/Pmm/Reserve.antt =====
-- `pmm_reserve_region` of mm/pmm.c: which frames it takes, and what it does to the counters.
use aioncore.Base.{
  ℕ, zero, suc, ◌+◌, ◌-◌, ◌/◌, ◌≤◌, ◌<◌, ◌≡◌, refl, true, false, arith, ◌&&◌, ◌||◌, leb, ltb, ◌∙◌,
}
use aioncore.Base.Words.{add32, u32_mod}
use aioncore.Pmm.{
  Pmm, bitmap_test, max_frames, frame_size, reserve_frame, reserve_frames, pmm_reserve_region,
}
use aioncore.Pmm.Bitmap.{test-set}

-- The counters do not overflow.
abbrev pub IsCounted : Pmm → Type 0
IsCounted s = s.free_frames + s.reserved_frames < u32_mod

-- `t` is `s` with the frames from `lo` up to `hi` taken. A frame moves from the free count to the
-- reserved count, or neither changes.
pub record Reserved (s : Pmm) (lo hi : ℕ) (t : Pmm) : Type 0 where
  pub frames :
      (g : ℕ)
      → bitmap_test t.frame_bitmap g ≡ ((leb lo g && ltb g hi) || bitmap_test s.frame_bitmap g)
  pub moved : t.free_frames + t.reserved_frames ≡ s.free_frames + s.reserved_frames
  pub free_le : t.free_frames ≤ s.free_frames
  pub total_frames : t.total_frames ≡ s.total_frames
  pub initialized : t.initialized ≡ s.initialized
  pub bitmap : t.bitmap ≡ s.bitmap

reserve_frame-Reserved :
    (s : Pmm) (frame : ℕ)
    → IsCounted s
    → frame < max_frames
    → Reserved s frame (frame + 1) (reserve_frame s frame)
unfolding reserve_frame
reserve_frame-Reserved s frame c lt = record {
  frames = λ g. ground (arith, test-set s.frame_bitmap frame g);
  moved = ground arith;
  free_le = ground arith;
  total_frames = ground arith;
  initialized = ground arith;
  bitmap = ground arith;
}

Reserved-none : (s : Pmm) (frame : ℕ) → Reserved s frame (frame + 0) s
Reserved-none s frame = record {
  frames = λ g. ground arith;
  moved = refl;
  free_le = omega arith;
  total_frames = refl;
  initialized = refl;
  bitmap = refl;
}

Reserved-append :
    {s t u : Pmm} (lo n : ℕ)
    → Reserved s lo (lo + 1) t
    → Reserved t (lo + 1) (lo + 1 + n) u
    → Reserved s lo (lo + suc n) u
Reserved-append lo n a b = record {
  frames = λ g. ground (arith, a.frames g, b.frames g);
  moved = omega arith;
  free_le = omega arith;
  total_frames = b.total_frames ∙ a.total_frames;
  initialized = b.initialized ∙ a.initialized;
  bitmap = b.bitmap ∙ a.bitmap;
}

pub reserve_frames-Reserved :
    (n frame : ℕ) (s : Pmm)
    → IsCounted s
    → frame + n ≤ max_frames
    → Reserved s frame (frame + n) (reserve_frames n frame s)
unfolding reserve_frames
reserve_frames-Reserved zero frame s c le = Reserved-none s frame
reserve_frames-Reserved (suc n) frame s c le =
    let first = reserve_frame-Reserved s frame c (omega arith) in
    Reserved-append frame n first
      (reserve_frames-Reserved n (frame + 1) (reserve_frame s frame) (omega arith) (omega arith))

-- Reserving a region of positive size whose rounded end does not pass 4 GB takes exactly the
-- frames it touches and keeps the sum of the free and reserved counts, where that sum is below
-- 2^32.
pub reserve_region-Reserved :
    (s : Pmm) (start size : ℕ)
    → IsCounted s
    → 0 < size
    → start + size + (frame_size - 1) < u32_mod
    → Reserved s
        (start / frame_size)
        ((start + size - 1) / frame_size + 1)
        (pmm_reserve_region s start size)
unfolding pmm_reserve_region
reserve_region-Reserved s start size c pos lt =
    let hi : add32 (add32 start size) 4095 / 4096 ≡ (start + size - 1) / 4096 + 1 = omega arith in
    let n = (start + size - 1) / 4096 + 1 - start / 4096 in
    let e : start / 4096 + n ≡ (start + size - 1) / 4096 + 1 = omega arith in
    rw hi (rw e at (reserve_frames-Reserved n (start / 4096) s c (omega arith)))

-- If the rounded end of a region passes 4 GB by less than its start address, reserving it changes
-- nothing.
pub reserve_region_wraps :
    (s : Pmm) (start size : ℕ)
    → start < u32_mod
    → u32_mod ≤ start + size + (frame_size - 1)
    → start + size + (frame_size - 1) < u32_mod + start
    → pmm_reserve_region s start size ≡ s
unfolding pmm_reserve_region reserve_frames
reserve_region_wraps s start size h lo hi =
    let n : add32 (add32 start size) 4095 / 4096 - start / 4096 ≡ 0 = omega arith in rw n

-- A free frame of the bitmap whose number is not below total_frames is taken by a reservation
-- while both counters stay.
pub reserve_frame_uncounted :
    (s : Pmm) (frame : ℕ)
    → bitmap_test s.frame_bitmap frame ≡ false
    → frame < max_frames
    → s.total_frames ≤ frame
    → let t = reserve_frame s frame in
      (bitmap_test t.frame_bitmap frame ≡ true)
      × (t.free_frames ≡ s.free_frames)
      × (t.reserved_frames ≡ s.reserved_frames)
unfolding reserve_frame
reserve_frame_uncounted s frame clear lt high = ground (arith, test-set s.frame_bitmap frame frame)
