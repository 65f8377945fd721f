-- ===== src/Pmm/Init/Boot.antt =====
-- What `pmm_init` of mm/pmm.c leaves behind, on the multiboot path and on the fallback path.
use aioncore.Base.{
  ℕ, zero, suc, ◌+◌, ◌-◌, ◌*◌, ◌/◌, ◌%◌, ◌<◌, ◌≡◌, refl, Bool, true, false, arith, ◌||◌, ltb,
  if◌then◌else◌, some, ◌∙◌, not, List, [], ◌∷◌, length,
}
use aioncore.Base.Words.{add32, add64, u32_mod, sub32}
use aioncore.Pmm.{Pmm, bitmap_test, max_frames, frame_size, bitmap_size, pmm_reserve_region}
use aioncore.Pmm.Bitmap.{test_bit-ff}
use aioncore.Pmm.Init.{
  MmapEntry, MultibootInfo, free_frame, mark_free, mark_region, parse_mmap, fill_bitmap, reset,
  fallback_frames, fallback_init, reserve_regions, use_fallback, pmm_init,
}
use aioncore.Pmm.Reserve.{IsCounted, reserve_region-Reserved}
use aioncore.Pmm.Init.Walk.{
  within, test-mark_free, Walk, mark_all, covered, NoWrap, marked-eq, parse_mmap-Walk,
  test-mark_all,
}

-- After the fill every frame is taken.
test-reset : (s : Pmm) (g : ℕ) → g < max_frames → bitmap_test (reset s).frame_bitmap g ≡ true
unfolding reset fill_bitmap bitmap_test
test-reset s g lt =
    let inside : ltb (g / 8) bitmap_size ≡ true = ground arith in
    rw inside (test_bit-ff (g % 8) (omega arith))

-- The frames of the regions that every boot reserves: the NULL page, the VGA buffer, the kernel.
abbrev pub in_reserved : (kernel_start kernel_end g : ℕ) → Bool
in_reserved kernel_start kernel_end g =
    within 0 1 g
    || within 0xb8 0xc0 g
    || within (kernel_start / frame_size) ((kernel_end - 1) / frame_size + 1) g

-- What the linker gives: a kernel image that does not reach the last page of memory.
abbrev pub IsImage : (kernel_start kernel_end : ℕ) → Type 0
IsImage kernel_start kernel_end =
    (kernel_start < kernel_end) × (kernel_end + (frame_size - 1) < u32_mod)

pub record Booted (s : Pmm) (kernel_start kernel_end : ℕ) (t : Pmm) : Type 0 where
  pub frames :
      (g : ℕ)
      → bitmap_test t.frame_bitmap g
        ≡ (in_reserved kernel_start kernel_end g || bitmap_test s.frame_bitmap g)
  pub moved : t.free_frames + t.reserved_frames ≡ s.free_frames + s.reserved_frames
  pub total_frames : t.total_frames ≡ s.total_frames
  pub initialized : t.initialized ≡ true
  pub bitmap : t.bitmap ≡ s.bitmap

pub reserve_regions-Booted :
    (kernel_start kernel_end : ℕ) (s : Pmm)
    → IsImage kernel_start kernel_end
    → IsCounted s
    → Booted s kernel_start kernel_end (reserve_regions kernel_start kernel_end s)
unfolding reserve_regions
reserve_regions-Booted kernel_start kernel_end s (lt, small) c =
    let a = reserve_region-Reserved s 0 4096 c (omega arith) (omega arith) in
    let s1 = pmm_reserve_region s 0 4096 in
    let b =
      reserve_region-Reserved s1 0xb8000 (32 * 1024) (omega arith) (omega arith) (omega arith) in
    let s2 = pmm_reserve_region s1 0xb8000 (32 * 1024) in
    let size = sub32 kernel_end kernel_start in
    let size_eq : size ≡ kernel_end - kernel_start = omega arith in
    let d =
      reserve_region-Reserved s2 kernel_start size (omega arith) (omega arith) (omega arith) in
    let top : (kernel_start + size - 1) / 4096 ≡ (kernel_end - 1) / 4096 = omega arith in
    record {
      frames = λ g. ground (arith, a.frames g, b.frames g, d.frames g, top);
      moved = omega arith;
      total_frames = d.total_frames ∙ b.total_frames ∙ a.total_frames;
      initialized = refl;
      bitmap = d.bitmap ∙ b.bitmap ∙ a.bitmap;
    }

-- What the loops keep while they run: each frame found is counted once in either counter.
record Fresh (s : Pmm) : Type 0 where
  counted : s.total_frames ≡ s.free_frames
  small : s.free_frames < u32_mod
  none_reserved : s.reserved_frames ≡ 0
  bitmap : s.bitmap ≡ true

mark_free-Fresh : (n frame : ℕ) (s : Pmm) → Fresh s → Fresh (mark_free n frame s)
unfolding mark_free free_frame
mark_free-Fresh zero frame s v = v
mark_free-Fresh (suc n) frame s v =
    mark_free-Fresh n (frame + 1) (if ltb frame max_frames then free_frame s frame else s)
      (ground arith)

mark_region-Fresh : (s : Pmm) (entry : MmapEntry) → Fresh s → Fresh (mark_region s entry)
unfolding mark_region
mark_region-Fresh s entry v =
    let lo = add64 entry.addr 4095 / 4096 in
    ground (arith, mark_free-Fresh (add64 entry.addr entry.len / 4096 - lo) lo s v)

mark_all-Fresh : (entries : List MmapEntry) (s : Pmm) → Fresh s → Fresh (mark_all entries s)
unfolding mark_all
mark_all-Fresh [] s v = v
mark_all-Fresh (entry ∷ entries) s v =
    mark_all-Fresh entries (mark_region s entry) (mark_region-Fresh s entry v)

reset-Fresh : (s : Pmm) → Fresh (reset s)
unfolding reset
reset-Fresh s = record { counted = refl; small = omega arith; none_reserved = refl; bitmap = refl }

-- The manager after boot: `usable g` says which frames the boot path found to be memory.
pub record IsUp (kernel_start kernel_end : ℕ) (usable : ℕ → Bool) (t : Pmm) : Type 0 where
  pub frames :
      (g : ℕ)
      → g < max_frames
      → bitmap_test t.frame_bitmap g ≡ (in_reserved kernel_start kernel_end g || not (usable g))
  pub counted : t.free_frames + t.reserved_frames ≡ t.total_frames
  pub initialized : t.initialized ≡ true
  pub bitmap : t.bitmap ≡ true

Booted-IsUp :
    {s t : Pmm} {kernel_start kernel_end : ℕ} {usable : ℕ → Bool}
    → Fresh s
    → ((g : ℕ) → g < max_frames → bitmap_test s.frame_bitmap g ≡ not (usable g))
    → Booted s kernel_start kernel_end t
    → IsUp kernel_start kernel_end usable t
Booted-IsUp v h b = record {
  frames = λ g lt. ground (arith, b.frames g, h g lt);
  counted = omega (arith, v.counted, v.none_reserved, b.moved, b.total_frames);
  initialized = b.initialized;
  bitmap = b.bitmap ∙ v.bitmap;
}

test-fallback_init :
    (s : Pmm) (g : ℕ)
    → g < max_frames
    → bitmap_test (fallback_init s).frame_bitmap g ≡ not (ltb g fallback_frames)
unfolding fallback_init
test-fallback_init s g lt =
    test-mark_free fallback_frames 0 (reset s) g lt ∙ ground (arith, test-reset s g lt)

test-parsed :
    (entries : List MmapEntry) (s : Pmm) (g : ℕ)
    → g < max_frames
    → NoWrap entries
    → bitmap_test (mark_all entries (reset s)).frame_bitmap g ≡ not (covered entries g)
test-parsed entries s g lt straight =
    let e = marked-eq entries g straight in
    rw (← e) (ground (arith, test-mark_all entries (reset s) g lt, test-reset s g lt))

fallback_init-Fresh : (s : Pmm) → Fresh (fallback_init s)
unfolding fallback_init
fallback_init-Fresh s = mark_free-Fresh fallback_frames 0 (reset s) (reset-Fresh s)

module _ (read : ℕ → MmapEntry) (kernel_start kernel_end fuel magic mbi : ℕ) (info : MultibootInfo)
    (s : Pmm) where
  pmm_init-fallback :
      use_fallback magic mbi info ≡ true
      → pmm_init read kernel_start kernel_end fuel magic mbi info s
        ≡ some (reserve_regions kernel_start kernel_end (fallback_init s))
  unfolding pmm_init
  pmm_init-fallback h = rw h

  pmm_init-parsed :
      (t : Pmm)
      → use_fallback magic mbi info ≡ false
      → parse_mmap read fuel info.mmap_addr (add32 info.mmap_addr info.mmap_length) (reset s)
        ≡ some t
      → pmm_init read kernel_start kernel_end fuel magic mbi info s
        ≡ some (reserve_regions kernel_start kernel_end t)
  unfolding pmm_init
  pmm_init-parsed t h e = rw (h, e)

module _ (read : ℕ → MmapEntry) (kernel_start kernel_end : ℕ)
    (image : IsImage kernel_start kernel_end) where
  -- Without a usable memory map, and with a kernel image that does not reach the last page,
  -- pmm_init leaves exactly the frames below 32768 outside the reserved regions free, and the
  -- counts add up.
  pub init-fallback :
      (fuel magic mbi : ℕ) (info : MultibootInfo) (s : Pmm)
      → use_fallback magic mbi info ≡ true
      → (t : Pmm) × (pmm_init read kernel_start kernel_end fuel magic mbi info s ≡ some t)
        × IsUp kernel_start kernel_end (λ g. ltb g fallback_frames) t
  init-fallback fuel magic mbi info s h =
      let v = fallback_init-Fresh s in
      let counted : IsCounted (fallback_init s) = omega (arith, v.small, v.none_reserved) in
      (
        reserve_regions kernel_start kernel_end (fallback_init s),
        pmm_init-fallback read kernel_start kernel_end fuel magic mbi info s h,
        Booted-IsUp v (test-fallback_init s)
            (reserve_regions-Booted kernel_start kernel_end (fallback_init s) image counted),
      )

  -- Given a memory map whose walk visits a list of entries, none of which reaches the end of the
  -- 64-bit addresses, fuel above their number and a kernel image that does not reach the last
  -- page, pmm_init returns; then a frame is free exactly if all its bytes lie in an available
  -- entry and it is outside the reserved regions, and free and reserved frames add up to the
  -- total.
  pub init-multiboot :
      (fuel magic mbi : ℕ) (info : MultibootInfo) (s : Pmm) (entries : List MmapEntry)
      → use_fallback magic mbi info ≡ false
      → Walk read (add32 info.mmap_addr info.mmap_length) info.mmap_addr entries
      → length entries < fuel
      → NoWrap entries
      → (t : Pmm) × (pmm_init read kernel_start kernel_end fuel magic mbi info s ≡ some t)
        × IsUp kernel_start kernel_end (covered entries) t
  init-multiboot fuel magic mbi info s entries h w enough straight =
      let t = mark_all entries (reset s) in
      let v = mark_all-Fresh entries (reset s) (reset-Fresh s) in
      let parsed =
        parse_mmap-Walk read fuel info.mmap_addr (add32 info.mmap_addr info.mmap_length) entries
          (reset s) w enough in
      let counted : IsCounted t = omega (arith, v.small, v.none_reserved) in
      (
        reserve_regions kernel_start kernel_end t,
        pmm_init-parsed read kernel_start kernel_end fuel magic mbi info s t h parsed,
        Booted-IsUp v (λ g lt. test-parsed entries s g lt straight)
            (reserve_regions-Booted kernel_start kernel_end t image counted),
      )
