-- ===== src/Tasks/Destroy.antt =====
-- `task_destroy` of core/task.c, after `task_create_kernel_thread`.
use aioncore.Base.{ℕ, ◌/◌, ◌<◌, ◌≡◌, ◌≢◌, refl, true, false, arith, ◌==◌, List, inl, inr}
use aioncore.Base.Words.{u32_mod}
use aioncore.Pmm.{Pmm, bitmap_test, pmm_free_page}
use aioncore.Pmm.Alloc.{Took, SameFrames, free-cases}
use aioncore.Tasks.{Machine, pmm_of, with_pmm, task_create_kernel_thread, task_destroy}
use aioncore.Tasks.Create.{first, second, after, p, started, started-control, out-cases}

-- freeing two pages that were taken one after the other
free_both :
    (p q r : Pmm) (one two : ℕ)
    → p.free_frames < u32_mod
    → Took p q one
    → Took q r two
    → SameFrames p (pmm_free_page (pmm_free_page r two) one)
free_both p q r one two small t u = elim (free-cases r two) [
  | inl (h, _) ↦ absurd (ground (arith, u.frames (two / 4096)))
  | inr f ↦ elim (free-cases (pmm_free_page r two) one) [
    | inl (h, _) ↦ absurd (
        ground
          (arith, f.frames (one / 4096), u.frames (one / 4096), t.frames (one / 4096), u.was_free))
    | inr g ↦ (
      λ k. ground (arith, g.frames k, f.frames k, u.frames k, t.frames k, u.was_free, t.was_free),
      omega (arith, g.free_frames, f.free_frames, u.free_frames, t.free_frames),
      ground arith,
      ground arith,
    )
  ]
]

module _ (wrapper : ℕ) (name : List ℕ) (entry_point arg priority : ℕ) (m : Machine)
    (entry_there : entry_point ≢ 0) where
  -- the two pages of a thread that was started are given back
  destroy-started :
      let q = pmm_of m in
      let s = started wrapper name entry_point arg priority m entry_there in
      second q ≢ 0
      → first q ≢ 0
      → task_destroy s (first q)
        ≡ with_pmm s (pmm_free_page (pmm_free_page (after q) (second q)) (first q))
  unfolding task_destroy
  destroy-started b a =
      let q = pmm_of m in
      let (control, others, id, pmm) =
        started-control wrapper name entry_point arg priority m entry_there in
      let z : (first q == 0) ≡ false = ground arith in
      let y : (second q == 0) ≡ false = ground arith in rw pmm (rw control (rw y (rw z refl)))

  -- With an entry point, frame 0 taken and a 32-bit free count, destroying a thread that was
  -- created restores which frames are taken and all three counters.
  pub destroy-create :
      let q = pmm_of m in
      let made = task_create_kernel_thread wrapper name entry_point arg priority 4096 m in
      bitmap_test q.frame_bitmap 0 ≡ true
      → q.free_frames < u32_mod
      → made.1 ≢ 0
      → SameFrames q (pmm_of (task_destroy made.0 made.1))
  destroy-create low small there =
      elim (out-cases wrapper name entry_point arg priority m entry_there low small) [
        | inl h ↦ absurd (there h.0)
        | inr (e, t, u, a, b) ↦
            let q = pmm_of m in
            rw e (rw (destroy-started b a) (free_both q _ (after q) (first q) (second q) small t u))
      ]
