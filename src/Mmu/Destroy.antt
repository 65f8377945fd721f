-- ===== src/Mmu/Destroy.antt =====
-- The frames that `mmu_destroy_address_space` of arch/x86/mmu.c gives back.
use aioncore.Base.{
  ℕ, zero, suc, ◌*◌, ◌/◌, ◌<◌, ◌≡◌, ◌≢◌, refl, true, false, arith, ◌==◌, ◌&&◌, if◌then◌else◌,
  Bool-cases, inl, inr, ◌∙◌, ◌+◌, ◌%◌, ◌^◌, ◌≤◌, sym,
}
use mathlib.Core.Bool.{false≢true}
use aioncore.Base.Words.{inc32}
use aioncore.Pmm.{Pmm, bitmap_test, pmm_free_page}
use aioncore.Pmm.Alloc.{free-cases}
use aioncore.Mmu.{Mmu, free_tables, mmu_destroy_address_space}
use aioncore.Mmu.Tables.{cell, present-eq, page_frame-eq}
use aioncore.Mmu.Walk.{present, table, IsSpace}
use aioncore.Mmu.Map.{Space}

-- the frame of the page is free, and every other one as it was
free-test :
    (p : Pmm) (f g : ℕ)
    → bitmap_test (pmm_free_page p (f * 4096)).frame_bitmap g
      ≡ (if f == g then false else bitmap_test p.frame_bitmap g)
free-test p f g =
    let e : f * 4096 / 4096 ≡ f = omega arith in
    elim (free-cases p (f * 4096)) [
      | inl (h, same) ↦
          let h' : bitmap_test p.frame_bitmap f ≡ false = rw e at h in rw same (ground arith)
      | inr t ↦ t.frames g ∙ ground arith
    ]

free_tables-suc :
    (n : ℕ) (m : ℕ → ℕ) (d : ℕ) (p : Pmm)
    → free_tables (suc n) m (d * 4096) p ≡ (
        if present m d n
        then pmm_free_page (free_tables n m (d * 4096) p) (table m d n * 4096)
        else free_tables n m (d * 4096) p)
unfolding free_tables
free_tables-suc n m d p =
    let a = present-eq (cell m d n) in
    let b = page_frame-eq (cell m d n) in rw b (rw a (ground arith))

-- the frame bitmap after one more round
tables-test :
    (n : ℕ) (m : ℕ → ℕ) (d : ℕ) (p : Pmm) (g : ℕ)
    → bitmap_test (free_tables (suc n) m (d * 4096) p).frame_bitmap g ≡ (
        if present m d n && (table m d n == g)
        then false
        else bitmap_test (free_tables n m (d * 4096) p).frame_bitmap g)
tables-test n m d p g =
    let e = free_tables-suc n m d p in
    let f = free-test (free_tables n m (d * 4096) p) (table m d n) g in
    rw e (elim (Bool-cases (present m d n)) [ inl h ↦ rw h f | inr h ↦ rw h refl ])

tables_freed :
    (n : ℕ) (m : ℕ → ℕ) (d : ℕ) (p : Pmm) (i : ℕ)
    → i < n
    → present m d i ≡ true
    → bitmap_test (free_tables n m (d * 4096) p).frame_bitmap (table m d i) ≡ false
tables_freed zero m d p i lt h = absurd (omega arith)
tables_freed (suc n) m d p i lt h =
    ground (arith, tables-test n m d p (table m d i), tables_freed n m d p i)

tables_others :
    (n : ℕ) (m : ℕ → ℕ) (d : ℕ) (p : Pmm) (g : ℕ)
    → ((i : ℕ) → i < n → present m d i ≡ true → table m d i ≢ g)
    → bitmap_test (free_tables n m (d * 4096) p).frame_bitmap g ≡ bitmap_test p.frame_bitmap g
unfolding free_tables
tables_others zero m d p g h = refl
tables_others (suc n) m d p g h =
    let rest = tables_others n m d p g (λ i lt. h i (omega arith)) in
    ground (arith, tables-test n m d p g, h n (omega arith))

-- the fields that freeing a page never changes
abbrev pub SameRest : Pmm → Pmm → Type 0
SameRest p q =
    (q.total_frames ≡ p.total_frames)
    × (q.reserved_frames ≡ p.reserved_frames)
    × (q.initialized ≡ p.initialized)
    × (q.bitmap ≡ p.bitmap)

free-SameRest : (p : Pmm) (page : ℕ) → SameRest p (pmm_free_page p page)
free-SameRest p page = elim (free-cases p page) [
  | inl (_, e) ↦ rw e (refl, refl, refl, refl)
  | inr f ↦ (f.total_frames, f.reserved_frames, f.initialized, f.bitmap)
]

tables-SameRest : (n : ℕ) (m : ℕ → ℕ) (d : ℕ) (p : Pmm) → SameRest p (free_tables n m (d * 4096) p)
unfolding free_tables
tables-SameRest zero m d p = (refl, refl, refl, refl)
tables-SameRest (suc n) m d p =
    let q = free_tables n m (d * 4096) p in
    let (a, b, c, e) = tables-SameRest n m d p in
    let (a', b', c', e') = free-SameRest q (table m d n * 4096) in
    rw (free_tables-suc n m d p) (elim (Bool-cases (present m d n)) [
      | inl h ↦ rw h (a' ∙ a, b' ∙ b, c' ∙ c, e' ∙ e)
      | inr h ↦ rw h (a, b, c, e)
    ])

-- how many of the first `n` page tables are present
abbrev pub tables_present : (n : ℕ) → (ℕ → ℕ) → (d : ℕ) → ℕ
tables_present zero m d = 0
tables_present (suc n) m d = tables_present n m d + (if present m d n then 1 else 0)

-- a taken frame is counted when it is freed
free-count :
    (p : Pmm) (f : ℕ)
    → bitmap_test p.frame_bitmap f ≡ true
    → (pmm_free_page p (f * 4096)).free_frames ≡ inc32 p.free_frames
free-count p f full =
    let e : f * 4096 / 4096 ≡ f = omega arith in
    elim (free-cases p (f * 4096)) [
      | inl (h, _) ↦ let k = rw e at h in absurd (false≢true (sym k ∙ full))
      | inr t ↦ t.free_frames
    ]

-- the free count goes up by one for each table, in 32 bits
tables-count :
    (n : ℕ) (m : ℕ → ℕ) (d : ℕ) (p : Pmm)
    → n ≤ 1024
    → IsSpace m p.frame_bitmap d
    → (free_tables n m (d * 4096) p).free_frames % 2 ^ 32
      ≡ (p.free_frames + tables_present n m d) % 2 ^ 32
unfolding free_tables
tables-count zero m d p le v = omega arith
tables-count (suc n) m d p le v =
    let q = free_tables n m (d * 4096) p in
    let f = table m d n in
    let before = tables-count n m d p (omega arith) v in
    rw (free_tables-suc n m d p) (elim (Bool-cases (present m d n)) [
      | inl h ↦
          let full : bitmap_test q.frame_bitmap f ≡ true =
            tables_others n m d p f (λ i lt there same.
              let e = v.distinct i n (omega arith) (omega arith) there h same in omega arith)
            ∙ v.marked n (omega arith) h in
          let e = free-count q f full in rw h (rw e (omega (arith, before)))
      | inr h ↦ rw h (omega (arith, before))
    ])

-- What destroying the address space at `pt` leaves in `out`: its directory and its tables are free and
-- counted as such, no other frame has changed, and nothing outside the frame allocator.
pub record Destroyed (s : Mmu) (d : ℕ) (out : Mmu) : Type 0 where
  pub directory : bitmap_test out.pmm.frame_bitmap d ≡ false
  pub tables :
      (i : ℕ)
      → i < 1024
      → present s.memory d i ≡ true
      → bitmap_test out.pmm.frame_bitmap (table s.memory d i) ≡ false
  pub others :
      (g : ℕ)
      → g ≢ d
      → ((i : ℕ) → i < 1024 → present s.memory d i ≡ true → table s.memory d i ≢ g)
      → bitmap_test out.pmm.frame_bitmap g ≡ bitmap_test s.pmm.frame_bitmap g
  pub free_frames :
      out.pmm.free_frames ≡ (s.pmm.free_frames + tables_present 1024 s.memory d + 1) % 2 ^ 32
  pub counters : SameRest s.pmm out.pmm
  pub rest : out ≡ record s { pmm = out.pmm }

destroy-eq :
    (s : Mmu) (pt d : ℕ)
    → Space s pt d
    → mmu_destroy_address_space s pt
      ≡ record s { pmm = pmm_free_page (free_tables 1024 s.memory (d * 4096) s.pmm) (d * 4096) }
unfolding mmu_destroy_address_space
destroy-eq s pt d v =
    let z : (pt == 0) ≡ false = ground (arith, v.exists) in
    let a = v.directory in let b = v.register in rw a (rw b (rw z refl))

next_mod : (a b : ℕ) → a % 2 ^ 32 ≡ b % 2 ^ 32 → (a + 1) % 2 ^ 32 ≡ (b + 1) % 2 ^ 32
next_mod a b e = omega arith

destroy-count :
    (s : Mmu) (pt d : ℕ)
    → Space s pt d
    → (pmm_free_page (free_tables 1024 s.memory (d * 4096) s.pmm) (d * 4096)).free_frames
      ≡ (s.pmm.free_frames + tables_present 1024 s.memory d + 1) % 2 ^ 32
destroy-count s pt d v =
    let p = free_tables 1024 s.memory (d * 4096) s.pmm in
    let space = v.tables in
    let full : bitmap_test p.frame_bitmap d ≡ true =
      tables_others 1024 s.memory d s.pmm d space.apart ∙ space.directory in
    let count = tables-count 1024 s.memory d s.pmm (omega arith) space in
    free-count p d full
    ∙ next_mod p.free_frames (s.pmm.free_frames + tables_present 1024 s.memory d) count

destroy-SameRest :
    (s : Mmu) (d : ℕ)
    → SameRest s.pmm (pmm_free_page (free_tables 1024 s.memory (d * 4096) s.pmm) (d * 4096))
destroy-SameRest s d =
    let p = free_tables 1024 s.memory (d * 4096) s.pmm in
    let (a, b, c, z) = tables-SameRest 1024 s.memory d s.pmm in
    let (a', b', c', z') = free-SameRest p (d * 4096) in (a' ∙ a, b' ∙ b, c' ∙ c, z' ∙ z)

-- Destroying an address space frees its directory and the frame of every page table that is
-- present, leaves every other frame of the allocator as it was, raises the free count, in 32 bits,
-- by the number of these frames, and changes neither the other fields of the allocator nor
-- anything outside it.
pub destroy-Destroyed :
    (s : Mmu) (pt d : ℕ) → Space s pt d → Destroyed s d (mmu_destroy_address_space s pt)
destroy-Destroyed s pt d v =
    let p = free_tables 1024 s.memory (d * 4096) s.pmm in
    let e = destroy-eq s pt d v in
    rw e (record {
      directory = ground (arith, free-test p d d);
      tables = λ i lt h.
          ground
            (arith, free-test p d (table s.memory d i), tables_freed 1024 s.memory d s.pmm i lt h);
      others = λ g ne h. ground (arith, free-test p d g, tables_others 1024 s.memory d s.pmm g h);
      free_frames = destroy-count s pt d v;
      counters = destroy-SameRest s d;
      rest = refl;
    })
