-- ===== src/Mmu/Ensure.antt =====
-- The allocation of page tables in arch/x86/mmu.c.
use Prim.Native.Nat.{bit_and}
use aioncore.Base.{
  ℕ, ◌*◌, ◌/◌, ◌^◌, ◌<◌, ◌≡◌, ◌≢◌, refl, Bool, true, false, arith, ◌==◌, if◌then◌else◌, Bool-cases,
  inl, inr, ◌⊎◌, not, ◌∙◌, sym,
}
use mathlib.Core.Bool.{false≢true}
use aioncore.Pmm.{Pmm, bitmap_test, pmm_alloc_page}
use aioncore.Pmm.Alloc.{Took, alloc-cases}
use aioncore.Mmu.{Mmu, ensure_table, set_entry, mmu_map_page}
use aioncore.Mmu.Tables.{cell, present-eq, table_entry-eq}
use aioncore.Mmu.Walk.{
  present, entry, IsSpace, IsSpace-more, with_table, with_table-IsSpace, entry-with_table,
  present-with_table, IsOutside, StaysOutside, with_table-StaysOutside,
}

-- What one allocation does to the frame bitmap: frames only become taken, and the frame of the
-- page that is returned, if any, was free and alone becomes taken.
pub alloc-more :
    (p : Pmm) (g : ℕ)
    → bitmap_test p.frame_bitmap g ≡ true
    → bitmap_test (pmm_alloc_page p).0.frame_bitmap g ≡ true
alloc-more p g h = elim (alloc-cases p) [ inl (_, e) ↦ rw e h | inr t ↦ ground (arith, t.frames g) ]

pub alloc-Took :
    (p : Pmm) → (pmm_alloc_page p).1 ≢ 0 → Took p (pmm_alloc_page p).0 (pmm_alloc_page p).1
alloc-Took p ne = elim (alloc-cases p) [ inl (_, e) ↦ absurd (ne (rw e refl)) | inr t ↦ t ]

-- The page returned is that of a frame.
pub page_of : (p : Pmm) → (pmm_alloc_page p).1 ≡ (pmm_alloc_page p).1 / 4096 * 4096
page_of p = elim (alloc-cases p) [ inl (_, e) ↦ rw e refl | inr t ↦ omega (arith, t.aligned) ]

-- the state after a frame was asked for
abbrev pub asked : Mmu → Mmu
asked s = record s { pmm = (pmm_alloc_page s.pmm).0 }

-- The three outcomes.
ensure_table-eq :
    (s : Mmu) (d i f : ℕ)
    → (pmm_alloc_page s.pmm).1 ≡ f * 4096
    → ensure_table s (d * 4096) i ≡ (
        if present s.memory d i
        then (s, true)
        else if f == 0
        then (asked s, false)
        else (record (asked s) { memory = with_table s.memory d i f }, true))
unfolding ensure_table with_table
ensure_table-eq s d i f e =
    let t = table_entry-eq f in
    let p = present-eq (cell s.memory d i) in
    let odd : not (bit_and (cell s.memory d i) 1 == 0) ≡ present s.memory d i = ground arith in
    let z : (f * 4096 == 0) ≡ (f == 0) = ground arith in rw odd (rw e (rw z (rw t refl)))

-- What `ensure_table` leaves in `out`, with entry `i` of the directory.
pub record Ensured (s : Mmu) (d i : ℕ) (out : Mmu × Bool) : Type 0 where
  pub tables : IsSpace out.0.memory out.0.pmm.frame_bitmap d
  pub entries : (page : ℕ) → page < 2 ^ 20 → entry out.0.memory d page ≡ entry s.memory d page
  pub there : out.1 ≡ true → present out.0.memory d i ≡ true
  pub failed :
      out.1 ≡ false → ((pmm_alloc_page s.pmm).1 ≡ 0) × (out.0.pmm ≡ (pmm_alloc_page s.pmm).0)
  pub grows :
      (g : ℕ)
      → bitmap_test s.pmm.frame_bitmap g ≡ true
      → bitmap_test out.0.pmm.frame_bitmap g ≡ true
  pub same_spaces : out.0.spaces ≡ s.spaces
  pub same_kernel : out.0.kernel_address_space ≡ s.kernel_address_space
  pub same_flushed : out.0.flushed ≡ s.flushed
  pub same_cr3 : out.0.cr3 ≡ s.cr3
  pub same_paging : out.0.paging ≡ s.paging
  pub others :
      (c : ℕ)
      → bitmap_test s.pmm.frame_bitmap c ≡ true
      → IsOutside s.memory d c
      → StaysOutside s.memory out.0.memory d c

unchanged-StaysOutside : (m : ℕ → ℕ) (d c : ℕ) → IsOutside m d c → StaysOutside m m d c
unchanged-StaysOutside m d c o = record { outside = o; words = λ j a. refl }

pub ensure_table-Ensured :
    (s : Mmu) (d i : ℕ)
    → IsSpace s.memory s.pmm.frame_bitmap d
    → i < 1024
    → Ensured s d i (ensure_table s (d * 4096) i)
ensure_table-Ensured s d i v lt =
    let addr = (pmm_alloc_page s.pmm).1 in
    let f = addr / 4096 in
    let e : addr ≡ f * 4096 = page_of s.pmm in
    rw (ensure_table-eq s d i f e) (elim (Bool-cases (present s.memory d i)) [
      | inl h ↦ rw h (record {
        tables = v;
        entries = λ page small. refl;
        there = λ _. h;
        failed = λ c. absurd (false≢true (sym c));
        grows = λ g full. full;
        same_spaces = refl;
        same_kernel = refl;
        same_flushed = refl;
        same_cr3 = refl;
        same_paging = refl;
        others = λ c full o. unchanged-StaysOutside s.memory d c o;
      })
      | inr h ↦ elim (Bool-cases (f == 0)) [
        | inl z ↦ rw h (
            rw z (record {
              tables = IsSpace-more (alloc-more s.pmm) v;
              entries = λ page small. refl;
              there = λ c. absurd (false≢true c);
              failed = λ _. (ground arith, refl);
              grows = alloc-more s.pmm;
              same_spaces = refl;
              same_kernel = refl;
              same_flushed = refl;
              same_cr3 = refl;
              same_paging = refl;
              others = λ c full o. unchanged-StaysOutside s.memory d c o;
            }))
        | inr z ↦
            let took = alloc-Took s.pmm (ground arith) in
            rw h (
              rw z (record {
                tables =
                    with_table-IsSpace s.memory s.pmm.frame_bitmap d i f v lt took.in_memory
                      took.was_free (pmm_alloc_page s.pmm).0.frame_bitmap took.frames;
                entries = λ page small.
                    entry-with_table s.memory s.pmm.frame_bitmap d i f v lt took.in_memory
                      took.was_free page small h;
                there = λ _.
                    present-with_table s.memory s.pmm.frame_bitmap d i f v lt took.in_memory
                      took.was_free i lt
                    ∙ ground arith;
                failed = λ c. absurd (false≢true (sym c));
                grows = alloc-more s.pmm;
                same_spaces = refl;
                same_kernel = refl;
                same_flushed = refl;
                same_cr3 = refl;
                same_paging = refl;
                others = λ c full o.
                    with_table-StaysOutside s.memory s.pmm.frame_bitmap d i f v lt took.in_memory
                      took.was_free c full o;
              }))
      ]
    ])

-- Mapping a page asks for a frame at most once.
pub map_page-pmm :
    (s : Mmu) (pt phys virt flags : ℕ)
    → let made = mmu_map_page s pt phys virt flags in
      (made.0.pmm ≡ s.pmm) ⊎ (made.0.pmm ≡ (pmm_alloc_page s.pmm).0)
unfolding mmu_map_page ensure_table set_entry
map_page-pmm s pt phys virt flags = ground arith
