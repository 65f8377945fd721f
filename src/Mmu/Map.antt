-- ===== src/Mmu/Map.antt =====
-- The mappings of arch/x86/mmu.c: what `mmu_map_page` and `mmu_unmap_page` change of what the
-- processor finds for each page.
use Prim.Native.Nat.{bit_or}
use aioncore.Base.{
  ℕ, ◌+◌, ◌*◌, ◌/◌, ◌%◌, ◌^◌, ◌<◌, ◌≡◌, ◌≢◌, refl, true, false, arith, ◌==◌, if◌then◌else◌,
  Bool-cases, inl, inr, ◌⊎◌, not, ◌∙◌, ap, ◌∷◌, List,
}
use aioncore.Base.Bits.Shifts.{bit_or-frame}
use aioncore.Pmm.{bitmap_test, pmm_alloc_page}
use aioncore.Mmu.{
  Mmu, is_page_aligned, pd_index, flags_to_x86, ensure_table, set_entry, mmu_map_page,
  mmu_unmap_page,
}
use aioncore.Mmu.Tables.{
  cell, present-eq, pd_index-eq, pt_index-eq, page_frame-eq, is_page_aligned-eq, x86_flags_of,
  flags_to_x86-eq,
}
use aioncore.Mmu.Walk.{present, entry, IsSpace, IsOutside, StaysOutside}
use aioncore.Mmu.Entry.{with_entry, entry-with_entry, with_entry-IsSpace, with_entry-StaysOutside}
use aioncore.Mmu.Ensure.{ensure_table-Ensured}

-- The `struct page_table` at `pt` is an address space with its directory in frame `d`.
pub record Space (s : Mmu) (pt d : ℕ) : Type 0 where
  pub exists : pt ≢ 0
  pub directory : (s.spaces pt).page_directory ≡ d * 4096
  pub register : (s.spaces pt).pd_phys ≡ d * 4096
  pub tables : IsSpace s.memory s.pmm.frame_bitmap d

-- the entry that the processor finds for a page
abbrev pub found : Mmu → (d page : ℕ) → ℕ
found s d page = entry s.memory d page

-- a page number's directory index, as the code computes it
pd_index-page : (virt : ℕ) → virt < 2 ^ 32 → pd_index virt ≡ virt / 4096 / 1024
pd_index-page virt lt = pd_index-eq virt ∙ omega arith

trans-StaysOutside :
    (m n o : ℕ → ℕ) (d c : ℕ) → StaysOutside m n d c → StaysOutside n o d c → StaysOutside m o d c
trans-StaysOutside m n o d c a b = record {
  outside = b.outside;
  words = λ j lt. b.words j lt ∙ a.words j lt;
}

-- The state with entry `e` for the page.
abbrev wrote : Mmu → (d virt e : ℕ) → Mmu
wrote s d virt e = record s {
  memory = with_entry s.memory d (virt / 4096) e;
  flushed = virt ∷ s.flushed;
}

set_entry-eq :
    (s : Mmu) (d virt e : ℕ) → virt < 2 ^ 32 → set_entry s (d * 4096) virt e ≡ wrote s d virt e
unfolding with_entry
set_entry-eq s d virt e lt =
    let a = pd_index-page virt lt in
    let b = pt_index-eq virt in
    let c = page_frame-eq (cell s.memory d (virt / 4096 / 1024)) in rw a (rw b (rw c refl))

-- the word that is installed for a page
entry_word :
    (phys flags : ℕ)
    → phys % 4096 ≡ 0
    → bit_or phys (flags_to_x86 flags) ≡ phys + x86_flags_of flags
entry_word phys flags p =
    let e : phys / 4096 * 4096 ≡ phys = omega arith in
    let f = flags_to_x86-eq flags in
    rw f (rw e at (bit_or-frame (phys / 4096) (x86_flags_of flags) (omega arith)))

mmu_map_page-eq :
    (s : Mmu) (pt d phys virt flags : ℕ)
    → Space s pt d
    → phys % 4096 ≡ 0
    → virt % 4096 ≡ 0
    → virt < 2 ^ 32
    → let made = ensure_table s (d * 4096) (virt / 4096 / 1024) in
      mmu_map_page s pt phys virt flags ≡ (
        if not made.1 then (made.0, 0) else (wrote made.0 d virt (phys + x86_flags_of flags), virt))
unfolding mmu_map_page
mmu_map_page-eq s pt d phys virt flags v p q lt =
    let z : (pt == 0) ≡ false = ground (arith, v.exists) in
    let a : is_page_aligned phys ≡ true = is_page_aligned-eq phys ∙ ground arith in
    let b : is_page_aligned virt ≡ true = is_page_aligned-eq virt ∙ ground arith in
    let i = pd_index-page virt lt in
    let o = entry_word phys flags p in
    let dir = v.directory in
    let made = (ensure_table s (d * 4096) (pd_index virt)).0 in
    let w = set_entry-eq made d virt (bit_or phys (flags_to_x86 flags)) lt in
    rw dir (rw w (rw z (rw a (rw b (rw i (rw o refl))))))

-- What `mmu_map_page` leaves in `out`: page `virt / 4096` has its new entry, or nothing has changed for
-- the processor because there was no frame for a page table.
pub record Mapped (s : Mmu) (pt d phys virt flags : ℕ) (out : Mmu × ℕ) : Type 0 where
  pub space : Space out.0 pt d
  pub outcome :
      ((out.1 ≡ virt)
        × (out.0.flushed ≡ virt ∷ s.flushed)
        × ((page : ℕ)
            → page < 2 ^ 20
            → found out.0 d page
              ≡ (if virt / 4096 == page then phys + x86_flags_of flags else found s d page)))
      ⊎ ((out.1 ≡ 0)
          × ((pmm_alloc_page s.pmm).1 ≡ 0)
          × (out.0.pmm ≡ (pmm_alloc_page s.pmm).0)
          × ((page : ℕ) → page < 2 ^ 20 → found out.0 d page ≡ found s d page))
  pub grows :
      (g : ℕ)
      → bitmap_test s.pmm.frame_bitmap g ≡ true
      → bitmap_test out.0.pmm.frame_bitmap g ≡ true
  pub same_spaces : out.0.spaces ≡ s.spaces
  pub same_kernel : out.0.kernel_address_space ≡ s.kernel_address_space
  pub same_cr3 : out.0.cr3 ≡ s.cr3
  pub same_paging : out.0.paging ≡ s.paging
  pub others :
      (c : ℕ)
      → bitmap_test s.pmm.frame_bitmap c ≡ true
      → IsOutside s.memory d c
      → StaysOutside s.memory out.0.memory d c

-- In an address space whose tables stand in taken frames of their own, mapping an aligned page
-- either returns its address, flushes it, and gives it the frame with the translated flags and
-- leaves the entry of every other page, or returns 0 and leaves every entry, which happens only
-- when the frame allocator returned 0; the tables still stand in taken frames of their own.
pub mmu_map_page-Mapped :
    (s : Mmu) (pt d phys virt flags : ℕ)
    → Space s pt d
    → phys % 4096 ≡ 0
    → virt % 4096 ≡ 0
    → virt < 2 ^ 32
    → Mapped s pt d phys virt flags (mmu_map_page s pt phys virt flags)
mmu_map_page-Mapped s pt d phys virt flags v p q lt =
    let e = mmu_map_page-eq s pt d phys virt flags v p q lt in
    let made = ensure_table s (d * 4096) (virt / 4096 / 1024) in
    let m = ensure_table-Ensured s d (virt / 4096 / 1024) v.tables (omega arith) in
    let same = m.same_spaces in
    let word = phys + x86_flags_of flags in
    rw e (elim (Bool-cases made.1) [
      | inl h ↦
          let taken = made.0.pmm.frame_bitmap in
          let small : virt / 4096 < 2 ^ 20 = omega arith in
          rw h (record {
            space = record {
              exists = v.exists;
              directory = rw same v.directory;
              register = rw same v.register;
              tables =
                  with_entry-IsSpace made.0.memory taken d (virt / 4096) word m.tables small
                    (m.there h);
            };
            outcome = inl (
              refl,
              ap (λ (l : List ℕ). virt ∷ l) m.same_flushed,
              λ page lt_page.
                  let entries =
                    entry-with_entry made.0.memory taken d (virt / 4096) word m.tables small
                      (m.there h) page lt_page in
                  let kept = m.entries page lt_page in rw entries (rw kept refl),
            );
            grows = m.grows;
            same_spaces = m.same_spaces;
            same_kernel = m.same_kernel;
            same_cr3 = m.same_cr3;
            same_paging = m.same_paging;
            others = λ c full o.
                let a = m.others c full o in
                trans-StaysOutside s.memory made.0.memory _ d c a (
                  with_entry-StaysOutside made.0.memory taken d (virt / 4096) word m.tables small
                    (m.there h) c a.outside);
          })
      | inr h ↦ rw h (record {
        space = record {
          exists = v.exists;
          directory = rw same v.directory;
          register = rw same v.register;
          tables = m.tables;
        };
        outcome = inr (refl, (m.failed h).0, (m.failed h).1, m.entries);
        grows = m.grows;
        same_spaces = m.same_spaces;
        same_kernel = m.same_kernel;
        same_cr3 = m.same_cr3;
        same_paging = m.same_paging;
        others = m.others;
      })
    ])

-- For a null address space or an address that is not a multiple of the page size, mapping returns
-- 0 and changes nothing.
pub mmu_map_page-refused :
    (s : Mmu) (pt phys virt flags : ℕ)
    → (pt ≡ 0) ⊎ ((phys % 4096 ≢ 0) ⊎ (virt % 4096 ≢ 0))
    → mmu_map_page s pt phys virt flags ≡ (s, 0)
unfolding mmu_map_page
mmu_map_page-refused s pt phys virt flags h =
    let a = is_page_aligned-eq phys in let b = is_page_aligned-eq virt in rw a (rw b (ground arith))

mmu_unmap_page-eq :
    (s : Mmu) (pt d virt : ℕ)
    → Space s pt d
    → virt % 4096 ≡ 0
    → virt < 2 ^ 32
    → mmu_unmap_page s pt virt
      ≡ (if present s.memory d (virt / 4096 / 1024) then wrote s d virt 0 else s)
unfolding mmu_unmap_page
mmu_unmap_page-eq s pt d virt v q lt =
    let z : (pt == 0) ≡ false = ground (arith, v.exists) in
    let b : is_page_aligned virt ≡ true = is_page_aligned-eq virt ∙ ground arith in
    let i = pd_index-page virt lt in
    let dir = v.directory in
    let w = set_entry-eq s d virt 0 lt in
    let p = present-eq (cell s.memory d (virt / 4096 / 1024)) in
    rw dir (rw w (rw z (rw b (rw i (rw p (ground arith))))))

-- a page without a table has the entry 0
entry-absent :
    (m : ℕ → ℕ) (d page q : ℕ)
    → present m d (page / 1024) ≡ false
    → entry m d q ≡ (if page == q then 0 else entry m d q)
unfolding entry
entry-absent m d page q h = ground arith

-- Unmapping an aligned page sets the entry that the processor finds for it to 0, whether or not it
-- was mapped, and leaves the entry of every other page and the shape of the tables.
pub mmu_unmap_page-Unmapped :
    (s : Mmu) (pt d virt : ℕ)
    → Space s pt d
    → virt % 4096 ≡ 0
    → virt < 2 ^ 32
    → Space (mmu_unmap_page s pt virt) pt d
      × ((page : ℕ)
          → page < 2 ^ 20
          → found (mmu_unmap_page s pt virt) d page
            ≡ (if virt / 4096 == page then 0 else found s d page))
mmu_unmap_page-Unmapped s pt d virt v q lt =
    let e = mmu_unmap_page-eq s pt d virt v q lt in
    let i = virt / 4096 / 1024 in
    rw e (elim (Bool-cases (present s.memory d i)) [
      | inl h ↦
          let taken = s.pmm.frame_bitmap in
          let small : virt / 4096 < 2 ^ 20 = omega arith in
          rw h (
            record {
              exists = v.exists;
              directory = v.directory;
              register = v.register;
              tables = with_entry-IsSpace s.memory taken d (virt / 4096) 0 v.tables small h;
            },
            λ page lt_page.
                entry-with_entry s.memory taken d (virt / 4096) 0 v.tables small h page lt_page,
          )
      | inr h ↦ rw h (v, λ page lt_page. entry-absent s.memory d (virt / 4096) page h)
    ])
