-- ===== src/Mmu/Create.antt =====
-- The address spaces that arch/x86/mmu.c creates: empty, in a frame of their own.
use aioncore.Base.{
  ℕ, ◌*◌, ◌/◌, ◌^◌, ◌<◌, ◌≡◌, ◌≢◌, refl, true, false, arith, ◌==◌, if◌then◌else◌, update, inl, inr,
  ◌⊎◌, ◌∙◌, sym, ap,
}
use aioncore.Pmm.{Pmm, Bytes, bitmap_test, pmm_alloc_page, pmm_is_initialized}
use aioncore.Pmm.Alloc.{Refused, alloc-cases}
use aioncore.Mmu.{Mmu, clear_entries, is_page_aligned, mmu_create_address_space}
use aioncore.Mmu.Tables.{cell, clear-cell, is_page_aligned-eq}
use aioncore.Mmu.Walk.{entry, IsSpace, IsSpace-more}
use aioncore.Mmu.Apart.{SameWords, same-IsSpace, same_entry}
use aioncore.Mmu.Ensure.{alloc-more, page_of, asked}
use aioncore.Mmu.Map.{Space, found}

module _ (m : ℕ → ℕ) (f : ℕ) where
  abbrev cleared : ℕ → ℕ
  cleared = clear_entries 1024 (f * 4096) m

  cell-cleared : (g i : ℕ) → i < 1024 → cell cleared g i ≡ (if f == g then 0 else cell m g i)
  cell-cleared g i lt = ground (arith, clear-cell 1024 f m g i (omega arith) lt)

  -- The cleared frame is a directory without tables.
  cleared-IsSpace :
      (taken : Bytes) → f < 2 ^ 20 → bitmap_test taken f ≡ true → IsSpace cleared taken f
  cleared-IsSpace taken lt h = record {
    in_memory = lt;
    directory = h;
    apart = λ i a p. ground (arith, cell-cleared f i a);
    distinct = λ i j a b p q e. ground (arith, cell-cleared f i a);
    marked = λ i a p. ground (arith, cell-cleared f i a);
  }

  entry-cleared : (page : ℕ) → page < 2 ^ 20 → entry cleared f page ≡ 0
  unfolding entry
  entry-cleared page lt = ground (arith, cell-cleared f (page / 1024) (omega arith))

  -- Clearing a free frame leaves the taken ones.
  cleared-SameWords : (taken : Bytes) → bitmap_test taken f ≡ false → SameWords taken m cleared
  unfolding SameWords
  cleared-SameWords taken free g i lt h = ground (arith, cell-cleared g i lt)

-- The address space that a frame `f` becomes.
abbrev pub created : Mmu → (pt_storage f : ℕ) → Mmu
created s pt_storage f = record (asked s) {
  memory = clear_entries 1024 (f * 4096) s.memory;
  spaces = update s.spaces pt_storage (record { page_directory = f * 4096; pd_phys = f * 4096 });
}

create-refused :
    (pt_storage : ℕ) (s : Mmu)
    → pmm_alloc_page s.pmm ≡ (s.pmm, 0)
    → mmu_create_address_space pt_storage s ≡ (s, 0)
unfolding mmu_create_address_space
create-refused pt_storage s e = rw e (ground arith)

create-taken :
    (pt_storage : ℕ) (s : Mmu)
    → pmm_is_initialized s.pmm ≡ true
    → (pmm_alloc_page s.pmm).1 ≢ 0
    → mmu_create_address_space pt_storage s
      ≡ (created s pt_storage ((pmm_alloc_page s.pmm).1 / 4096), pt_storage)
unfolding mmu_create_address_space
create-taken pt_storage s ready ne =
    let addr = (pmm_alloc_page s.pmm).1 in
    let z : (addr == 0) ≡ false = ground arith in
    let a : is_page_aligned addr ≡ true = is_page_aligned-eq addr ∙ ground (arith, page_of s.pmm) in
    let e : addr / 4096 * 4096 ≡ addr = sym (page_of s.pmm) in rw ready (rw z (rw a (rw e refl)))

is_initialized : (p : Pmm) → p.initialized ≡ true → pmm_is_initialized p ≡ true
unfolding pmm_is_initialized
is_initialized p h = h

-- What `mmu_create_address_space` leaves in `out`: nothing has changed because no frame was to be had,
-- or there is a new address space in a frame that was free, it maps nothing, and every other
-- one is as it was.
abbrev pub Created : (pt_storage : ℕ) → Mmu → Mmu × ℕ → Type 0
Created pt_storage s out =
    let f = (pmm_alloc_page s.pmm).1 / 4096 in
    (Refused s.pmm × (out ≡ (s, 0)))
    ⊎ ((out.1 ≡ pt_storage)
        × (out.0 ≡ record (asked s) { memory = out.0.memory; spaces = out.0.spaces })
        × (bitmap_test s.pmm.frame_bitmap f ≡ false)
        × Space out.0 pt_storage f
        × ((page : ℕ) → page < 2 ^ 20 → found out.0 f page ≡ 0)
        × ((pt d : ℕ)
            → pt ≢ pt_storage
            → Space s pt d
            → Space out.0 pt d
              × ((page : ℕ) → page < 2 ^ 20 → found out.0 d page ≡ found s d page)))

-- With frame 0 taken, creating an address space either returns 0 and changes nothing because the
-- frame allocator refused, or returns the address of the static variable, where there is then an
-- address space in a frame that was free, which maps nothing; every address space at another
-- address stays one and keeps all its entries.
pub create-Created :
    (pt_storage : ℕ) (s : Mmu)
    → pt_storage ≢ 0
    → bitmap_test s.pmm.frame_bitmap 0 ≡ true
    → Created pt_storage s (mmu_create_address_space pt_storage s)
create-Created pt_storage s ne low = elim (alloc-cases s.pmm) [
  | inl (why, e) ↦ inl (why, create-refused pt_storage s e)
  | inr t ↦
      let addr = (pmm_alloc_page s.pmm).1 in
      let f = addr / 4096 in
      let some_page : addr ≢ 0 = (λ z. ground (arith, t.was_free, low)) in
      let e = create-taken pt_storage s (is_initialized s.pmm t.ready.0) some_page in
      let same = cleared-SameWords s.memory f s.pmm.frame_bitmap t.was_free in
      let taken = (asked s).pmm.frame_bitmap in
      rw e (
        inr (
          refl,
          refl,
          t.was_free,
          record {
            exists = ne;
            directory = ground arith;
            register = ground arith;
            tables = cleared-IsSpace s.memory f taken t.in_memory (ground (arith, t.frames f));
          },
          entry-cleared s.memory f,
          λ pt d other v. (
            record {
              exists = v.exists;
              directory = ground (arith, v.directory);
              register = ground (arith, v.register);
              tables =
                  IsSpace-more (alloc-more s.pmm)
                    (same-IsSpace s.pmm.frame_bitmap s.memory (cleared s.memory f) same d v.tables);
            },
            same_entry s.pmm.frame_bitmap s.memory (cleared s.memory f) same d v.tables,
          ),
        ))
]

-- With frame 0 taken, when two address spaces have been created one after the other, both have the
-- same address, and the directory found there is no longer that of the first.
pub create_twice :
    (pt_storage : ℕ) (s : Mmu)
    → pt_storage ≢ 0
    → bitmap_test s.pmm.frame_bitmap 0 ≡ true
    → let one = mmu_create_address_space pt_storage s in
      let two = mmu_create_address_space pt_storage one.0 in
      one.1 ≢ 0
      → two.1 ≢ 0
      → (two.1 ≡ one.1)
        × ((two.0.spaces one.1).page_directory ≢ (one.0.spaces one.1).page_directory)
create_twice pt_storage s ne low first second =
    let one = mmu_create_address_space pt_storage s in
    elim (create-Created pt_storage s ne low) [
      | inl (_, e) ↦ absurd (first (ap (λ (x : Mmu × ℕ). x.1) e))
      | inr (given, rest, _, v, _, _) ↦
          let pmm : one.0.pmm ≡ (pmm_alloc_page s.pmm).0 = ap (λ (x : Mmu). x.pmm) rest in
          let low' : bitmap_test one.0.pmm.frame_bitmap 0 ≡ true =
            rw pmm (alloc-more s.pmm 0 low) in
          elim (create-Created pt_storage one.0 ne low') [
            | inl (_, e) ↦ absurd (second (ap (λ (x : Mmu × ℕ). x.1) e))
            | inr (given', _, was_free, w, _, _) ↦ (
              given' ∙ sym given,
              λ same.
                  ground
                    (arith, given, same, v.directory, w.directory, v.tables.directory, was_free),
            )
          ]
    ]
