-- ===== src/Mmu/Boot.antt =====
-- The start of paging: the identity mapping of `mmu_init` in arch/x86/mmu.c.
use aioncore.Base.{
  ℕ, zero, suc, ◌+◌, ◌*◌, ◌/◌, ◌^◌, ◌≤◌, ◌<◌, ◌≡◌, ◌≢◌, refl, true, false, arith, ◌==◌, ◌&&◌,
  if◌then◌else◌, Bool-cases, inl, inr, ◌⊎◌, ◌∙◌, sym, ap, ltb, leb,
}
use mathlib.Core.Path.{subst}
use aioncore.Pmm.{Pmm, bitmap_test, pmm_alloc_page}
use aioncore.Pmm.Alloc.{Refused, alloc-cases}
use aioncore.Mmu.{
  Mmu, is_page_aligned, mmu_map_page, mmu_switch_address_space, identity_map, enable_paging,
  mmu_create_address_space, mmu_init,
}
use aioncore.Mmu.Tables.{is_page_aligned-eq}
use aioncore.Mmu.Ensure.{alloc-more}
use aioncore.Mmu.Map.{Space, found, mmu_map_page-Mapped}
use aioncore.Mmu.Create.{create-Created}

-- An allocation that returns 0 was refused, when frame 0 is taken.
pub alloc_zero :
    (p : Pmm)
    → bitmap_test p.frame_bitmap 0 ≡ true
    → (pmm_alloc_page p).1 ≡ 0
    → Refused p × ((pmm_alloc_page p).0 ≡ p)
alloc_zero p low z = elim (alloc-cases p) [
  | inl (why, e) ↦ (why, rw e refl)
  | inr t ↦ absurd (ground (arith, t.was_free))
]

-- What the rounds from page `q` on leave in `out`: `count` pages are mapped to themselves, present and
-- writable, and the others as before; fewer than `n` only if there is no frame left.
pub record Identity (s : Mmu) (d q n : ℕ) (out : Mmu) : Type 0 where
  pub count : ℕ
  pub space : Space out s.kernel_address_space d
  pub at_most : count ≤ n
  pub pages :
      (page : ℕ)
      → page < 2 ^ 20
      → found out d page
        ≡ (if leb q page && ltb page (q + count) then page * 4096 + 3 else found s d page)
  pub all : (count ≡ n) ⊎ Refused out.pmm
  pub same_kernel : out.kernel_address_space ≡ s.kernel_address_space

-- one more page after the first
Identity-suc :
    (s made : Mmu) (d q n : ℕ) (out : Mmu)
    → made.kernel_address_space ≡ s.kernel_address_space
    → ((page : ℕ)
        → page < 2 ^ 20
        → found made d page ≡ (if q == page then page * 4096 + 3 else found s d page))
    → Identity made d (q + 1) n out
    → Identity s d q (suc n) out
Identity-suc s made d q n out e first rest = record {
  count = suc rest.count;
  space = subst (λ x. Space out x d) e rest.space;
  at_most = omega (arith, rest.at_most);
  pages = λ page lt. ground (arith, rest.pages page lt, first page lt);
  all = ground (arith, rest.all);
  same_kernel = rest.same_kernel ∙ e;
}

identity_map-zero : (virt : ℕ) (s : Mmu) → identity_map 0 virt s ≡ s
unfolding identity_map
identity_map-zero virt s = refl

-- the first round
identity_map-suc :
    (n q : ℕ) (s : Mmu)
    → let made = mmu_map_page s s.kernel_address_space (q * 4096) (q * 4096) 3 in
      identity_map (suc n) (q * 4096) s
      ≡ (if made.1 == 0 then made.0 else identity_map n ((q + 1) * 4096) made.0)
unfolding identity_map
identity_map-suc n q s = let e : q * 4096 + 4096 ≡ (q + 1) * 4096 = omega arith in rw e refl

pub identity_map-Identity :
    (n q : ℕ) (s : Mmu) (d : ℕ)
    → Space s s.kernel_address_space d
    → bitmap_test s.pmm.frame_bitmap 0 ≡ true
    → 1 ≤ q
    → q + n ≤ 2 ^ 20
    → Identity s d q n (identity_map n (q * 4096) s)
identity_map-Identity zero q s d v low ge le = rw (identity_map-zero (q * 4096) s) (record {
  count = 0;
  space = v;
  at_most = omega arith;
  pages = λ page lt. ground arith;
  all = inl refl;
  same_kernel = refl;
})
identity_map-Identity (suc n) q s d v low ge le =
    let pt = s.kernel_address_space in
    let made = mmu_map_page s pt (q * 4096) (q * 4096) 3 in
    let m =
      mmu_map_page-Mapped s pt d (q * 4096) (q * 4096) 3 v (omega arith) (omega arith)
        (omega arith) in
    let e = m.same_kernel in
    rw (identity_map-suc n q s) (elim m.outcome [
      | inl (ok, _, first) ↦
          let go : (made.1 == 0) ≡ false = ground arith in
          let v' : Space made.0 made.0.kernel_address_space d =
            subst (λ x. Space made.0 x d) (sym e) m.space in
          rw go (
            Identity-suc s made.0 d q n (identity_map n ((q + 1) * 4096) made.0) e
              (λ page lt. first page lt ∙ ground arith)
              (identity_map-Identity n (q + 1) made.0 d v' (m.grows 0 low) (omega arith)
                (omega arith)))
      | inr (failed, none_left, pmm, same) ↦
          let stop : (made.1 == 0) ≡ true = ground arith in
          let (why, unchanged) = alloc_zero s.pmm low none_left in
          rw stop (record {
            count = 0;
            space = m.space;
            at_most = omega arith;
            pages = λ page lt. same page lt ∙ ground arith;
            all = inr (rw pmm (rw unchanged why));
            same_kernel = e;
          })
    ])

enable_paging-eq :
    (s : Mmu) (d : ℕ)
    → let s' = identity_map 4095 4096 s in
      Space s' s'.kernel_address_space d
      → enable_paging s ≡ record s' { cr3 = d * 4096; paging = true }
unfolding enable_paging mmu_switch_address_space
enable_paging-eq s d v =
    let s' = identity_map 4095 4096 s in
    let z : (s'.kernel_address_space == 0) ≡ false = ground (arith, v.exists) in
    let a = v.register in rw z (rw a refl)

-- The processor uses the kernel's tables, in frame `f`, which map the pages from 1 up to `count` to
-- themselves and no other page. `count` is less than 4095 only if there is no frame left.
pub record Running (pt_storage f count : ℕ) (out : Mmu) : Type 0 where
  pub space : Space out pt_storage f
  pub kernel : out.kernel_address_space ≡ pt_storage
  pub cr3 : out.cr3 ≡ f * 4096
  pub paging : out.paging ≡ true
  pub at_most : count ≤ 4095
  pub pages :
      (page : ℕ)
      → page < 2 ^ 20
      → found out f page ≡ (if leb 1 page && leb page count then page * 4096 + 3 else 0)
  pub all : (count ≡ 4095) ⊎ Refused out.pmm

enable_paging-Running :
    (s : Mmu) (d : ℕ)
    → Space s s.kernel_address_space d
    → bitmap_test s.pmm.frame_bitmap 0 ≡ true
    → ((page : ℕ) → page < 2 ^ 20 → found s d page ≡ 0)
    → (count : ℕ) × Running s.kernel_address_space d count (enable_paging s)
enable_paging-Running s d v low empty =
    let id = identity_map-Identity 4095 1 s d v low (omega arith) (omega arith) in
    let s' = identity_map 4095 4096 s in
    let v' : Space s' s'.kernel_address_space d =
      subst (λ x. Space s' x d) (sym id.same_kernel) id.space in
    (
      id.count,
      rw (enable_paging-eq s d v') (record {
        space = record {
          exists = id.space.exists;
          directory = id.space.directory;
          register = id.space.register;
          tables = id.space.tables;
        };
        kernel = id.same_kernel;
        cr3 = refl;
        paging = refl;
        at_most = id.at_most;
        pages = λ page lt. ground (arith, id.pages page lt, empty page lt);
        all = id.all;
      }),
    )

-- Paging has not been started, because there was no frame for the directory or none beside it.
abbrev pub Unpaged : Mmu → Mmu → Type 0
Unpaged s out =
    (Refused s.pmm ⊎ ((pmm_alloc_page s.pmm).0.free_frames ≡ 0))
    × (out.paging ≡ s.paging)
    × (out.cr3 ≡ s.cr3)

mmu_init-eq :
    (pt_storage : ℕ) (s : Mmu)
    → let made = mmu_create_address_space pt_storage s in
      let s' = record made.0 { kernel_address_space = made.1 } in
      is_page_aligned (made.0.spaces made.1).pd_phys ≡ true
      → mmu_init pt_storage s
        ≡ (if made.1 == 0 then s' else if made.0.pmm.free_frames == 0 then s' else enable_paging s')
unfolding mmu_init
mmu_init-eq pt_storage s h = rw h refl

mmu_init-absent :
    (pt_storage : ℕ) (s : Mmu)
    → mmu_create_address_space pt_storage s ≡ (s, 0)
    → mmu_init pt_storage s ≡ record s { kernel_address_space = 0 }
unfolding mmu_init
mmu_init-absent pt_storage s h = rw h refl

page_number-aligned : (f : ℕ) → is_page_aligned (f * 4096) ≡ true
page_number-aligned f = is_page_aligned-eq (f * 4096) ∙ ground arith

-- With frame 0 taken, mmu_init either leaves paging and CR3 as they were, because there was no
-- frame for the directory or none beside it, or turns paging on with CR3 at the kernel directory,
-- whose tables map the pages from 1 to some count to themselves, present and writable, and no
-- other page; the count is 4095 unless no frame is left.
pub mmu_init-Running :
    (pt_storage : ℕ) (s : Mmu)
    → pt_storage ≢ 0
    → bitmap_test s.pmm.frame_bitmap 0 ≡ true
    → let out = mmu_init pt_storage s in
      Unpaged s out ⊎ ((count : ℕ) × Running pt_storage ((pmm_alloc_page s.pmm).1 / 4096) count out)
mmu_init-Running pt_storage s ne low = elim (create-Created pt_storage s ne low) [
  | inl (why, e) ↦ rw (mmu_init-absent pt_storage s e) (inl (inl why, refl, refl))
  | inr (given, rest, was_free, v, empty, others) ↦
      let made = mmu_create_address_space pt_storage s in
      let f = (pmm_alloc_page s.pmm).1 / 4096 in
      let v' : Space made.0 made.1 f = subst (λ x. Space made.0 x f) (sym given) v in
      let a : is_page_aligned (made.0.spaces made.1).pd_phys ≡ true =
        rw v'.register (page_number-aligned f) in
      let pmm : made.0.pmm ≡ (pmm_alloc_page s.pmm).0 = ap (λ (x : Mmu). x.pmm) rest in
      let z : (made.1 == 0) ≡ false = ground (arith, v'.exists) in
      rw (mmu_init-eq pt_storage s a) (
        rw z (elim (Bool-cases (made.0.pmm.free_frames == 0)) [
          | inl h ↦
              let free : (pmm_alloc_page s.pmm).0.free_frames ≡ 0 =
                ap (λ (p : Pmm). p.free_frames) (sym pmm) ∙ ground arith in
              rw h (inl (inr free, ap (λ (x : Mmu). x.paging) rest, ap (λ (x : Mmu). x.cr3) rest))
          | inr h ↦
              let s' = record made.0 { kernel_address_space = made.1 } in
              let low' : bitmap_test made.0.pmm.frame_bitmap 0 ≡ true =
                rw pmm (alloc-more s.pmm 0 low) in
              let (count, run) =
                enable_paging-Running s' f
                  (record {
                    exists = v'.exists;
                    directory = v'.directory;
                    register = v'.register;
                    tables = v'.tables;
                  })
                  low' empty in
              rw h (inr (count, subst (λ x. Running x f count (enable_paging s')) given run))
        ]))
]
