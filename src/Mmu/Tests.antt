-- ===== src/Mmu/Tests.antt =====
-- Runs of the page tables at concrete states.
use aioncore.Base.{ℕ, ◌/◌, ◌≡◌, ◌≢◌, refl, true, false, arith, inl, inr, ◌⊎◌, sym, ap, []}
use mathlib.Core.Bool.{false≢true}
use mathlib.Core.Path.{subst}
use aioncore.Pmm.{Pmm, bitmap_test, pmm_alloc_page}
use aioncore.Pmm.Alloc.{Refused}
use aioncore.Pmm.Samples.{two_taken, test_zero, test_one, granted_first, granted_second}
use aioncore.Mmu.{Mmu, mmu_create_address_space, mmu_destroy_address_space, mmu_map_page, mmu_init}
use aioncore.Mmu.Ensure.{alloc-more}
use aioncore.Mmu.Map.{Space, Mapped, mmu_map_page-Mapped}
use aioncore.Mmu.Create.{Created, create-Created, create_twice}
use aioncore.Mmu.Destroy.{Destroyed, destroy-Destroyed}
use aioncore.Mmu.Boot.{Running, Unpaged, mmu_init-Running}

-- The address space at 4 has its directory in frame 1, and maps nothing.
abbrev before : Mmu
before = record {
  pmm = two_taken;
  memory = λ a. 0;
  spaces = λ pt. record { page_directory = 4096; pd_phys = 4096 };
  kernel_address_space = 4;
  cr3 = 0;
  paging = false;
  flushed = [];
}

before-Space : Space before 4 1
before-Space = record {
  exists = omega arith;
  directory = refl;
  register = refl;
  tables = record {
    in_memory = omega arith;
    directory = test_one;
    apart = λ i lt p. absurd (false≢true p);
    distinct = λ i j a b p q e. absurd (false≢true p);
    marked = λ i lt p. absurd (false≢true p);
  };
}

mmu_map_page-Mapped_example :
    Mapped before 4 1 0x3000 0x7000 3 (mmu_map_page before 4 0x3000 0x7000 3)
mmu_map_page-Mapped_example =
    mmu_map_page-Mapped before 4 1 0x3000 0x7000 3 before-Space refl refl (omega arith)

-- the state with one page mapped
abbrev one_mapped : Mmu
one_mapped = (mmu_map_page before 4 0x3000 0x7000 3).0

create-Created_example : Created 8 before (mmu_create_address_space 8 before)
create-Created_example = create-Created 8 before (omega arith) test_zero

destroy-Destroyed_example : Destroyed one_mapped 1 (mmu_destroy_address_space one_mapped 4)
destroy-Destroyed_example = destroy-Destroyed one_mapped 4 1 mmu_map_page-Mapped_example.space

mmu_init-Running_example :
    Unpaged before (mmu_init 8 before)
    ⊎ ((count : ℕ) × Running 8 ((pmm_alloc_page two_taken).1 / 4096) count (mmu_init 8 before))
mmu_init-Running_example = mmu_init-Running 8 before (omega arith) test_zero

abbrev one : Mmu × ℕ
one = mmu_create_address_space 8 before

abbrev two : Mmu × ℕ
two = mmu_create_address_space 8 one.0

one_there : (one.1 ≢ 0) × (one.0.pmm ≡ (pmm_alloc_page two_taken).0)
one_there = elim (create-Created 8 before (omega arith) test_zero) [
  | inl (why, _) ↦ absurd (granted_first why)
  | inr (given, rest, _, _, _, _) ↦ (λ z. omega (arith, given), ap (λ (x : Mmu). x.pmm) rest)
]

create_low : bitmap_test one.0.pmm.frame_bitmap 0 ≡ true
create_low =
    subst (λ (p : Pmm). bitmap_test p.frame_bitmap 0 ≡ true) (sym one_there.1)
      (alloc-more two_taken 0 test_zero)

two_there : two.1 ≢ 0
two_there =
    let pmm = one_there.1 in
    let low = create_low in
    elim (create-Created 8 one.0 (omega arith) low) [
      | inl (why, _) ↦ absurd (granted_second (subst (λ p. Refused p) pmm why))
      | inr (given, rest, _, _, _, _) ↦ λ z. omega (arith, given)
    ]

create_twice_example :
    (two.1 ≡ one.1) × ((two.0.spaces one.1).page_directory ≢ (one.0.spaces one.1).page_directory)
create_twice_example = create_twice 8 before (omega arith) test_zero one_there.0 two_there
