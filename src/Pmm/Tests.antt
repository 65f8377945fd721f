-- ===== src/Pmm/Tests.antt =====
-- Runs of the frame allocator at concrete states.
use aioncore.Base.{
  ℕ, ◌+◌, ◌-◌, ◌/◌, ◌<◌, ◌≡◌, ◌≢◌, refl, true, false, arith, ◌⊎◌, inl, inr, [], ◌∷◌, some,
}
use aioncore.Base.Words.{u32_mod, add32}
use aioncore.Base.Seqs.{erase}
use aioncore.Pmm.{Pmm, bitmap_test, frame_size, pmm_alloc_page, pmm_free_page, pmm_reserve_region}
use aioncore.Pmm.Alloc.{Refused, Took, alloc-cases}
use aioncore.Pmm.Samples.{bytes, two_taken, test_zero, test_one, test_two, granted_first}
use aioncore.Pmm.Owners.{System, Step, Reach, IsOwned, Reach-IsOwned}
use aioncore.Pmm.Reserve.{Reserved, reserve_region-Reserved}
use aioncore.Pmm.Init.{MmapEntry, MultibootInfo, pmm_init, next_entry, use_fallback}
use aioncore.Pmm.Init.Walk.{Walk, covered}
use aioncore.Pmm.Init.Boot.{IsUp, init-multiboot}

alloc-cases_example :
    (Refused two_taken × (pmm_alloc_page two_taken ≡ (two_taken, 0)))
    ⊎ Took two_taken (pmm_alloc_page two_taken).0 (pmm_alloc_page two_taken).1
alloc-cases_example = alloc-cases two_taken

-- The page handed out is that of frame 2.
alloc-two : (pmm_alloc_page two_taken).1 ≡ 0x2000
alloc-two = elim (alloc-cases two_taken) [
  | inl (r, e) ↦ absurd (granted_first r)
  | inr t ↦ ground (arith, t.was_free, t.lowest 2, t.aligned, test_zero, test_one, test_two)
]

alloc_ne : (pmm_alloc_page two_taken).1 ≢ 0
alloc_ne = rw alloc-two (omega arith)

abbrev start : System
start = record { pmm = two_taken; held = 0x1000 ∷ [] }

start-IsOwned : IsOwned start
start-IsOwned = record {
  distinct = ground arith;
  aligned = λ p h. ground arith;
  marked = λ p h. ground (arith, test_one);
}

abbrev one_call : System
one_call = record {
  pmm = (pmm_alloc_page two_taken).0;
  held = (pmm_alloc_page two_taken).1 ∷ 0x1000 ∷ [];
}

abbrev two_calls : System
two_calls = record { pmm = pmm_free_page one_call.pmm 0x1000; held = erase 0x1000 one_call.held }

two_calls-Reach : Reach start two_calls
two_calls-Reach =
    Reach.next (Reach.next Reach.here (Step.alloc alloc_ne)) (Step.free 0x1000 (ground arith))

Reach-IsOwned_example : IsOwned two_calls
Reach-IsOwned_example = Reach-IsOwned two_calls-Reach start-IsOwned

-- a region of 0x2345 bytes from 0x3000 on touches the frames 3, 4 and 5
reserve_region-Reserved_example :
    Reserved two_taken
      (0x3000 / frame_size)
      ((0x3000 + 0x2345 - 1) / frame_size + 1)
      (pmm_reserve_region two_taken 0x3000 0x2345)
reserve_region-Reserved_example =
    reserve_region-Reserved two_taken 0x3000 0x2345 (omega arith) (omega arith) (omega arith)

test_high : bitmap_test bytes 1000 ≡ false
unfolding bitmap_test
test_high = refl

-- A map of one entry at 0x9000: 7 MB from 1 MB on.
abbrev read : ℕ → MmapEntry
read a = record { size = 20; addr = 0x100000; len = 0x700000; type = 1 }

abbrev info : MultibootInfo
info = record { flags = 0x40; mmap_length = 24; mmap_addr = 0x9000 }

one-Walk : Walk read (add32 0x9000 24) 0x9000 (read 0x9000 ∷ [])
unfolding next_entry
one-Walk = Walk.visit (omega arith) (Walk.stop (omega arith))

abbrev image : (0x100000 < 0x150000) × (0x150000 + (frame_size - 1) < u32_mod)
image = (omega arith, omega arith)

fine : use_fallback 0x2BADB002 0x8000 info ≡ false
unfolding use_fallback
fine = refl

wrong : use_fallback 0x1234 0x8000 info ≡ true
unfolding use_fallback
wrong = refl

init-multiboot_example :
    (t : Pmm) × (pmm_init read 0x100000 0x150000 2 0x2BADB002 0x8000 info two_taken ≡ some t)
    × IsUp 0x100000 0x150000 (covered (read 0x9000 ∷ [])) t
init-multiboot_example =
    init-multiboot read 0x100000 0x150000 image 2 0x2BADB002 0x8000 info two_taken
      (read 0x9000 ∷ []) fine one-Walk (omega arith) (omega arith, omega arith, omega arith)
