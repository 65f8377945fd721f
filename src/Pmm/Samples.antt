-- ===== src/Pmm/Samples.antt =====
-- A frame allocator at a concrete state, for the tests of the parts that use it.
use mathlib.Core.Bool.{false≢true}
use aioncore.Base.{
  ℕ, ◌/◌, ◌≤◌, ◌<◌, ◌≡◌, ◌≢◌, refl, true, false, arith, ◌==◌, if◌then◌else◌, inl, inr, ◌∙◌, sym,
}
use aioncore.Pmm.{Pmm, Bytes, bitmap_test, pmm_alloc_page}
use aioncore.Pmm.Alloc.{Refused, alloc-cases}

-- frames 0 and 1 are taken
abbrev pub bytes : Bytes
bytes i = if i == 0 then 3 else 0

pub test_zero : bitmap_test bytes 0 ≡ true
unfolding bitmap_test
test_zero = refl

pub test_one : bitmap_test bytes 1 ≡ true
unfolding bitmap_test
test_one = refl

pub test_two : bitmap_test bytes 2 ≡ false
unfolding bitmap_test
test_two = refl

pub test_three : bitmap_test bytes 3 ≡ false
unfolding bitmap_test
test_three = refl

abbrev pub two_taken : Pmm
two_taken = record {
  frame_bitmap = bytes;
  bitmap = true;
  total_frames = 10;
  free_frames = 8;
  reserved_frames = 2;
  initialized = true;
}

-- an allocation from a state in which one of the first frames is free is not refused
pub with_free-granted :
    (p : Pmm)
    → p.initialized ≡ true
    → p.bitmap ≡ true
    → p.free_frames ≢ 0
    → (f : ℕ) → f < 8
    → bitmap_test p.frame_bitmap f ≡ false
    → ¬ Refused p
with_free-granted p a b c f lt free (inl e) = false≢true (sym e ∙ a)
with_free-granted p a b c f lt free (inr (inl e)) = false≢true (sym e ∙ b)
with_free-granted p a b c f lt free (inr (inr (inl e))) = c e
with_free-granted p a b c f lt free (inr (inr (inr full))) =
    false≢true (sym free ∙ full f (omega arith))

pub granted_first : ¬ Refused two_taken
granted_first = with_free-granted two_taken refl refl (omega arith) 2 (omega arith) test_two

pub granted_second : ¬ Refused (pmm_alloc_page two_taken).0
granted_second h = elim (alloc-cases two_taken) [
  | inl (why, _) ↦ granted_first why
  | inr t ↦
      let p = (pmm_alloc_page two_taken).0 in
      let small : (pmm_alloc_page two_taken).1 / 4096 ≤ 2 = ground (arith, t.lowest 2, test_two) in
      let free : bitmap_test p.frame_bitmap 3 ≡ false = ground (arith, t.frames 3, test_three) in
      with_free-granted p (t.initialized ∙ refl) (t.bitmap ∙ refl) (omega (arith, t.free_frames)) 3
        (omega arith) free h
]
