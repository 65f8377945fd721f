-- ===== src/User/Build.antt =====
-- `task_create_user` of core/user.c from the mapping of the code on.
use aioncore.Base.{
  ◌∙◌, ℕ, ◌+◌, ◌*◌, ◌/◌, ◌%◌, ◌^◌, ◌≤◌, ◌<◌, ◌≡◌, ◌≢◌, refl, true, false, arith, ◌==◌,
  if◌then◌else◌, some, inl, inr, List, Option,
}
use aioncore.Pmm.{bitmap_test}
use aioncore.Mmu.{mmu_map_page}
use aioncore.Mmu.Map.{found, mmu_map_page-Mapped}
use aioncore.Tasks.{Machine, pmm_of}
use aioncore.User.{with_mmu, free, map_copied, map_stack, map_code, copy_code}
use aioncore.User.Progress.{Progress, Asked, map-Asked, map-Progress}
use aioncore.User.Parts.{blank_block}
use aioncore.User.Program.{IsProgram, code_bytes, mapped-IsSource, copied-Progress, kept_bytes}
use aioncore.User.Create.{Returned, both_free, map_failed, map_stack_lem}

module _ (name : List ℕ) (m : Machine) (task code stack d src n : ℕ) (p : ℕ → ℕ) (le : n ≤ 4096)
    (low : bitmap_test (pmm_of m).frame_bitmap 0 ≡ true) (task_code : task / 4096 ≢ code / 4096)
    (task_stack : task / 4096 ≢ stack / 4096) (code_stack : code / 4096 ≢ stack / 4096)
    (task_free : bitmap_test (pmm_of m).frame_bitmap (task / 4096) ≡ false)
    (code_free : bitmap_test (pmm_of m).frame_bitmap (code / 4096) ≡ false)
    (stack_free : bitmap_test (pmm_of m).frame_bitmap (stack / 4096) ≡ false)
    (code_page : code % 4096 ≡ 0) (stack_page : stack % 4096 ≡ 0)
    (code_small : code / 4096 < 2 ^ 20) (on : m.mmu.paging ≡ true) (cr3 : m.mmu.cr3 ≡ d * 4096)
    (v : IsProgram m d src n p) where
  abbrev pub Outcome : Option (Machine × ℕ) → Type 0
  Outcome r =
      (out : Machine × ℕ) × (r ≡ some out)
      × Returned name m task code stack d (code_bytes m p) n le low task_code task_stack code_stack
          task_free code_free stack_free code_page stack_page out

  map_code-eq :
      (x : Machine)
      → let made = mmu_map_page x.mmu m.mmu.kernel_address_space code 0x400000 7 in
        let x' = with_mmu x made.0 in
        map_code src n task code stack (blank_block name m) x ≡ (
          if made.1 == 0
          then some (free (free x' code) stack, 0)
          else map_copied task code stack
              (blank_block name m)
              x'
              (copy_code n 0x400000 src 0 made.0))
  unfolding map_code
  map_code-eq x = refl

  copied_Asked : (x y : Machine) → pmm_of x ≡ pmm_of y → Asked 4 m y → Asked 4 m x
  copied_Asked x y e (k, le, f) = (k, le, e ∙ f)

  pub map_code_lem :
      (x : Machine)
      → Progress m task
          (code / 4096)
          (stack / 4096)
          d
          (found m.mmu d)
          (code_bytes m p)
          0
          (blank_block name m)
          x
      → Asked 3 m x
      → x.mmu.memory ≡ m.mmu.memory
      → Outcome (map_code src n task code stack (blank_block name m) x)
  map_code_lem x w asked same =
      let pt = m.mmu.kernel_address_space in
      let made = mmu_map_page x.mmu pt code 0x400000 7 in
      let x' = with_mmu x made.0 in
      let q =
        mmu_map_page-Mapped x.mmu pt d code 0x400000 7 w.space code_page (omega arith)
          (omega arith) in
      rw (map_code-eq x)
        (elim (map-Progress m task (code / 4096) (stack / 4096) d (found m.mmu d) (code_bytes m p) 0
          (blank_block name m) x w (omega arith) code 0x400000 code_page (omega arith) (omega arith)
          (omega arith)) [
            | inl (r, none_left, z) ↦
                let e : (made.1 == 0) ≡ true = ground arith in
                rw e (
                  (free (free x' code) stack, 0),
                  refl,
                  inl (
                    refl,
                    record {
                      short =
                          map_failed name m task code stack d (code_bytes m p) n le low task_code
                            task_stack code_stack task_free code_free stack_free code_page
                            stack_page x (found m.mmu d) 0 3 w asked (omega arith) none_left;
                      leaks = inr (
                          both_free name m task code stack d (code_bytes m p) n le low task_code
                            task_stack code_stack task_free code_free stack_free code_page
                            stack_page x' z.task_taken);
                    },
                  ),
                )
            | inr (r, z) ↦
                let e : (made.1 == 0) ≡ false = ground arith in
                let f : ℕ → ℕ = λ page. if 0x400 == page then code + 7 else found m.mmu d page in
                let here : f 0x400 ≡ code / 4096 * 4096 + 7 = omega arith in
                let source =
                  mapped-IsSource m task (code / 4096) (stack / 4096) d src n p (blank_block name m)
                    le code_small code_free on cr3 v x x' f w same z (λ page ne. ground arith) in
                let (u, eq, kept, y) =
                  copied-Progress m task (code / 4096) (stack / 4096) d src n p (blank_block name m)
                    le code_small code_free on cr3 v x' f z here source
                    (kept_bytes m task (code / 4096) (stack / 4096) d src n p (blank_block name m)
                      le code_small code_free on cr3 v x code 0x400000 w same q) in
                rw e (
                  rw eq (
                    map_stack task code stack (blank_block name m) (with_mmu x' u),
                    refl,
                    map_stack_lem name m task code stack d (code_bytes m p) n le low task_code
                        task_stack code_stack task_free code_free stack_free code_page stack_page
                        (with_mmu x' u) y
                        (copied_Asked (with_mmu x' u) x' kept
                          (map-Asked 3 m x pt code 0x400000 7 asked)),
                  ))
          ])
