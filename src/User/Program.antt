-- ===== src/User/Program.antt =====
-- The code of a user task in `task_create_user` of core/user.c: where it is read, and the step that maps
-- a page for it and copies it there.
use aioncore.Base.{
  ℕ, ◌+◌, ◌*◌, ◌/◌, ◌%◌, ◌^◌, ◌≤◌, ◌<◌, ◌≡◌, ◌≢◌, refl, true, false, arith, some, ap, ◌∙◌,
}
use aioncore.Task.{Task}
use aioncore.Pmm.{bitmap_test}
use aioncore.Mmu.{Mmu, mmu_map_page}
use aioncore.Mmu.Walk.{IsOutside}
use aioncore.Mmu.Outside.{outside-IsSpace, kept-IsOutside, others-IsOutside, outside-entry}
use aioncore.Mmu.Map.{found, Mapped}
use aioncore.Tasks.{Machine, pmm_of}
use aioncore.User.{physical, byte_at, with_mmu, copy_code}
use aioncore.User.Copy.{with_memory, IsSource, copied_lem}
use aioncore.User.Progress.{Progress, same_bytes}

-- The `n` bytes of code from `src` on can be read, byte `k` at the physical address `p k`, in taken frames
-- that hold no page tables, and not in the page to which the code will be mapped.
pub record IsProgram (m : Machine) (d src n : ℕ) (p : ℕ → ℕ) : Type 0 where
  pub in_range : src + n ≤ 2 ^ 32
  pub read : (k : ℕ) → k < n → physical m.mmu (src + k) ≡ some (p k)
  pub page : (k : ℕ) → k < n → (src + k) / 4096 ≢ 0x400
  pub taken : (k : ℕ) → k < n → bitmap_test (pmm_of m).frame_bitmap (p k / 4096) ≡ true
  pub outside : (k : ℕ) → k < n → IsOutside m.mmu.memory d (p k / 4096)

-- the bytes of the code
abbrev pub code_bytes : Machine → (p : ℕ → ℕ) → ℕ → ℕ
code_bytes m p k = byte_at m.mmu.memory (p k)

-- An address is translated alike where the processor finds the same entry.
physical-found :
    (u v : Mmu) (d a : ℕ)
    → u.paging ≡ v.paging
    → u.cr3 ≡ d * 4096
    → v.cr3 ≡ d * 4096
    → found u d (a / 4096) ≡ found v d (a / 4096)
    → physical u a ≡ physical v a
unfolding physical
physical-found u v d a on x y e =
    let q : u.cr3 / 4096 ≡ d = omega arith in
    let r : v.cr3 / 4096 ≡ d = omega arith in rw on (rw q (rw r (rw e refl)))

module _ (m : Machine) (task c s d src n : ℕ) (p : ℕ → ℕ) (t : Task) (le : n ≤ 4096)
    (small : c < 2 ^ 20) (c_free : bitmap_test (pmm_of m).frame_bitmap c ≡ false)
    (on : m.mmu.paging ≡ true) (cr3 : m.mmu.cr3 ≡ d * 4096) (v : IsProgram m d src n p) where
  -- The code can be read when its page has been mapped.
  pub mapped-IsSource :
      (x y : Machine) (f : ℕ → ℕ)
      → Progress m task c s d (found m.mmu d) (code_bytes m p) 0 t x
      → x.mmu.memory ≡ m.mmu.memory
      → Progress m task c s d f (code_bytes m p) 0 t y
      → ((page : ℕ) → page ≢ 0x400 → f page ≡ found m.mmu d page)
      → IsSource y.mmu c src n p
  mapped-IsSource x y f w same z other = record {
    in_range = v.in_range;
    read = λ k lt.
        let r = v.in_range in
        physical-found y.mmu m.mmu d (src + k) z.paging (z.cr3 ∙ cr3) cr3
          (z.entries ((src + k) / 4096) (omega arith) ∙ other ((src + k) / 4096) (v.page k lt))
        ∙ v.read k lt;
    elsewhere = λ k lt e. ground (arith, v.taken k lt, c_free);
  }

  -- The copy, from the state with the page mapped.
  pub copied-Progress :
      (y : Machine) (f : ℕ → ℕ)
      → Progress m task c s d f (code_bytes m p) 0 t y
      → f 0x400 ≡ c * 4096 + 7
      → IsSource y.mmu c src n p
      → ((k : ℕ) → k < n → byte_at y.mmu.memory (p k) ≡ code_bytes m p k)
      → (u : Mmu) × (copy_code n 0x400000 src 0 y.mmu ≡ some u)
        × (u.pmm ≡ y.mmu.pmm)
        × Progress m task c s d f (code_bytes m p) n t (with_mmu y u)
  copied-Progress y f z here source bytes =
      let (out, eq, copied) =
        copied_lem y.mmu d c src n p (z.paging ∙ on) (z.cr3 ∙ cr3) z.code_outside small
          (z.entries 0x400 (omega arith) ∙ here) le source in
      let only = copied.only in
      (
        with_memory y.mmu out,
        eq,
        refl,
        record {
          control_block = z.control_block;
          others = z.others;
          sched = z.sched;
          idle = z.idle;
          next_id = z.next_id;
          space = record {
            exists = z.space.exists;
            directory = z.space.directory;
            register = z.space.register;
            tables =
                outside-IsSpace y.mmu.memory out d c only z.code_outside (pmm_of y).frame_bitmap
                  z.space.tables;
          };
          kernel_space = z.kernel_space;
          cr3 = z.cr3;
          paging = z.paging;
          entries = λ page lt.
              outside-entry y.mmu.memory out d c only z.code_outside page lt ∙ z.entries page lt;
          bytes = λ k lt. copied.bytes k lt ∙ bytes k lt;
          code_outside = kept-IsOutside y.mmu.memory out d c only z.code_outside;
          others_outside = λ g full v.
              others-IsOutside y.mmu.memory out d c only z.code_outside g
                (z.others_outside g full v);
          grows = z.grows;
          task_taken = z.task_taken;
          code_taken = z.code_taken;
          stack_taken = z.stack_taken;
        },
      )

  -- The bytes of the code where mapping a page has kept them.
  pub kept_bytes :
      (x : Machine) (phys virt : ℕ)
      → Progress m task c s d (found m.mmu d) (code_bytes m p) 0 t x
      → x.mmu.memory ≡ m.mmu.memory
      → let made = mmu_map_page x.mmu m.mmu.kernel_address_space phys virt 7 in
        Mapped x.mmu m.mmu.kernel_address_space d phys virt 7 made
        → (k : ℕ) → k < n
        → byte_at made.0.memory (p k) ≡ code_bytes m p k
  kept_bytes x phys virt w same q k lt =
      let made = mmu_map_page x.mmu m.mmu.kernel_address_space phys virt 7 in
      let f = p k / 4096 in
      let full = w.grows f (v.taken k lt) in
      let kept = q.others f full (rw same (v.outside k lt)) in
      let a : p k ≡ f * 4096 + p k % 4096 = omega arith in
      let e = same_bytes x.mmu.memory made.0.memory f (p k % 4096) kept.words (omega arith) in
      (rw (← a) at e) ∙ ap (λ (mem : ℕ → ℕ). byte_at mem (p k)) same

-- A program can be read as before when the entries of its pages have been kept.
pub kept-IsProgram :
    (m : Machine) (d src n : ℕ) (p : ℕ → ℕ) (task c s : ℕ) (e b : ℕ → ℕ) (l : ℕ) (t : Task)
    (x : Machine)
    → m.mmu.cr3 ≡ d * 4096
    → IsProgram m d src n p
    → Progress m task c s d e b l t x
    → ((k : ℕ) → k < n → e ((src + k) / 4096) ≡ found m.mmu d ((src + k) / 4096))
    → IsProgram x d src n p
kept-IsProgram m d src n p task c s e b l t x cr3 v z kept = record {
  in_range = v.in_range;
  read = λ k lt.
      let r = v.in_range in
      physical-found x.mmu m.mmu d (src + k) z.paging (z.cr3 ∙ cr3) cr3
        (z.entries ((src + k) / 4096) (omega arith) ∙ kept k lt)
      ∙ v.read k lt;
  page = v.page;
  taken = λ k lt. z.grows (p k / 4096) (v.taken k lt);
  outside = λ k lt. z.others_outside (p k / 4096) (v.taken k lt) (v.outside k lt);
}
