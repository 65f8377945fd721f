-- ===== src/User/Create.antt =====
-- `task_create_user` of core/user.c, step by step.
use mathlib.Core.Bool.{false≢true}
use mathlib.Core.Path.{subst}
use aioncore.Base.{
  ℕ, ◌+◌, ◌/◌, ◌%◌, ◌≤◌, ◌≡◌, ◌≢◌, refl, true, false, arith, ◌==◌, if◌then◌else◌, sym, ap, ◌∙◌,
  Bool-cases, inl, inr, ◌⊎◌, List,
}
use aioncore.Pmm.{Pmm, bitmap_test, pmm_alloc_page, pmm_free_page}
use aioncore.Pmm.Alloc.{Refused, Took, alloc-cases}
use aioncore.Mmu.{mmu_map_page}
use aioncore.Mmu.Walk.{IsSpace-more}
use aioncore.Mmu.Ensure.{alloc-more}
use aioncore.Mmu.Boot.{alloc_zero}
use aioncore.Mmu.Map.{found}
use aioncore.Tasks.{Machine, pmm_of, with_pmm, with_task}
use aioncore.User.{with_mmu, unmap, free, finish_user, map_stack}
use aioncore.User.Progress.{Progress, Asked, allocated, map-Asked, map-Progress}
use aioncore.User.Parts.{
  user_block, blank_block, user_entries, IsUserTask, Failed, free_keeps, unmap-pmm,
}

module _ (name : List ℕ) (m : Machine) (task code stack d : ℕ) (b : ℕ → ℕ) (n : ℕ) (le : n ≤ 4096)
    (low : bitmap_test (pmm_of m).frame_bitmap 0 ≡ true) (task_code : task / 4096 ≢ code / 4096)
    (task_stack : task / 4096 ≢ stack / 4096) (code_stack : code / 4096 ≢ stack / 4096)
    (task_free : bitmap_test (pmm_of m).frame_bitmap (task / 4096) ≡ false)
    (code_free : bitmap_test (pmm_of m).frame_bitmap (code / 4096) ≡ false)
    (stack_free : bitmap_test (pmm_of m).frame_bitmap (stack / 4096) ≡ false)
    (code_page : code % 4096 ≡ 0) (stack_page : stack % 4096 ≡ 0) where
  -- what the code returns
  abbrev pub Returned : Machine × ℕ → Type 0
  Returned out =
      ((out.1 ≡ 0) × Failed m task out.0)
      ⊎ ((out.1 ≡ task)
          × (kernel_stack : ℕ) × IsUserTask name m task code stack kernel_stack d b n out.0)

  -- the task's frame stays taken when the two pages are freed
  pub both_free :
      (x : Machine)
      → bitmap_test (pmm_of x).frame_bitmap (task / 4096) ≡ true
      → bitmap_test (pmm_of (free (free x code) stack)).frame_bitmap (task / 4096) ≡ true
  both_free x full =
      free_keeps (pmm_free_page (pmm_of x) code) stack (task / 4096) (λ e. task_stack (sym e))
        (free_keeps (pmm_of x) code (task / 4096) (λ e. task_code (sym e)) full)

  -- the state after the allocation of the kernel stack, and the two ways on
  abbrev stacked : Machine → Machine
  stacked x =
      let t = blank_block name m in
      with_task (with_pmm x (pmm_alloc_page (pmm_of x)).0) task
        (record t { kernel_stack_size = 4096; kernel_stack = (pmm_alloc_page (pmm_of x)).1 })

  abbrev undone : Machine → Machine
  undone x =
      let pt = m.mmu.kernel_address_space in
      free (free (unmap (unmap (stacked x) pt 0x400000) pt 0xBFFFF000) code) stack

  abbrev done : Machine → Machine
  done x = with_task (stacked x) task (user_block name m (pmm_alloc_page (pmm_of x)).1)

  finish_user-eq :
      (x : Machine)
      → finish_user task code stack (blank_block name m) x
        ≡ (if (pmm_alloc_page (pmm_of x)).1 == 0 then (undone x, 0) else (done x, task))
  unfolding finish_user
  finish_user-eq x = refl

  -- the allocation that was refused
  shortage_lem :
      (x : Machine)
      → Asked 5 m x
      → Refused (pmm_of x)
      → (k : ℕ) × (k ≤ 5) × Refused (allocated k (pmm_of m))
  shortage_lem x (k, le, e) why = (k, le, subst Refused e why)

  undone-Failed :
      (x : Machine)
      → Progress m task
          (code / 4096)
          (stack / 4096)
          d
          (user_entries m d code stack)
          b
          n
          (blank_block name m)
          x
      → Asked 5 m x
      → Refused (pmm_of x)
      → Failed m task (undone x)
  undone-Failed x v asked why =
      let pt = m.mmu.kernel_address_space in
      let y = unmap (unmap (stacked x) pt 0x400000) pt 0xBFFFF000 in
      let same : pmm_of y ≡ pmm_of (stacked x) =
        unmap-pmm (unmap (stacked x) pt 0x400000).mmu pt 0xBFFFF000
        ∙ unmap-pmm (stacked x).mmu pt 0x400000 in
      record {
        short = shortage_lem x asked why;
        leaks = inr (both_free y (rw same (alloc-more (pmm_of x) (task / 4096) v.task_taken)));
      }

  done-IsUserTask :
      (x : Machine)
      → Progress m task
          (code / 4096)
          (stack / 4096)
          d
          (user_entries m d code stack)
          b
          n
          (blank_block name m)
          x
      → Took (pmm_of x) (pmm_alloc_page (pmm_of x)).0 (pmm_alloc_page (pmm_of x)).1
      → IsUserTask name m task code stack (pmm_alloc_page (pmm_of x)).1 d b n (done x)
  done-IsUserTask x v took =
      let ks = (pmm_alloc_page (pmm_of x)).1 in
      let more = alloc-more (pmm_of x) in
      let here : (task == task) ≡ true = ground arith in
      record {
        progress = record {
          control_block = rw here refl;
          others =
              λ a ne. let other : (task == a) ≡ false = ground arith in rw other (v.others a ne);
          sched = v.sched;
          idle = v.idle;
          next_id = v.next_id;
          space = record {
            exists = v.space.exists;
            directory = v.space.directory;
            register = v.space.register;
            tables = IsSpace-more more v.space.tables;
          };
          kernel_space = v.kernel_space;
          cr3 = v.cr3;
          paging = v.paging;
          entries = v.entries;
          bytes = v.bytes;
          code_outside = v.code_outside;
          others_outside = v.others_outside;
          grows = λ g full. more g (v.grows g full);
          task_taken = more (task / 4096) v.task_taken;
          code_taken = more (code / 4096) v.code_taken;
          stack_taken = more (stack / 4096) v.stack_taken;
        };
        were_free = (task_free, code_free, stack_free, was_free x v ks took.was_free);
        differ = (
          task_code,
          task_stack,
          code_stack,
          λ e. ground (arith, v.task_taken, took.was_free),
          λ e. ground (arith, v.code_taken, took.was_free),
          λ e. ground (arith, v.stack_taken, took.was_free),
        );
        kernel_stack_taken = took.frames (ks / 4096) ∙ ground arith;
      }
    where
      was_free :
          (x : Machine)
          → Progress m task
              (code / 4096)
              (stack / 4096)
              d
              (user_entries m d code stack)
              b
              n
              (blank_block name m)
              x
          → (ks : ℕ) → bitmap_test (pmm_of x).frame_bitmap (ks / 4096) ≡ false
          → bitmap_test (pmm_of m).frame_bitmap (ks / 4096) ≡ false
      was_free x v ks free = elim (Bool-cases (bitmap_test (pmm_of m).frame_bitmap (ks / 4096))) [
        | inl full ↦ absurd (false≢true (sym free ∙ v.grows (ks / 4096) full))
        | inr e ↦ e
      ]

  finished_lem :
      (x : Machine)
      → Progress m task
          (code / 4096)
          (stack / 4096)
          d
          (user_entries m d code stack)
          b
          n
          (blank_block name m)
          x
      → Asked 5 m x
      → Returned (finish_user task code stack (blank_block name m) x)
  finished_lem x v asked = rw (finish_user-eq x) (elim (alloc-cases (pmm_of x)) [
    | inl (why, e) ↦
        let z : (pmm_alloc_page (pmm_of x)).1 ≡ 0 = ap (λ (y : Pmm × ℕ). y.1) e in
        let z : ((pmm_alloc_page (pmm_of x)).1 == 0) ≡ true = ground arith in
        rw z (inl (refl, undone-Failed x v asked why))
    | inr took ↦
        let z : ((pmm_alloc_page (pmm_of x)).1 == 0) ≡ false =
          ground (arith, took.was_free, v.grows 0 low) in
        rw z (inr (refl, (pmm_alloc_page (pmm_of x)).1, done-IsUserTask x v took))
  ])

  -- the entries with the code mapped
  abbrev pub code_entries : ℕ → ℕ
  code_entries page = if 0x400 == page then code + 7 else found m.mmu d page

  -- a page could not be mapped
  pub map_failed :
      (x : Machine) (e : ℕ → ℕ) (k u : ℕ)
      → Progress m task (code / 4096) (stack / 4096) d e b k (blank_block name m) x
      → Asked u m x
      → u ≤ 5
      → (pmm_alloc_page (pmm_of x)).1 ≡ 0
      → (j : ℕ) × (j ≤ 5) × Refused (allocated j (pmm_of m))
  map_failed x e k u v (j, le, same) few none_left =
      let (why, _) = alloc_zero (pmm_of x) (v.grows 0 low) none_left in
      shortage_lem x (j, omega arith, same) why

  map_stack-eq :
      (x : Machine)
      → let made = mmu_map_page x.mmu m.mmu.kernel_address_space stack 0xBFFFF000 7 in
        let x' = with_mmu x made.0 in
        map_stack task code stack (blank_block name m) x ≡ (
          if made.1 == 0
          then (free (free (unmap x' m.mmu.kernel_address_space 0x400000) code) stack, 0)
          else finish_user task code stack (blank_block name m) x')
  unfolding map_stack
  map_stack-eq x = refl

  pub map_stack_lem :
      (x : Machine)
      → Progress m task (code / 4096) (stack / 4096) d code_entries b n (blank_block name m) x
      → Asked 4 m x
      → Returned (map_stack task code stack (blank_block name m) x)
  map_stack_lem x v asked =
      let pt = m.mmu.kernel_address_space in
      let made = mmu_map_page x.mmu pt stack 0xBFFFF000 7 in
      let x' = with_mmu x made.0 in
      rw (map_stack-eq x)
        (elim (map-Progress m task (code / 4096) (stack / 4096) d code_entries b n
          (blank_block name m) x v le stack 0xBFFFF000 stack_page (omega arith) (omega arith)
          (omega arith)) [
            | inl (r, none_left, w) ↦
                let z : (made.1 == 0) ≡ true = ground arith in
                let same = unmap-pmm made.0 pt 0x400000 in
                rw z (
                  inl (
                    refl,
                    record {
                      short = map_failed x code_entries n 4 v asked (omega arith) none_left;
                      leaks = inr (both_free (unmap x' pt 0x400000) (rw same w.task_taken));
                    },
                  ))
            | inr (r, w) ↦
                let z : (made.1 == 0) ≡ false = ground arith in
                rw z (finished_lem x' w (map-Asked 4 m x pt stack 0xBFFFF000 7 asked))
          ])
