-- ===== src/Tasks/Init.antt =====
-- `task_init` of core/task.c: the idle task.
use mathlib.Core.Path.{subst}
use aioncore.Base.{
  ℕ, ◌+◌, ◌-◌, ◌/◌, ◌<◌, ◌≡◌, ◌≢◌, refl, true, false, arith, ◌==◌, ◌||◌, if◌then◌else◌, update, ap,
  sym, ◌∙◌, [], ◌∷◌, ◌⊎◌, inl, inr, Bool-cases,
}
use aioncore.Task.{Task}
use aioncore.Pmm.{Pmm, bitmap_test, pmm_alloc_page}
use aioncore.Pmm.Alloc.{Refused, Took, alloc-cases}
use aioncore.Mmu.{mmu_get_kernel_address_space}
use aioncore.Mmu.Apart.{SameWords, update-SameWords, refl-SameWords}
use aioncore.Sched.{sched_idle_priority}
use aioncore.Sched.Run.{zero_task, scheduler_init}
use aioncore.Sched.Run.Start.{IsUnlinked, no_queues, init-IsScheduled}
use aioncore.Sched.Run.Switch.{IsScheduled}
use aioncore.Tasks.{
  Machine, pmm_of, words_of, with_pmm, with_task, stored_name, idle_name, kernel_context,
  start_idle, task_init,
}
use aioncore.Tasks.Create.{first, second, after}

module _ (entry : ℕ) (m : Machine) where
  abbrev pub q : Pmm
  q = pmm_of m

  abbrev pub idle_blank : Task
  idle_blank =
      let z = zero_task in
      record z {
        name = stored_name idle_name;
        priority = sched_idle_priority;
        address_space = mmu_get_kernel_address_space m.mmu;
        kernel_stack_size = 4096;
        kernel_stack = second q;
      }

  abbrev named : Machine
  named = let k = m.kernel in record m { kernel = record k { idle_task = first q } }

  abbrev pub half : Machine
  half = with_task (with_pmm named (after q)) (first q) idle_blank

  task_init-eq : task_init entry m ≡ (
      if first q == 0
      then with_pmm named (pmm_alloc_page q).0
      else if second q == 0
      then half
      else start_idle half (first q) (second q) entry idle_blank)
  unfolding task_init mmu_get_kernel_address_space
  task_init-eq = refl

  abbrev started : Machine
  started = start_idle half (first q) (second q) entry idle_blank

  -- What `task_init` leaves in `out` when it has both pages: the control block of the idle task in the
  -- first, with its stack in the second, where its entry point finds a return address and an
  -- argument of 0; the taken frames hold the same words.
  pub record HasIdle (out : Machine) : Type 0 where
    pub idle : out.kernel.idle_task ≡ first q
    pub idle_free : bitmap_test q.frame_bitmap (first q / 4096) ≡ false
    pub idle_there : first q ≢ 0
    pub different : first q / 4096 ≢ second q / 4096
    pub frames :
        (g : ℕ)
        → bitmap_test (pmm_of out).frame_bitmap g ≡ (
            if (first q / 4096 == g) || (second q / 4096 == g)
            then true
            else bitmap_test q.frame_bitmap g)
    pub control_block :
        let t = idle_blank in
        out.kernel.tasks (first q)
        ≡ record t { context = kernel_context (second q + 4096 - 8) entry }
    pub others : (a : ℕ) → a ≢ first q → out.kernel.tasks a ≡ m.kernel.tasks a
    pub stack :
        (words_of out (second q + 4096 - 8) ≡ 0) × (words_of out (second q + 4096 - 8 + 4) ≡ 0)
    pub words : SameWords q.frame_bitmap (words_of m) (words_of out)

  started-HasIdle :
      first q ≢ 0
      → Took q (pmm_alloc_page q).0 (first q)
      → Took (pmm_alloc_page q).0 (after q) (second q)
      → HasIdle started
  unfolding start_idle
  started-HasIdle ne t u =
      let f = second q / 4096 in
      let free : bitmap_test q.frame_bitmap f ≡ false = ground (arith, u.was_free, t.frames f) in
      let low = u.aligned in
      let same : (first q == first q) ≡ true = ground arith in
      record {
        idle = refl;
        idle_free = t.was_free;
        idle_there = ne;
        different = ground (arith, u.was_free, t.frames f);
        frames = λ g. ground (arith, t.frames g, u.frames g);
        control_block = rw same refl;
        others = λ a ne. let other : (first q == a) ≡ false = ground arith in rw other refl;
        stack = (ground arith, ground arith);
        words = update-SameWords q.frame_bitmap (words_of m) _ f _ 0 (omega arith) free (
            update-SameWords q.frame_bitmap (words_of m) _ f _ 0 (omega arith) free
              (refl-SameWords q.frame_bitmap (words_of m)));
      }

  -- With frame 0 taken, task_init either leaves no idle task because the first page was refused,
  -- or an idle task without a stack because the second was, or an idle task in the first page with
  -- its stack in the second, where its entry point finds a return address and an argument of 0,
  -- and the words of all taken frames are unchanged.
  pub task_init-cases :
      bitmap_test q.frame_bitmap 0 ≡ true
      → let out = task_init entry m in
        (Refused q × (out.kernel.idle_task ≡ 0) × (pmm_of out ≡ q))
        ⊎ (Refused (pmm_alloc_page q).0 × (out ≡ half))
        ⊎ HasIdle out
  task_init-cases low = elim (alloc-cases q) [
    | inl (why, e) ↦
        let page : first q ≡ 0 = ap (λ (x : Pmm × ℕ). x.1) e in
        let a : (first q == 0) ≡ true = ground arith in
        rw task_init-eq (rw a (inl (why, page, ap (λ (x : Pmm × ℕ). x.0) e)))
    | inr t ↦
        let a : (first q == 0) ≡ false = ground (arith, t.was_free) in
        elim (alloc-cases (pmm_alloc_page q).0) [
          | inl (why, e) ↦
              let page : second q ≡ 0 = ap (λ (x : Pmm × ℕ). x.1) e in
              let b : (second q == 0) ≡ true = ground arith in
              inr (inl (why, task_init-eq ∙ rw a (rw b refl)))
          | inr u ↦
              let b : (second q == 0) ≡ false = ground (arith, t.frames 0, u.was_free) in
              rw task_init-eq
                (rw a (rw b (inr (inr (started-HasIdle (λ z. ground (arith, t.was_free)) t u)))))
        ]
  ]

  has_pages :
      bitmap_test q.frame_bitmap 0 ≡ true
      → ¬ Refused q
      → ¬ Refused (pmm_alloc_page q).0
      → HasIdle (task_init entry m)
  has_pages low a b = elim (task_init-cases low) [
    | inl (why, _, _) ↦ absurd (a why)
    | inr (inl (why, _)) ↦ absurd (b why)
    | inr (inr h) ↦ h
  ]

  -- a property of the idle task's control block
  at_idle :
      (out : Machine)
      → HasIdle out
      → (a : ℕ) → (P : Task → Type 0) → (first q == a) ≡ true
      → (let t = idle_blank in
          P (record t { context = kernel_context (second q + 4096 - 8) entry }))
      → P (out.kernel.tasks a)
  at_idle out h a P e x =
      let same : first q ≡ a = ground arith in
      subst (λ i. P (out.kernel.tasks i)) same (subst P (sym h.control_block) x)

  HasIdle-IsUnlinked : (out : Machine) → IsUnlinked m.kernel → HasIdle out → IsUnlinked out.kernel
  HasIdle-IsUnlinked out u h = record {
    nexts = λ a. elim (Bool-cases (first q == a)) [
      | inl e ↦ at_idle out h a (λ t. t.next ≡ 0) e refl
      | inr e ↦ rw (h.others a (ground arith)) (u.nexts a)
    ];
    prevs = λ a. elim (Bool-cases (first q == a)) [
      | inl e ↦ at_idle out h a (λ t. t.prev ≡ 0) e refl
      | inr e ↦ rw (h.others a (ground arith)) (u.prevs a)
    ];
    range = λ a. elim (Bool-cases (first q == a)) [
      | inl e ↦ at_idle out h a (λ t. t.priority < 256) e (omega arith)
      | inr e ↦ rw (h.others a (ground arith)) (u.range a)
    ];
  }

  -- If no control block is linked, frame 0 and the frame of the bootstrap task are taken and two
  -- pages can be allocated, then scheduler_init after task_init establishes the scheduler
  -- invariant with the idle task as the only waiting one.
  pub boot-IsScheduled :
      (bootstrap address_space : ℕ)
      → IsUnlinked m.kernel
      → bootstrap ≢ 0
      → bitmap_test q.frame_bitmap (bootstrap / 4096) ≡ true
      → bitmap_test q.frame_bitmap 0 ≡ true
      → ¬ Refused q
      → ¬ Refused (pmm_alloc_page q).0
      → let k = (task_init entry m).kernel in
        IsScheduled (scheduler_init bootstrap address_space k) (update no_queues 0 (first q ∷ []))
  boot-IsScheduled bootstrap address_space u nz taken low a b =
      let h = has_pages low a b in
      let k = (task_init entry m).kernel in
      let e = h.idle in
      let c = h.control_block in
      subst
        (λ i. IsScheduled (scheduler_init bootstrap address_space k) (update no_queues 0 (i ∷ [])))
        e
        (init-IsScheduled bootstrap address_space k (HasIdle-IsUnlinked (task_init entry m) u h) nz
          (λ z. h.idle_there (sym e ∙ z)) (λ z. ground (arith, h.idle_free))
          (subst (λ i. (k.tasks i).priority ≡ 0) (sym e) (ap (λ (t : Task). t.priority) c)))
