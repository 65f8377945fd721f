-- ===== src/Tasks/Create.antt =====
-- `task_create_kernel_thread` and `task_destroy` of core/task.c.
use mathlib.Core.Path.{subst}
use mathlib.Core.Bool.{false≢true}
use aioncore.Base.{
  ℕ, ◌+◌, ◌-◌, ◌/◌, ◌<◌, ◌≡◌, ◌≢◌, refl, true, false, arith, ◌==◌, ◌||◌, if◌then◌else◌, ap, sym,
  ◌∙◌, List, ◌⊎◌, inl, inr,
}
use aioncore.Base.Words.{u32_mod, inc32}
use aioncore.Task.{Task}
use aioncore.Pmm.{Pmm, bitmap_test, pmm_alloc_page, pmm_free_page}
use aioncore.Pmm.Alloc.{Refused, Took, SameFrames, alloc-cases, free-alloc}
use aioncore.Mmu.{mmu_get_kernel_address_space}
use aioncore.Mmu.Apart.{SameWords, refl-SameWords}
use aioncore.Sched.Run.{zero_task}
use aioncore.Syscall.{task_exit}
use aioncore.Tasks.{
  Machine, pmm_of, words_of, with_pmm, with_task, stored_name, kernel_context, start_thread,
  task_create_kernel_thread, task_wrapper,
}
use aioncore.Tasks.Stack.{thread-SameWords, thread_runs}

-- the two pages, and the frame allocator after each
abbrev pub first : Pmm → ℕ
first p = (pmm_alloc_page p).1

abbrev pub second : Pmm → ℕ
second p = (pmm_alloc_page (pmm_alloc_page p).0).1

abbrev pub after : Pmm → Pmm
after p = (pmm_alloc_page (pmm_alloc_page p).0).0

-- the control block of a new thread
abbrev pub thread : (wrapper : ℕ) (name : List ℕ) (priority : ℕ) (m : Machine) (stack : ℕ) → Task
thread wrapper name priority m stack =
    let z = zero_task in
    record z {
      task_id = m.next_task_id;
      name = stored_name name;
      priority = priority;
      address_space = mmu_get_kernel_address_space m.mmu;
      kernel_stack_size = 4096;
      kernel_stack = stack;
      context = kernel_context (stack + 4096 - 16) wrapper;
    }

-- A new thread in the pages `task` and `stack`, which were free in different frames.
pub record Created (wrapper : ℕ) (name : List ℕ) (entry_point arg priority : ℕ) (m : Machine)
    (task stack : ℕ) (out : Machine) : Type 0 where
  pub task_free : bitmap_test (pmm_of m).frame_bitmap (task / 4096) ≡ false
  pub stack_free : bitmap_test (pmm_of m).frame_bitmap (stack / 4096) ≡ false
  pub different : task / 4096 ≢ stack / 4096
  pub frames :
      (g : ℕ)
      → bitmap_test (pmm_of out).frame_bitmap g ≡ (
          if (task / 4096 == g) || (stack / 4096 == g)
          then true
          else bitmap_test (pmm_of m).frame_bitmap g)
  pub control_block : out.kernel.tasks task ≡ thread wrapper name priority m stack
  pub others : (a : ℕ) → a ≢ task → out.kernel.tasks a ≡ m.kernel.tasks a
  pub next_id : out.next_task_id ≡ inc32 m.next_task_id
  pub runs :
      (run : (entry arg : ℕ) → Machine → Machine)
      → let ran = run entry_point arg out in
        task_wrapper run (words_of out (stack + 4096 - 16 + 4)) out
        ≡ record ran { kernel = task_exit 0 ran.kernel }
  pub words : SameWords (pmm_of m).frame_bitmap (words_of m) (words_of out)

pub create-refused :
    (wrapper : ℕ) (name : List ℕ) (entry_point arg priority stack_size : ℕ) (m : Machine)
    → (entry_point ≡ 0) ⊎ (stack_size ≢ 4096)
    → task_create_kernel_thread wrapper name entry_point arg priority stack_size m ≡ (m, 0)
unfolding task_create_kernel_thread
create-refused wrapper name entry_point arg priority stack_size m h = ground arith

same_frames : (p : Pmm) → SameFrames p p
same_frames p = (λ g. refl, refl, refl, refl)

-- an allocation that took a page was not refused
granted : (p q : Pmm) (page : ℕ) → Took p q page → ¬ Refused p
granted p q page t (inl e) = false≢true (sym e ∙ t.ready.0)
granted p q page t (inr (inl e)) = false≢true (sym e ∙ t.ready.1)
granted p q page t (inr (inr (inl e))) = t.ready.2 e
granted p q page t (inr (inr (inr full))) =
    false≢true (sym t.was_free ∙ full (page / 4096) t.in_memory)

module _ (wrapper : ℕ) (name : List ℕ) (entry_point arg priority : ℕ) (m : Machine)
    (entry_there : entry_point ≢ 0) where
  abbrev pub p : Pmm
  p = pmm_of m

  -- the control block without its context, and the state with it
  abbrev pub blank : Task
  blank =
      let t = thread wrapper name priority m (second p) in
      let z = zero_task in record t { context = z.context }

  abbrev pub half : Machine
  half = record (with_task (with_pmm m (after p)) (first p) blank) {
    next_task_id = inc32 m.next_task_id;
  }

  abbrev pub started : Machine
  started = start_thread half (first p) (second p) wrapper entry_point arg blank

  abbrev pub out : Machine × ℕ
  out = task_create_kernel_thread wrapper name entry_point arg priority 4096 m

  -- what the code does after its tests
  out-eq : out ≡ (
      if first p == 0
      then (with_pmm m (pmm_alloc_page p).0, 0)
      else if second p == 0
      then (with_pmm half (pmm_free_page (after p) (first p)), 0)
      else (started, first p))
  unfolding task_create_kernel_thread
  out-eq = let z : (entry_point == 0) ≡ false = ground arith in rw z refl

  pub started-control :
      (started.kernel.tasks (first p) ≡ thread wrapper name priority m (second p))
      × ((a : ℕ) → a ≢ first p → started.kernel.tasks a ≡ m.kernel.tasks a)
      × (started.next_task_id ≡ inc32 m.next_task_id)
      × (pmm_of started ≡ after p)
  unfolding start_thread
  started-control =
      let sp : second p + 4096 - 8 - 8 ≡ second p + 4096 - 16 = omega arith in
      let same : (first p == first p) ≡ true = ground arith in
      (
        rw sp (rw same refl),
        λ a ne. let other : (first p == a) ≡ false = ground arith in rw other refl,
        refl,
        refl,
      )

  -- both pages were to be had
  started-Created :
      Took p (pmm_alloc_page p).0 (first p)
      → Took (pmm_alloc_page p).0 (after p) (second p)
      → Created wrapper name entry_point arg priority m (first p) (second p) started
  started-Created t u =
      let (control, others, id, pmm) = started-control in
      let free : bitmap_test p.frame_bitmap (second p / 4096) ≡ false =
        ground (arith, u.was_free, t.frames (second p / 4096)) in
      record {
        task_free = t.was_free;
        stack_free = free;
        different = ground (arith, u.was_free, t.frames (second p / 4096));
        frames = λ g.
            subst
              (λ (x : Pmm). bitmap_test x.frame_bitmap g ≡ (
                if (first p / 4096 == g) || (second p / 4096 == g)
                then true
                else bitmap_test p.frame_bitmap g))
              (sym pmm) (ground (arith, t.frames g, u.frames g));
        control_block = control;
        others = others;
        next_id = id;
        runs = λ run.
            thread_runs half (first p) (second p) wrapper entry_point arg blank u.aligned run;
        words =
            thread-SameWords half (first p) (second p) wrapper entry_point arg blank u.aligned
              p.frame_bitmap free;
      }

  -- One page or the other was not to be had; the frames are as before, and so are the control blocks
  -- elsewhere and the words of the taken frames.
  abbrev pub NoPage : Type 0
  NoPage =
      (out.1 ≡ 0)
      × (Refused p ⊎ Refused (pmm_alloc_page p).0)
      × SameFrames p (pmm_of out.0)
      × ((a : ℕ) → a ≢ first p → out.0.kernel.tasks a ≡ m.kernel.tasks a)
      × SameWords p.frame_bitmap (words_of m) (words_of out.0)

  no_page :
      (q : Pmm) (n : Machine)
      → out ≡ (with_pmm n q, 0)
      → words_of n ≡ words_of m
      → ((a : ℕ) → a ≢ first p → n.kernel.tasks a ≡ m.kernel.tasks a)
      → Refused p ⊎ Refused (pmm_alloc_page p).0
      → SameFrames p q
      → NoPage
  no_page q n e w others why same = (
    ap (λ (x : Machine × ℕ). x.1) e,
    why,
    subst (λ (x : Machine × ℕ). SameFrames p (pmm_of x.0)) (sym e) same,
    λ a ne. ap (λ (x : Machine × ℕ). x.0.kernel.tasks a) e ∙ others a ne,
    subst (SameWords p.frame_bitmap (words_of m))
        (sym (ap (λ (x : Machine × ℕ). words_of x.0) e ∙ w))
        (refl-SameWords p.frame_bitmap (words_of m)),
  )

  -- what the code returns when it has both pages
  abbrev pub BothPages : Type 0
  BothPages =
      (out ≡ (started, first p))
      × Took p (pmm_alloc_page p).0 (first p)
      × Took (pmm_alloc_page p).0 (after p) (second p)
      × (first p ≢ 0)
      × (second p ≢ 0)

  pub out-cases : bitmap_test p.frame_bitmap 0 ≡ true → p.free_frames < u32_mod → NoPage ⊎ BothPages
  out-cases low small = elim (alloc-cases p) [
    | inl (why, e) ↦
        let page : first p ≡ 0 = ap (λ (x : Pmm × ℕ). x.1) e in
        let a : (first p == 0) ≡ true = ground arith in
        let same = subst (λ (x : Pmm × ℕ). SameFrames p x.0) (sym e) (same_frames p) in
        inl (no_page (pmm_alloc_page p).0 m (out-eq ∙ rw a refl) refl (λ x ne. refl) (inl why) same)
    | inr t ↦ elim (alloc-cases (pmm_alloc_page p).0) [
      | inl (why, e) ↦
          let page : second p ≡ 0 = ap (λ (x : Pmm × ℕ). x.1) e in
          let a : (first p == 0) ≡ false = ground (arith, t.was_free) in
          let b : (second p == 0) ≡ true = ground arith in
          let back = free-alloc p small (granted p (pmm_alloc_page p).0 (first p) t) in
          let same =
            subst (λ (x : Pmm × ℕ). SameFrames p (pmm_free_page x.0 (first p))) (sym e) back in
          inl (
            no_page (pmm_free_page (after p) (first p)) half (out-eq ∙ rw a (rw b refl)) refl
              (λ x ne. let other : (first p == x) ≡ false = ground arith in rw other refl) (inr why)
              same)
      | inr u ↦
          let a : (first p == 0) ≡ false = ground (arith, t.was_free) in
          let b : (second p == 0) ≡ false = ground (arith, t.frames 0, u.was_free) in
          inr (
            out-eq ∙ rw a (rw b refl),
            t,
            u,
            λ z. ground (arith, t.was_free),
            λ z. ground (arith, t.frames 0, u.was_free),
          )
    ]
  ]

  -- With an entry point, a stack of 4096 bytes, frame 0 taken and a 32-bit free count, creating a
  -- thread either returns 0 because one of two pages was refused, with the frames and counters as
  -- before, or returns the first page, with the control block filled in, in two frames that were
  -- free and differ, where task_wrapper, given what stands above its return address, calls the
  -- entry point with its argument and then ends the task; either way every control block outside
  -- the first page and the words of all frames that were taken are unchanged.
  pub create-cases :
      bitmap_test p.frame_bitmap 0 ≡ true
      → p.free_frames < u32_mod
      → NoPage
        ⊎ ((out.1 ≡ first p)
            × Created wrapper name entry_point arg priority m (first p) (second p) out.0)
  create-cases low small = elim (out-cases low small) [
    | inl h ↦ inl h
    | inr (e, t, u, _, _) ↦ rw e (inr (refl, started-Created t u))
  ]
