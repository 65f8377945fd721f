-- ===== src/Tasks/Tests.antt =====
-- Runs of task creation at concrete states.
use aioncore.Base.{ℕ, ◌≡◌, ◌≢◌, refl, true, arith, inl, inr, ◌⊎◌, ◌∙◌, sym, ap, [], ◌∷◌, update}
use aioncore.Pmm.Alloc.{SameFrames}
use aioncore.Pmm.Samples.{two_taken, test_zero, test_one, granted_first, granted_second}
use aioncore.Sched.Run.{zero_task, zero_scheduler, scheduler_init}
use aioncore.Sched.Run.Start.{IsUnlinked, no_queues}
use aioncore.Sched.Run.Switch.{IsScheduled}
use aioncore.Tasks.{Machine, pmm_of, task_create_kernel_thread, task_destroy, task_init}
use aioncore.Tasks.Create.{Created, NoPage, first, second, create-cases, out-cases}
use aioncore.Tasks.Destroy.{destroy-create}
use aioncore.Tasks.Init.{boot-IsScheduled}

abbrev before : Machine
before = record {
  kernel = record { tasks = λ a. zero_task; sched = zero_scheduler; idle_task = 0; esp0 = 0 };
  mmu = record {
    pmm = two_taken;
    memory = λ a. 0;
    spaces = λ pt. record { page_directory = 4096; pd_phys = 4096 };
    kernel_address_space = 4;
    cr3 = 4096;
    paging = true;
    flushed = [];
  };
  next_task_id = 1;
}

-- a thread with its entry point at 0x5000 and the argument 7
abbrev made : Machine × ℕ
made = task_create_kernel_thread 0x6000 (97 ∷ []) 0x5000 7 128 4096 before

create-cases_example :
    NoPage 0x6000 (97 ∷ []) 0x5000 7 128 before (omega arith)
    ⊎ ((made.1 ≡ first two_taken)
        × Created 0x6000 (97 ∷ []) 0x5000 7 128 before (first two_taken) (second two_taken) made.0)
create-cases_example =
    create-cases 0x6000 (97 ∷ []) 0x5000 7 128 before (omega arith) test_zero (omega arith)

before-IsUnlinked : IsUnlinked before.kernel
before-IsUnlinked = record { nexts = λ a. refl; prevs = λ a. refl; range = λ a. omega arith }

boot-IsScheduled_example :
    IsScheduled
      (scheduler_init 0x1000 4 (task_init 0x7000 before).kernel)
      (update no_queues 0 (first two_taken ∷ []))
boot-IsScheduled_example =
    boot-IsScheduled 0x7000 before 0x1000 4 before-IsUnlinked (omega arith) test_one test_zero
      granted_first granted_second

made_there : made.1 ≢ 0
made_there =
    elim (out-cases 0x6000 (97 ∷ []) 0x5000 7 128 before (omega arith) test_zero (omega arith)) [
      | inl (_, inl why, _, _, _) ↦ absurd (granted_first why)
      | inl (_, inr why, _, _, _) ↦ absurd (granted_second why)
      | inr (e, _, _, ne, _) ↦ λ z. ne (sym (ap (λ (x : Machine × ℕ). x.1) e) ∙ z)
    ]

destroy-create_example : SameFrames two_taken (pmm_of (task_destroy made.0 made.1))
destroy-create_example =
    destroy-create 0x6000 (97 ∷ []) 0x5000 7 128 before (omega arith) test_zero (omega arith)
      made_there
