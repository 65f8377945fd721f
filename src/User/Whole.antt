-- ===== src/User/Whole.antt =====
-- The whole of `task_create_user` of core/user.c.
use aioncore.Base.{ℕ, ◌≡◌, some, ◌⊎◌, List, Option}
use aioncore.Base.Words.{inc32}
use aioncore.Task.{Task, TaskState}
use aioncore.Pmm.{Pmm, pmm_alloc_page}
use aioncore.Sched.Run.{zero_task}
use aioncore.Tasks.{Machine, pmm_of, with_pmm, with_task, stored_name}
use aioncore.User.{program, task_create_user}
use aioncore.User.Progress.{Progress}
use aioncore.User.Parts.{blank_block, IsUserTask, Failed}
use aioncore.User.Program.{code_bytes}

module _ (user_test_start user_test_end : ℕ) (name : List ℕ) (entry_point code_size : ℕ)
    (m : Machine) (d : ℕ) (p : ℕ → ℕ) where
  -- the code, the three pages, and the frame allocator after each
  abbrev pub src : ℕ
  src = (program user_test_start user_test_end entry_point code_size).0

  abbrev pub size : ℕ
  size = (program user_test_start user_test_end entry_point code_size).1

  abbrev pub pmm1 : Pmm
  pmm1 = (pmm_alloc_page (pmm_of m)).0

  abbrev pub pmm2 : Pmm
  pmm2 = (pmm_alloc_page pmm1).0

  abbrev pub pmm3 : Pmm
  pmm3 = (pmm_alloc_page pmm2).0

  abbrev pub task : ℕ
  task = (pmm_alloc_page (pmm_of m)).1

  abbrev pub code : ℕ
  code = (pmm_alloc_page pmm1).1

  abbrev pub stack : ℕ
  stack = (pmm_alloc_page pmm2).1

  -- the new control block, the state with it, and the states after
  abbrev fresh : Task
  fresh = let z = zero_task in record z { task_id = m.next_task_id }

  abbrev alloced : Machine
  alloced = record (with_task (with_pmm m pmm1) task fresh) { next_task_id = inc32 m.next_task_id }

  abbrev filled : Machine
  filled =
      let t = fresh in
      with_task alloced task
        (record t { name = stored_name name; state = TaskState.ready; priority = 128 })

  abbrev ready : Machine
  ready = with_task (with_pmm filled pmm3) task (blank_block name m)

  abbrev pub made : Option (Machine × ℕ)
  made = task_create_user user_test_start user_test_end name entry_point code_size m

  -- what the code returns: 0, or the page of the new task
  abbrev pub Returns : Option (Machine × ℕ) → Type 0
  Returns r =
      (out : Machine × ℕ) × (r ≡ some out)
      × (((out.1 ≡ 0) × Failed m task out.0)
          ⊎ ((out.1 ≡ task)
              × (kernel_stack : ℕ) × IsUserTask name m task code stack kernel_stack d
                  (code_bytes m p) size out.0))
