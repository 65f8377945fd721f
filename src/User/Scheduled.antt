-- ===== src/User/Scheduled.antt =====
-- User tasks of core/user.c among others: in the run queues of core/scheduler.c, and a second one
-- beside the first.
use aioncore.Base.{ℕ, ◌+◌, ◌*◌, ◌/◌, ◌<◌, Option, ◌≡◌, ◌≢◌, true, List}
use aioncore.Base.Seqs.{has}
use aioncore.Task.{Task}
use aioncore.Pmm.{bitmap_test}
use aioncore.Mmu.Map.{found}
use aioncore.Sched.Invariant.{Queues}
use aioncore.Tasks.{Machine, pmm_of}
use aioncore.User.{byte_at, task_create_user}
use aioncore.User.Parts.{user_block}
use aioncore.User.Whole.{task, size, src}

-- The waiting tasks, the current task and the idle task lie in taken frames.
pub record AllTaken (m : Machine) (qs : Queues) : Type 0 where
  pub waiting :
      (p a : ℕ) → has a (qs p) ≡ true → bitmap_test (pmm_of m).frame_bitmap (a / 4096) ≡ true
  pub current : bitmap_test (pmm_of m).frame_bitmap (m.kernel.sched.current_task / 4096) ≡ true
  pub idle : bitmap_test (pmm_of m).frame_bitmap (m.kernel.idle_task / 4096) ≡ true

-- What `task_create_user` has returned second, after `first`: the control block of the first task is as it
-- was, and the address at which both tasks start shows the code of the second.
pub record Replaced (name : List ℕ) (m : Machine) (d : ℕ) (bytes : ℕ → ℕ) (size : ℕ)
    (first second : Machine × ℕ) : Type 0 where
  pub differ : first.1 ≢ second.1
  pub block :
      (kernel_stack : ℕ) × (second.0.kernel.tasks first.1 ≡ user_block name m kernel_stack)
      × (first.0.kernel.tasks first.1 ≡ user_block name m kernel_stack)
  pub same_start :
      (second.0.kernel.tasks second.1).context ≡ (second.0.kernel.tasks first.1).context
  pub old_code : ℕ
  pub new_code : ℕ
  pub was_mapped : found first.0.mmu d 0x400 ≡ old_code + 7
  pub mapped : found second.0.mmu d 0x400 ≡ new_code + 7
  pub frames_differ : new_code / 4096 ≢ old_code / 4096
  pub shown :
      (k : ℕ) → k < size → byte_at second.0.mmu.memory (new_code / 4096 * 4096 + k) ≡ bytes k

module _ (user_test_start user_test_end : ℕ) (name : List ℕ) (entry_point code_size : ℕ)
    (m : Machine) (d : ℕ) (p : ℕ → ℕ) where
  abbrev pub the_task : ℕ
  the_task = task user_test_start user_test_end name entry_point code_size m d p

  abbrev pub the_size : ℕ
  the_size = size user_test_start user_test_end name entry_point code_size m d p

  abbrev pub the_src : ℕ
  the_src = src user_test_start user_test_end name entry_point code_size m d p

  abbrev pub creating : Option (Machine × ℕ)
  creating = task_create_user user_test_start user_test_end name entry_point code_size m
