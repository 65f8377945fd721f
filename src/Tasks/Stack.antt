-- ===== src/Tasks/Stack.antt =====
-- The first stack of a thread, as core/task.c lays it out in the page of its stack.
use aioncore.Base.{ℕ, ◌+◌, ◌-◌, ◌/◌, ◌%◌, ◌≡◌, refl, false, arith}
use aioncore.Pmm.{Bytes, bitmap_test}
use aioncore.Task.{Task}
use aioncore.Mmu.Apart.{SameWords, update-SameWords, refl-SameWords}
use aioncore.Syscall.{task_exit}
use aioncore.Tasks.{Machine, words_of, start_thread, task_wrapper}

module _ (m : Machine) (task stack wrapper entry_point arg : ℕ) (t : Task)
    (aligned : stack % 4096 ≡ 0) where
  abbrev out : Machine
  out = start_thread m task stack wrapper entry_point arg t

  pub thread-SameWords :
      (taken : Bytes)
      → bitmap_test taken (stack / 4096) ≡ false
      → SameWords taken (words_of m) (words_of out)
  unfolding start_thread
  thread-SameWords taken free =
      let f = stack / 4096 in
      let store = λ (n : ℕ → ℕ) (a w : ℕ) (e : a / 4096 ≡ f).
        update-SameWords taken (words_of m) n f a w e free in
      store _ _ _ (omega arith) (
        store _ _ _ (omega arith) (
          store _ _ _ (omega arith)
            (store _ _ _ (omega arith) (refl-SameWords taken (words_of m)))))

  -- The word above the one the stack pointer stands at, where a function finds its argument.
  abbrev pub argument : ℕ
  argument = words_of out (stack + 4096 - 16 + 4)

  argument_lem :
      (argument ≡ stack + 4096 - 8)
      × (words_of out (stack + 4096 - 8) ≡ entry_point)
      × (words_of out (stack + 4096 - 8 + 4) ≡ arg)
  unfolding start_thread
  argument_lem = (ground arith, ground arith, ground arith)

  -- `task_wrapper`, given that argument, runs the entry point on `arg` and then ends the task.
  pub thread_runs :
      (run : (entry arg : ℕ) → Machine → Machine)
      → let ran = run entry_point arg out in
        task_wrapper run argument out ≡ record ran { kernel = task_exit 0 ran.kernel }
  unfolding task_wrapper
  thread_runs run = let (a, e, g) = argument_lem in rw a (rw e (rw g refl))
