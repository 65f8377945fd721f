-- ===== src/Sched/Invariant.antt =====
-- The run queues as sequences of tasks, and the invariant that ties the links, the counters and
-- the bitmap of the scheduler to them.
pub mod Enqueue
pub mod Frame
pub mod Unlink
pub mod Dequeue
use aioncore.Base.{
  ℕ, zero, suc, ◌+◌, ◌/◌, ◌%◌, ◌^◌, ◌<◌, ◌≡◌, ◌≢◌, Bool, true, false, List, [], ◌∷◌, length,
  if◌then◌else◌,
}
use aioncore.Base.Words.{u32_mod}
use aioncore.Base.Bits.{bit}
use aioncore.Base.Seqs.{has, Distinct}
use aioncore.Base.Links.{first, last_from, next_in, prev_from}
use aioncore.Task.{Task, TaskState}
use aioncore.Sched.{Kernel, Scheduler, queue}

-- the tasks of each priority, in the order in which they will run
abbrev pub Queues : Type 0
Queues = ℕ → List ℕ

abbrev pub is_empty : List ℕ → Bool
is_empty [] = true
is_empty (x ∷ xs) = false

pub record IsLinked (k : Kernel) (qs : Queues) : Type 0 where
  pub heads : (p : ℕ) → (queue k p).head ≡ first (qs p)
  pub tails : (p : ℕ) → (queue k p).tail ≡ last_from 0 (qs p)
  pub counts : (p : ℕ) → (queue k p).count ≡ length (qs p)
  pub small : (p : ℕ) → length (qs p) < u32_mod
  pub nexts : (a : ℕ) → a ≢ 0 → (k.tasks a).next ≡ next_in a (qs (k.tasks a).priority)
  pub prevs : (a : ℕ) → a ≢ 0 → (k.tasks a).prev ≡ prev_from 0 a (qs (k.tasks a).priority)
  pub priorities : (p a : ℕ) → has a (qs p) ≡ true → (k.tasks a).priority ≡ p
  pub readies : (p a : ℕ) → has a (qs p) ≡ true → (k.tasks a).state ≡ TaskState.ready
  pub distinct : (p : ℕ) → Distinct (qs p)
  pub nonnull : (p : ℕ) → has 0 (qs p) ≡ false
  pub bits :
      (p : ℕ)
      → p < 256
      → bit (k.sched.priority_bitmap (p / 32)) (p % 32) ≡ (if is_empty (qs p) then 0 else 1)
  pub words : (i : ℕ) → k.sched.priority_bitmap i < 2 ^ 32
  pub range : (a : ℕ) → (k.tasks a).priority < 256
