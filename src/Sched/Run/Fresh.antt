-- ===== src/Sched/Run/Fresh.antt =====
-- A new control block that no queue links leaves the scheduler of core/scheduler.c as it is.
use aioncore.Base.{ℕ, ◌<◌, ◌≡◌, ◌≢◌, true, false, arith, ◌∙◌, ◌==◌, sym, Bool-cases, inl, inr}
use mathlib.Core.Bool.{false≢true}
use aioncore.Base.Seqs.{has}
use aioncore.Base.Links.{next_in, prev_from, next_in_outside, prev_from_outside}
use aioncore.Task.{Task}
use aioncore.Sched.{Kernel}
use aioncore.Sched.Invariant.{Queues, IsLinked}
use aioncore.Sched.Run.Switch.{IsScheduled}

-- Only the control block at `task` differs, and it has no links.
pub record IsFresh (k l : Kernel) (task : ℕ) : Type 0 where
  pub sched : l.sched ≡ k.sched
  pub idle : l.idle_task ≡ k.idle_task
  pub others : (a : ℕ) → a ≢ task → l.tasks a ≡ k.tasks a
  pub next : (l.tasks task).next ≡ 0
  pub prev : (l.tasks task).prev ≡ 0
  pub range : (l.tasks task).priority < 256

module _ {k l : Kernel} (qs : Queues) (task : ℕ) (f : IsFresh k l task)
    (out : (p : ℕ) → has task (qs p) ≡ false) where
  -- what holds of the new control block and of all others
  either_task :
      (P : ℕ → Task → Type 0)
      → P task (l.tasks task)
      → ((a : ℕ) → P a (k.tasks a))
      → (a : ℕ) → P a (l.tasks a)
  either_task P here there a = elim (Bool-cases (a == task)) [
    | inl e ↦ let e : a ≡ task = ground arith in rw e here
    | inr e ↦ rw (f.others a (ground arith)) (there a)
  ]

  -- a task in a queue is not the new one
  queued-ne : (p a : ℕ) → has a (qs p) ≡ true → a ≢ task
  queued-ne p a h e = false≢true (sym (out p) ∙ (rw e at h))

  fresh-IsLinked : IsLinked k qs → IsLinked l qs
  fresh-IsLinked v =
      let s = f.sched in
      record {
        heads = λ p. rw s (v.heads p);
        tails = λ p. rw s (v.tails p);
        counts = λ p. rw s (v.counts p);
        small = v.small;
        nexts =
            either_task (λ a t. a ≢ 0 → t.next ≡ next_in a (qs t.priority))
              (λ ne. f.next ∙ sym (next_in_outside task _ (out _))) v.nexts;
        prevs =
            either_task (λ a t. a ≢ 0 → t.prev ≡ prev_from 0 a (qs t.priority))
              (λ ne. f.prev ∙ sym (prev_from_outside 0 task _ (out _))) v.prevs;
        priorities = λ p a h. rw (f.others a (queued-ne p a h)) (v.priorities p a h);
        readies = λ p a h. rw (f.others a (queued-ne p a h)) (v.readies p a h);
        distinct = v.distinct;
        nonnull = v.nonnull;
        bits = λ p lt. rw s (v.bits p lt);
        words = λ i. rw s (v.words i);
        range = either_task (λ a t. t.priority < 256) f.range v.range;
      }

  pub fresh-IsScheduled :
      k.idle_task ≢ task → k.sched.current_task ≢ task → IsScheduled k qs → IsScheduled l qs
  fresh-IsScheduled idle current v =
      let s = f.sched in
      let i = f.idle in
      let c = f.others k.sched.current_task current in
      let j = f.others k.idle_task idle in
      record {
        linked = fresh-IsLinked v.linked;
        current_nonnull = rw s v.current_nonnull;
        current_state = rw s (rw c v.current_state);
        idle_priority = rw i (rw j v.idle_priority);
        idle_here = rw s (rw i (rw j v.idle_here));
      }
