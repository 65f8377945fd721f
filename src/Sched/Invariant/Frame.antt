-- ===== src/Sched/Invariant/Frame.antt =====
-- Changes to a kernel that leave the run queues alone.
use aioncore.Base.{ℕ, ◌/◌, ◌≡◌, refl, true, false, arith, ◌∙◌}
use aioncore.Base.Seqs.{has}
use aioncore.Task.{TaskState}
use aioncore.Sched.{Kernel, queue, set_state}
use aioncore.Sched.Invariant.{Queues, IsLinked}

pub record SameLinks (k l : Kernel) : Type 0 where
  pub queues : (p : ℕ) → queue l p ≡ queue k p
  pub bitmap : (i : ℕ) → l.sched.priority_bitmap i ≡ k.sched.priority_bitmap i
  pub nexts : (a : ℕ) → (l.tasks a).next ≡ (k.tasks a).next
  pub prevs : (a : ℕ) → (l.tasks a).prev ≡ (k.tasks a).prev
  pub priorities : (a : ℕ) → (l.tasks a).priority ≡ (k.tasks a).priority

pub SameLinks-IsLinked :
    {k l : Kernel} {qs : Queues}
    → SameLinks k l
    → ((p a : ℕ) → has a (qs p) ≡ true → (l.tasks a).state ≡ (k.tasks a).state)
    → IsLinked k qs
    → IsLinked l qs
SameLinks-IsLinked {k} {l} {qs} same states v = record {
  heads = λ p. rw (same.queues p) (v.heads p);
  tails = λ p. rw (same.queues p) (v.tails p);
  counts = λ p. rw (same.queues p) (v.counts p);
  small = v.small;
  nexts = λ a h. rw (same.nexts a, same.priorities a) (v.nexts a h);
  prevs = λ a h. rw (same.prevs a, same.priorities a) (v.prevs a h);
  priorities = λ p a h. same.priorities a ∙ v.priorities p a h;
  readies = λ p a h. states p a h ∙ v.readies p a h;
  distinct = v.distinct;
  nonnull = v.nonnull;
  bits = λ p h. rw (same.bitmap (p / 32)) (v.bits p h);
  words = λ i. rw (same.bitmap i) (v.words i);
  range = λ a. rw (same.priorities a) (v.range a);
}

-- A task that is in no queue may change its state.
pub set_state-IsLinked :
    {k : Kernel} {qs : Queues} (task : ℕ) (state : TaskState)
    → has task (qs (k.tasks task).priority) ≡ false
    → IsLinked k qs
    → IsLinked (set_state k task state) qs
set_state-IsLinked {k} {qs} task state out v =
    SameLinks-IsLinked
      (record {
        queues = λ p. refl;
        bitmap = λ i. refl;
        nexts = λ a. ground arith;
        prevs = λ a. ground arith;
        priorities = λ a. ground arith;
      })
      (λ p a h. ground (arith, v.priorities p a h)) v
