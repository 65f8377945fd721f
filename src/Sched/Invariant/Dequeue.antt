-- ===== src/Sched/Invariant/Dequeue.antt =====
-- `scheduler_dequeue` of core/scheduler.c removes the task from the sequence of its priority, and
-- leaves everything alone if the task is not there.
use aioncore.Base.{
  ℕ, ◌/◌, ◌%◌, ◌^◌, ◌<◌, ◌≡◌, ◌≢◌, true, false, List, [], ◌∷◌, length, if◌then◌else◌, arith, update,
  ◌==◌, refl, sym,
}
use aioncore.Base.Words.{u32_mod}
use aioncore.Base.Bits.{bit, bit-clear_bit, clear_bit-lt}
use aioncore.Base.Seqs.{has, Distinct, erase, has-erase, erase-Distinct, length-erase}
use aioncore.Base.Links.{
  first, last_from, next_in, prev_from, first-erase, last_from-erase, next_in-erase,
  prev_from-erase, has-first, has-last, has-next_in, has-prev_from, next_in_outside,
  prev_from_outside, prev_from-ne, next_in-ne, first-eq_iff_prev, last-eq_iff_next,
}
use aioncore.Task.{TaskState}
use aioncore.Sched.{Kernel, queue, is_unlinked, scheduler_dequeue}
use aioncore.Sched.Invariant.{Queues, is_empty, IsLinked}
use aioncore.Sched.Invariant.Unlink.{
  priority-dequeue, state-dequeue, next-dequeue, prev-dequeue, head-dequeue, tail-dequeue,
  count-dequeue, word-dequeue,
}

length-first : (xs : List ℕ) → length xs ≢ 0 → has 0 xs ≡ false → first xs ≢ 0
unfolding first
length-first [] h z = absurd (h refl)
length-first (x ∷ xs) h z = ground arith

is_empty-length : (xs : List ℕ) → is_empty xs ≡ (length xs == 0)
is_empty-length [] = refl
is_empty-length (x ∷ xs) = ground arith

-- Dequeueing a task that is not NULL and waits nowhere changes nothing.
pub dequeue_outside :
    {k : Kernel} {qs : Queues} (task : ℕ)
    → IsLinked k qs
    → task ≢ 0
    → has task (qs (k.tasks task).priority) ≡ false
    → scheduler_dequeue k task ≡ k
unfolding scheduler_dequeue
dequeue_outside {k} {qs} task v nz out =
    let p = (k.tasks task).priority in
    ground (
      arith,
      v.nexts task nz,
      v.prevs task nz,
      v.heads p,
      v.tails p,
      v.counts p,
      next_in_outside task (qs p) out,
      prev_from_outside 0 task (qs p) out,
      has-first (qs p),
      has-last 0 (qs p),
      length-first (qs p),
      v.nonnull p,
    )

abbrev pub dequeued : Kernel → Queues → ℕ → Queues
dequeued k qs task = let p = (k.tasks task).priority in update qs p (erase task (qs p))

module _ {k : Kernel} {qs : Queues} (task : ℕ) (v : IsLinked k qs)
    (in_queue : has task (qs (k.tasks task).priority) ≡ true) where
  nz : task ≢ 0
  nz = ground (arith, v.nonnull (k.tasks task).priority)

  full : (queue k (k.tasks task).priority).count ≢ 0
  full =
      let p = (k.tasks task).priority in
      ground (arith, v.counts p, length-erase task (qs p) in_queue)

  linked : is_unlinked k task (k.tasks task).priority ≡ false
  linked =
      let p = (k.tasks task).priority in
      ground
        (arith, v.prevs task nz, v.heads p, first-eq_iff_prev 0 task (qs p) (v.nonnull p) in_queue)

  not_prev : (k.tasks task).prev ≢ task
  not_prev =
      let p = (k.tasks task).priority in
      ground (
        arith,
        v.prevs task nz,
        prev_from-ne 0 task (qs p) (v.distinct p) (λ e. nz (sym e)) in_queue,
      )

  not_next : (k.tasks task).next ≢ task
  not_next =
      let p = (k.tasks task).priority in
      ground (arith, v.nexts task nz, next_in-ne task (qs p) (v.distinct p) nz)

  heads : (p : ℕ) → (queue (scheduler_dequeue k task) p).head ≡ first (dequeued k qs task p)
  heads p = ground (
    arith,
    head-dequeue k task p nz full linked not_prev not_next,
    v.heads p,
    v.prevs task nz,
    v.nexts task nz,
    first-erase task (qs p),
    first-eq_iff_prev 0 task (qs p) (v.nonnull p),
  )

  tails : (p : ℕ) → (queue (scheduler_dequeue k task) p).tail ≡ last_from 0 (dequeued k qs task p)
  tails p = ground (
    arith,
    tail-dequeue k task p nz full linked not_prev not_next,
    v.tails p,
    v.prevs task nz,
    v.nexts task nz,
    last_from-erase 0 task (qs p) (v.distinct p) (v.nonnull p),
    last-eq_iff_next 0 task (qs p) (v.distinct p) (v.nonnull p) (v.nonnull p),
  )

  counts : (p : ℕ) → (queue (scheduler_dequeue k task) p).count ≡ length (dequeued k qs task p)
  counts p = ground (
    arith,
    count-dequeue k task p nz full linked not_prev not_next,
    v.counts p,
    v.small p,
    length-erase task (qs p),
  )

  small : (p : ℕ) → length (dequeued k qs task p) < u32_mod
  small p = ground (arith, v.small p, length-erase task (qs p))

  nexts :
      (a : ℕ)
      → a ≢ 0
      → ((scheduler_dequeue k task).tasks a).next
        ≡ next_in a (dequeued k qs task ((scheduler_dequeue k task).tasks a).priority)
  nexts a h =
      let p = (k.tasks task).priority in
      rw (priority-dequeue k task a, next-dequeue k task a nz full linked not_prev not_next)
        (ground (
          arith,
          v.nexts a h,
          v.nexts task nz,
          v.prevs task nz,
          v.priorities p a,
          has-prev_from 0 task (qs p) in_queue,
          has-erase task task (qs p) (v.distinct p),
          next_in_outside task (erase task (qs p)),
          next_in-erase 0 task a (qs p) (v.distinct p) (v.nonnull p) in_queue,
        ))

  prevs :
      (a : ℕ)
      → a ≢ 0
      → ((scheduler_dequeue k task).tasks a).prev
        ≡ prev_from 0 a (dequeued k qs task ((scheduler_dequeue k task).tasks a).priority)
  prevs a h =
      let p = (k.tasks task).priority in
      rw (priority-dequeue k task a, prev-dequeue k task a nz full linked not_prev not_next)
        (ground (
          arith,
          v.prevs a h,
          v.nexts task nz,
          v.prevs task nz,
          v.priorities p a,
          has-next_in task (qs p),
          has-erase task task (qs p) (v.distinct p),
          prev_from_outside 0 task (erase task (qs p)),
          prev_from-erase 0 task a (qs p) (v.distinct p) in_queue,
        ))

  priorities :
      (p a : ℕ)
      → has a (dequeued k qs task p) ≡ true
      → ((scheduler_dequeue k task).tasks a).priority ≡ p
  priorities p a h =
      rw (priority-dequeue k task a)
        (ground (arith, v.priorities p a, has-erase task a (qs p) (v.distinct p)))

  readies :
      (p a : ℕ)
      → has a (dequeued k qs task p) ≡ true
      → ((scheduler_dequeue k task).tasks a).state ≡ TaskState.ready
  readies p a h =
      rw (state-dequeue k task a)
        (ground (arith, v.readies p a, has-erase task a (qs p) (v.distinct p)))

  distinct : (p : ℕ) → Distinct (dequeued k qs task p)
  distinct p = ground (arith, v.distinct p, erase-Distinct task (qs p) (v.distinct p))

  nonnull : (p : ℕ) → has 0 (dequeued k qs task p) ≡ false
  nonnull p = ground (arith, v.nonnull p, has-erase task 0 (qs p) (v.distinct p))

  words : (i : ℕ) → (scheduler_dequeue k task).sched.priority_bitmap i < 2 ^ 32
  words i = ground (
    arith,
    word-dequeue k task i nz full linked not_prev not_next,
    v.words i,
    clear_bit-lt 32 (k.sched.priority_bitmap i) ((k.tasks task).priority % 32) (v.words i),
  )

  bits :
      (p : ℕ)
      → p < 256
      → bit ((scheduler_dequeue k task).sched.priority_bitmap (p / 32)) (p % 32)
        ≡ (if is_empty (dequeued k qs task p) then 0 else 1)
  bits p lt =
      let q = (k.tasks task).priority in
      ground (
        arith,
        word-dequeue k task (p / 32) nz full linked not_prev not_next,
        v.bits p lt,
        v.counts q,
        v.small q,
        bit-clear_bit 32 (k.sched.priority_bitmap (p / 32)) (q % 32) (p % 32),
        length-erase task (qs q) in_queue,
        is_empty-length (erase task (qs q)),
        is_empty-length (qs q),
      )

  -- Dequeueing a task that waits removes it from the sequence of its priority, wherever it stands
  -- in it, and links, counters and bitmap describe the result.
  pub dequeue-IsLinked : IsLinked (scheduler_dequeue k task) (dequeued k qs task)
  dequeue-IsLinked = record {
    heads = heads;
    tails = tails;
    counts = counts;
    small = small;
    nexts = nexts;
    prevs = prevs;
    priorities = priorities;
    readies = readies;
    distinct = distinct;
    nonnull = nonnull;
    bits = bits;
    words = words;
    range = λ a. rw (priority-dequeue k task a) (v.range a);
  }
