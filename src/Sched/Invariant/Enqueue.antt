-- ===== src/Sched/Invariant/Enqueue.antt =====
-- `scheduler_enqueue` of core/scheduler.c appends to the sequence of the task's priority.
use aioncore.Base.{
  ℕ, ◌+◌, ◌/◌, ◌%◌, ◌^◌, ◌<◌, ◌≡◌, ◌≢◌, true, false, List, [], ◌∷◌, ◌++◌, length, length-append,
  if◌then◌else◌, arith, update, ◌==◌, refl, not, ◌&&◌,
}
use aioncore.Base.Words.{u32_mod}
use aioncore.Base.Bits.{bit, set_bit, bit-set_bit, set_bit-lt}
use aioncore.Base.Seqs.{has, Distinct, has-append, snoc-Distinct}
use aioncore.Base.Links.{
  first, last_from, next_in, prev_from, first-snoc, last_from-snoc, next_in-snoc, prev_from-snoc,
  has-last, next_in_outside,
}
use aioncore.Task.{TaskState}
use aioncore.Sched.{Kernel, queue, set_priority_bit, append_task, scheduler_enqueue}
use aioncore.Sched.Invariant.{Queues, is_empty, IsLinked}

abbrev pub enqueued : Kernel → Queues → ℕ → Queues
enqueued k qs task = let p = (k.tasks task).priority in update qs p (qs p ++ (task ∷ []))

is_empty-snoc : (a : ℕ) (xs : List ℕ) → is_empty (xs ++ (a ∷ [])) ≡ false
is_empty-snoc a [] = refl
is_empty-snoc a (x ∷ xs) = refl

first-none : (xs : List ℕ) → has 0 xs ≡ false → first xs ≡ 0 → xs ≡ []
unfolding first
first-none [] h e = refl
first-none (x ∷ xs) h e = ground arith

last_from-none : (xs : List ℕ) → xs ≡ [] → last_from 0 xs ≡ 0
unfolding last_from
last_from-none xs e = rw e

pub idle-enqueue : (k : Kernel) (task : ℕ) → (scheduler_enqueue k task).idle_task ≡ k.idle_task
unfolding scheduler_enqueue append_task set_priority_bit
idle-enqueue k task = ground arith

pub current-enqueue :
    (k : Kernel) (task : ℕ) → (scheduler_enqueue k task).sched.current_task ≡ k.sched.current_task
unfolding scheduler_enqueue append_task set_priority_bit
current-enqueue k task = ground arith

-- What the call does to each control block.
module _ (k : Kernel) (task a : ℕ) where
  pub priority-enqueue : ((scheduler_enqueue k task).tasks a).priority ≡ (k.tasks a).priority
  unfolding scheduler_enqueue append_task set_priority_bit
  priority-enqueue = ground arith

  pub state-enqueue : ((scheduler_enqueue k task).tasks a).state ≡ (k.tasks a).state
  unfolding scheduler_enqueue append_task set_priority_bit
  state-enqueue = ground arith

  next-enqueue :
      task ≢ 0
      → (k.tasks task).state ≡ TaskState.ready
      → ((scheduler_enqueue k task).tasks a).next ≡ (
          let q = queue k (k.tasks task).priority in
          if not (q.head == 0) && q.tail == a
          then task
          else if task == a
          then 0
          else (k.tasks a).next)
  unfolding scheduler_enqueue append_task set_priority_bit
  next-enqueue nz ready = ground arith

  word-enqueue :
      task ≢ 0
      → (k.tasks task).state ≡ TaskState.ready
      → (scheduler_enqueue k task).sched.priority_bitmap a ≡ (
          let p = (k.tasks task).priority in
          if p / 32 == a
          then set_bit (k.sched.priority_bitmap a) (p % 32)
          else k.sched.priority_bitmap a)
  unfolding scheduler_enqueue append_task set_priority_bit
  word-enqueue nz ready = ground arith

  prev-enqueue :
      task ≢ 0
      → (k.tasks task).state ≡ TaskState.ready
      → ((scheduler_enqueue k task).tasks a).prev ≡ (
          let q = queue k (k.tasks task).priority in
          if task == a then (if q.head == 0 then 0 else q.tail) else (k.tasks a).prev)
  unfolding scheduler_enqueue append_task set_priority_bit
  prev-enqueue nz ready = ground arith

module _ {k : Kernel} {qs : Queues} (task : ℕ) (v : IsLinked k qs) (nz : task ≢ 0)
    (ready : (k.tasks task).state ≡ TaskState.ready)
    (out : has task (qs (k.tasks task).priority) ≡ false)
    (room : length (qs (k.tasks task).priority) + 1 < u32_mod) where
  heads : (p : ℕ) → (queue (scheduler_enqueue k task) p).head ≡ first (enqueued k qs task p)
  unfolding scheduler_enqueue append_task set_priority_bit
  heads p = ground (arith, v.heads p, first-snoc task (qs p), v.nonnull p)

  tails : (p : ℕ) → (queue (scheduler_enqueue k task) p).tail ≡ last_from 0 (enqueued k qs task p)
  unfolding scheduler_enqueue append_task set_priority_bit
  tails p = ground (arith, v.tails p, last_from-snoc 0 task (qs p))

  counts : (p : ℕ) → (queue (scheduler_enqueue k task) p).count ≡ length (enqueued k qs task p)
  unfolding scheduler_enqueue append_task set_priority_bit
  counts p = ground (arith, v.counts p, length-append (qs p) (task ∷ []))

  nexts :
      (a : ℕ)
      → a ≢ 0
      → ((scheduler_enqueue k task).tasks a).next
        ≡ next_in a (enqueued k qs task ((scheduler_enqueue k task).tasks a).priority)
  nexts a h =
      let p = (k.tasks task).priority in
      rw (priority-enqueue k task a, next-enqueue k task a nz ready)
        (ground (
          arith,
          v.nexts a h,
          v.heads p,
          v.tails p,
          v.nonnull p,
          v.priorities p a,
          next_in-snoc task a 0 (qs p) (v.distinct p) (v.nonnull p) out (v.nonnull p),
          has-last 0 (qs p),
          next_in_outside task (qs p) out,
          first-none (qs p) (v.nonnull p),
          last_from-none (qs p),
        ))

  prevs :
      (a : ℕ)
      → a ≢ 0
      → ((scheduler_enqueue k task).tasks a).prev
        ≡ prev_from 0 a (enqueued k qs task ((scheduler_enqueue k task).tasks a).priority)
  prevs a h =
      let p = (k.tasks task).priority in
      rw (priority-enqueue k task a, prev-enqueue k task a nz ready)
        (ground (
          arith,
          v.prevs a h,
          v.heads p,
          v.tails p,
          prev_from-snoc 0 task a (qs p) out,
          first-none (qs p) (v.nonnull p),
          last_from-none (qs p),
        ))

  counted : (p : ℕ) → length (enqueued k qs task p) < u32_mod
  counted p = ground (arith, v.small p, length-append (qs p) (task ∷ []))

  priorities :
      (p a : ℕ)
      → has a (enqueued k qs task p) ≡ true
      → ((scheduler_enqueue k task).tasks a).priority ≡ p
  priorities p a h =
      rw (priority-enqueue k task a)
        (ground (arith, v.priorities p a, has-append a (qs p) (task ∷ [])))

  readies :
      (p a : ℕ)
      → has a (enqueued k qs task p) ≡ true
      → ((scheduler_enqueue k task).tasks a).state ≡ TaskState.ready
  readies p a h =
      rw (state-enqueue k task a) (ground (arith, v.readies p a, has-append a (qs p) (task ∷ [])))

  distinct : (p : ℕ) → Distinct (enqueued k qs task p)
  distinct p = ground (arith, v.distinct p, snoc-Distinct task (qs p) (v.distinct p))

  nonnull : (p : ℕ) → has 0 (enqueued k qs task p) ≡ false
  nonnull p = ground (arith, v.nonnull p, has-append 0 (qs p) (task ∷ []))

  words : (i : ℕ) → (scheduler_enqueue k task).sched.priority_bitmap i < 2 ^ 32
  words i = ground (
    arith,
    word-enqueue k task i nz ready,
    v.words i,
    set_bit-lt 32 (k.sched.priority_bitmap i) ((k.tasks task).priority % 32) (v.words i),
  )

  bits :
      (p : ℕ)
      → p < 256
      → bit ((scheduler_enqueue k task).sched.priority_bitmap (p / 32)) (p % 32)
        ≡ (if is_empty (enqueued k qs task p) then 0 else 1)
  bits p lt =
      let q = (k.tasks task).priority in
      ground (
        arith,
        word-enqueue k task (p / 32) nz ready,
        v.bits p lt,
        bit-set_bit (k.sched.priority_bitmap (p / 32)) (q % 32) (p % 32),
        is_empty-snoc task (qs p),
      )

  -- Enqueueing a READY task that waits nowhere appends it to the sequence of its priority, and
  -- links, counters and bitmap describe the result, if there is room for one more.
  pub enqueue-IsLinked : IsLinked (scheduler_enqueue k task) (enqueued k qs task)
  enqueue-IsLinked = record {
    heads = heads;
    tails = tails;
    counts = counts;
    small = counted;
    nexts = nexts;
    prevs = prevs;
    priorities = priorities;
    readies = readies;
    distinct = distinct;
    nonnull = nonnull;
    bits = bits;
    words = words;
    range = λ a. rw (priority-enqueue k task a) (v.range a);
  }
