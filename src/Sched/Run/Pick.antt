-- ===== src/Sched/Run/Pick.antt =====
-- What `scheduler_pick_next` and `scheduler_tick` of core/scheduler.c decide, in terms of the
-- sequences of ready tasks.
use aioncore.Base.{
  ℕ, ◌≤◌, ◌<◌, ◌≡◌, ◌≢◌, refl, Bool, true, false, List, [], ◌∷◌, length, if◌then◌else◌, arith, ◌==◌,
  ◌⊎◌, inl, inr, Bool-cases, ltb, ◌↔◌, ==_iff, ◌||◌, ◌∙◌, ap,
}
use mathlib.Core.Path.{subst}
use aioncore.Base.Seqs.{has}
use aioncore.Base.Links.{first, has-first}
use aioncore.Sched.{Kernel, queue, find_highest_priority}
use aioncore.Sched.Bitmap.{find_highest_priority-HighestBit}
use aioncore.Sched.Invariant.{Queues, is_empty, IsLinked}
use aioncore.Sched.Invariant.Frame.{SameLinks, SameLinks-IsLinked}
use aioncore.Sched.Run.{scheduler_pick_next, scheduler_tick, count_tick}

-- No queue of a priority above `p` has a task.
abbrev pub NoneAbove : Queues → ℕ → Type 0
NoneAbove qs p = (q : ℕ) → p < q → q < 256 → qs q ≡ []

empty-bit : (xs : List ℕ) → ◌≡◌ {A = ℕ} (if is_empty xs then 0 else 1) 0 → xs ≡ []
empty-bit [] h = refl
empty-bit (x ∷ xs) h = ground arith

is_empty-length : (xs : List ℕ) → is_empty xs ≡ (length xs == 0)
is_empty-length [] = refl
is_empty-length (x ∷ xs) = ground arith

-- The highest priority with a ready task; 0 if there is none.
pub record IsHighest (qs : Queues) (p : ℕ) : Type 0 where
  pub in_range : p < 256
  pub above : NoneAbove qs p
  pub occupied : (p ≡ 0) ⊎ (is_empty (qs p) ≡ false)

pub find_highest_priority-IsHighest :
    {k : Kernel} {qs : Queues} → IsLinked k qs → IsHighest qs (find_highest_priority k.sched)
find_highest_priority-IsHighest {k} {qs} v =
    elim (find_highest_priority-HighestBit k.sched v.words) [
      | inl (e, all) ↦ record {
        in_range = omega arith;
        above = λ q lo hi. empty-bit (qs q) (ground (arith, all q hi, v.bits q hi));
        occupied = inl e;
      }
      | inr (lt, one, above) ↦ record {
        in_range = lt;
        above = λ q lo hi. empty-bit (qs q) (ground (arith, above q lo hi, v.bits q hi));
        occupied = inr (ground (arith, v.bits (find_highest_priority k.sched) lt));
      }
    ]

-- What the choice `n` may be: the head of the highest occupied queue, or the idle task if no
-- queue has a task.
abbrev pub Picked : Queues → (idle n : ℕ) → Type 0
Picked qs idle n =
    ((n ≡ idle) × ((q : ℕ) → q < 256 → qs q ≡ []))
    ⊎ ((p : ℕ) × (p < 256) × (first (qs p) ≡ n) × (has n (qs p) ≡ true) × NoneAbove qs p)

first-ne : (xs : List ℕ) → has 0 xs ≡ false → is_empty xs ≡ false → first xs ≢ 0
unfolding first
first-ne [] z h = ground arith
first-ne (x ∷ xs) z h = ground arith

first-empty : (xs : List ℕ) → has 0 xs ≡ false → first xs ≡ 0 → xs ≡ []
unfolding first
first-empty [] z h = refl
first-empty (x ∷ xs) z h = ground arith

-- If the links and the bitmap describe the run queues, scheduler_pick_next returns the first task
-- of the highest priority that has one, or the idle task if every queue is empty.
pub pick_next-Picked :
    {k : Kernel} {qs : Queues} → IsLinked k qs → Picked qs k.idle_task (scheduler_pick_next k)
unfolding scheduler_pick_next
pick_next-Picked {k} {qs} v =
    let p = find_highest_priority k.sched in
    let h = find_highest_priority-IsHighest v in
    elim (Bool-cases ((queue k p).head == 0)) [
      | inr some_ ↦ rw some_ (
          inr (
            p,
            h.in_range,
            ground (arith, v.heads p),
            rw (v.heads p) (has-first (qs p) (ground (arith, v.heads p))),
            h.above,
          ))
      | inl none_ ↦
          let empty = first-empty (qs p) (v.nonnull p) (ground (arith, v.heads p)) in
          let zero_ : p ≡ 0 = ground (arith, h.occupied) in
          rw none_ (
            inl (
              refl,
              λ q lt. elim (Bool-cases (q == 0)) [
                | inl e ↦ rw ((==_iff q 0).0 e) (rw zero_ at empty)
                | inr e ↦ h.above q (ground arith) lt
              ],
            ))
    ]

-- The accounting of a tick leaves the queues and the current task alone.
module _ (k : Kernel) where
  pub count_tick-SameLinks : SameLinks k (count_tick k)
  unfolding count_tick
  count_tick-SameLinks = record {
    queues = λ p. ground arith;
    bitmap = λ i. ground arith;
    nexts = λ a. ground arith;
    prevs = λ a. ground arith;
    priorities = λ a. ground arith;
  }

  pub count_tick-state : (a : ℕ) → ((count_tick k).tasks a).state ≡ (k.tasks a).state
  unfolding count_tick
  count_tick-state a = ground arith

  pub count_tick-current : (count_tick k).sched.current_task ≡ k.sched.current_task
  unfolding count_tick
  count_tick-current = ground arith

  pub count_tick-idle : (count_tick k).idle_task ≡ k.idle_task
  unfolding count_tick
  count_tick-idle = ground arith

  count_tick-need : (count_tick k).sched.need_resched ≡ k.sched.need_resched
  unfolding count_tick
  count_tick-need = ground arith

-- some queue of priority `p` or above has a task
abbrev pub Waiting : Queues → ℕ → Type 0
Waiting qs p = (q : ℕ) × (p ≤ q) × (q < 256) × (is_empty (qs q) ≡ false)

tick_test :
    {k : Kernel} {qs : Queues} (p : ℕ)
    → IsLinked k qs
    → p < 256
    → ((ltb p (find_highest_priority k.sched) || ltb 0 (queue k p).count) ≡ true) ↔ Waiting qs p
tick_test {k} {qs} p v lt =
    let r = find_highest_priority k.sched in
    let h = find_highest_priority-IsHighest v in
    (
      λ yes_. elim (Bool-cases (ltb p r)) [
        | inl above ↦ (r, ground arith, h.in_range, ground (arith, h.occupied))
        | inr none_ ↦ (p, omega arith, lt, ground (arith, v.counts p, is_empty-length (qs p)))
      ],
      λ (q, le, small, some_). elim (Bool-cases (ltb p r)) [
        | inl above ↦ rw above
        | inr none_ ↦
            ground (arith, v.counts p, is_empty-length (qs p), is_empty-length (qs q), h.above q)
      ],
    )

abbrev pub ticked : Kernel → Bool → Kernel × Bool
ticked k yes_ =
    let s = k.sched in
    if yes_ then (record k { sched = record s { need_resched = true } }, true) else (k, false)

pub tick-ticked :
    (k : Kernel)
    → let l = count_tick k in
      let p = (l.tasks l.sched.current_task).priority in
      scheduler_tick k ≡ ticked l (ltb p (find_highest_priority l.sched) || ltb 0 (queue l p).count)
unfolding scheduler_tick
tick-ticked k = ground arith

-- What a tick does: the answer, the flag, and that the queues stay.
pub record Ticked (k : Kernel) (qs : Queues) (out : Kernel × Bool) : Type 0 where
  pub asks : (out.1 ≡ true) ↔ Waiting qs (k.tasks k.sched.current_task).priority
  pub flag : out.0.sched.need_resched ≡ (out.1 || k.sched.need_resched)
  pub current : out.0.sched.current_task ≡ k.sched.current_task
  pub linked : IsLinked out.0 qs

ticked_lem :
    (k l : Kernel) (qs : Queues) (yes_ : Bool)
    → (yes_ ≡ true) ↔ Waiting qs (k.tasks k.sched.current_task).priority
    → l.sched.need_resched ≡ k.sched.need_resched
    → l.sched.current_task ≡ k.sched.current_task
    → IsLinked l qs
    → Ticked k qs (ticked l yes_)
ticked_lem k l qs true asks flag current v = record {
  asks = asks;
  flag = refl;
  current = current;
  linked =
      SameLinks-IsLinked
        (record {
          queues = λ p. refl;
          bitmap = λ i. refl;
          nexts = λ a. refl;
          prevs = λ a. refl;
          priorities = λ a. refl;
        })
        (λ p a h. refl) v;
}
ticked_lem k l qs false asks flag current v = record {
  asks = asks;
  flag = flag;
  current = current;
  linked = v;
}

-- If the links and the bitmap describe the run queues, a timer tick asks for a reschedule exactly
-- if a waiting task has at least the priority of the current one; it raises the flag then, never
-- lowers it, and leaves the queues and the current task alone.
pub tick-Ticked : {k : Kernel} {qs : Queues} → IsLinked k qs → Ticked k qs (scheduler_tick k)
tick-Ticked {k} {qs} v =
    let l = count_tick k in
    let w = SameLinks-IsLinked (count_tick-SameLinks k) (λ p a h. count_tick-state k a) v in
    let p = (l.tasks l.sched.current_task).priority in
    let same : p ≡ (k.tasks k.sched.current_task).priority =
      (count_tick-SameLinks k).priorities l.sched.current_task
      ∙ ap (λ (a : ℕ). (k.tasks a).priority) (count_tick-current k) in
    let test = ltb p (find_highest_priority l.sched) || ltb 0 (queue l p).count in
    let asks =
      subst (λ (q : ℕ). (test ≡ true) ↔ Waiting qs q) same
        (tick_test p w (w.range l.sched.current_task)) in
    rw (tick-ticked k) (ticked_lem k l qs test asks (count_tick-need k) (count_tick-current k) w)
