-- ===== src/Sched/Invariant/Unlink.antt =====
-- What `scheduler_dequeue` of core/scheduler.c does to each control block, queue and bitmap word.
use aioncore.Base.{ℕ, ◌/◌, ◌%◌, ◌≡◌, ◌≢◌, false, if◌then◌else◌, arith, ◌==◌, not, ◌&&◌}
use aioncore.Base.Words.{dec32}
use aioncore.Base.Bits.{clear_bit}
use aioncore.Sched.{
  Kernel, queue, clear_priority_bit, unlink_next, unlink_prev, is_unlinked, scheduler_dequeue,
}

pub idle-dequeue : (k : Kernel) (task : ℕ) → (scheduler_dequeue k task).idle_task ≡ k.idle_task
unfolding scheduler_dequeue unlink_next unlink_prev clear_priority_bit
idle-dequeue k task = ground arith

-- What the call does to each control block, past its guards.
module _ (k : Kernel) (task a : ℕ) (nz : task ≢ 0)
    (full : (queue k (k.tasks task).priority).count ≢ 0)
    (linked : is_unlinked k task (k.tasks task).priority ≡ false)
    (not_prev : (k.tasks task).prev ≢ task) (not_next : (k.tasks task).next ≢ task) where
  pub next-dequeue : ((scheduler_dequeue k task).tasks a).next ≡ (
      let t = k.tasks task in
      if task == a
      then 0
      else if not (t.prev == 0) && t.prev == a
      then t.next
      else (k.tasks a).next)
  unfolding scheduler_dequeue unlink_next unlink_prev clear_priority_bit
  next-dequeue = ground arith

  pub prev-dequeue : ((scheduler_dequeue k task).tasks a).prev ≡ (
      let t = k.tasks task in
      if task == a
      then 0
      else if not (t.next == 0) && t.next == a
      then t.prev
      else (k.tasks a).prev)
  unfolding scheduler_dequeue unlink_next unlink_prev clear_priority_bit
  prev-dequeue = ground arith

  pub head-dequeue : (queue (scheduler_dequeue k task) a).head ≡ (
      let t = k.tasks task in
      if (t.priority == a) && (t.prev == 0) then t.next else (queue k a).head)
  unfolding scheduler_dequeue unlink_next unlink_prev clear_priority_bit
  head-dequeue = ground arith

  pub tail-dequeue : (queue (scheduler_dequeue k task) a).tail ≡ (
      let t = k.tasks task in
      if (t.priority == a) && (t.next == 0) then t.prev else (queue k a).tail)
  unfolding scheduler_dequeue unlink_next unlink_prev clear_priority_bit
  tail-dequeue = ground arith

  pub count-dequeue : (queue (scheduler_dequeue k task) a).count ≡ (
      let t = k.tasks task in
      if t.priority == a then dec32 (queue k a).count else (queue k a).count)
  unfolding scheduler_dequeue unlink_next unlink_prev clear_priority_bit
  count-dequeue = ground arith

  pub word-dequeue : (scheduler_dequeue k task).sched.priority_bitmap a ≡ (
      let p = (k.tasks task).priority in
      if (dec32 (queue k p).count == 0) && (p / 32 == a)
      then clear_bit 32 (k.sched.priority_bitmap a) (p % 32)
      else k.sched.priority_bitmap a)
  unfolding scheduler_dequeue unlink_next unlink_prev clear_priority_bit
  word-dequeue = ground arith

module _ (k : Kernel) (task a : ℕ) where
  pub priority-dequeue : ((scheduler_dequeue k task).tasks a).priority ≡ (k.tasks a).priority
  unfolding scheduler_dequeue unlink_next unlink_prev clear_priority_bit
  priority-dequeue = ground arith

  state-unlink_next : (p : ℕ) → ((unlink_next k task p).tasks a).state ≡ (k.tasks a).state
  unfolding unlink_next
  state-unlink_next p = ground arith

  state-unlink_prev : (p : ℕ) → ((unlink_prev k task p).tasks a).state ≡ (k.tasks a).state
  unfolding unlink_prev
  state-unlink_prev p = ground arith

module _ (k : Kernel) (task a : ℕ) where
  pub state-dequeue : ((scheduler_dequeue k task).tasks a).state ≡ (k.tasks a).state
  unfolding scheduler_dequeue clear_priority_bit
  state-dequeue =
      let p = (k.tasks task).priority in
      let u = unlink_next k task p in
      ground (
        arith,
        state-unlink_next k task a p,
        state-unlink_prev u task a p,
        state-unlink_next k task task p,
        state-unlink_prev u task task p,
      )
