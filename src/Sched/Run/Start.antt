-- ===== src/Sched/Run/Start.antt =====
-- `scheduler_init` of core/scheduler.c establishes the invariant that `schedule` keeps.
use aioncore.Base.{ℕ, ◌%◌, ◌<◌, ◌≡◌, ◌≢◌, refl, [], ◌∷◌, arith, inl, ◌∙◌, update}
use aioncore.Base.Bits.{bit-zero}
use aioncore.Base.Links.{first, last_from, next_in, prev_from}
use aioncore.Task.{TaskState}
use aioncore.Sched.{Kernel, put_task, set_state, scheduler_enqueue}
use aioncore.Sched.Invariant.{Queues, IsLinked}
use aioncore.Sched.Invariant.Frame.{set_state-IsLinked}
use aioncore.Sched.Invariant.Enqueue.{
  enqueue-IsLinked, idle-enqueue, priority-enqueue, state-enqueue, current-enqueue,
}
use aioncore.Sched.Run.{zero_scheduler, bootstrap_task, scheduler_init}
use aioncore.Sched.Run.Switch.{IsScheduled}

-- No control block is linked, and every priority is a byte.
pub record IsUnlinked (k : Kernel) : Type 0 where
  pub nexts : (a : ℕ) → (k.tasks a).next ≡ 0
  pub prevs : (a : ℕ) → (k.tasks a).prev ≡ 0
  pub range : (a : ℕ) → (k.tasks a).priority < 256

abbrev pub no_queues : Queues
no_queues p = []

abbrev booted : (bootstrap address_space : ℕ) → Kernel → Kernel
booted bootstrap address_space k =
    let z = zero_scheduler in
    let k = put_task k bootstrap (bootstrap_task address_space) in
    record k { sched = record z { current_task = bootstrap } }

booted-IsLinked :
    (bootstrap address_space : ℕ) (k : Kernel)
    → IsUnlinked k
    → IsLinked (booted bootstrap address_space k) no_queues
unfolding first last_from next_in prev_from
booted-IsLinked bootstrap address_space k u = record {
  heads = λ p. refl;
  tails = λ p. refl;
  counts = λ p. refl;
  small = λ p. omega arith;
  nexts = λ a nz. ground (arith, u.nexts a);
  prevs = λ a nz. ground (arith, u.prevs a);
  priorities = λ p a h. ground arith;
  readies = λ p a h. ground arith;
  distinct = λ p. tt;
  nonnull = λ p. refl;
  bits = λ p lt. bit-zero (p % 32);
  words = λ i. omega arith;
  range = λ a. ground (arith, u.range a);
}

abbrev waiting_idle : (bootstrap address_space : ℕ) → Kernel → Kernel
waiting_idle bootstrap address_space k =
    set_state (booted bootstrap address_space k) k.idle_task TaskState.ready

init_lem :
    (bootstrap address_space : ℕ) (k : Kernel)
    → k.idle_task ≢ 0
    → scheduler_init bootstrap address_space k
      ≡ scheduler_enqueue (waiting_idle bootstrap address_space k) k.idle_task
unfolding scheduler_init
init_lem bootstrap address_space k ne = ground arith

-- scheduler_init establishes the scheduler invariant with the idle task as the only waiting one,
-- if it has priority 0, the bootstrap task stands at another address, neither is NULL and no
-- control block is linked.
pub init-IsScheduled :
    (bootstrap address_space : ℕ) (k : Kernel)
    → IsUnlinked k
    → bootstrap ≢ 0
    → k.idle_task ≢ 0
    → bootstrap ≢ k.idle_task
    → (k.tasks k.idle_task).priority ≡ 0
    → IsScheduled (scheduler_init bootstrap address_space k) (update no_queues 0 (k.idle_task ∷ []))
init-IsScheduled bootstrap address_space k u nz idle_nz ne low =
    let r = waiting_idle bootstrap address_space k in
    let v =
      enqueue-IsLinked {k = r} {qs = no_queues} k.idle_task
        (set_state-IsLinked k.idle_task TaskState.ready refl
          (booted-IsLinked bootstrap address_space k u))
        idle_nz (ground arith) refl (omega arith) in
    let e : (r.tasks k.idle_task).priority ≡ 0 = ground arith in
    let current : (scheduler_enqueue r k.idle_task).sched.current_task ≡ bootstrap =
      current-enqueue r k.idle_task in
    rw (init_lem bootstrap address_space k idle_nz) (record {
      linked = rw e at v;
      current_nonnull = rw current nz;
      current_state = rw current (rw (state-enqueue r k.idle_task bootstrap) (ground arith));
      idle_priority =
          rw (idle-enqueue r k.idle_task) (priority-enqueue r k.idle_task k.idle_task ∙ e);
      idle_here = inl (rw (idle-enqueue r k.idle_task) (ground arith));
    })
