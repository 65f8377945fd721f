-- ===== src/Percpu/Calls.antt =====
-- The calls of core/percpu.c on the array of CPUs: which CPU each touches, and when a read is
-- refused.
use aioncore.Base.{
  ℕ, ◌≤◌, ◌<◌, ◌≡◌, ◌≢◌, refl, true, false, arith, ◌⊎◌, inl, inr, ◌==◌, leb, List, [], Bool-cases,
  none, some, ◌||◌, not,
}
use aioncore.Percpu.{
  TraceEvent, PerCpu, max_cpus, make_event, read_events, percpu_init_cpu, trace_event, trace_read,
}
use aioncore.Percpu.Trace.{
  InRange, contents, window, Written, put_event-Written, Taken, read_events-Taken,
}

-- Only the trace buffer of the CPU `cpu` differs.
abbrev pub OthersKept : PerCpu → (cpu : ℕ) → PerCpu → Type 0
OthersKept s cpu t = (c : ℕ) → c ≢ cpu → t.per_cpu c ≡ s.per_cpu c

-- With indices in range, a trace call appends the stamped event to the buffer of its CPU, or, if
-- 1023 events wait, drops it and counts it, and touches no other CPU.
pub trace_event-Written :
    (this_cpu tsc : ℕ) (s : PerCpu) (type d0 d1 d2 d3 : ℕ)
    → InRange (s.per_cpu this_cpu).trace
    → let t = trace_event this_cpu tsc s type d0 d1 d2 d3 in
      Written
        (s.per_cpu this_cpu).trace
        (make_event tsc (s.per_cpu this_cpu).cpu_id type d0 d1 d2 d3)
        (t.per_cpu this_cpu).trace
      × OthersKept s this_cpu t
unfolding trace_event
trace_event-Written this_cpu tsc s type d0 d1 d2 d3 r =
    let w =
      put_event-Written (s.per_cpu this_cpu).trace
        (make_event tsc (s.per_cpu this_cpu).cpu_id type d0 d1 d2 d3) r in
    let here : (this_cpu == this_cpu) ≡ true = ground arith in (rw here w, λ c ne. ground arith)

-- With indices in range, a read of a CPU that does not exist or is not online gives -EINVAL and
-- changes nothing; any other read takes the oldest events, as many as asked for or as wait, and
-- touches no other CPU.
pub trace_read-cases :
    (s : PerCpu) (cpu_id count : ℕ)
    → InRange (s.per_cpu cpu_id).trace
    → (((max_cpus ≤ cpu_id) ⊎ ((s.per_cpu cpu_id).online ≡ false))
        × (trace_read s cpu_id count ≡ (s, none)))
      ⊎ ((cpu_id < max_cpus)
          × ((s.per_cpu cpu_id).online ≡ true)
          × (events : List TraceEvent) × ((trace_read s cpu_id count).1 ≡ some events)
          × Taken
              (s.per_cpu cpu_id).trace
              count
              (((trace_read s cpu_id count).0.per_cpu cpu_id).trace, events)
          × OthersKept s cpu_id (trace_read s cpu_id count).0)
unfolding trace_read
trace_read-cases s cpu_id count r =
    let d = s.per_cpu cpu_id in
    let here : (cpu_id == cpu_id) ≡ true = ground arith in
    elim (Bool-cases (leb max_cpus cpu_id || not d.online)) [
      | inl e ↦ inl (ground arith, rw e refl)
      | inr e ↦ rw e (
          inr (
            ground arith,
            ground arith,
            (read_events count d.trace).1,
            refl,
            rw here (read_events-Taken count d.trace r),
            λ c ne. ground arith,
          ))
    ]

-- Bringing up a CPU that exists marks it online under its number with an empty trace buffer; for
-- another number nothing changes; no other CPU is touched.
pub percpu_init_cpu-cases :
    (s : PerCpu) (cpu_id : ℕ)
    → ((max_cpus ≤ cpu_id) × (percpu_init_cpu s cpu_id ≡ s))
      ⊎ ((((percpu_init_cpu s cpu_id).per_cpu cpu_id).online ≡ true)
          × (((percpu_init_cpu s cpu_id).per_cpu cpu_id).cpu_id ≡ cpu_id)
          × (contents ((percpu_init_cpu s cpu_id).per_cpu cpu_id).trace ≡ [])
          × InRange ((percpu_init_cpu s cpu_id).per_cpu cpu_id).trace
          × OthersKept s cpu_id (percpu_init_cpu s cpu_id))
unfolding percpu_init_cpu contents window
percpu_init_cpu-cases s cpu_id =
    let here : (cpu_id == cpu_id) ≡ true = ground arith in
    elim (Bool-cases (leb max_cpus cpu_id)) [
      | inl e ↦ inl (ground arith, rw e refl)
      | inr e ↦ rw e (
          inr (
            rw here refl,
            rw here refl,
            rw here refl,
            rw here (omega arith, omega arith),
            λ c ne. ground arith,
          ))
    ]
