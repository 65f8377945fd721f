-- ===== src/Percpu.antt =====
-- core/percpu.c and include/kernel/percpu.h: the data of each CPU and its trace buffer. What
-- `hal->cpu_id` and `hal->timer_read_tsc` return is an argument. The memory barriers order the
-- stores for other CPUs and have no part in the model, in which one call runs at a time.
pub mod Trace
pub mod Calls
mod Tests
use aioncore.Base.{
  ℕ, zero, suc, ◌+◌, ◌-◌, ◌%◌, Bool, true, false, not, ◌||◌, Option, none, some, ◌==◌, ltb, leb,
  if◌then◌else◌, update, List, [], ◌∷◌,
}
use aioncore.Base.Words.{inc32}

abbrev pub max_cpus : ℕ
max_cpus = 256

abbrev pub trace_buffer_size : ℕ
trace_buffer_size = 1024

-- `data` is the function of the four words.
pub record TraceEvent : Type 0 where
  pub timestamp : ℕ
  pub cpu_id : ℕ
  pub event_type : ℕ
  pub data0 : ℕ
  pub data1 : ℕ
  pub data2 : ℕ
  pub data3 : ℕ

pub record TraceBuffer : Type 0 where
  pub events : ℕ → TraceEvent
  pub head : ℕ
  pub tail : ℕ
  pub overflow : ℕ

-- `run_queue`, a list head that only `list_init` touches, and `padding` are left out.
pub record PerCpuData : Type 0 where
  pub cpu_id : ℕ
  pub online : Bool
  pub current_task : ℕ
  pub kernel_stack : ℕ
  pub idle_task : ℕ
  pub ticks : ℕ
  pub context_switches : ℕ
  pub slab_cache : ℕ
  pub trace : TraceBuffer
  pub interrupts_handled : ℕ
  pub ipis_received : ℕ
  pub tlb_flushes : ℕ

pub record PerCpu : Type 0 where
  pub per_cpu : ℕ → PerCpuData
  pub num_cpus_online : ℕ

abbrev pub put_trace : PerCpu → ℕ → TraceBuffer → PerCpu
put_trace s cpu t =
    let d = s.per_cpu cpu in record s { per_cpu = update s.per_cpu cpu (record d { trace = t }) }

unfoldable pub percpu_init_cpu : PerCpu → ℕ → PerCpu
percpu_init_cpu s cpu_id =
    let d = s.per_cpu cpu_id in
    let t = d.trace in
    if leb max_cpus cpu_id then s else record s {
      per_cpu = update s.per_cpu cpu_id (record d {
        cpu_id = cpu_id;
        online = true;
        current_task = 0;
        kernel_stack = 0;
        idle_task = 0;
        ticks = 0;
        context_switches = 0;
        interrupts_handled = 0;
        ipis_received = 0;
        tlb_flushes = 0;
        trace = record t { head = 0; tail = 0; overflow = 0 };
        slab_cache = 0;
      });
    }

unfoldable pub percpu_init : (boot_cpu : ℕ) → PerCpu → PerCpu
percpu_init boot_cpu s = let s = percpu_init_cpu s boot_cpu in record s { num_cpus_online = 1 }

-- The event that `trace_event` writes.
abbrev pub make_event : (tsc cpu_id type d0 d1 d2 d3 : ℕ) → TraceEvent
make_event tsc cpu_id type d0 d1 d2 d3 = record {
  timestamp = tsc;
  cpu_id = cpu_id;
  event_type = type;
  data0 = d0;
  data1 = d1;
  data2 = d2;
  data3 = d3;
}

-- The body of `trace_event` on the buffer of this CPU.
unfoldable pub put_event : TraceBuffer → TraceEvent → TraceBuffer
put_event t event =
    let next = inc32 t.head % trace_buffer_size in
    if next == t.tail
    then record t { overflow = inc32 t.overflow }
    else record t { events = update t.events t.head event; head = next }

unfoldable pub trace_event : (this_cpu tsc : ℕ) → PerCpu → (type d0 d1 d2 d3 : ℕ) → PerCpu
trace_event this_cpu tsc s type d0 d1 d2 d3 =
    let cpu = s.per_cpu this_cpu in
    put_trace s this_cpu (put_event cpu.trace (make_event tsc cpu.cpu_id type d0 d1 d2 d3))

-- The loop of `trace_read`, with `n` events left to ask for: the buffer and the events copied.
unfoldable pub read_events : (n : ℕ) → TraceBuffer → TraceBuffer × List TraceEvent
read_events zero t = (t, [])
read_events (suc n) t =
    let rest = read_events n (record t { tail = inc32 t.tail % trace_buffer_size }) in
    if t.tail == t.head then (t, []) else (rest.0, t.events t.tail ∷ rest.1)

-- `none` for -EINVAL. The count returned is the length of the list.
unfoldable pub trace_read : PerCpu → (cpu_id count : ℕ) → PerCpu × Option (List TraceEvent)
trace_read s cpu_id count =
    let cpu = s.per_cpu cpu_id in
    if leb max_cpus cpu_id || not cpu.online
    then (s, none)
    else (let out = read_events count cpu.trace in (put_trace s cpu_id out.0, some out.1))
