-- ===== src/Percpu/Tests.antt =====
-- Runs of the trace buffer at concrete states.
use aioncore.Base.{ℕ, ◌≡◌, refl, true, arith, [], ◌∷◌, ◌++◌, update}
use aioncore.Percpu.{TraceEvent, TraceBuffer, PerCpu, make_event, put_event, read_events}
use aioncore.Percpu.Trace.{InRange, contents, window, Run, Run-Kept}

abbrev event : ℕ → TraceEvent
event n = make_event n 0 1 n 0 0 0

-- two events wait, round the end of the array
abbrev buffer : TraceBuffer
buffer = record { events = update (λ i. event i) 0 (event 7); head = 1; tail = 1023; overflow = 0 }

abbrev cpus : PerCpu
cpus = record {
  per_cpu = λ c. record {
    cpu_id = c;
    online = true;
    current_task = 0;
    kernel_stack = 0;
    idle_task = 0;
    ticks = 0;
    context_switches = 0;
    slab_cache = 0;
    trace = buffer;
    interrupts_handled = 0;
    ipis_received = 0;
    tlb_flushes = 0;
  };
  num_cpus_online = 1;
}

buffer-InRange : InRange buffer
buffer-InRange = (omega arith, omega arith)

wrapped : contents buffer ≡ event 1023 ∷ event 7 ∷ []
unfolding contents window
wrapped = refl

one_write : Run buffer (put_event buffer (event 9)) (event 9 ∷ []) []
one_write = Run.write (event 9) Run.start (omega arith)

Run-Kept_example :
    (contents buffer ++ (event 9 ∷ [])
      ≡ (read_events 2 (put_event buffer (event 9))).1
        ++ contents (read_events 2 (put_event buffer (event 9))).0)
    × InRange (read_events 2 (put_event buffer (event 9))).0
Run-Kept_example = Run-Kept buffer-InRange (Run.read 2 one_write)
