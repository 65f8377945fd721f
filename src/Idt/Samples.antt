-- ===== src/Idt/Samples.antt =====
-- States on which the tests of the interrupt code run.
use aioncore.Base.{ℕ, refl, true, arith, [], ◌∷◌, update}
use aioncore.Sched.{Kernel}
use aioncore.Sched.Run.{zero_task, zero_scheduler, scheduler_init}
use aioncore.Sched.Run.Switch.{IsScheduled, HasRoom}
use aioncore.Sched.Run.Start.{no_queues, init-IsScheduled}
use aioncore.Sched.Invariant.{Queues}
use aioncore.Percpu.{PerCpu}
use aioncore.Idt.{Idt, Machine}

abbrev pub empty : Idt
empty = record {
  idt = λ _. record { offset_low = 0; selector = 0; zero_byte = 0; type_attr = 0; offset_high = 0 };
  idtr = record { limit = 0; base = 0 };
  interrupt_handlers = λ _. 0;
  ports = [];
}

-- every exception has its stub at one address, every interrupt at another
abbrev pub isr : ℕ → ℕ
isr _ = 0x100200

abbrev pub irq : ℕ → ℕ
irq _ = 0x100400

abbrev pub memory : Kernel
memory = record { tasks = λ _. zero_task; sched = zero_scheduler; idle_task = 0x200; esp0 = 0 }

abbrev pub idle_only : Queues
idle_only = update no_queues 0 (0x200 ∷ [])

pub initial-IsScheduled : IsScheduled (scheduler_init 0x100 0x5000 memory) idle_only
initial-IsScheduled =
    init-IsScheduled 0x100 0x5000 memory
      (record { nexts = λ a. refl; prevs = λ a. refl; range = λ a. omega arith }) (omega arith)
      (omega arith) (omega arith) refl

pub idle-HasRoom : HasRoom idle_only
idle-HasRoom p = ground arith

-- one CPU that has not counted a tick
abbrev pub one_cpu : PerCpu
one_cpu = record {
  per_cpu = λ c. record {
    cpu_id = c;
    online = true;
    current_task = 0;
    kernel_stack = 0;
    idle_task = 0;
    ticks = 0;
    context_switches = 0;
    slab_cache = 0;
    trace = record {
      events = λ n. record {
        timestamp = 0;
        cpu_id = 0;
        event_type = 0;
        data0 = 0;
        data1 = 0;
        data2 = 0;
        data3 = 0;
      };
      head = 0;
      tail = 0;
      overflow = 0;
    };
    interrupts_handled = 0;
    ipis_received = 0;
    tlb_flushes = 0;
  };
  num_cpus_online = 1;
}

abbrev pub machine : Machine
machine = record { idt = empty; kernel = scheduler_init 0x100 0x5000 memory; percpu = one_cpu }
