-- ===== src/Timer/Tests.antt =====
-- The timer at concrete states.
use aioncore.Base.{
  ℕ, ◌+◌, ◌*◌, ◌/◌, ◌%◌, ◌≤◌, ◌<◌, ◌≡◌, refl, arith, ◌==◌, if◌then◌else◌, [], ◌∷◌, update, ◌⊎◌,
}
use aioncore.Idt.{Machine, irq_handler, idt_register_handler}
use aioncore.Idt.Samples.{empty, machine, idle_only, initial-IsScheduled, idle-HasRoom}
use aioncore.Hal.{
  Cpu, Hardware, irq_disable, irq_restore, outb, io_inb, timer_read_tsc, irq_register,
  irq_clear_mask, mask_port, mask_line,
}
use aioncore.Hal.Samples.{cpu}
use aioncore.Timer.{
  Timer, Result, finished, divide_error, no_fuel, pit_init, pit_wait_ticks, timer_init,
  timer_read_us, timer_interrupt_handler, clamp_divisor, write_divisor, calibrate_tsc, wait_from,
  read_count, elapsed, tsc_frequency, start_interrupts,
}
use aioncore.Timer.Counter.{shown, IsCounter, ticks_by}
use aioncore.Timer.Divisor.{Programmed, pit_init-cases}
use aioncore.Timer.Start.{Started, timer_init-cases}
use aioncore.Timer.Reading.{IsTime, clocked, timer_read_us-cases, calibrated-divide_error}
use aioncore.Timer.Interrupt.{Ticked, timer-Ticked}

abbrev timer : Timer
timer = record { cpu = cpu; tsc_freq_hz = 0; timer_freq_hz = 0 }

-- ten ticks from one reading to the next
abbrev pos : ℕ → ℕ
pos k = 10 * k

-- a processor of 800 MHz, and the timer as set to 1000 Hz
abbrev hw : Hardware
hw = record {
  inb = λ n port.
      if port == 0x21
      then 0xFF
      else if n % 2 == 0
      then shown 1193 (10 * (n / 2)) % 256
      else shown 1193 (10 * (n / 2)) / 256;
  rdtsc = λ n. 1000 + 33523 * n;
}

hw_bytes : (n port : ℕ) → hw.inb n port < 256
hw_bytes n port = ground arith

counts : IsCounter hw 0 1193 pos
counts = record {
  low_small = λ n. hw_bytes n 0x40;
  shows = λ k.
      let e : (0 + 2 * k) / 2 ≡ k = omega arith in
      let o : (0 + 2 * k + 1) / 2 ≡ k = omega arith in rw e (rw o (ground arith));
  goes_on = λ k. omega arith;
  in_time = λ k. omega arith;
}

pit_init-cases_example :
    ((◌≡◌ {A = ℕ} 1000 0) × (pit_init 1000 cpu ≡ divide_error))
    ⊎ ((0 < 1000)
        × (out : Cpu) × (divisor : ℕ) × (pit_init 1000 cpu ≡ finished out)
        × Programmed 1000 divisor cpu out)
pit_init-cases_example = pit_init-cases 1000 cpu

timer_init-cases_example :
    (((◌≡◌ {A = ℕ} 1000 0) ⊎ (50000000 < 1000))
      × (timer_init 9 hw 0x100700 1000 timer ≡ divide_error))
    ⊎ ((0 < 1000)
        × (1000 ≤ 50000000)
        × (j : ℕ) × (out : Timer) × (timer_init 9 hw 0x100700 1000 timer ≡ finished out)
        × (50 ≤ ticks_by 1193 pos j)
        × ((i : ℕ) → i < j → ticks_by 1193 pos i < 50)
        × Started hw 1000 0x100700 j timer out)
timer_init-cases_example =
    timer_init-cases 9 hw 0x100700 1000 1193 5 pos timer hw_bytes (omega arith) (omega arith) counts
      (omega arith) (omega arith)

-- what timer_init leaves there, after six readings of the count
abbrev calibrated : Timer
calibrated = record {
  cpu = record cpu {
    idt = record empty {
      interrupt_handlers = update empty.interrupt_handlers 32 0x100700;
      ports = (0x21, 254) ∷ [];
    };
    reads = 15;
    clocks = 2;
  };
  tsc_freq_hz = 670460;
  timer_freq_hz = 1000;
}

timer_read_us-cases_example :
    ((calibrated.tsc_freq_hz ≡ 0) × (timer_read_us hw calibrated ≡ finished (calibrated, 0)))
    ⊎ ((0 < calibrated.tsc_freq_hz)
        × (calibrated.tsc_freq_hz < 1000000)
        × (timer_read_us hw calibrated ≡ divide_error))
    ⊎ ((1000000 ≤ calibrated.tsc_freq_hz)
        × (us : ℕ) × (timer_read_us hw calibrated ≡ finished (clocked calibrated, us))
        × IsTime us (hw.rdtsc calibrated.cpu.clocks) calibrated.tsc_freq_hz)
timer_read_us-cases_example = timer_read_us-cases hw calibrated

calibrated-divide_error_example :
    (out : Timer) × (timer_init 9 hw 0x100700 1000 timer ≡ finished out)
    × (out.tsc_freq_hz * 1193 ≤ 800000000)
    × (timer_read_us hw out ≡ divide_error)
calibrated-divide_error_example =
    calibrated-divide_error 9 hw 0x100700 1193 5 pos 800000000 timer hw_bytes (omega arith)
      (omega arith) counts (omega arith) (omega arith) (omega arith) (omega arith) (omega arith)

abbrev on_tick : Machine
on_tick =
    let i = machine.idt in
    record machine {
      idt = record i { interrupt_handlers = update i.interrupt_handlers 32 0x100700 };
    }

abbrev run : ℕ → ℕ → Machine → Machine
run handler int_no m = if handler == 0x100700 then timer_interrupt_handler m else m

timer-Ticked_example : Ticked on_tick idle_only (irq_handler run 32 on_tick)
timer-Ticked_example =
    timer-Ticked run on_tick idle_only (omega arith) (λ n. refl) initial-IsScheduled idle-HasRoom

abbrev freq_of : Result Timer → ℕ
freq_of (finished t) = t.tsc_freq_hz
freq_of divide_error = 0
freq_of no_fuel = 1

timer_init_runs : freq_of (timer_init 9 hw 0x100700 1000 timer) ≡ calibrated.tsc_freq_hz
unfolding timer_init pit_init clamp_divisor write_divisor calibrate_tsc irq_disable irq_restore outb
    io_inb timer_read_tsc pit_wait_ticks wait_from read_count elapsed tsc_frequency start_interrupts
    irq_register irq_clear_mask idt_register_handler mask_port mask_line
timer_init_runs = refl
