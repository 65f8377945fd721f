-- ===== src/Timer.antt =====
-- arch/x86/timer.c: the interval timer, the calibration of the time stamp counter against it, and
-- the timer interrupt. What the hardware answers is a parameter. A division by zero, which stops
-- the processor with an exception, and a wait that the fuel does not end are results of their own. What is
-- printed is left out.
pub mod Divisor
pub mod Counter
pub mod Wait
pub mod Start
pub mod Reading
pub mod Interrupt
mod Tests
use Prim.Native.Nat.{bit_and, bit_or}
use aioncore.Base.{
  ℕ, zero, suc, ◌+◌, ◌-◌, ◌*◌, ◌/◌, ◌%◌, ◌^◌, Bool, true, false, ◌==◌, ltb, if◌then◌else◌, update,
}
use aioncore.Base.Words.{u8_mod, u16_mod, u32_mod, u64_mod, inc64}
use aioncore.Percpu.{PerCpu, PerCpuData}
use aioncore.Sched.Run.{scheduler_tick}
use aioncore.Idt.{Machine}
use aioncore.Hal.{
  Cpu, Hardware, cpu_id, irq_disable, irq_restore, irq_register, io_inb, outb, timer_read_tsc,
  irq_clear_mask,
}

abbrev pub pit_channel0 : ℕ
pit_channel0 = 0x40

abbrev pub pit_command : ℕ
pit_command = 0x43

abbrev pub pit_cmd_binary : ℕ
pit_cmd_binary = 0x00

abbrev pub pit_cmd_mode2 : ℕ
pit_cmd_mode2 = 0x04

abbrev pub pit_cmd_rw_both : ℕ
pit_cmd_rw_both = 0x30

abbrev pub pit_cmd_channel0 : ℕ
pit_cmd_channel0 = 0x00

abbrev pub pit_base_freq : ℕ
pit_base_freq = 1193182

abbrev pub calibration_ticks : ℕ
calibration_ticks = 50

pub record Timer : Type 0 where
  pub cpu : Cpu
  pub tsc_freq_hz : ℕ
  pub timer_freq_hz : ℕ

pub data Result {ℓ} (A : Type ℓ) : Type ℓ where
  finished : A → Result A
  divide_error : Result A
  no_fuel : Result A

infixl 5 ◌>>=◌
abbrev pub ◌>>=◌ {ℓ κ} : {A : Type ℓ} {B : Type κ} → Result A → (A → Result B) → Result B
finished a >>= f = f a
divide_error >>= f = divide_error
no_fuel >>= f = no_fuel

abbrev pub divide : (a d : ℕ) → Result ℕ
divide a d = if d == 0 then divide_error else finished (a / d)

-- the limits of `pit_init` on the divisor
unfoldable pub clamp_divisor : ℕ → ℕ
clamp_divisor divisor =
    let divisor = if ltb 65535 divisor then 65535 else divisor in
    if ltb divisor 1 then 1 else divisor

unfoldable pub write_divisor : (divisor : ℕ) → Cpu → Cpu
write_divisor divisor c =
    let command =
      bit_or (bit_or (bit_or pit_cmd_channel0 pit_cmd_rw_both) pit_cmd_mode2) pit_cmd_binary in
    let c = outb pit_command command c in
    let c = outb pit_channel0 (bit_and divisor 0xFF) c in
    outb pit_channel0 (bit_and (divisor / 2 ^ 8) 0xFF) c

unfoldable pub pit_init : (frequency_hz : ℕ) → Cpu → Result Cpu
pit_init frequency_hz c = do
  divisor ← divide pit_base_freq frequency_hz
  finished (write_divisor (clamp_divisor divisor) c)

-- "Latch channel 0", and the count: the low byte and then the high byte.
unfoldable pub read_count : Hardware → Cpu → Cpu × ℕ
read_count hw c =
    let c = outb pit_command 0x00 c in
    let low = io_inb hw pit_channel0 c in
    let high = io_inb hw pit_channel0 low.0 in (high.0, bit_or (high.1 * 2 ^ 8) low.1 % u16_mod)

-- "Calculate ticks elapsed (handle countdown)"
unfoldable pub elapsed : (last_count current_count : ℕ) → ℕ
elapsed last_count current_count =
    if ltb last_count current_count
    then last_count + (65536 - current_count)
    else last_count - current_count

-- The loop of `pit_wait_ticks`.
unfoldable pub wait_from :
    (fuel : ℕ) → Hardware → (ticks total_ticks last_count : ℕ) → Cpu → Result Cpu
wait_from zero hw ticks total_ticks last_count c =
    if ltb total_ticks ticks then no_fuel else finished c
wait_from (suc fuel) hw ticks total_ticks last_count c =
    let read = read_count hw c in
    let total = (total_ticks + elapsed last_count read.1) % u32_mod in
    let rest = wait_from fuel hw ticks total read.1 read.0 in
    if ltb total_ticks ticks then rest else finished c

unfoldable pub pit_wait_ticks : (fuel : ℕ) → Hardware → (ticks : ℕ) → Cpu → Result Cpu
pit_wait_ticks fuel hw ticks c =
    let read = read_count hw c in wait_from fuel hw ticks 0 read.1 read.0

-- The frequency of the counter, from the cycles counted.
unfoldable pub tsc_frequency : (tsc_cycles timer_freq_hz : ℕ) → Result ℕ
tsc_frequency tsc_cycles timer_freq_hz = do
  time_us ← divide (calibration_ticks * 1000000) timer_freq_hz
  divide (tsc_cycles * 1000000 % u64_mod) time_us

unfoldable pub calibrate_tsc : (fuel : ℕ) → Hardware → Timer → Result Timer
calibrate_tsc fuel hw t = do
  let disabled = irq_disable t.cpu
  let start = timer_read_tsc hw disabled.0
  c ← pit_wait_ticks fuel hw calibration_ticks start.0
  let end = timer_read_tsc hw c
  let c = irq_restore disabled.1 end.0
  let tsc_cycles = (end.1 + u64_mod - start.1) % u64_mod
  freq ← tsc_frequency tsc_cycles t.timer_freq_hz
  finished (record t { cpu = c; tsc_freq_hz = freq })

-- The end of `timer_init`: `handler` is the address of `timer_interrupt_handler`.
unfoldable pub start_interrupts : Hardware → (handler : ℕ) → Cpu → Cpu
start_interrupts hw handler c =
    let c = (irq_register 32 handler c).0 in
    let mask_before = io_inb hw 0x21 c in
    let c = irq_clear_mask hw 0 mask_before.0 in let mask_after = io_inb hw 0x21 c in mask_after.0

unfoldable pub timer_init :
    (fuel : ℕ) → Hardware → (handler frequency_hz : ℕ) → Timer → Result Timer
timer_init fuel hw handler frequency_hz t = do
  let t = record t { timer_freq_hz = frequency_hz }
  c ← pit_init frequency_hz t.cpu
  t ← calibrate_tsc fuel hw (record t { cpu = c })
  finished (record t { cpu = start_interrupts hw handler t.cpu })

-- The time for a reading `tsc` of the counter.
unfoldable pub microseconds : (tsc tsc_freq_hz : ℕ) → Result ℕ
microseconds tsc tsc_freq_hz = divide tsc (tsc_freq_hz / 1000000)

unfoldable pub timer_read_us : Hardware → Timer → Result (Timer × ℕ)
timer_read_us hw t =
    let read = timer_read_tsc hw t.cpu in
    if t.tsc_freq_hz == 0
    then finished (t, 0)
    else do us ← microseconds read.1 t.tsc_freq_hz; finished (record t { cpu = read.0 }, us)

unfoldable pub timer_get_tsc_freq : Timer → ℕ
timer_get_tsc_freq t = t.tsc_freq_hz

-- `cpu->ticks++` for this CPU
unfoldable pub count_cpu_tick : PerCpu → PerCpu
count_cpu_tick s =
    let d = s.per_cpu cpu_id in
    record s { per_cpu = update s.per_cpu cpu_id (record d { ticks = inc64 d.ticks }) }

unfoldable pub timer_interrupt_handler : Machine → Machine
timer_interrupt_handler m = record m {
  percpu = count_cpu_tick m.percpu;
  kernel = (scheduler_tick m.kernel).0;
}
