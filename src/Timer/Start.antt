-- ===== src/Timer/Start.antt =====
-- `timer_init` of arch/x86/timer.c as a whole: the timer programmed, the time stamp counter calibrated,
-- the handler registered and the interrupt line open.
use native.Mathlib.Nat.{div-eq_of_lt, le-div_iff_mul-le}
use aioncore.Base.{
  ℕ, ◌+◌, ◌-◌, ◌*◌, ◌/◌, ◌%◌, ◌≤◌, ◌<◌, ◌≡◌, refl, false, true, arith, ◌==◌, ltb, update,
  Bool-cases, inl, inr, ◌⊎◌, ◌∙◌, ap,
}
use aioncore.Base.Bits.{clear_bit}
use aioncore.Base.Words.{u64_mod}
use aioncore.Idt.{idt_register_handler}
use aioncore.Hal.{
  outb, irq_clear_mask, Cpu, Hardware, irq_disable, irq_restore, irq_register, io_inb,
  timer_read_tsc,
}
use aioncore.Hal.Masks.{Masked, masks-Masked}
use aioncore.Timer.{
  Timer, Result, finished, divide_error, no_fuel, ◌>>=◌, pit_init, pit_wait_ticks, tsc_frequency,
  calibrate_tsc, start_interrupts, timer_init,
}
use aioncore.Timer.Divisor.{pit_init-cases}
use aioncore.Timer.Counter.{IsCounter, ticks_by}
use aioncore.Timer.Wait.{Quiet, pit_wait_ticks-Waited}

-- the cycles between two readings of the time stamp counter
abbrev pub cycles : Hardware → (clock : ℕ) → ℕ
cycles hw clock = (hw.rdtsc (clock + 1) + u64_mod - hw.rdtsc clock) % u64_mod

-- The frequency that the code computes from a number of cycles.
abbrev pub computed : (tsc_cycles frequency_hz : ℕ) → ℕ
computed tsc_cycles f = tsc_cycles * 1000000 % u64_mod / (50000000 / f)

-- Dividing by a quotient of the calibration time works up to 50 MHz.
frequency-cases :
    (n f : ℕ)
    → 0 < f
    → ((50000000 < f) × (tsc_frequency n f ≡ divide_error))
      ⊎ ((f ≤ 50000000) × (tsc_frequency n f ≡ finished (computed n f)))
unfolding tsc_frequency
frequency-cases n f pos =
    let z : (f == 0) ≡ false = ground arith in
    elim (Bool-cases (ltb 50000000 f)) [
      | inl e ↦
          let y : 50000000 / f ≡ 0 = div-eq_of_lt (ground arith) in
          let y : (50000000 / f == 0) ≡ true = ground arith in inl (ground arith, rw z (rw y refl))
      | inr e ↦
          let le : f ≤ 50000000 = ground arith in
          let q : 1 ≤ 50000000 / f = (le-div_iff_mul-le pos).1 (omega arith) in
          let y : (50000000 / f == 0) ≡ false = ground arith in inr (le, rw z (rw y refl))
    ]

-- What the code leaves: `j` is the last reading of the count, `mid` the state in which the mask is read.
pub record Started (hw : Hardware) (f handler j : ℕ) (t out : Timer) : Type 0 where
  pub timer_freq : out.timer_freq_hz ≡ f
  pub tsc_freq : out.tsc_freq_hz ≡ computed (cycles hw t.cpu.clocks) f
  pub eflags : out.cpu.eflags ≡ t.cpu.eflags
  pub gates : out.cpu.idt.idt ≡ t.cpu.idt.idt
  pub handlers : out.cpu.idt.interrupt_handlers ≡ update t.cpu.idt.interrupt_handlers 32 handler
  pub mid : Cpu
  pub read_at : mid.reads ≡ t.cpu.reads + 2 * (j + 1) + 1
  pub unmasked : Masked hw 0 0 mid out.cpu

-- the processor before the wait, and after it
abbrev entered : Cpu → Cpu
entered c = record c { eflags = clear_bit 32 c.eflags 9; clocks = c.clocks + 1 }

abbrev left : (c d : Cpu) → Cpu
left c d = record d { eflags = c.eflags; clocks = d.clocks + 1 }

-- the calibration, from a wait that ended
calibrate-eq :
    (fuel : ℕ) (hw : Hardware) (t : Timer) (d : Cpu) (r : Result ℕ)
    → pit_wait_ticks fuel hw 50 (entered t.cpu) ≡ finished d
    → d.clocks ≡ t.cpu.clocks + 1
    → tsc_frequency (cycles hw t.cpu.clocks) t.timer_freq_hz ≡ r
    → calibrate_tsc fuel hw t
      ≡ (r >>= λ freq. finished (record t { cpu = left t.cpu d; tsc_freq_hz = freq }))
unfolding calibrate_tsc irq_disable irq_restore timer_read_tsc
calibrate-eq fuel hw t d r e clock f = rw e (rw clock (rw f refl))

bind_assoc :
    {A B C : Type 0} (r : Result A) (f : A → Result B) (g : B → Result C)
    → (r >>= f >>= g) ≡ (r >>= λ a. f a >>= g)
bind_assoc (finished a) f g = refl
bind_assoc divide_error f g = refl
bind_assoc no_fuel f g = refl

timer_init-eq :
    (fuel : ℕ) (hw : Hardware) (handler f : ℕ) (t : Timer) (c d : Cpu) (r : Result ℕ)
    → pit_init f t.cpu ≡ finished c
    → pit_wait_ticks fuel hw 50 (entered c) ≡ finished d
    → d.clocks ≡ c.clocks + 1
    → tsc_frequency (cycles hw c.clocks) f ≡ r
    → timer_init fuel hw handler f t ≡ (
        r >>= λ freq. finished (record {
          cpu = start_interrupts hw handler (left c d);
          tsc_freq_hz = freq;
          timer_freq_hz = f;
        }))
unfolding timer_init
timer_init-eq fuel hw handler f t c d r e w clock g =
    let k = calibrate-eq fuel hw (record t { cpu = c; timer_freq_hz = f }) d r w clock g in
    rw e (rw k (bind_assoc r _ _))

start-Started :
    (hw : Hardware) (f handler j : ℕ) (t : Timer) (c d : Cpu)
    → ((n port : ℕ) → hw.inb n port < 256)
    → c.reads ≡ t.cpu.reads
    → c.eflags ≡ t.cpu.eflags
    → c.idt.idt ≡ t.cpu.idt.idt
    → c.idt.interrupt_handlers ≡ t.cpu.idt.interrupt_handlers
    → c.clocks ≡ t.cpu.clocks
    → Quiet (j + 1) (entered c) d
    → Started hw f handler j t (record {
      cpu = start_interrupts hw handler (left c d);
      tsc_freq_hz = computed (cycles hw c.clocks) f;
      timer_freq_hz = f;
    })
unfolding start_interrupts io_inb outb irq_clear_mask irq_register idt_register_handler
start-Started hw f handler j t c d bytes reads eflags gates handlers clocks q =
    let r : d.reads ≡ c.reads + 2 * (j + 1) = q.reads in
    let h = q.handlers in
    let m = (io_inb hw 0x21 (irq_register 32 handler (left c d)).0).0 in
    let (masked, _) = masks-Masked hw 0 m (omega arith) bytes in
    record {
      timer_freq = refl;
      tsc_freq = rw clocks refl;
      eflags = eflags;
      gates = q.gates ∙ gates;
      handlers = rw h (rw handlers refl);
      mid = m;
      read_at = omega arith;
      unmasked = record {
        value = masked.value;
        small = masked.small;
        written = masked.written;
        bits = masked.bits;
      };
    }

-- With a counter that goes down from a period of at most 65536 and takes less than a period
-- between readings, ports that answer with bytes, and fuel for the readings until the ticks, with
-- 65536 less the period more at each end of a period, come to 50: timer_init divides by zero at
-- frequency 0 and above 50 MHz; at any other frequency it waits up to the first such reading,
-- stores the frequency that it computes from the cycles between its two readings of the time stamp
-- counter, leaves the flags and the gates as before, registers the handler for interrupt 32, and
-- opens line 0 alone of the mask that it reads.
pub timer_init-cases :
    (fuel : ℕ) (hw : Hardware) (handler f p n : ℕ) (pos : ℕ → ℕ) (t : Timer)
    → ((n port : ℕ) → hw.inb n port < 256)
    → 0 < p
    → p ≤ 65536
    → IsCounter hw t.cpu.reads p pos
    → n ≤ fuel
    → 50 ≤ ticks_by p pos n
    → (((f ≡ 0) ⊎ (50000000 < f)) × (timer_init fuel hw handler f t ≡ divide_error))
      ⊎ ((0 < f)
          × (f ≤ 50000000)
          × (j : ℕ) × (out : Timer) × (timer_init fuel hw handler f t ≡ finished out)
          × (50 ≤ ticks_by p pos j)
          × ((i : ℕ) → i < j → ticks_by p pos i < 50)
          × Started hw f handler j t out)
unfolding timer_init
timer_init-cases fuel hw handler f p n pos t bytes p_pos big v enough end =
    elim (pit_init-cases f t.cpu) [
      | inl (z, e) ↦ inl (inl z, rw e refl)
      | inr (f_pos, c, divisor, e, g) ↦
          let w = g.written in
          let reads : c.reads ≡ t.cpu.reads = ap (λ (x : Cpu). x.reads) w in
          let clocks : c.clocks ≡ t.cpu.clocks = ap (λ (x : Cpu). x.clocks) w in
          let (j, d, waited, le, done) =
            pit_wait_ticks-Waited hw t.cpu.reads p pos p_pos big v fuel 50 n (entered c) reads
              (omega arith) enough end in
          let q = done.quiet in
          let eq = timer_init-eq fuel hw handler f t c d in
          elim (frequency-cases (cycles hw c.clocks) f f_pos) [
            | inl (high, r) ↦ inl (inr high, eq divide_error e waited q.clocks r)
            | inr (low, r) ↦ inr (
              f_pos,
              low,
              j,
              record {
                cpu = start_interrupts hw handler (left c d);
                tsc_freq_hz = computed (cycles hw c.clocks) f;
                timer_freq_hz = f;
              },
              eq (finished (computed (cycles hw c.clocks) f)) e waited q.clocks r,
              done.reached,
              done.not_before,
              start-Started hw f handler j t c d bytes reads (ap (λ (x : Cpu). x.eflags) w)
                  (ap (λ (x : Cpu). x.idt.idt) w) (ap (λ (x : Cpu). x.idt.interrupt_handlers) w)
                  clocks q,
            )
          ]
    ]
