-- ===== src/Timer/Reading.antt =====
-- `timer_read_us` of arch/x86/timer.c, and what it does after a calibration at 1000 Hz.
use native.Mathlib.Nat.{
  div-eq_of_lt, mul-div-le, lt-mul-div-succ, mul-le-mul_left, mul_assoc, mul_comm, mul-add,
}
use aioncore.Base.{
  ℕ, ◌+◌, ◌*◌, ◌/◌, ◌≤◌, ◌<◌, ◌≡◌, refl, true, false, arith, ◌==◌, ltb, Bool-cases, inl, inr, ◌⊎◌,
  ◌∙◌,
}
use aioncore.Hal.{Hardware, timer_read_tsc}
use aioncore.Timer.{Timer, finished, divide_error, microseconds, timer_init, timer_read_us}
use aioncore.Timer.Counter.{IsCounter, ticks_by}
use aioncore.Timer.Start.{cycles, Started, timer_init-cases}

-- the state after one reading of the time stamp counter
abbrev pub clocked : Timer → Timer
clocked t = let c = t.cpu in record t { cpu = record c { clocks = c.clocks + 1 } }

-- A time in microseconds of a frequency and a reading of the counter: behind the exact quotient by
-- less than one microsecond, and ahead of it by at most one part in the number of whole megahertz.
pub IsTime : (us tsc hz : ℕ) → Type 0
IsTime us tsc hz = (tsc * 1000000 < (us + 1) * hz) × (us * hz ≤ (tsc + us) * 1000000)

quotient-IsTime : (tsc hz : ℕ) → 0 < hz / 1000000 → IsTime (tsc / (hz / 1000000)) tsc hz
unfolding IsTime
quotient-IsTime tsc hz pos =
    let m = hz / 1000000 in
    let us = tsc / m in
    let below : m * us ≤ tsc = mul-div-le tsc m in
    let above : tsc < m * (us + 1) = lt-mul-div-succ tsc pos in
    let a : (us + 1) * (m * 1000000) ≤ (us + 1) * hz = mul-le-mul_left (us + 1) (omega arith) in
    let b : us * hz ≤ us * (m * 1000000 + 1000000) = mul-le-mul_left us (omega arith) in
    let c = mul_assoc (us + 1) m 1000000 in
    let d = mul_assoc us m 1000000 in
    let e = mul-add us (m * 1000000) 1000000 in
    let x = mul_comm (us + 1) m in let y = mul_comm us m in (omega arith, omega arith)

-- Before a calibration timer_read_us returns 0 without reading the time stamp counter; for a
-- frequency below 1 MHz it divides by zero; otherwise it reads the counter once and returns a time
-- that is behind the counter's exact time by less than one microsecond, and ahead of it by at most
-- one part in the number of whole megahertz.
pub timer_read_us-cases :
    (hw : Hardware) (t : Timer)
    → ((t.tsc_freq_hz ≡ 0) × (timer_read_us hw t ≡ finished (t, 0)))
      ⊎ ((0 < t.tsc_freq_hz) × (t.tsc_freq_hz < 1000000) × (timer_read_us hw t ≡ divide_error))
      ⊎ ((1000000 ≤ t.tsc_freq_hz)
          × (us : ℕ) × (timer_read_us hw t ≡ finished (clocked t, us))
          × IsTime us (hw.rdtsc t.cpu.clocks) t.tsc_freq_hz)
unfolding timer_read_us microseconds timer_read_tsc
timer_read_us-cases hw t = elim (Bool-cases (t.tsc_freq_hz == 0)) [
  | inl e ↦ inl (ground arith, rw e refl)
  | inr e ↦ elim (Bool-cases (ltb t.tsc_freq_hz 1000000)) [
    | inl slow ↦
        let z : t.tsc_freq_hz / 1000000 ≡ 0 = div-eq_of_lt (ground arith) in
        let z : (t.tsc_freq_hz / 1000000 == 0) ≡ true = ground arith in
        inr (inl (ground arith, ground arith, rw e (rw z refl)))
    | inr fast ↦
        let le : 1000000 ≤ t.tsc_freq_hz = ground arith in
        let pos : 0 < t.tsc_freq_hz / 1000000 = omega arith in
        let z : (t.tsc_freq_hz / 1000000 == 0) ≡ false = ground arith in
        let tsc = hw.rdtsc t.cpu.clocks in
        inr (
          inr (
            le,
            tsc / (t.tsc_freq_hz / 1000000),
            rw e (rw z refl),
            quotient-IsTime tsc t.tsc_freq_hz pos,
          ))
  ]
]

-- what timer_init leaves, when it has counted few cycles
low_frequency :
    (hw : Hardware) (handler j hz : ℕ) (t out : Timer)
    → Started hw 1000 handler j t out
    → 0 < cycles hw t.cpu.clocks
    → cycles hw t.cpu.clocks * 1193182 ≤ 50 * hz
    → hz < 1193000000
    → (out.tsc_freq_hz * 1193 ≤ hz) × (timer_read_us hw out ≡ divide_error)
low_frequency hw handler j hz t out s pos ticks slow =
    let e : out.tsc_freq_hz ≡ cycles hw t.cpu.clocks * 20 = s.tsc_freq ∙ omega arith in
    (
      omega arith,
      elim (timer_read_us-cases hw out) [
        | inl (z, _) ↦ absurd (omega arith)
        | inr (inl (_, _, f)) ↦ f
        | inr (inr (fast, us, _, _)) ↦ absurd (omega arith)
      ],
    )

-- With ports, counter and fuel as for timer_init-cases, timer_init at 1000 Hz returns; if the
-- cycles between its two readings of the time stamp counter are at least one and no more than a
-- processor of `hz` hertz below 1193 MHz counts in 50 ticks of the 1193182 Hz timer, the frequency
-- that it stores is below `hz` by a factor of 1193 or more, and timer_read_us, called next,
-- divides by zero.
pub calibrated-divide_error :
    (fuel : ℕ) (hw : Hardware) (handler p n : ℕ) (pos : ℕ → ℕ) (hz : ℕ) (t : Timer)
    → ((n port : ℕ) → hw.inb n port < 256)
    → 0 < p
    → p ≤ 65536
    → IsCounter hw t.cpu.reads p pos
    → n ≤ fuel
    → 50 ≤ ticks_by p pos n
    → 0 < cycles hw t.cpu.clocks
    → cycles hw t.cpu.clocks * 1193182 ≤ 50 * hz
    → hz < 1193000000
    → (out : Timer) × (timer_init fuel hw handler 1000 t ≡ finished out)
      × (out.tsc_freq_hz * 1193 ≤ hz)
      × (timer_read_us hw out ≡ divide_error)
calibrated-divide_error fuel hw handler p n pos hz t bytes p_pos big v enough end some_ few slow =
    elim (timer_init-cases fuel hw handler 1000 p n pos t bytes p_pos big v enough end) [
      | inl (inl z, _) ↦ absurd (omega arith)
      | inl (inr z, _) ↦ absurd (omega arith)
      | inr (_, _, j, out, e, _, _, s) ↦
          let (low, r) = low_frequency hw handler j hz t out s some_ few slow in (out, e, low, r)
    ]
