-- ===== src/Timer/Wait.antt =====
-- `pit_wait_ticks` of arch/x86/timer.c against a counter that goes down from its period again and again.
use aioncore.Base.{
  ℕ, zero, suc, ◌+◌, ◌-◌, ◌*◌, ◌%◌, ◌^◌, ◌≤◌, ◌<◌, ◌≡◌, refl, true, false, arith, ltb, ◌==◌,
  Bool-cases, inl, inr, ◌∙◌,
}
use aioncore.Base.Bits.Shifts.{bit_or-below}
use aioncore.Base.Words.{u32_mod}
use aioncore.Hal.{Cpu, Hardware, io_inb, outb}
use aioncore.Timer.{finished, read_count, elapsed, wait_from, pit_wait_ticks}
use aioncore.Timer.Counter.{shown, IsCounter, stretched, ticks_by, elapsed_lem, elapsed-lt}

-- After `n` readings of the count; the tables, the flags and the time stamp counter are as before.
pub record Quiet (n : ℕ) (c out : Cpu) : Type 0 where
  pub reads : out.reads ≡ c.reads + 2 * n
  pub clocks : out.clocks ≡ c.clocks
  pub eflags : out.eflags ≡ c.eflags
  pub gdt : out.gdt ≡ c.gdt
  pub gates : out.idt.idt ≡ c.idt.idt
  pub handlers : out.idt.interrupt_handlers ≡ c.idt.interrupt_handlers

trans-Quiet : (n k : ℕ) (a b c : Cpu) → Quiet n a b → Quiet k b c → Quiet (n + k) a c
trans-Quiet n k a b c x y =
    let r = x.reads in
    let s = y.reads in
    record {
      reads = omega arith;
      clocks = y.clocks ∙ x.clocks;
      eflags = y.eflags ∙ x.eflags;
      gdt = y.gdt ∙ x.gdt;
      gates = y.gates ∙ x.gates;
      handlers = y.handlers ∙ x.handlers;
    }

read-Quiet : (hw : Hardware) (c : Cpu) → Quiet 1 c (read_count hw c).0
unfolding read_count io_inb outb
read-Quiet hw c = record {
  reads = omega arith;
  clocks = refl;
  eflags = refl;
  gdt = refl;
  gates = refl;
  handlers = refl;
}

-- How the wait ends: after the first reading `j` at which the count has reached `ticks`.
pub record Waited (period : ℕ) (pos : ℕ → ℕ) (ticks j : ℕ) (c out : Cpu) : Type 0 where
  pub reached : ticks ≤ ticks_by period pos j
  pub not_before : (i : ℕ) → i < j → ticks_by period pos i < ticks
  pub quiet : Quiet (j + 1) c out

module _ (hw : Hardware) (from p : ℕ) (at_tick : ℕ → ℕ) (pos : 0 < p) (big : p ≤ 65536)
    (v : IsCounter hw from p at_tick) where
  shown_here :
      (k : ℕ) (c : Cpu) → c.reads ≡ from + 2 * k → (read_count hw c).1 ≡ shown p (at_tick k)
  unfolding read_count io_inb outb
  shown_here k c e =
      let s = v.shows k in
      let lo = v.low_small (from + 2 * k) in
      let b = bit_or-below (hw.inb (from + 2 * k + 1) 0x40) (hw.inb (from + 2 * k) 0x40) lo in
      rw e (rw b (omega arith))

  step :
      (k : ℕ)
      → stretched p (at_tick k) + elapsed (shown p (at_tick k)) (shown p (at_tick (k + 1)))
        ≡ stretched p (at_tick (k + 1))
  step k = elapsed_lem p (at_tick k) (at_tick (k + 1)) pos big (v.goes_on k) (v.in_time k)

  rises : (k : ℕ) → stretched p (at_tick 0) ≤ stretched p (at_tick k)
  rises zero = omega arith
  rises (suc k) = let e : suc k ≡ k + 1 = omega arith in rw e (omega (arith, rises k, step k))

  -- what the loop adds to a count below `ticks`
  total-eq :
      (ticks k : ℕ)
      → ticks + 65536 ≤ 2 ^ 32
      → ticks_by p at_tick k < ticks
      → (ticks_by p at_tick k + elapsed (shown p (at_tick k)) (shown p (at_tick (k + 1)))) % u32_mod
        ≡ ticks_by p at_tick (k + 1)
  total-eq ticks k room lt =
      let s = step k in
      let r = rises k in
      let e = elapsed-lt (shown p (at_tick k)) (shown p (at_tick (k + 1))) (omega arith) in
      omega arith

  -- the loop from reading `k` on, with a reading `k + n` that ends it
  abbrev Ends : (fuel ticks k n : ℕ) → Cpu → Type 0
  Ends fuel ticks k n c =
      (j : ℕ) × (out : Cpu) × (j ≤ k + n)
      × (k ≤ j)
      × (wait_from fuel hw ticks (ticks_by p at_tick k) (shown p (at_tick k)) c ≡ finished out)
      × (ticks ≤ ticks_by p at_tick j)
      × ((i : ℕ) → i < j → ticks_by p at_tick i < ticks)
      × Quiet (j - k) c out

  stops_now :
      (fuel ticks k n : ℕ) (c : Cpu)
      → ticks ≤ ticks_by p at_tick k
      → ((i : ℕ) → i < k → ticks_by p at_tick i < ticks)
      → Ends fuel ticks k n c
  unfolding wait_from
  stops_now zero ticks k n c le before =
      let b : ltb (ticks_by p at_tick k) ticks ≡ false = ground arith in
      (
        k,
        c,
        omega arith,
        omega arith,
        rw b refl,
        le,
        before,
        record {
          reads = omega arith;
          clocks = refl;
          eflags = refl;
          gdt = refl;
          gates = refl;
          handlers = refl;
        },
      )
  stops_now (suc fuel) ticks k n c le before =
      let b : ltb (ticks_by p at_tick k) ticks ≡ false = ground arith in
      (
        k,
        c,
        omega arith,
        omega arith,
        rw b refl,
        le,
        before,
        record {
          reads = omega arith;
          clocks = refl;
          eflags = refl;
          gdt = refl;
          gates = refl;
          handlers = refl;
        },
      )

  sooner :
      (ticks k : ℕ)
      → ((i : ℕ) → i < k → ticks_by p at_tick i < ticks)
      → ticks_by p at_tick k < ticks
      → (i : ℕ) → i < k + 1
      → ticks_by p at_tick i < ticks
  sooner ticks k before lt i le = elim (Bool-cases (i == k)) [
    | inl e ↦ let e : i ≡ k = ground arith in rw e lt
    | inr e ↦ before i (ground arith)
  ]

  -- one more reading, and the loop after it
  wait-suc :
      (fuel ticks k : ℕ) (c : Cpu)
      → ticks + 65536 ≤ 2 ^ 32
      → c.reads ≡ from + 2 * (k + 1)
      → ticks_by p at_tick k < ticks
      → wait_from (suc fuel) hw ticks (ticks_by p at_tick k) (shown p (at_tick k)) c
        ≡ wait_from fuel hw ticks
            (ticks_by p at_tick (k + 1))
            (shown p (at_tick (k + 1)))
            (read_count hw c).0
  unfolding wait_from
  wait-suc fuel ticks k c room e lt =
      let b : ltb (ticks_by p at_tick k) ticks ≡ true = ground arith in
      let s = shown_here (k + 1) c e in let f = total-eq ticks k room lt in rw b (rw s (rw f refl))

  wait-Ends :
      (fuel ticks k n : ℕ) (c : Cpu)
      → ticks + 65536 ≤ 2 ^ 32
      → c.reads ≡ from + 2 * (k + 1)
      → n ≤ fuel
      → ticks ≤ ticks_by p at_tick (k + n)
      → ((i : ℕ) → i < k → ticks_by p at_tick i < ticks)
      → Ends fuel ticks k n c
  wait-Ends fuel ticks k zero c room e enough end before =
      let z : k + 0 ≡ k = omega arith in stops_now fuel ticks k 0 c (rw z at end) before
  wait-Ends zero ticks k (suc n) c room e enough end before = absurd (omega arith)
  wait-Ends (suc fuel) ticks k (suc n) c room e enough end before =
      elim (Bool-cases (ltb (ticks_by p at_tick k) ticks)) [
        | inr done ↦ stops_now (suc fuel) ticks k (suc n) c (ground arith) before
        | inl more ↦
            let lt : ticks_by p at_tick k < ticks = ground arith in
            let z : k + suc n ≡ k + 1 + n = omega arith in
            let d = (read_count hw c).0 in
            let q = read-Quiet hw c in
            let (j, out, le, ge, eq, reached, not_before, quiet) =
              wait-Ends fuel ticks (k + 1) n d room (q.reads ∙ omega arith) (omega arith)
                (rw z at end) (sooner ticks k before lt) in
            let m : 1 + (j - (k + 1)) ≡ j - k = omega arith in
            (
              j,
              out,
              omega arith,
              omega arith,
              wait-suc fuel ticks k c room e lt ∙ eq,
              reached,
              not_before,
              rw m at (trans-Quiet 1 (j - (k + 1)) c d out q quiet),
            )
      ]

  pub pit_wait_ticks-Waited :
      (fuel ticks n : ℕ) (c : Cpu)
      → c.reads ≡ from
      → ticks + 65536 ≤ 2 ^ 32
      → n ≤ fuel
      → ticks ≤ ticks_by p at_tick n
      → (j : ℕ) × (out : Cpu) × (pit_wait_ticks fuel hw ticks c ≡ finished out)
        × (j ≤ n)
        × Waited p at_tick ticks j c out
  unfolding pit_wait_ticks
  pit_wait_ticks-Waited fuel ticks n c here room enough end =
      let d = (read_count hw c).0 in
      let q = read-Quiet hw c in
      let first_n : 0 + n ≡ n = omega arith in
      let (j, out, le, ge, eq, reached, not_before, quiet) =
        wait-Ends fuel ticks 0 n d room (q.reads ∙ omega arith) enough (rw first_n end)
          (λ i lt. elim lt [ ]) in
      let s = shown_here 0 c (here ∙ omega arith) in
      let z : ticks_by p at_tick 0 ≡ 0 = omega arith in
      let m : 1 + (j - 0) ≡ j + 1 = omega arith in
      (
        j,
        out,
        rw s (rw z at eq),
        omega arith,
        record {
          reached = reached;
          not_before = not_before;
          quiet = rw m at (trans-Quiet 1 (j - 0) c d out q quiet);
        },
      )
