-- ===== src/Percpu/Trace.antt =====
-- The trace buffer of core/percpu.c as a queue: writes go to its back unless it is full, reads take
-- from its front.
use aioncore.Base.{
  ℕ, zero, suc, ◌+◌, ◌-◌, ◌%◌, ◌<◌, ◌≡◌, ◌≢◌, refl, arith, inl, inr, ◌==◌, ==_iff, if◌then◌else◌,
  update, List, [], ◌∷◌, ◌++◌, take, drop, take-append-drop, Bool-cases, ◌∙◌, ap, sym,
}
use mathlib.Core.List.{append-nil, append_assoc}
use aioncore.Base.Words.{inc32}
use aioncore.Percpu.{TraceEvent, TraceBuffer, put_event, read_events}

-- `n` events from the index `i` on, round the end of the array.
unfoldable pub window : (ℕ → TraceEvent) → (n i : ℕ) → List TraceEvent
window e zero i = []
window e (suc n) i = e i ∷ window e n ((i + 1) % 1024)

-- how many events wait
abbrev pub used : TraceBuffer → ℕ
used t = (t.head + 1024 - t.tail) % 1024

-- the events that wait, oldest first
unfoldable pub contents : TraceBuffer → List TraceEvent
contents t = window t.events (used t) t.tail

abbrev pub InRange : TraceBuffer → Type 0
InRange t = (t.head < 1024) × (t.tail < 1024)

-- The next event lands behind the window.
window-snoc :
    (e : ℕ → TraceEvent) (event : TraceEvent) (n i at : ℕ)
    → i < 1024
    → n < 1024
    → at ≡ (i + n) % 1024
    → window (update e at event) (n + 1) i ≡ window e n i ++ (event ∷ [])
unfolding window
window-snoc e event zero i at lt small h = let z : at ≡ i = omega arith in rw z (ground arith)
window-snoc e event (suc n) i at lt small h =
    ground
      (arith, window-snoc e event n ((i + 1) % 1024) at (omega arith) (omega arith) (omega arith))

-- What a write does: the event goes to the back, or, with 1023 events waiting, only the overflow
-- count goes up.
pub record Written (t : TraceBuffer) (event : TraceEvent) (u : TraceBuffer) : Type 0 where
  pub contents : contents u ≡ (if used t == 1023 then contents t else contents t ++ (event ∷ []))
  pub overflow : u.overflow ≡ (if used t == 1023 then inc32 t.overflow else t.overflow)
  pub in_range : InRange u

put_event-cases :
    (t : TraceBuffer) (event : TraceEvent)
    → InRange t
    → put_event t event ≡ (
        if used t == 1023
        then record t { overflow = inc32 t.overflow }
        else record t { events = update t.events t.head event; head = (t.head + 1) % 1024 })
unfolding put_event
put_event-cases t event (a, b) = ground arith

-- Writing to a buffer with both indices in range appends the event to the waiting events, or, if
-- 1023 of them wait, drops it and counts it.
pub put_event-Written :
    (t : TraceBuffer) (event : TraceEvent) → InRange t → Written t event (put_event t event)
unfolding contents
put_event-Written t event (a, b) =
    rw (put_event-cases t event (a, b)) (elim (Bool-cases (used t == 1023)) [
      | inl e ↦ rw e (record { contents = rw e refl; overflow = rw e refl; in_range = (a, b) })
      | inr e ↦
          let more : ((t.head + 1) % 1024 + 1024 - t.tail) % 1024 ≡ used t + 1 = ground arith in
          rw e (record {
            contents = rw e (
                rw more (
                  window-snoc t.events event (used t) t.tail t.head b (omega arith) (omega arith)));
            overflow = rw e refl;
            in_range = (omega arith, b);
          })
    ])

-- What a read of up to `n` events does: it takes them off the front.
pub record Taken (t : TraceBuffer) (n : ℕ) (out : TraceBuffer × List TraceEvent) : Type 0 where
  pub copied : out.1 ≡ take n (contents t)
  pub contents : contents out.0 ≡ drop n (contents t)
  pub overflow : out.0.overflow ≡ t.overflow
  pub in_range : InRange out.0

abbrev advanced : TraceBuffer → TraceBuffer
advanced t = record t { tail = (t.tail + 1) % 1024 }

read_events-suc :
    (n : ℕ) (t : TraceBuffer)
    → InRange t
    → read_events (suc n) t ≡ (
        if used t == 0
        then (t, [])
        else ((read_events n (advanced t)).0, t.events t.tail ∷ (read_events n (advanced t)).1))
unfolding read_events
read_events-suc n t (a, b) =
    let same : inc32 t.tail % 1024 ≡ (t.tail + 1) % 1024 = omega arith in rw same (ground arith)

-- The front of a buffer that is not empty.
contents-front :
    (t : TraceBuffer)
    → InRange t
    → used t ≢ 0
    → contents t ≡ t.events t.tail ∷ contents (advanced t)
unfolding contents window
contents-front t (a, b) ne = let m : used t ≡ suc (used (advanced t)) = ground arith in rw m refl

contents_none : (t : TraceBuffer) → used t ≡ 0 → contents t ≡ []
unfolding contents window
contents_none t h = rw h refl

-- A read of at most `n` events from a buffer with both indices in range copies the `n` oldest
-- waiting events, or all if fewer wait, in order, and leaves the others waiting.
pub read_events-Taken : (n : ℕ) (t : TraceBuffer) → InRange t → Taken t n (read_events n t)
unfolding read_events
read_events-Taken zero t r = record {
  copied = refl;
  contents = refl;
  overflow = refl;
  in_range = r;
}
read_events-Taken (suc n) t r = rw (read_events-suc n t r) (elim (Bool-cases (used t == 0)) [
  | inl e ↦
      let none_ : contents t ≡ [] = contents_none t ((==_iff (used t) 0).0 e) in
      rw e
        (record { copied = rw none_ refl; contents = rw none_ refl; overflow = refl; in_range = r })
  | inr e ↦
      let front = contents-front t r (ground (arith, e)) in
      let next = read_events-Taken n (advanced t) (r.0, omega arith) in
      rw e (record {
        copied = rw front (ap (λ (xs : List TraceEvent). t.events t.tail ∷ xs) next.copied);
        contents = rw front next.contents;
        overflow = next.overflow;
        in_range = next.in_range;
      })
])

-- A history of the buffer from `t` to `u`: the events that were accepted, and those that were read.
pub data Run (t : TraceBuffer) : TraceBuffer → (written got : List TraceEvent) → Type 0 where
  start : Run t t [] []
  write :
      {u : TraceBuffer} {written got : List TraceEvent} (event : TraceEvent)
      → Run t u written got
      → used u ≢ 1023
      → Run t (put_event u event) (written ++ (event ∷ [])) got
  drop_event :
      {u : TraceBuffer} {written got : List TraceEvent} (event : TraceEvent)
      → Run t u written got
      → used u ≡ 1023
      → Run t (put_event u event) written got
  read :
      {u : TraceBuffer} {written got : List TraceEvent} (n : ℕ)
      → Run t u written got
      → Run t (read_events n u).0 written (got ++ (read_events n u).1)

abbrev Kept : (t u : TraceBuffer) → (written got : List TraceEvent) → Type 0
Kept t u written got = (contents t ++ written ≡ got ++ contents u) × InRange u

Kept-write :
    (t u : TraceBuffer) (written got : List TraceEvent) (event : TraceEvent)
    → Kept t u written got
    → used u ≢ 1023
    → Kept t (put_event u event) (written ++ (event ∷ [])) got
Kept-write t u written got event (same, r) room =
    let w = put_event-Written u event r in
    let c : contents (put_event u event) ≡ contents u ++ (event ∷ []) =
      ground (arith, w.contents) in
    (
      sym (append_assoc (contents t) written (event ∷ []))
          ∙ ap (λ (xs : List TraceEvent). xs ++ (event ∷ [])) same
          ∙ append_assoc got (contents u) (event ∷ [])
          ∙ rw c refl,
      w.in_range,
    )

Kept-read :
    (t u : TraceBuffer) (written got : List TraceEvent) (n : ℕ)
    → Kept t u written got
    → Kept t (read_events n u).0 written (got ++ (read_events n u).1)
Kept-read t u written got n (same, r) =
    let w = read_events-Taken n u r in
    (
      same
          ∙ rw w.copied (
              rw w.contents (
                ap (λ (xs : List TraceEvent). got ++ xs) (sym (take-append-drop n (contents u)))
                ∙ sym (append_assoc got (take n (contents u)) (drop n (contents u))))),
      w.in_range,
    )

-- Over every history of writes and reads that starts with both indices in range, the events that
-- waited at the start followed by those accepted are the events read followed by those that still
-- wait, in this order, and the indices stay in range.
pub Run-Kept :
    {t u : TraceBuffer} {written got : List TraceEvent}
    → InRange t
    → Run t u written got
    → (contents t ++ written ≡ got ++ contents u) × InRange u
Run-Kept {t} r Run.start = (append-nil (contents t), r)
Run-Kept r (Run.write event before room) = Kept-write _ _ _ _ event (Run-Kept r before) room
Run-Kept r (Run.read n before) = Kept-read _ _ _ _ n (Run-Kept r before)
Run-Kept {t} r (Run.drop_event {u} event before full) =
    let (same, small) = Run-Kept r before in
    let w = put_event-Written u event small in
    let c : contents (put_event u event) ≡ contents u = ground (arith, w.contents) in
    (rw c same, w.in_range)
