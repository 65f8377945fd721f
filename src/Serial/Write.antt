-- ===== src/Serial/Write.antt =====
-- What drivers/serial/uart.c sends when the hardware becomes ready again and again.
use Prim.Native.Nat.{bit_and}
use mathlib.Core.Bool.{false≢true}
use mathlib.Core.Path.{subst}
use aioncore.Base.{
  ℕ, zero, suc, ◌+◌, ◌-◌, ◌<◌, ◌≡◌, ◌≢◌, refl, Bool, true, false, not, ◌==◌, if◌then◌else◌, List,
  [], ◌∷◌, ◌++◌, some, arith, inl, inr, Bool-cases, ◌∙◌, sym,
}
use aioncore.Serial.{
  Serial, Hardware, status_bit, serial_transmit_empty, wait_empty, send, serial_putchar, put_next,
  write_from, serial_write,
}

abbrev pub is_empty : Hardware → (n port : ℕ) → Bool
is_empty inb n port = not (bit_and (inb n (port + 5)) 32 == 0)

-- Among any `fuel` readings of the line status there is one that finds the transmit buffer empty.
abbrev pub IsReady : (fuel : ℕ) → Hardware → (port : ℕ) → Type 0
IsReady fuel inb port = (n : ℕ) → (i : ℕ) × (i < fuel) × (is_empty inb (n + i) port ≡ true)

-- A line feed is sent as a carriage return and a line feed.
abbrev pub with_returns : List ℕ → List ℕ
with_returns [] = []
with_returns (c ∷ str) = if c == 10 then 13 ∷ 10 ∷ with_returns str else c ∷ with_returns str

-- the bytes sent to a port after others
abbrev pub sent : (port : ℕ) → List ℕ → List (ℕ × ℕ) → List (ℕ × ℕ)
sent port [] ports = ports
sent port (c ∷ str) ports = sent port str ((port, c) ∷ ports)

sent-append :
    (port : ℕ) (xs ys : List ℕ) (ports : List (ℕ × ℕ))
    → sent port (xs ++ ys) ports ≡ sent port ys (sent port xs ports)
sent-append port [] ys ports = refl
sent-append port (x ∷ xs) ys ports = sent-append port xs ys ((port, x) ∷ ports)

-- Only the readings and the bytes sent differ, and these are `str` more.
pub record Sent (str : List ℕ) (s t : Serial) : Type 0 where
  pub port : t.port ≡ s.port
  pub initialized : t.initialized ≡ s.initialized
  pub ports : t.ports ≡ sent (s.port + 0) str s.ports

-- the state after one reading
abbrev polled : Serial → Serial
polled s = record s { polls = s.polls + 1 }

transmit_empty-eq :
    (inb : Hardware) (s : Serial)
    → s.initialized ≡ true
    → serial_transmit_empty inb s ≡ (polled s, is_empty inb s.polls s.port)
unfolding serial_transmit_empty status_bit
transmit_empty-eq inb s h = ground arith

wait-suc :
    (fuel : ℕ) (inb : Hardware) (s : Serial)
    → s.initialized ≡ true
    → wait_empty (suc fuel) inb s
      ≡ (if is_empty inb s.polls s.port then some (polled s) else wait_empty fuel inb (polled s))
unfolding wait_empty
wait-suc fuel inb s h = let e = transmit_empty-eq inb s h in rw e refl

wait-some :
    (fuel : ℕ) (inb : Hardware) (s : Serial) (i : ℕ)
    → s.initialized ≡ true
    → i < fuel
    → is_empty inb (s.polls + i) s.port ≡ true
    → (t : Serial) × (wait_empty fuel inb s ≡ some t) × Sent [] s t
wait-some zero inb s i h lt e = absurd (omega arith)
wait-some (suc fuel) inb s i h lt e = elim (Bool-cases (is_empty inb s.polls s.port)) [
  | inl k ↦ (
    polled s,
    wait-suc fuel inb s h ∙ rw k refl,
    record { port = refl; initialized = refl; ports = refl },
  )
  | inr k ↦
      let later : i ≢ 0 = (λ z.
        let same : s.polls + i ≡ s.polls = omega arith in false≢true (sym k ∙ (rw same at e))) in
      let next : s.polls + 1 + (i - 1) ≡ s.polls + i = omega arith in
      let (t, found, v) = wait-some fuel inb (polled s) (i - 1) h (omega arith) (rw next e) in
      (
        t,
        wait-suc fuel inb s h ∙ rw k found,
        record { port = v.port; initialized = v.initialized; ports = v.ports },
      )
]

-- An initialised port sends a character, and goes on.
pub putchar-Sent :
    (fuel : ℕ) (inb : Hardware) (c : ℕ) (s : Serial)
    → s.initialized ≡ true
    → IsReady fuel inb s.port
    → (t : Serial) × (serial_putchar fuel inb c s ≡ some t) × Sent (c ∷ []) s t
unfolding serial_putchar send
putchar-Sent fuel inb c s h ready =
    let (i, lt, e) = ready s.polls in
    let (t, found, v) = wait-some fuel inb s i h lt e in
    let port = v.port in
    let ports = v.ports in
    (
      record t { ports = (t.port + 0, c) ∷ t.ports },
      rw found (ground arith),
      record { port = v.port; initialized = v.initialized; ports = rw port (rw ports refl) },
    )

-- the characters of one call after those of another
trans-Sent : (xs ys : List ℕ) (s t u : Serial) → Sent xs s t → Sent ys t u → Sent (xs ++ ys) s u
trans-Sent xs ys s t u a b =
    let p = a.port in
    let q = a.ports in
    record {
      port = b.port ∙ a.port;
      initialized = b.initialized ∙ a.initialized;
      ports = b.ports ∙ rw p (rw q (sym (sent-append (s.port + 0) xs ys s.ports)));
    }

-- what a call has to produce
abbrev Written : (fuel : ℕ) → Hardware → List ℕ → Serial → Type 0
Written fuel inb str s =
    (t : Serial) × (serial_write fuel inb str s ≡ some t) × Sent (with_returns str) s t

write_line_feed :
    (fuel : ℕ) (inb : Hardware) (c : ℕ) (str : List ℕ) (s t u v : Serial)
    → (c == 10) ≡ true
    → serial_putchar fuel inb 13 s ≡ some t
    → serial_putchar fuel inb c t ≡ some u
    → serial_write fuel inb str u ≡ some v
    → Sent (13 ∷ []) s t
    → Sent (c ∷ []) t u
    → Sent (with_returns str) u v
    → Written fuel inb (c ∷ str) s
unfolding serial_write write_from put_next
write_line_feed fuel inb c str s t u v k e f g a b d =
    let z : c ≡ 10 = ground arith in
    let line : Sent (10 ∷ with_returns str) t v =
      trans-Sent (10 ∷ []) (with_returns str) t u v (subst (λ x. Sent (x ∷ []) t u) z b) d in
    (v, rw k (rw e (rw f g)), rw k (trans-Sent (13 ∷ []) (10 ∷ with_returns str) s t v a line))

write_other :
    (fuel : ℕ) (inb : Hardware) (c : ℕ) (str : List ℕ) (s u v : Serial)
    → (c == 10) ≡ false
    → serial_putchar fuel inb c s ≡ some u
    → serial_write fuel inb str u ≡ some v
    → Sent (c ∷ []) s u
    → Sent (with_returns str) u v
    → Written fuel inb (c ∷ str) s
unfolding serial_write write_from put_next
write_other fuel inb c str s u v k f g b d =
    (v, rw k (rw f g), rw k (trans-Sent (c ∷ []) (with_returns str) s u v b d))

-- If among any number of readings of the line status equal to the fuel there is one that finds the
-- transmit buffer empty, writing a text to an initialised port ends, and has sent exactly its
-- characters, in order, with a carriage return before each line feed.
pub serial_write-Sent :
    (fuel : ℕ) (inb : Hardware) (str : List ℕ) (s : Serial)
    → s.initialized ≡ true
    → IsReady fuel inb s.port
    → (t : Serial) × (serial_write fuel inb str s ≡ some t) × Sent (with_returns str) s t
unfolding serial_write write_from
serial_write-Sent fuel inb [] s h ready =
    (s, refl, record { port = refl; initialized = refl; ports = refl })
serial_write-Sent fuel inb (c ∷ str) s h ready = elim (Bool-cases (c == 10)) [
  | inl k ↦
      let (t, e, a) = putchar-Sent fuel inb 13 s h ready in
      let p = a.port in
      let (u, f, b) = putchar-Sent fuel inb c t (a.initialized ∙ h) (rw p ready) in
      let q : u.port ≡ s.port = b.port ∙ a.port in
      let (v, g, d) =
        serial_write-Sent fuel inb str u (b.initialized ∙ a.initialized ∙ h) (rw q ready) in
      write_line_feed fuel inb c str s t u v k e f g a b d
  | inr k ↦
      let (u, f, b) = putchar-Sent fuel inb c s h ready in
      let q = b.port in
      let (v, g, d) = serial_write-Sent fuel inb str u (b.initialized ∙ h) (rw q ready) in
      write_other fuel inb c str s u v k f g b d
]
