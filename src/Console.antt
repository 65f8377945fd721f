-- ===== src/Console.antt =====
-- core/console.c and include/kernel/console.h: the multiplexer that sends output to the registered
-- backends. What a backend's `init` returns is a parameter; of its other functions the model says
-- whether they are there, and each output call gives the list of the backends that are called.
pub mod Registry
mod Tests
use aioncore.Base.{
  ℕ, zero, suc, ◌+◌, ◌-◌, Bool, true, false, not, ◌&&◌, ◌||◌, ◌==◌, ltb, leb, if◌then◌else◌, update,
  List, [], ◌∷◌,
}
use aioncore.Base.Words.{inc32, dec32}

abbrev pub max_console_backends : ℕ
max_console_backends = 4

-- `struct console_backend`; a function pointer is kept as whether it is not NULL.
pub record ConsoleBackend : Type 0 where
  pub init : Bool
  pub putchar : Bool
  pub write : Bool
  pub set_color : Bool
  pub clear : Bool
  pub enabled : Bool

-- The array `backends`, its count, and the backend at each address.
pub record Console : Type 0 where
  pub backends : ℕ → ℕ
  pub backend_count : ℕ
  pub objects : ℕ → ConsoleBackend

unfoldable pub console_init : Console → Console
console_init s = record s {
  backend_count = 0;
  backends = λ i. if ltb i max_console_backends then 0 else s.backends i;
}

abbrev pub set_enabled : Console → (backend : ℕ) → Bool → Console
set_enabled s backend enable =
    let b = s.objects backend in
    record s { objects = update s.objects backend (record b { enabled = enable }) }

module _ (init_result : ℕ → ℕ) where
  -- The new state, and whether 0 is returned; -1 otherwise.
  unfoldable pub console_register : Console → (backend : ℕ) → Console × Bool
  console_register s backend =
      if backend == 0
      then (s, false)
      else if leb max_console_backends s.backend_count
      then (s, false)
      else if (s.objects backend).init && not (init_result backend == 0)
      then (s, false)
      else (let s = record s {
        backends = update s.backends s.backend_count backend;
        backend_count = inc32 s.backend_count;
      } in
          (set_enabled s backend true, true))

-- The loop that moves the later backends down: `n` rounds from `j` on.
unfoldable pub shift_down : (n j : ℕ) → (ℕ → ℕ) → ℕ → ℕ
shift_down zero j a = a
shift_down (suc n) j a = shift_down n (j + 1) (update a j (a (j + 1)))

-- The search: `n` backends left to look at, from `i` on.
unfoldable pub unregister_from : (n i : ℕ) → Console → (backend : ℕ) → Console × Bool
unregister_from zero i s backend = (s, false)
unregister_from (suc n) i s backend =
    let rest = unregister_from n (i + 1) s backend in
    if s.backends i == backend
    then (let last = dec32 s.backend_count in
        (
          record s {
            backends = update (shift_down (last - i) i s.backends) last 0;
            backend_count = last;
          },
          true,
        ))
    else rest

unfoldable pub console_unregister : Console → (backend : ℕ) → Console × Bool
console_unregister s backend =
    if backend == 0 then (s, false) else unregister_from s.backend_count 0 s backend

unfoldable pub console_enable : Console → (backend : ℕ) → Bool → Console
console_enable s backend enable = if backend == 0 then s else set_enabled s backend enable

-- The loop of the four output calls: the backends that are called, in order.
unfoldable pub called : (has_function : ConsoleBackend → Bool) → (n i : ℕ) → Console → List ℕ
called has_function zero i s = []
called has_function (suc n) i s =
    let rest = called has_function n (i + 1) s in
    let b = s.backends i in
    let object = s.objects b in
    if not (b == 0) && (object.enabled && has_function object) then b ∷ rest else rest

unfoldable pub console_putchar : Console → List ℕ
console_putchar s = called (λ (b : ConsoleBackend). b.putchar) s.backend_count 0 s

unfoldable pub console_write : Console → List ℕ
console_write s = called (λ (b : ConsoleBackend). b.write) s.backend_count 0 s

unfoldable pub console_set_color : Console → List ℕ
console_set_color s = called (λ (b : ConsoleBackend). b.set_color) s.backend_count 0 s

unfoldable pub console_clear : Console → List ℕ
console_clear s = called (λ (b : ConsoleBackend). b.clear) s.backend_count 0 s
