-- ===== src/Vga/Driver.antt =====
-- The calls of drivers/vga/vga.c through the driver pointer, which is NULL or the text driver.
use aioncore.Base.{
  ℕ, ◌≡◌, Bool, true, false, if◌then◌else◌, List, [], ◌∷◌, Option, none, some, Bool-cases, inl, inr,
}
use aioncore.Vga.{
  Vga, vga_text_init, vga_text_clear, vga_text_putchar, vga_text_write, vga_text_set_color,
}
use aioncore.Vga.Reach.{Step, Reach, IsScreen, Reach-IsScreen}

-- `vga`, whether it is there, and the state of the text driver.
pub record Driver : Type 0 where
  pub vga : Bool
  pub text : Vga

-- The result is that of the driver's init function, 0.
unfoldable pub vga_subsystem_init : Driver → Driver
vga_subsystem_init d = record { vga = true; text = vga_text_init d.text }

-- A call of the driver, if there is one.
abbrev pub through : (Vga → Vga) → Driver → Driver
through call d = if d.vga then record d { text = call d.text } else d

unfoldable pub vga_clear : Driver → Driver
vga_clear d = through vga_text_clear d

unfoldable pub vga_putchar : (c : ℕ) → Driver → Driver
vga_putchar c d = through (vga_text_putchar c) d

-- A string is the list of its bytes up to the terminator, `none` is NULL.
unfoldable pub vga_write : Option (List ℕ) → Driver → Driver
vga_write none d = d
vga_write (some str) d = through (vga_text_write str) d

unfoldable pub vga_set_color : (fg bg : ℕ) → Driver → Driver
vga_set_color fg bg d = through (vga_text_set_color fg bg) d

pub data Call : Type 0 where
  clear : Call
  putchar : (c : ℕ) → Call
  write : Option (List ℕ) → Call
  set_color : (fg bg : ℕ) → Call

abbrev pub run_call : Call → Driver → Driver
run_call Call.clear d = vga_clear d
run_call (Call.putchar c) d = vga_putchar c d
run_call (Call.write str) d = vga_write str d
run_call (Call.set_color fg bg) d = vga_set_color fg bg d

abbrev pub calls : List Call → Driver → Driver
calls [] d = d
calls (c ∷ cs) d = calls cs (run_call c d)

through-Reach :
    (s : Vga) (call : Vga → Vga) (d : Driver)
    → ((t : Vga) → Step t (call t))
    → Reach s d.text
    → Reach s (through call d).text
through-Reach s call d step r = elim (Bool-cases d.vga) [
  | inl h ↦ rw h (Reach.then r (step d.text))
  | inr h ↦ rw h r
]

run_call-Reach : (s : Vga) (c : Call) (d : Driver) → Reach s d.text → Reach s (run_call c d).text
unfolding vga_clear vga_putchar vga_write vga_set_color
run_call-Reach s Call.clear d r = through-Reach s vga_text_clear d (λ t. Step.clear) r
run_call-Reach s (Call.putchar c) d r =
    through-Reach s (vga_text_putchar c) d (λ t. Step.putchar c) r
run_call-Reach s (Call.write none) d r = r
run_call-Reach s (Call.write (some str)) d r =
    through-Reach s (vga_text_write str) d (λ t. Step.write str) r
run_call-Reach s (Call.set_color fg bg) d r =
    through-Reach s (vga_text_set_color fg bg) d (λ t. Step.set_color fg bg) r

calls-Reach : (s : Vga) (cs : List Call) (d : Driver) → Reach s d.text → Reach s (calls cs d).text
calls-Reach s [] d r = r
calls-Reach s (c ∷ cs) d r = calls-Reach s cs (run_call c d) (run_call-Reach s c d r)

-- Every sequence of calls after vga_subsystem_init stays on the screen.
pub calls-IsScreen :
    (cs : List Call) (d : Driver)
    → d.text.initialized ≡ false
    → IsScreen d.text.memory (calls cs (vga_subsystem_init d)).text
unfolding vga_subsystem_init
calls-IsScreen cs d h =
    Reach-IsScreen d.text (calls cs (vga_subsystem_init d)).text h
      (calls-Reach (vga_text_init d.text) cs (vga_subsystem_init d) Reach.start)
