-- ===== src/Console/Tests.antt =====
-- The console with concrete backends.
use aioncore.Base.{ℕ, ◌≡◌, refl, true, false, ◌==◌, if◌then◌else◌, [], ◌∷◌}
use aioncore.Base.Seqs.{has}
use aioncore.Console.{Console}
use aioncore.Console.Registry.{slots, registered}

-- The backends at 100, 200 and 300 are registered; the one at 200 is disabled.
abbrev console : Console
console = record {
  backends = λ i. if i == 0 then 100 else if i == 1 then 200 else if i == 2 then 300 else 0;
  backend_count = 3;
  objects = λ b. record {
    init = true;
    putchar = true;
    write = true;
    set_color = b == 100;
    clear = true;
    enabled = if b == 200 then false else true;
  };
}

three : registered console ≡ 100 ∷ 200 ∷ 300 ∷ []
unfolding registered slots
three = refl

-- a backend that is not registered, and one that is
abbrev added : ℕ
added = 400

abbrev present : ℕ
present = 200

abbrev fine : ℕ → ℕ
fine _ = 0

no_null : has 0 (registered console) ≡ false
no_null = rw three refl
