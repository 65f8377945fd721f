-- ===== src/Console/Registry.antt =====
-- The registered backends of core/console.c as a list: registration appends to it, removal takes
-- out the first occurrence, and output goes to those that are enabled, in order.
use aioncore.Base.{
  ℕ, zero, suc, ◌+◌, ◌-◌, ◌≤◌, ◌<◌, ◌≡◌, ◌≢◌, refl, Bool, true, false, arith, ◌⊎◌, inl, inr, ◌==◌,
  leb, if◌then◌else◌, update, List, [], ◌∷◌, ◌++◌, Bool-cases, not, ◌&&◌,
}
use aioncore.Base.Words.{inc32, dec32}
use aioncore.Base.Seqs.{has, erase}
use aioncore.Console.{
  Console, ConsoleBackend, max_console_backends, console_register, shift_down, unregister_from,
  console_unregister, called, console_putchar, console_write, console_set_color, console_clear,
}

-- `n` slots of the array from `i` on
unfoldable pub slots : (ℕ → ℕ) → (n i : ℕ) → List ℕ
slots a zero i = []
slots a (suc n) i = a i ∷ slots a n (i + 1)

unfoldable pub registered : Console → List ℕ
registered s = slots s.backends s.backend_count 0

slots-update :
    (a : ℕ → ℕ) (n i at v : ℕ) → (at < i) ⊎ (i + n ≤ at) → slots (update a at v) n i ≡ slots a n i
unfolding slots
slots-update a zero i at v h = refl
slots-update a (suc n) i at v h = ground (arith, slots-update a n (i + 1) at v (ground arith))

slots-snoc :
    (a : ℕ → ℕ) (n i at v : ℕ)
    → at ≡ i + n
    → slots (update a at v) (n + 1) i ≡ slots a n i ++ (v ∷ [])
unfolding slots
slots-snoc a zero i at v h = let z : at ≡ i = omega arith in rw z (ground arith)
slots-snoc a (suc n) i at v h =
    let e : suc n + 1 ≡ suc (n + 1) = omega arith in
    rw e (ground (arith, slots-snoc a n (i + 1) at v (omega arith)))

-- Slots before the moved ones stay.
shift-at : (n j : ℕ) (a : ℕ → ℕ) (k : ℕ) → k < j → shift_down n j a k ≡ a k
unfolding shift_down
shift-at zero j a k lt = refl
shift-at (suc n) j a k lt =
    ground (arith, shift-at n (j + 1) (update a j (a (j + 1))) k (omega arith))

-- The moved slots: each holds what the next one held.
slots-shift : (n j : ℕ) (a : ℕ → ℕ) → slots (shift_down n j a) n j ≡ slots a n (j + 1)
unfolding slots shift_down
slots-shift zero j a = refl
slots-shift (suc n) j a = ground (
  arith,
  shift-at n (j + 1) (update a j (a (j + 1))) j,
  slots-shift n (j + 1) (update a j (a (j + 1))),
  slots-update a n (j + 1 + 1) j (a (j + 1)) (inl (omega arith)),
)

-- Registering `backend` in state `s` has left `t`.
pub record Registered (s : Console) (backend : ℕ) (t : Console) : Type 0 where
  pub appended : registered t ≡ registered s ++ (backend ∷ [])
  pub room : t.backend_count ≤ max_console_backends
  pub enabled : (t.objects backend).enabled ≡ true

-- Registration fails for NULL, a full table or a failing init function and then changes nothing;
-- otherwise it appends the backend to the registered ones, of which there are then at most 4, and
-- enables it.
pub register-cases :
    (init_result : ℕ → ℕ) (s : Console) (backend : ℕ)
    → (((backend ≡ 0)
          ⊎ (max_console_backends ≤ s.backend_count)
          ⊎ (((s.objects backend).init ≡ true) × (init_result backend ≢ 0)))
        × (console_register init_result s backend ≡ (s, false)))
      ⊎ (((console_register init_result s backend).1 ≡ true)
          × Registered s backend (console_register init_result s backend).0)
unfolding console_register registered
register-cases init_result s backend =
    let c = s.backend_count in
    elim (Bool-cases (backend == 0)) [
      | inl e ↦ inl (inl (ground arith), rw e refl)
      | inr e ↦ elim (Bool-cases (leb max_console_backends c)) [
        | inl f ↦ inl (inr (inl (ground arith)), rw e (rw f refl))
        | inr f ↦ elim (Bool-cases ((s.objects backend).init && not (init_result backend == 0))) [
          | inl g ↦ inl (inr (inr (ground arith)), rw e (rw f (rw g refl)))
          | inr g ↦
              let n : inc32 c ≡ c + 1 = ground arith in
              rw e (
                rw f (
                  rw g (
                    inr (
                      refl,
                      record {
                        appended = rw n (slots-snoc s.backends c 0 c backend (omega arith));
                        room = ground arith;
                        enabled = ground arith;
                      },
                    ))))
        ]
      ]
    ]

-- The search from slot `i` on, with `n` slots left.
unregister_from-cases :
    (n i : ℕ) (s : Console) (backend : ℕ)
    → i + n ≡ s.backend_count
    → s.backend_count ≤ max_console_backends
    → ((has backend (slots s.backends n i) ≡ false) × (unregister_from n i s backend ≡ (s, false)))
      ⊎ ((has backend (slots s.backends n i) ≡ true)
          × (k : ℕ) × (i ≤ k)
          × (k < s.backend_count)
          × ((j : ℕ) → i ≤ j → j < k → s.backends j ≢ backend)
          × (s.backends k ≡ backend)
          × (unregister_from n i s backend ≡ (
            record s {
              backends =
                  update
                    (shift_down (s.backend_count - 1 - k) k s.backends)
                    (s.backend_count - 1)
                    0;
              backend_count = s.backend_count - 1;
            },
            true,
          )))
unfolding unregister_from slots
unregister_from-cases zero i s backend e small = inl (refl, refl)
unregister_from-cases (suc n) i s backend e small = elim (Bool-cases (s.backends i == backend)) [
  | inl f ↦
      let last : dec32 s.backend_count ≡ s.backend_count - 1 = omega arith in
      inr (
        ground arith,
        i,
        omega arith,
        omega arith,
        (λ j lo hi. absurd (omega arith)),
        ground arith,
        rw f (rw last refl),
      )
  | inr f ↦ elim (unregister_from-cases n (i + 1) s backend (omega arith) small) [
    | inl (none_, r) ↦ inl (ground arith, rw f r)
    | inr (yes_, k, lo, hi, before, at, r) ↦ inr (
      ground arith,
      k,
      omega arith,
      hi,
      (λ j a b. elim (Bool-cases (i == j)) [
        | inl g ↦ ground arith
        | inr g ↦ before j (ground arith) b
      ]),
      at,
      rw f r,
    )
  ]
]

-- Removing slot `k` by the shift takes the first occurrence out of the list.
erase-shift :
    (k n i : ℕ) (a : ℕ → ℕ) (backend : ℕ)
    → ((j : ℕ) → i ≤ j → j < i + k → a j ≢ backend)
    → a (i + k) ≡ backend
    → slots (update (shift_down n (i + k) a) (i + k + n) 0) (k + n) i
      ≡ erase backend (slots a (k + suc n) i)
unfolding slots erase
erase-shift zero n i a backend before at =
    let z : i + 0 ≡ i = omega arith in
    let y : 0 + n ≡ n = omega arith in
    let x : 0 + suc n ≡ suc n = omega arith in
    rw (z, y, x)
      (ground (
        arith,
        rw z at at,
        slots-update (shift_down n i a) n i (i + n) 0 (inr (omega arith)),
        slots-shift n i a,
      ))
erase-shift (suc k) n i a backend before at =
    let z : i + suc k ≡ i + 1 + k = omega arith in
    let y : suc k + n ≡ suc (k + n) = omega arith in
    let x : suc k + suc n ≡ suc (k + suc n) = omega arith in
    rw (z, y, x)
      (ground (
        arith,
        shift-at n (i + 1 + k) a i (omega arith),
        before i (omega arith) (omega arith),
        erase-shift k n (i + 1) a backend (λ j lo hi. before j (omega arith) (omega arith))
            (rw z at at),
      ))

erase-slot :
    (c k n : ℕ) (a : ℕ → ℕ) (backend : ℕ)
    → c ≡ k + suc n
    → ((j : ℕ) → j < k → a j ≢ backend)
    → a k ≡ backend
    → slots (update (shift_down (c - 1 - k) k a) (c - 1) 0) (c - 1) 0 ≡ erase backend (slots a c 0)
erase-slot c k n a backend h before at =
    let z : 0 + k ≡ k = omega arith in
    let l : c - 1 ≡ k + n = omega arith in
    let m : k + n - k ≡ n = omega arith in
    let moved = erase-shift k n 0 a backend (λ j lo hi. before j (omega arith)) (rw z at) in
    rw l (rw m (rw h (rw z at moved)))

-- With at most 4 registered backends, removal fails for NULL or a backend that is not registered
-- and then changes nothing; otherwise it takes out the first occurrence, keeps the order of the
-- others and changes no backend.
pub unregister-cases :
    (s : Console) (backend : ℕ)
    → s.backend_count ≤ max_console_backends
    → (((backend ≡ 0) ⊎ (has backend (registered s) ≡ false))
        × (console_unregister s backend ≡ (s, false)))
      ⊎ ((has backend (registered s) ≡ true)
          × ((console_unregister s backend).1 ≡ true)
          × (registered (console_unregister s backend).0 ≡ erase backend (registered s))
          × ((console_unregister s backend).0.objects ≡ s.objects))
unfolding console_unregister registered
unregister-cases s backend small = elim (Bool-cases (backend == 0)) [
  | inl e ↦ inl (inl (ground arith), rw e refl)
  | inr e ↦ elim (unregister_from-cases s.backend_count 0 s backend (omega arith) small) [
    | inl (none_, r) ↦ inl (inr none_, rw e r)
    | inr (yes_, k, lo, hi, before, at, r) ↦
        let moved =
          erase-slot s.backend_count k (s.backend_count - 1 - k) s.backends backend (omega arith)
            (λ j b. before j (omega arith) b) at in
        rw e (rw r (inr (yes_, refl, moved, refl)))
  ]
]

abbrev filter : (ℕ → Bool) → List ℕ → List ℕ
filter f [] = []
filter f (x ∷ xs) = if f x then x ∷ filter f xs else filter f xs

called-filter :
    (f : ConsoleBackend → Bool) (n i : ℕ) (s : Console)
    → has 0 (slots s.backends n i) ≡ false
    → called f n i s ≡ filter (λ b. (s.objects b).enabled && f (s.objects b)) (slots s.backends n i)
unfolding called slots
called-filter f zero i s h = refl
called-filter f (suc n) i s h = ground (arith, called-filter f n (i + 1) s)

-- the registered backends that are enabled and have a function, in the order of registration
abbrev pub outputs : (ConsoleBackend → Bool) → Console → List ℕ
outputs f s = filter (λ b. (s.objects b).enabled && f (s.objects b)) (registered s)

-- Without NULL among the registered backends, each of the four output calls goes exactly to
-- those that are enabled and have the function, in the order of registration.
pub output-filter :
    (s : Console)
    → has 0 (registered s) ≡ false
    → (console_putchar s ≡ outputs (λ (b : ConsoleBackend). b.putchar) s)
      × (console_write s ≡ outputs (λ (b : ConsoleBackend). b.write) s)
      × (console_set_color s ≡ outputs (λ (b : ConsoleBackend). b.set_color) s)
      × (console_clear s ≡ outputs (λ (b : ConsoleBackend). b.clear) s)
unfolding console_putchar console_write console_set_color console_clear registered
output-filter s h =
    let n = s.backend_count in
    (
      called-filter (λ (b : ConsoleBackend). b.putchar) n 0 s h,
      called-filter (λ (b : ConsoleBackend). b.write) n 0 s h,
      called-filter (λ (b : ConsoleBackend). b.set_color) n 0 s h,
      called-filter (λ (b : ConsoleBackend). b.clear) n 0 s h,
    )
