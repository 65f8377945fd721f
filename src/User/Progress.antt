-- ===== src/User/Progress.antt =====
-- How far `task_create_user` of core/user.c has come, and its steps in the page tables.
use aioncore.Base.{
  ℕ, zero, suc, ap, ◌+◌, ◌-◌, ◌*◌, ◌/◌, ◌%◌, ◌^◌, ◌≤◌, ◌<◌, ◌≡◌, ◌≢◌, refl, true, arith, ◌==◌,
  if◌then◌else◌, ◌∙◌, inl, inr, ◌⊎◌,
}
use aioncore.Base.Words.{inc32}
use aioncore.Task.{Task}
use aioncore.Pmm.{Pmm, bitmap_test, pmm_alloc_page}
use aioncore.Mmu.{mmu_map_page}
use aioncore.Mmu.Tables.{cell}
use aioncore.Mmu.Walk.{IsOutside}
use aioncore.Mmu.Ensure.{map_page-pmm}
use aioncore.Mmu.Map.{Space, found, Mapped, mmu_map_page-Mapped}
use aioncore.Tasks.{Machine, pmm_of}
use aioncore.User.{byte_at, with_mmu}

-- The bytes of a frame whose words are the same.
pub same_bytes :
    (m n : ℕ → ℕ) (c k : ℕ)
    → ((j : ℕ) → j < 1024 → cell n c j ≡ cell m c j)
    → k < 4096
    → byte_at n (c * 4096 + k) ≡ byte_at m (c * 4096 + k)
unfolding byte_at
same_bytes m n c k same lt =
    let a = c * 4096 + k in
    let e : a - a % 4 ≡ c * 4096 + 4 * (k / 4) = omega arith in
    let s = same (k / 4) (omega arith) in rw e (rw s refl)

-- The frame allocator after `k` allocations in a row.
abbrev pub allocated : (k : ℕ) → Pmm → Pmm
allocated zero p = p
allocated (suc k) p = (pmm_alloc_page (allocated k p)).0

-- From `m` to `x` there were at most `u` allocations, and nothing was freed.
abbrev pub Asked : (u : ℕ) → (m x : Machine) → Type 0
Asked u m x = (k : ℕ) × (k ≤ u) × (pmm_of x ≡ allocated k (pmm_of m))

-- Mapping a page allocates once at most.
pub map-Asked :
    (u : ℕ) (m x : Machine) (pt phys virt flags : ℕ)
    → Asked u m x
    → Asked (suc u) m (with_mmu x (mmu_map_page x.mmu pt phys virt flags).0)
map-Asked u m x pt phys virt flags (k, le, e) = elim (map_page-pmm x.mmu pt phys virt flags) [
  | inl same ↦ (k, omega arith, same ∙ e)
  | inr once ↦ (suc k, omega arith, once ∙ ap (λ (p : Pmm). (pmm_alloc_page p).0) e)
]

-- The state `x` on the way from `m`, with the control block `t` of the new task in the page
-- `task`, the code in frame `c`, the stack in frame `s`, the entries `e` in the directory in frame `d`,
-- and the bytes `b` of code copied, `n` of them.
pub record Progress (m : Machine) (task c s d : ℕ) (e : ℕ → ℕ) (b : ℕ → ℕ) (n : ℕ) (t : Task)
    (x : Machine) : Type 0 where
  pub control_block : x.kernel.tasks task ≡ t
  pub others : (a : ℕ) → a ≢ task → x.kernel.tasks a ≡ m.kernel.tasks a
  pub sched : x.kernel.sched ≡ m.kernel.sched
  pub idle : x.kernel.idle_task ≡ m.kernel.idle_task
  pub next_id : x.next_task_id ≡ inc32 m.next_task_id
  pub space : Space x.mmu m.mmu.kernel_address_space d
  pub kernel_space : x.mmu.kernel_address_space ≡ m.mmu.kernel_address_space
  pub cr3 : x.mmu.cr3 ≡ m.mmu.cr3
  pub paging : x.mmu.paging ≡ m.mmu.paging
  pub entries : (page : ℕ) → page < 2 ^ 20 → found x.mmu d page ≡ e page
  pub bytes : (k : ℕ) → k < n → byte_at x.mmu.memory (c * 4096 + k) ≡ b k
  pub code_outside : IsOutside x.mmu.memory d c
  pub others_outside :
      (g : ℕ)
      → bitmap_test (pmm_of m).frame_bitmap g ≡ true
      → IsOutside m.mmu.memory d g
      → IsOutside x.mmu.memory d g
  pub grows :
      (g : ℕ)
      → bitmap_test (pmm_of m).frame_bitmap g ≡ true
      → bitmap_test (pmm_of x).frame_bitmap g ≡ true
  pub task_taken : bitmap_test (pmm_of x).frame_bitmap (task / 4096) ≡ true
  pub code_taken : bitmap_test (pmm_of x).frame_bitmap c ≡ true
  pub stack_taken : bitmap_test (pmm_of x).frame_bitmap s ≡ true

module _ (m : Machine) (task c s d : ℕ) (e b : ℕ → ℕ) (n : ℕ) (t : Task) (x : Machine)
    (v : Progress m task c s d e b n t x) (le : n ≤ 4096) where
  -- A step in the page tables that keeps what the frame allocator has given away.
  pub pages-Progress :
      (phys virt : ℕ) (f : ℕ → ℕ)
      → let made = mmu_map_page x.mmu m.mmu.kernel_address_space phys virt 7 in
        Mapped x.mmu m.mmu.kernel_address_space d phys virt 7 made
        → ((page : ℕ) → page < 2 ^ 20 → found made.0 d page ≡ f page)
        → Progress m task c s d f b n t (with_mmu x made.0)
  pages-Progress phys virt f w g =
      let made = mmu_map_page x.mmu m.mmu.kernel_address_space phys virt 7 in
      let kept = w.others c v.code_taken v.code_outside in
      record {
        control_block = v.control_block;
        others = v.others;
        sched = v.sched;
        idle = v.idle;
        next_id = v.next_id;
        space = w.space;
        kernel_space = w.same_kernel ∙ v.kernel_space;
        cr3 = w.same_cr3 ∙ v.cr3;
        paging = w.same_paging ∙ v.paging;
        entries = g;
        bytes = λ k lt.
            same_bytes x.mmu.memory made.0.memory c k kept.words (omega arith) ∙ v.bytes k lt;
        code_outside = kept.outside;
        others_outside = λ g full o.
            let kept = w.others g (v.grows g full) (v.others_outside g full o) in kept.outside;
        grows = λ h full. w.grows h (v.grows h full);
        task_taken = w.grows (task / 4096) v.task_taken;
        code_taken = w.grows c v.code_taken;
        stack_taken = w.grows s v.stack_taken;
      }

  -- Mapping a page other than page 0.
  pub map-Progress :
      (phys virt : ℕ)
      → phys % 4096 ≡ 0
      → virt % 4096 ≡ 0
      → virt < 2 ^ 32
      → virt ≢ 0
      → let made = mmu_map_page x.mmu m.mmu.kernel_address_space phys virt 7 in
        ((made.1 ≡ 0)
          × ((pmm_alloc_page (pmm_of x)).1 ≡ 0)
          × Progress m task c s d e b n t (with_mmu x made.0))
        ⊎ ((made.1 ≡ virt)
            × Progress m task c s d
                (λ page. if virt / 4096 == page then phys + 7 else e page)
                b
                n
                t
                (with_mmu x made.0))
  map-Progress phys virt pa va lt nz =
      let w = mmu_map_page-Mapped x.mmu m.mmu.kernel_address_space d phys virt 7 v.space pa va lt in
      elim w.outcome [
        | inl (r, _, found_) ↦ inr (
          r,
          pages-Progress phys virt (λ page. if virt / 4096 == page then phys + 7 else e page) w
              (λ page small. found_ page small ∙ ground (arith, v.entries page small)),
        )
        | inr (r, none_left, _, same) ↦ inl (
          r,
          none_left,
          pages-Progress phys virt e w (λ page small. same page small ∙ v.entries page small),
        )
      ]
