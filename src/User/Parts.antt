-- ===== src/User/Parts.antt =====
-- What `task_create_user` of core/user.c makes, and how it fails.
use aioncore.Base.{
  ℕ, ◌+◌, ◌/◌, ◌≤◌, ◌≡◌, ◌≢◌, true, false, arith, ◌==◌, if◌then◌else◌, ◌∙◌, inl, inr, ◌⊎◌, List,
}
use aioncore.Task.{Task, TaskState}
use aioncore.Pmm.{Pmm, bitmap_test, pmm_free_page}
use aioncore.Pmm.Alloc.{Refused, free-cases}
use aioncore.Mmu.{Mmu, mmu_unmap_page}
use aioncore.Mmu.Map.{found}
use aioncore.Sched.Run.{zero_task}
use aioncore.Tasks.{Machine, pmm_of, stored_name}
use aioncore.User.{user_context}
use aioncore.User.Progress.{Progress, allocated}

-- the control block of a user task
abbrev pub user_block : (name : List ℕ) (m : Machine) (kernel_stack : ℕ) → Task
user_block name m kernel_stack =
    let z = zero_task in
    record z {
      task_id = m.next_task_id;
      name = stored_name name;
      state = TaskState.ready;
      priority = 128;
      address_space = m.mmu.kernel_address_space;
      kernel_stack = kernel_stack;
      kernel_stack_size = 4096;
      context = user_context;
    }

-- before it has a kernel stack and a context
abbrev pub blank_block : (name : List ℕ) (m : Machine) → Task
blank_block name m =
    let t = user_block name m 0 in
    let z = zero_task in record t { kernel_stack_size = 0; context = z.context }

-- What the processor finds in the end: the stack below 3 GB and the code at 4 MB, for user mode.
abbrev pub user_entries : (m : Machine) (d code stack page : ℕ) → ℕ
user_entries m d code stack page =
    if 0xBFFFF == page then stack + 7 else if 0x400 == page then code + 7 else found m.mmu d page

-- A user task in the page `task`, with its code, stack and kernel stack in three more pages, all of them
-- in frames that were free and differ.
pub record IsUserTask (name : List ℕ) (m : Machine) (task code stack kernel_stack d : ℕ) (b : ℕ → ℕ)
    (n : ℕ) (out : Machine) : Type 0 where
  pub progress :
      Progress m task
        (code / 4096)
        (stack / 4096)
        d
        (user_entries m d code stack)
        b
        n
        (user_block name m kernel_stack)
        out
  pub were_free :
      (bitmap_test (pmm_of m).frame_bitmap (task / 4096) ≡ false)
      × (bitmap_test (pmm_of m).frame_bitmap (code / 4096) ≡ false)
      × (bitmap_test (pmm_of m).frame_bitmap (stack / 4096) ≡ false)
      × (bitmap_test (pmm_of m).frame_bitmap (kernel_stack / 4096) ≡ false)
  pub differ :
      (task / 4096 ≢ code / 4096)
      × (task / 4096 ≢ stack / 4096)
      × (code / 4096 ≢ stack / 4096)
      × (kernel_stack / 4096 ≢ task / 4096)
      × (kernel_stack / 4096 ≢ code / 4096)
      × (kernel_stack / 4096 ≢ stack / 4096)
  pub kernel_stack_taken : bitmap_test (pmm_of out).frame_bitmap (kernel_stack / 4096) ≡ true

-- One of the five allocations that the code makes at most, each after the one before, was refused; the
-- frame of the control block, if there was one, stays taken.
pub record Failed (m : Machine) (task : ℕ) (out : Machine) : Type 0 where
  pub short : (k : ℕ) × (k ≤ 5) × Refused (allocated k (pmm_of m))
  pub leaks : (task ≡ 0) ⊎ (bitmap_test (pmm_of out).frame_bitmap (task / 4096) ≡ true)

-- freeing another page, and unmapping
pub free_keeps :
    (p : Pmm) (page g : ℕ)
    → page / 4096 ≢ g
    → bitmap_test p.frame_bitmap g ≡ true
    → bitmap_test (pmm_free_page p page).frame_bitmap g ≡ true
free_keeps p page g ne full = elim (free-cases p page) [
  | inl (_, e) ↦ rw e full
  | inr f ↦ f.frames g ∙ ground arith
]

pub unmap-pmm : (s : Mmu) (pt virt : ℕ) → (mmu_unmap_page s pt virt).pmm ≡ s.pmm
unfolding mmu_unmap_page
unmap-pmm s pt virt = ground arith
