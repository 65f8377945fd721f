-- ===== src/User.antt =====
-- core/user.c and include/kernel/user.h: creation of user tasks, over the task table, the frame
-- allocator and the page tables. The addresses of the built-in program are parameters. Code is copied
-- through the page tables that the processor uses, byte by byte; a page fault of the copy, at which the
-- kernel panics, is a result of its own. The control block and the page tables are reached at their
-- physical addresses, as if every frame were mapped to itself; the kernel maps the first 16 MB alone.
pub mod Copy
pub mod Progress
pub mod Parts
pub mod Program
pub mod Create
pub mod Build
pub mod Whole
pub mod Scheduled
mod Tests
use aioncore.Base.{
  ℕ, zero, suc, ◌+◌, ◌-◌, ◌*◌, ◌/◌, ◌%◌, ◌^◌, Bool, true, false, not, ◌||◌, ◌==◌, if◌then◌else◌,
  update, List, Option, none, some,
}
use aioncore.Base.Words.{sub32, add32}
use aioncore.Task.{Task, TaskState, CpuContext}
use aioncore.Pmm.{Pmm, pmm_alloc_page, pmm_free_page}
use aioncore.Mmu.{
  Mmu, mmu_present, mmu_user, mmu_writable, mmu_map_page, mmu_unmap_page,
  mmu_get_kernel_address_space,
}
use aioncore.Mmu.Walk.{entry}
use aioncore.Sched.{Kernel, sched_default_priority}
use aioncore.Sched.Run.{zero_context}
use aioncore.Tasks.{Machine, pmm_of, with_pmm, with_task, stored_name, task_alloc}
use Prim.Native.Nat.{bit_or}

abbrev pub user_code_base : ℕ
user_code_base = 0x00400000

abbrev pub user_stack_top : ℕ
user_stack_top = 0xC0000000

abbrev pub user_stack_size : ℕ
user_stack_size = 0x00001000

abbrev pub user_cs_selector : ℕ
user_cs_selector = 0x1B

abbrev pub user_ds_selector : ℕ
user_ds_selector = 0x23

abbrev pub user_eflags : ℕ
user_eflags = 0x202

-- The physical address that the processor uses for an address, unless it faults.
unfoldable pub physical : Mmu → (virt : ℕ) → Option ℕ
physical s virt =
    let e = entry s.memory (s.cr3 / 4096) (virt / 4096) in
    if not s.paging
    then some virt
    else if e % 2 == 0
    then none
    else some (e / 4096 % 2 ^ 20 * 4096 + virt % 4096)

-- A byte of a word of memory, and the memory with another byte there.
unfoldable pub byte_at : (ℕ → ℕ) → (address : ℕ) → ℕ
byte_at memory a = memory (a - a % 4) / 256 ^ (a % 4) % 256

unfoldable pub put_byte : (ℕ → ℕ) → (address byte : ℕ) → ℕ → ℕ
put_byte memory a b =
    let w = memory (a - a % 4) in
    update memory (a - a % 4) (w - byte_at memory a * 256 ^ (a % 4) + b * 256 ^ (a % 4))

abbrev pub moved : Mmu → (from to : Option ℕ) → Option Mmu
moved m none to = none
moved m (some from) none = none
moved m (some from) (some to) =
    some (record m { memory = put_byte m.memory to (byte_at m.memory from) })

-- `d[i] = s[i]`
unfoldable pub move_byte : (dest src : ℕ) → Mmu → Option Mmu
move_byte dest src m = moved m (physical m src) (physical m dest)

abbrev pub and_then : Option Mmu → (Mmu → Option Mmu) → Option Mmu
and_then none f = none
and_then (some m) f = f m

-- The loop of `memcpy`, from byte `i` on.
unfoldable pub copy_code : (n dest src i : ℕ) → Mmu → Option Mmu
copy_code zero dest src i m = some m
copy_code (suc n) dest src i m =
    and_then (move_byte (add32 dest i) (add32 src i) m) (copy_code n dest src (i + 1))

abbrev pub with_mmu : Machine → Mmu → Machine
with_mmu m u = record m { mmu = u }

abbrev pub unmap : Machine → (pt virt : ℕ) → Machine
unmap m pt virt = with_mmu m (mmu_unmap_page m.mmu pt virt)

abbrev pub free : Machine → (page : ℕ) → Machine
free m page = with_pmm m (pmm_free_page (pmm_of m) page)

-- "Initialize CPU context for ring 3"
abbrev pub user_context : CpuContext
user_context =
    let c = zero_context in
    record c {
      cs = user_cs_selector;
      ss = user_ds_selector;
      ds = user_ds_selector;
      es = user_ds_selector;
      fs = user_ds_selector;
      gs = user_ds_selector;
      eip = user_code_base;
      esp = user_stack_top;
      ebp = user_stack_top;
      eflags = user_eflags;
    }

abbrev pub user_flags : ℕ
user_flags = bit_or (bit_or mmu_present mmu_user) mmu_writable

abbrev pub user_stack_base : ℕ
user_stack_base = user_stack_top - user_stack_size

-- "Allocate kernel stack for syscall entry", and the context.
unfoldable pub finish_user : (task code_phys stack_phys : ℕ) → Task → Machine → Machine × ℕ
finish_user task code_phys stack_phys t m =
    let got = pmm_alloc_page (pmm_of m) in
    let pt = t.address_space in
    let t = record t { kernel_stack_size = 4096; kernel_stack = got.1 } in
    let m = with_task (with_pmm m got.0) task t in
    if got.1 == 0
    then (
      free (free (unmap (unmap m pt user_code_base) pt user_stack_base) code_phys) stack_phys,
      0,
    )
    else (with_task m task (record t { context = user_context }), task)

-- "Map user stack"
unfoldable pub map_stack : (task code_phys stack_phys : ℕ) → Task → Machine → Machine × ℕ
map_stack task code_phys stack_phys t m =
    let pt = t.address_space in
    let made = mmu_map_page m.mmu pt stack_phys user_stack_base user_flags in
    let m' = with_mmu m made.0 in
    if made.1 == 0
    then (free (free (unmap m' pt user_code_base) code_phys) stack_phys, 0)
    else finish_user task code_phys stack_phys t m'

abbrev pub map_copied :
    (task code_phys stack_phys : ℕ) → Task → Machine → Option Mmu → Option (Machine × ℕ)
map_copied task code_phys stack_phys t m none = none
map_copied task code_phys stack_phys t m (some u) =
    some (map_stack task code_phys stack_phys t (with_mmu m u))

-- "Map user code page", and "Copy user code to mapped virtual address".
unfoldable pub map_code :
    (entry_point code_size task code_phys stack_phys : ℕ) → Task → Machine → Option (Machine × ℕ)
map_code entry_point code_size task code_phys stack_phys t m =
    let made = mmu_map_page m.mmu t.address_space code_phys user_code_base user_flags in
    let m' = with_mmu m made.0 in
    let copied = copy_code code_size user_code_base entry_point 0 made.0 in
    if made.1 == 0
    then some (free (free m' code_phys) stack_phys, 0)
    else map_copied task code_phys stack_phys t m' copied

-- From the control block on: the two pages of the task.
unfoldable pub fill_user :
    (name : List ℕ) → (entry_point code_size task : ℕ) → Machine → Option (Machine × ℕ)
fill_user name entry_point code_size task m =
    let k = m.kernel in
    let t = k.tasks task in
    let t = record t {
      name = stored_name name;
      state = TaskState.ready;
      priority = sched_default_priority;
    } in
    let m = with_task m task t in
    let code = pmm_alloc_page (pmm_of m) in
    let stack = pmm_alloc_page code.0 in
    let m' = with_pmm m stack.0 in
    let t' = record t { address_space = mmu_get_kernel_address_space m.mmu } in
    if code.1 == 0
    then some (with_pmm m code.0, 0)
    else if stack.1 == 0
    then some (free m' code.1, 0)
    else map_code entry_point code_size task code.1 stack.1 t' (with_task m' task t')

module _ (user_test_start user_test_end : ℕ) where
  -- "Use built-in test program if no code provided"
  unfoldable pub program : (entry_point code_size : ℕ) → ℕ × ℕ
  program entry_point code_size =
      if (entry_point == 0) || (code_size == 0)
      then (user_test_start, sub32 user_test_end user_test_start)
      else (entry_point, code_size)

  -- `none` for a page fault. The pointer that is returned is 0 on failure.
  unfoldable pub task_create_user :
      (name : List ℕ) → (entry_point code_size : ℕ) → Machine → Option (Machine × ℕ)
  task_create_user name entry_point code_size m =
      let code = program entry_point code_size in
      let got = task_alloc m in
      let filled = fill_user name code.0 code.1 got.1 got.0 in
      if got.1 == 0 then some (got.0, 0) else filled
