-- ===== src/Mmu.antt =====
-- arch/x86/mmu.c and include/kernel/mmu.h: address spaces as two-level page tables in frames of the
-- frame allocator. Physical memory is the 32-bit word at each address; the kernel reaches it
-- under the same addresses.
pub mod Tables
pub mod Walk
pub mod Apart
pub mod Entry
pub mod Ensure
pub mod Map
pub mod Outside
pub mod Create
pub mod Destroy
pub mod Boot
mod Tests
use Prim.Native.Nat.{bit_and, bit_or}
use aioncore.Base.{
  ℕ, zero, suc, ◌+◌, ◌-◌, ◌*◌, ◌/◌, ◌%◌, ◌^◌, Bool, true, false, not, ◌&&◌, ◌||◌, ◌==◌,
  if◌then◌else◌, update, List, ◌∷◌,
}
use aioncore.Base.Bits.{test_bit}
use aioncore.Pmm.{Pmm, pmm_is_initialized, pmm_alloc_page, pmm_free_page}

abbrev pub page_size : ℕ
page_size = 4096

abbrev pub mmu_present : ℕ
mmu_present = 2 ^ 0

abbrev pub mmu_writable : ℕ
mmu_writable = 2 ^ 1

abbrev pub mmu_user : ℕ
mmu_user = 2 ^ 2

abbrev pub mmu_nocache : ℕ
mmu_nocache = 2 ^ 3

abbrev pub pde_present : ℕ
pde_present = 2 ^ 0

abbrev pub pde_writable : ℕ
pde_writable = 2 ^ 1

abbrev pub pde_user : ℕ
pde_user = 2 ^ 2

abbrev pub pte_present : ℕ
pte_present = 2 ^ 0

abbrev pub pte_writable : ℕ
pte_writable = 2 ^ 1

abbrev pub pte_user : ℕ
pte_user = 2 ^ 2

abbrev pub pte_nocache : ℕ
pte_nocache = 2 ^ 4

abbrev pub entries_per_table : ℕ
entries_per_table = 1024

abbrev pub is_page_aligned : ℕ → Bool
is_page_aligned addr = bit_and addr (page_size - 1) == 0

abbrev pub pd_index : ℕ → ℕ
pd_index virt = bit_and (virt / 2 ^ 22) 0x3FF

abbrev pub pt_index : ℕ → ℕ
pt_index virt = bit_and (virt / 2 ^ 12) 0x3FF

abbrev pub page_frame : ℕ → ℕ
page_frame entry = bit_and entry 0xFFFFF000

-- `struct page_table`
pub record PageTable : Type 0 where
  pub page_directory : ℕ
  pub pd_phys : ℕ

-- The frame allocator, physical memory, the `struct page_table` at each address, the pointer
-- `kernel_address_space`, the register CR3, the paging bit of CR0, and the pages whose
-- translations have been flushed, the last one first.
pub record Mmu : Type 0 where
  pub pmm : Pmm
  pub memory : ℕ → ℕ
  pub spaces : ℕ → PageTable
  pub kernel_address_space : ℕ
  pub cr3 : ℕ
  pub paging : Bool
  pub flushed : List ℕ

-- `if (flags & from) x86_flags |= to`
abbrev add_flag : (flags from to x86_flags : ℕ) → ℕ
add_flag flags from to x86_flags =
    if not (bit_and flags from == 0) then bit_or x86_flags to else x86_flags

unfoldable pub flags_to_x86 : ℕ → ℕ
flags_to_x86 flags =
    let x86_flags = add_flag flags mmu_present pte_present 0 in
    let x86_flags = add_flag flags mmu_writable pte_writable x86_flags in
    let x86_flags = add_flag flags mmu_user pte_user x86_flags in
    add_flag flags mmu_nocache pte_nocache x86_flags

-- The loops that set the first `n` words from `base` on to 0.
unfoldable pub clear_entries : (n base : ℕ) → (ℕ → ℕ) → ℕ → ℕ
clear_entries zero base m = m
clear_entries (suc n) base m = update (clear_entries n base m) (base + 4 * n) 0

-- `pt_storage` is the address of the static variable. The pointer that is returned is 0 on failure.
unfoldable pub mmu_create_address_space : (pt_storage : ℕ) → Mmu → Mmu × ℕ
mmu_create_address_space pt_storage s =
    let got = pmm_alloc_page s.pmm in
    let pd_phys = got.1 in
    let s' = record s { pmm = got.0 } in
    if not (pmm_is_initialized s.pmm)
    then (s, 0)
    else if pd_phys == 0
    then (s', 0)
    else if not (is_page_aligned pd_phys)
    then (s', 0)
    else (
      record s' {
        memory = clear_entries entries_per_table pd_phys s.memory;
        spaces =
            update s.spaces pt_storage (record { page_directory = pd_phys; pd_phys = pd_phys });
      },
      pt_storage,
    )

-- The loop over the first `n` entries of the directory `pd`.
unfoldable pub free_tables : (n : ℕ) → (memory : ℕ → ℕ) → (pd : ℕ) → Pmm → Pmm
free_tables zero memory pd p = p
free_tables (suc n) memory pd p =
    let p = free_tables n memory pd p in
    let entry = memory (pd + 4 * n) in
    if not (bit_and entry pde_present == 0) then pmm_free_page p (page_frame entry) else p

unfoldable pub mmu_destroy_address_space : Mmu → (pt : ℕ) → Mmu
mmu_destroy_address_space s pt =
    let space = s.spaces pt in
    if pt == 0 then s else record s {
      pmm =
          pmm_free_page (free_tables entries_per_table s.memory space.page_directory s.pmm)
            space.pd_phys;
    }

-- "Check if page table exists", and allocate it if not. `false` if there is no frame for it.
unfoldable pub ensure_table : Mmu → (pd index : ℕ) → Mmu × Bool
ensure_table s pd index =
    let got = pmm_alloc_page s.pmm in
    let pt_phys = got.1 in
    let s' = record s { pmm = got.0 } in
    if not (bit_and (s.memory (pd + 4 * index)) pde_present == 0)
    then (s, true)
    else if pt_phys == 0
    then (s', false)
    else (let cleared = clear_entries entries_per_table pt_phys s.memory in
        let entry = bit_or (bit_or (bit_or pt_phys pde_present) pde_writable) pde_user in
        (record s' { memory = update cleared (pd + 4 * index) entry }, true))

-- `page_table[pt_index] = entry`, and the flush of the page.
abbrev pub set_entry : Mmu → (pd virt entry : ℕ) → Mmu
set_entry s pd virt entry =
    let page_table = page_frame (s.memory (pd + 4 * pd_index virt)) in
    record s {
      memory = update s.memory (page_table + 4 * pt_index virt) entry;
      flushed = virt ∷ s.flushed;
    }

-- The pointer that is returned is 0 on failure.
unfoldable pub mmu_map_page : Mmu → (pt phys virt flags : ℕ) → Mmu × ℕ
mmu_map_page s pt phys virt flags =
    let space = s.spaces pt in
    let pd = space.page_directory in
    let made = ensure_table s pd (pd_index virt) in
    if pt == 0
    then (s, 0)
    else if not (is_page_aligned phys) || not (is_page_aligned virt)
    then (s, 0)
    else if not made.1
    then (made.0, 0)
    else (set_entry made.0 pd virt (bit_or phys (flags_to_x86 flags)), virt)

unfoldable pub mmu_unmap_page : Mmu → (pt virt : ℕ) → Mmu
mmu_unmap_page s pt virt =
    let space = s.spaces pt in
    let pd = space.page_directory in
    if pt == 0
    then s
    else if not (is_page_aligned virt)
    then s
    else if bit_and (s.memory (pd + 4 * pd_index virt)) pde_present == 0
    then s
    else set_entry s pd virt 0

unfoldable pub mmu_switch_address_space : Mmu → (pt : ℕ) → Mmu
mmu_switch_address_space s pt =
    let space = s.spaces pt in if pt == 0 then s else record s { cr3 = space.pd_phys }

unfoldable pub mmu_get_kernel_address_space : Mmu → ℕ
mmu_get_kernel_address_space s = s.kernel_address_space

unfoldable pub mmu_get_current_address_space : Mmu → ℕ
mmu_get_current_address_space s = s.kernel_address_space

-- The loop of `mmu_init`: `n` rounds from `virt` on, which end where a page is not mapped.
unfoldable pub identity_map : (n virt : ℕ) → Mmu → Mmu
identity_map zero virt s = s
identity_map (suc n) virt s =
    let made = mmu_map_page s s.kernel_address_space virt virt (bit_or mmu_present mmu_writable) in
    let rest = identity_map n (virt + page_size) made.0 in if made.1 == 0 then made.0 else rest

-- The rounds from the second page up to 16 MB.
abbrev pub identity_rounds : ℕ
identity_rounds = 16 * 1024 * 1024 / page_size - 1

-- The rest of `mmu_init`, with an address space.
unfoldable pub enable_paging : Mmu → Mmu
enable_paging s =
    let s = identity_map identity_rounds page_size s in
    let s = mmu_switch_address_space s s.kernel_address_space in record s { paging = true }

unfoldable pub mmu_init : (pt_storage : ℕ) → Mmu → Mmu
mmu_init pt_storage s =
    let made = mmu_create_address_space pt_storage s in
    let s = made.0 in
    let s = record s { kernel_address_space = made.1 } in
    let space = s.spaces s.kernel_address_space in
    let p = s.pmm in
    if s.kernel_address_space == 0
    then s
    else if not (is_page_aligned space.pd_phys)
    then s
    else if p.free_frames == 0
    then s
    else enable_paging s
