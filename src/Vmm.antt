-- ===== src/Vmm.antt =====
-- kernel/kernel/memory/vmm.c: the page directory and the page tables, in the memory that the page
-- allocator hands out.
pub mod Entries
pub mod Tabled
pub mod Paged
pub mod Written
pub mod Mapped
pub mod Init
mod Tests
use veni.Base.{
  ℕ, zero, suc, ◌+◌, ◌-◌, ◌*◌, ◌/◌, ◌%◌, ◌^◌, Bool, not, bit_and, bit_or, ◌==◌, if◌then◌else◌,
  update,
}
use veni.Pmm.{Pmm, page_size, pmm_alloc_page}

-- The state: the page allocator, the memory as words by their number, and `kernel_directory`. The
-- words of the allocator's bitmap are apart from the memory.
pub record Vmm : Type 0 where
  pub pmm : Pmm
  pub memory : ℕ → ℕ
  pub kernel_directory : ℕ

-- `PDE_PRESENT` and `PTE_PRESENT`, `PDE_RW` and `PTE_RW`.
abbrev pub present : ℕ
present = 1

abbrev pub writable : ℕ
writable = 2

-- `table->entries[i]` is this word.
abbrev pub word_of : (table i : ℕ) → ℕ
word_of table i = table / 4 + i

abbrev pub directory_entry : Vmm → (i : ℕ) → ℕ
directory_entry m i = m.memory (word_of m.kernel_directory i)

-- `virtual_addr >> 22` and `(virtual_addr >> 12) & 0x3FF`.
abbrev pub pd_index : ℕ → ℕ
pd_index virtual_addr = virtual_addr / 2 ^ 22

abbrev pub pt_index : ℕ → ℕ
pt_index virtual_addr = virtual_addr / 2 ^ 12 % 2 ^ 10

-- `x & ~0xFFF`.
abbrev pub page_of : ℕ → ℕ
page_of x = x - x % 2 ^ 12

-- `entry & PDE_PRESENT`, as a truth value.
abbrev pub is_present : ℕ → Bool
is_present entry = not (bit_and entry present == 0)

-- `for (i = 0; i < 1024; i++) entries[i] = 0`, with `n` rounds left.
unfoldable pub clear_entries : (n i table : ℕ) → (ℕ → ℕ) → ℕ → ℕ
clear_entries zero i table memory = memory
clear_entries (suc n) i table memory =
    clear_entries n (i + 1) table (update memory (word_of table i) 0)

-- The first part of `map_page`: the directory has an entry for the page table. What
-- `pmm_alloc_page` returns is taken as it is.
unfoldable pub with_table : Vmm → (pd : ℕ) → Vmm
with_table m pd =
    if is_present (directory_entry m pd)
    then m
    else let (pmm, new_table) = pmm_alloc_page m.pmm in
      record m {
        pmm = pmm;
        memory = clear_entries 1024 0 (page_of new_table) (
            update m.memory (word_of m.kernel_directory pd)
              (bit_or (bit_or new_table present) writable));
      }

-- The page table for an address.
abbrev pub table_for : Vmm → (virtual_addr : ℕ) → ℕ
table_for m virtual_addr = page_of (directory_entry m (pd_index virtual_addr))

abbrev pub set_entry : Vmm → (virtual_addr entry : ℕ) → Vmm
set_entry m virtual_addr entry = record m {
  memory = update m.memory (word_of (table_for m virtual_addr) (pt_index virtual_addr)) entry;
}

unfoldable pub map_page : Vmm → (virtual_addr physical_addr flags : ℕ) → Vmm
map_page m virtual_addr physical_addr flags =
    set_entry (with_table m (pd_index virtual_addr)) virtual_addr
      (bit_or (page_of physical_addr) flags)

unfoldable pub unmap_page : Vmm → (virtual_addr : ℕ) → Vmm
unmap_page m virtual_addr =
    if is_present (directory_entry m (pd_index virtual_addr)) then set_entry m virtual_addr 0 else m

unfoldable pub get_physical_address : Vmm → (virtual_addr : ℕ) → ℕ
get_physical_address m virtual_addr =
    if not (is_present (directory_entry m (pd_index virtual_addr)))
    then 0
    else let entry = m.memory (word_of (table_for m virtual_addr) (pt_index virtual_addr)) in
      if not (is_present entry) then 0 else bit_or (page_of entry) (virtual_addr % 2 ^ 12)

-- The loop of `vmm_init` that maps the first pages to themselves, with `n` rounds left.
unfoldable pub map_identity : (n i : ℕ) → Vmm → Vmm
map_identity zero i m = m
map_identity (suc n) i m =
    map_identity n (i + 1)
      (map_page m (i * page_size % 2 ^ 32) (i * page_size % 2 ^ 32) (bit_or present writable))

-- `vmm_init` up to the loading of the directory into the processor.
unfoldable pub vmm_init : Pmm → (memory : ℕ → ℕ) → Vmm
vmm_init pmm memory =
    let (pmm', directory) = pmm_alloc_page pmm in
    map_identity 1024 0 (record {
      pmm = pmm';
      memory = clear_entries 1024 0 directory memory;
      kernel_directory = directory;
    })
