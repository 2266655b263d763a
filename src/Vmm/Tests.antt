-- ===== src/Vmm/Tests.antt =====
-- vmm.c on a directory without entries, and the theorems at it.
use veni.Base.{ℕ, ◌/◌, ◌^◌, ◌<◌, ◌≤◌, ◌≡◌, refl, sym, false, update, arith, inr, ◌∙◌, true≢false}
use veni.Pmm.{Pmm, take_page, is_used, find_free, set_used, pmm_alloc_page}
use veni.Pmm.Usage.{IsValid, count}
use veni.Vmm.{
  Vmm, directory_entry, is_present, clear_entries, with_table, map_page, unmap_page,
  get_physical_address, vmm_init,
}
use veni.Vmm.Entries.{IsPaged}
use veni.Vmm.Paged.{absent}
use veni.Vmm.Mapped.{Mapped, map_page-Mapped, unmap_page-map_page}
use veni.Vmm.Init.{Identity, vmm_init-Identity, with_table_exhausted}

-- 64 pages, of which 0, 1 and 3 are used, the last one by the directory.
abbrev pool : Pmm
pool = record {
  base = 0x200000;
  bitmap = update (λ i. 0) 0 0b1011;
  total_pages = 64;
  used_pages = 3;
}

abbrev bare : Vmm
bare = record { pmm = pool; memory = λ w. 0; kernel_directory = 0x3000 }

abbrev full : Vmm
full = record bare { pmm = record pool { used_pages = 64 } }

pool-IsValid : IsValid pool
unfolding count is_used
pool-IsValid = record { addressable = omega arith; counted = refl }

gone : (i : ℕ) → is_present (directory_entry bare i) ≡ false
gone i = refl

bare-IsPaged : IsPaged bare
unfolding is_used
bare-IsPaged = record {
  aligned = refl;
  directory_used = refl;
  table_used = λ i lt here. absurd (true≢false (sym here ∙ gone i));
  table_apart = λ i lt here. absurd (true≢false (sym here ∙ gone i));
  tables_apart = λ i j lt lt' here. absurd (true≢false (sym here ∙ gone i));
}

-- A page of the kernel heap.
mapped_page :
    (get_physical_address (map_page bare 0xD0000000 0x5000 3) 0xD0000123 ≡ 0x5123)
    × (get_physical_address (map_page bare 0xD0000000 0x5000 3) 0xD0001123 ≡ 0)
    × (get_physical_address (unmap_page (map_page bare 0xD0000000 0x5000 3) 0xD0000000) 0xD0000123
        ≡ 0)
unfolding map_page unmap_page with_table get_physical_address clear_entries pmm_alloc_page take_page
    find_free is_used set_used
mapped_page = (refl, refl, refl)

map_page-Mapped_example : Mapped bare 0xD0000000 0x5000 (map_page bare 0xD0000000 0x5000 3)
map_page-Mapped_example =
    map_page-Mapped bare 0xD0000000 0x5000 3 (omega arith) (omega arith) refl bare-IsPaged
      pool-IsValid (inr (omega arith))

unmapped : (u : ℕ) → u < 2 ^ 32 → u / 4096 ≡ 0xD0000000 / 4096 → get_physical_address bare u ≡ 0
unmapped u lt e = absent bare u refl

unmap_page-map_page_example :
    get_physical_address (unmap_page (map_page bare 0xD0000000 0x5000 3) 0xD0000000) 0xD0000123
    ≡ get_physical_address bare 0xD0000123
unmap_page-map_page_example =
    unmap_page-map_page bare 0xD0000000 0x5000 3 (omega arith) (omega arith) refl bare-IsPaged
      pool-IsValid (inr (omega arith)) unmapped 0xD0000123 (omega arith)

vmm_init-Identity_example : Identity 1024 (vmm_init pool (λ w. 7))
vmm_init-Identity_example = vmm_init-Identity pool (λ w. 7) pool-IsValid (omega arith)

with_table_exhausted_example :
    ((j : ℕ) → j < 1024 → (with_table full 832).memory j ≡ 0)
    × (4096 ≤ 0x3000 → directory_entry (with_table full 832) 832 ≡ 3)
with_table_exhausted_example = with_table_exhausted full 832 (omega arith) refl
