-- ===== src/Pmm/Tests.antt =====
-- pmm.c on small states, and the theorems at such states.
use veni.Base.{if◌then◌else◌, ◌==◌, ℕ, ◌*◌, ◌≡◌, refl, true, false, arith, update}
use veni.Pmm.{
  Pmm, find_free, set_used, is_used, null, pmm_init, pmm_alloc_page, pmm_free_page,
  pmm_get_free_pages,
}
use veni.Pmm.Usage.{IsValid, count}
use veni.Pmm.Alloc.{Allocated, pmm_alloc_page-lowest, pmm_alloc_page-null}
use veni.Pmm.Free.{Freed, pmm_free_page-Freed}

-- 64 pages, of which 0, 1 and 3 are used.
abbrev pool : Pmm
pool = record {
  base = 0x200000;
  bitmap = update (λ i. 0) 0 0b1011;
  total_pages = 64;
  used_pages = 3;
}

-- 32 pages, all used.
abbrev full_pool : Pmm
full_pool = record { base = 0; bitmap = λ i. 0xffff_ffff; total_pages = 32; used_pages = 32 }

abbrev empty_pool : Pmm
empty_pool = record { base = 0; bitmap = λ i. 0; total_pages = 32; used_pages = 0 }

pool-IsValid : IsValid pool
unfolding count is_used
pool-IsValid = record { addressable = omega arith; counted = refl }

full_pool-IsValid : IsValid full_pool
unfolding count is_used
full_pool-IsValid = record { addressable = omega arith; counted = refl }

empty_pool-IsValid : IsValid empty_pool
unfolding count is_used
empty_pool-IsValid = record { addressable = omega arith; counted = refl }

-- The lowest free page is 2; the next one is 4.
alloc_two :
    ((pmm_alloc_page pool).1 ≡ 2 * 4096)
    × ((pmm_alloc_page (pmm_alloc_page pool).0).1 ≡ 4 * 4096)
    × (pmm_get_free_pages (pmm_alloc_page pool).0 ≡ 60)
unfolding pmm_alloc_page find_free is_used set_used pmm_get_free_pages
alloc_two = (refl, refl, refl)

init_16_mib : (pmm_init (λ i. 7) 0x200000 (16 * 1024 * 1024)).total_pages ≡ 4096
unfolding pmm_init
init_16_mib = refl

page_3_used : is_used pool 3 ≡ true
unfolding is_used
page_3_used = refl

pmm_alloc_page-lowest_example :
    (k : ℕ) × Allocated pool k (pmm_alloc_page pool).0 (pmm_alloc_page pool).1
pmm_alloc_page-lowest_example = pmm_alloc_page-lowest pool pool-IsValid (omega arith)

page_0_free : is_used empty_pool 0 ≡ false
unfolding is_used
page_0_free = refl

pmm_alloc_page-null_example :
    ((pmm_alloc_page empty_pool).1 ≡ null)
    × ((i : ℕ)
        → is_used (pmm_alloc_page empty_pool).0 i ≡ (if 0 == i then true else is_used empty_pool i))
    × ((pmm_alloc_page empty_pool).0.used_pages ≡ 1)
pmm_alloc_page-null_example =
    pmm_alloc_page-null empty_pool empty_pool-IsValid (omega arith) page_0_free

pmm_free_page-Freed_example : Freed pool 3 (pmm_free_page pool 0x3000)
pmm_free_page-Freed_example = pmm_free_page-Freed pool 0x3000 pool-IsValid (omega arith) page_3_used
