-- ===== src/Pmm.antt =====
-- kernel/kernel/memory/pmm.c: the physical memory manager, a bitmap with one bit for each page.
pub mod Usage
pub mod Alloc
pub mod Free
mod Tests
use veni.Base.{
  ℕ, zero, suc, ◌+◌, ◌-◌, ◌*◌, ◌/◌, ◌%◌, ◌^◌, ◌≡◌, Bool, not, Option, none, some, bit_and, bit_or,
  ◌==◌, leb, if◌then◌else◌, update,
}
use veni.Base.Bits.{clear_mask}

abbrev pub page_size : ℕ
page_size = 4096

-- `NULL`.
abbrev pub null : ℕ
null = 0

-- The file's static variables. The bitmap's words are those from the address `base` on: nothing
-- bounds them, since the code is given no length for the memory that it writes them to.
pub record Pmm : Type 0 where
  pub base : ℕ
  pub bitmap : ℕ → ℕ
  pub total_pages : ℕ
  pub used_pages : ℕ

-- `for (i = 0; i < n; i++) bitmap[i] = 0`, with `n` rounds left.
unfoldable pub clear_words : ℕ → ℕ → (ℕ → ℕ) → ℕ → ℕ
clear_words zero i words = words
clear_words (suc n) i words = clear_words n (i + 1) (update words i 0)

-- `words` is what the memory at `start` holds before.
pub pmm_init : (words : ℕ → ℕ) → (start size : ℕ) → Pmm
pmm_init words start size = record {
  base = start;
  bitmap = clear_words (size / page_size / 32) 0 words;
  total_pages = size / page_size;
  used_pages = 0;
}

-- `bitmap[BITMAP_INDEX(i)] & (1 << BITMAP_BIT(i))`, as a truth value.
unfoldable pub is_used : Pmm → ℕ → Bool
is_used s i = not (bit_and (s.bitmap (i / 32)) (2 ^ (i % 32)) == 0)

unfoldable pub set_used : Pmm → ℕ → ℕ → ℕ
set_used s i = update s.bitmap (i / 32) (bit_or (s.bitmap (i / 32)) (2 ^ (i % 32)))

pub set_free : Pmm → ℕ → ℕ → ℕ
set_free s i = update s.bitmap (i / 32) (bit_and (s.bitmap (i / 32)) (clear_mask (i % 32)))

-- The first page from `i` on whose bit is clear, with `n` rounds of the loop left.
unfoldable pub find_free : Pmm → ℕ → ℕ → Option ℕ
find_free s zero i = none
find_free s (suc n) i = let rest = find_free s n (i + 1) in if is_used s i then rest else some i

unfoldable pub take_page : Pmm → Option ℕ → Pmm × ℕ
take_page s none = (s, null)
take_page s (some i) = (
  record s { bitmap = set_used s i; used_pages = (s.used_pages + 1) % 2 ^ 32 },
  i * page_size % 2 ^ 32,
)

unfoldable pub pmm_alloc_page : Pmm → Pmm × ℕ
unfolding take_page
pmm_alloc_page s =
    if leb s.total_pages s.used_pages then (s, null) else take_page s (find_free s s.total_pages 0)

pub pmm_free_page : Pmm → (page : ℕ) → Pmm
pmm_free_page s page =
    let n = page / page_size in
    if leb s.total_pages n
    then s
    else if is_used s n
    then record s { bitmap = set_free s n; used_pages = (s.used_pages + 2 ^ 32 - 1) % 2 ^ 32 }
    else s

pub pmm_get_free_pages : Pmm → ℕ
pmm_get_free_pages s = (s.total_pages + 2 ^ 32 - s.used_pages) % 2 ^ 32
