-- ===== src/Vmm/Tabled.antt =====
-- The first part of `map_page` of vmm.c: a page table is made where the directory has none.
use veni.Base.{
  ℕ, ◌+◌, ◌*◌, ◌/◌, ◌%◌, ◌<◌, ◌≡◌, ◌≢◌, refl, sym, subst, ◌∙◌, true, false, bit_or, ◌==◌,
  if◌then◌else◌, update, arith, eq→==, ne→==, true≢false,
}
use veni.Pmm.{is_used}
use veni.Pmm.Usage.{IsValid}
use veni.Pmm.Alloc.{pmm_alloc_page-lowest}
use veni.Vmm.{
  Vmm, present, writable, word_of, directory_entry, page_of, is_present, clear_entries, with_table,
}
use veni.Vmm.Entries.{IsPaged, clear_entries-elsewhere, clear_entries-inside, table_entry}

-- A table was made in a page that was free: the directory has one entry more, for a table without
-- entries, and other tables are as before.
pub record Tabled (m : Vmm) (pd : ℕ) (m' : Vmm) : Type 0 where
  pub page : ℕ
  pub free : is_used m.pmm page ≡ false
  pub used : (i : ℕ) → is_used m'.pmm i ≡ (if page == i then true else is_used m.pmm i)
  pub valid : IsValid m'.pmm
  pub same_directory : m'.kernel_directory ≡ m.kernel_directory
  pub new_entry : directory_entry m' pd ≡ page * 4096 + 3
  pub others : (i : ℕ) → i < 1024 → pd ≢ i → directory_entry m' i ≡ directory_entry m i
  pub empty : (j : ℕ) → j < 1024 → m'.memory (word_of (page * 4096) j) ≡ 0
  pub same_tables :
      (t j : ℕ)
      → t % 4096 ≡ 0
      → t / 4096 ≢ page
      → t / 4096 ≢ m.kernel_directory / 4096
      → j < 1024
      → m'.memory (word_of t j) ≡ m.memory (word_of t j)

module _ (m : Vmm) (pd : ℕ) (paged : IsPaged m) (v : IsValid m.pmm) (pd_lt : pd < 1024) where
  pub with_table-present : is_present (directory_entry m pd) ≡ true → with_table m pd ≡ m
  unfolding with_table
  with_table-present e = rw e refl

  entry_for : ℕ → ℕ
  entry_for k = bit_or (bit_or (k * 4096) present) writable

  linked : ℕ → ℕ → ℕ
  linked k = update m.memory (word_of m.kernel_directory pd) (entry_for k)

  made : ℕ → ℕ → ℕ
  made k = clear_entries 1024 0 (page_of (k * 4096)) (linked k)

  fresh : (k : ℕ) → is_used m.pmm k ≡ false → m.kernel_directory / 4096 ≢ k
  fresh k free e =
      true≢false (sym (subst (λ i. is_used m.pmm i ≡ true) e paged.directory_used) ∙ free)

  table_page : (k : ℕ) → page_of (k * 4096) ≡ k * 4096
  table_page k = omega arith

  beside :
      (k t j : ℕ)
      → t % 4096 ≡ 0
      → t / 4096 ≢ k
      → j < 1024
      → made k (word_of t j) ≡ linked k (word_of t j)
  unfolding made
  beside k t j aligned ne lt =
      rw (table_page k)
        (clear_entries-elsewhere (k * 4096) t j (linked k) (omega arith) aligned (omega arith) lt)

  new :
      (k : ℕ)
      → m.kernel_directory / 4096 ≢ k
      → made k (word_of m.kernel_directory pd) ≡ k * 4096 + 3
  unfolding linked entry_for
  new k ne =
      beside k m.kernel_directory pd paged.aligned ne pd_lt
      ∙ rw (eq→== (word_of m.kernel_directory pd) (word_of m.kernel_directory pd) refl)
          (table_entry (k * 4096) (omega arith))

  others :
      (k : ℕ)
      → m.kernel_directory / 4096 ≢ k
      → (i : ℕ) → i < 1024
      → pd ≢ i
      → made k (word_of m.kernel_directory i) ≡ directory_entry m i
  unfolding linked
  others k ne i lt other =
      beside k m.kernel_directory i paged.aligned ne lt
      ∙ rw (ne→== (word_of m.kernel_directory pd) (word_of m.kernel_directory i) (omega arith)) refl

  empty : (k j : ℕ) → j < 1024 → made k (word_of (k * 4096) j) ≡ 0
  unfolding made
  empty k j lt = rw (table_page k) (
      clear_entries-inside 1024 0 (k * 4096) (linked k) (word_of (k * 4096) j) (omega arith)
        (omega arith))

  same :
      (k t j : ℕ)
      → t % 4096 ≡ 0
      → t / 4096 ≢ k
      → t / 4096 ≢ m.kernel_directory / 4096
      → j < 1024
      → made k (word_of t j) ≡ m.memory (word_of t j)
  unfolding linked
  same k t j aligned ne apart lt =
      beside k t j aligned ne lt
      ∙ rw (ne→== (word_of m.kernel_directory pd) (word_of t j) (omega (arith, paged.aligned))) refl

  pub with_table-Tabled :
      is_present (directory_entry m pd) ≡ false
      → m.pmm.used_pages < m.pmm.total_pages
      → Tabled m pd (with_table m pd)
  unfolding with_table made linked entry_for
  with_table-Tabled absent room =
      let (k, done) = pmm_alloc_page-lowest m.pmm v room in
      rw absent (
        rw done.address (record {
          page = k;
          free = done.lowest.free;
          used = done.usage;
          valid = done.valid;
          same_directory = refl;
          new_entry = new k (fresh k done.lowest.free);
          others = others k (fresh k done.lowest.free);
          empty = empty k;
          same_tables = same k;
        }))
