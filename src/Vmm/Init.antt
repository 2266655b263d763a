-- ===== src/Vmm/Init.antt =====
-- `vmm_init` of vmm.c: the first 4 MB are mapped to themselves.
use veni.Base.{
  ℕ, zero, suc, ◌+◌, ◌*◌, ◌/◌, ◌%◌, ◌^◌, ◌<◌, ◌≤◌, ◌≡◌, refl, sym, ap, subst, ◌∙◌, true, false,
  bit_or, ◌==◌, if◌then◌else◌, ltb, update, arith, inl, inr, ◌⊎◌, Bool-cases, ==→eq, ==→ne, eq→==,
  ltb→lt, ltb→le, lt→ltb, le→ltb, true≢false,
}
use veni.Pmm.{Pmm, page_size, is_used, pmm_alloc_page}
use veni.Pmm.Usage.{IsValid}
use veni.Pmm.Alloc.{Allocated, pmm_alloc_page-lowest, pmm_alloc_page_full}
use veni.Vmm.{
  Vmm, present, writable, word_of, directory_entry, is_present, clear_entries, with_table, map_page,
  get_physical_address, map_identity, vmm_init,
}
use veni.Vmm.Entries.{IsPaged, clear_entries-inside, clear_entries-outside}
use veni.Vmm.Paged.{absent}
use veni.Vmm.Mapped.{Mapped, HasTable, map_page-Mapped}

-- The first `n` pages are mapped to themselves, and no other.
pub record Identity (n : ℕ) (m : Vmm) : Type 0 where
  pub paged : IsPaged m
  pub valid : IsValid m.pmm
  pub address :
      (u : ℕ) → u < 2 ^ 32 → get_physical_address m u ≡ (if ltb u (n * 4096) then u else 0)

one_page_more :
    (i u : ℕ) (g : ℕ)
    → g ≡ (if ltb u (i * 4096) then u else 0)
    → (if u / 4096 == i * 4096 / 4096 then i * 4096 / 4096 * 4096 + u % 4096 else g)
      ≡ (if ltb u ((i + 1) * 4096) then u else 0)
one_page_more i u g e = elim (Bool-cases (u / 4096 == i * 4096 / 4096)) [
  | inl f ↦
      rw (f, lt→ltb u ((i + 1) * 4096) (omega (arith, ==→eq _ _ f))) (omega (arith, ==→eq _ _ f))
  | inr f ↦
      rw (f, e)
        (elim (Bool-cases (ltb u (i * 4096))) [
          | inl below ↦ rw (below, lt→ltb u ((i + 1) * 4096) (omega (arith, ltb→lt _ _ below))) refl
          | inr above ↦
              rw (above, le→ltb u ((i + 1) * 4096) (omega (arith, ltb→le _ _ above, ==→ne _ _ f)))
                refl
        ])
]

-- The loop keeps the table of the first page once it is there.
map_identity-Identity :
    (n i : ℕ) (m : Vmm)
    → i + n ≤ 1024
    → Identity i m
    → HasTable m 0
    → Identity (i + n) (map_identity n i m)
unfolding map_identity
map_identity-Identity zero i m le h table = subst (λ k. Identity k m) (omega arith) h
map_identity-Identity (suc n) i m le h table =
    subst (λ k. Identity k (map_identity n (i + 1) next)) (omega arith)
      (map_identity-Identity n (i + 1) next (omega arith) later
        (inl (ap (λ d. is_present (directory_entry next d)) (omega arith) ∙ done.has_table)))
  where
    next : Vmm
    next = map_page m (i * page_size % 2 ^ 32) (i * page_size % 2 ^ 32) (bit_or present writable)

    small : i * page_size % 2 ^ 32 ≡ i * 4096
    small = omega arith

    done : Mapped m (i * page_size % 2 ^ 32) (i * page_size % 2 ^ 32) next
    done =
        map_page-Mapped m (i * page_size % 2 ^ 32) (i * page_size % 2 ^ 32) 3 (omega arith)
          (omega arith) refl h.paged h.valid
          (subst
            (λ d.
              (is_present (directory_entry m d) ≡ true) ⊎ (m.pmm.used_pages < m.pmm.total_pages))
            (omega arith) table)

    later : Identity (i + 1) next
    later = record {
      paged = done.paged;
      valid = done.valid;
      address = λ u lt.
          done.address u lt
          ∙ ap
              (λ x.
                if u / 4096 == x / 4096
                then x / 4096 * 4096 + u % 4096
                else get_physical_address m u)
              small
          ∙ one_page_more i u (get_physical_address m u) (h.address u lt);
    }

module _ (pmm : Pmm) (memory : ℕ → ℕ) where
  -- The directory before the loop, without entries.
  blank : Vmm
  blank = record {
    pmm = (pmm_alloc_page pmm).0;
    memory = clear_entries 1024 0 (pmm_alloc_page pmm).1 memory;
    kernel_directory = (pmm_alloc_page pmm).1;
  }

  blank-gone : (i : ℕ) → i < 1024 → is_present (directory_entry blank i) ≡ false
  unfolding blank
  blank-gone i lt =
      rw
        (clear_entries-inside 1024 0 (pmm_alloc_page pmm).1 memory
          (word_of (pmm_alloc_page pmm).1 i) (omega arith) (omega arith))
        refl

  none_below : (u : ℕ) → 0 ≡ (if ltb u 0 then u else 0)
  none_below u = rw (le→ltb u 0 (omega arith)) refl

  place : {k p : ℕ} → p ≡ k * 4096 → p / 4096 ≡ k
  place e = omega arith

  blank-Identity :
      (k : ℕ) → Allocated pmm k (pmm_alloc_page pmm).0 (pmm_alloc_page pmm).1 → Identity 0 blank
  unfolding blank
  blank-Identity k done = record {
    paged = record {
      aligned = omega (arith, done.address);
      directory_used =
          ap (is_used (pmm_alloc_page pmm).0) (place done.address)
          ∙ done.usage k
          ∙ rw (eq→== k k refl) refl;
      table_used = λ i lt here. absurd (true≢false (sym here ∙ blank-gone i lt));
      table_apart = λ i lt here. absurd (true≢false (sym here ∙ blank-gone i lt));
      tables_apart = λ i j lt lt' here. absurd (true≢false (sym here ∙ blank-gone i lt));
    };
    valid = done.valid;
    address = λ u lt. absent blank u (blank-gone (u / 2 ^ 22) (omega arith)) ∙ none_below u;
  }

  -- With a valid allocator that has two free pages, `vmm_init` leaves a directory that is in order,
  -- and by it every address below 4 MB is its own physical address, and every other 32-bit address
  -- has none (0).
  pub vmm_init-Identity :
      IsValid pmm → pmm.used_pages + 2 ≤ pmm.total_pages → Identity 1024 (vmm_init pmm memory)
  unfolding vmm_init blank
  vmm_init-Identity valid room =
      let (k, done) = pmm_alloc_page-lowest pmm valid (omega arith) in
      map_identity-Identity 1024 0 blank (omega arith) (blank-Identity k done)
        (inr (omega (arith, done.one_more, done.same_total)))

-- Without a free page, a page table that is missing is put at the null address: `map_page` clears the
-- first 1024 words of the physical memory, and the entry of the directory, unless it is one of them,
-- leads there.
pub with_table_exhausted :
    (m : Vmm) (pd : ℕ)
    → m.pmm.total_pages ≤ m.pmm.used_pages
    → is_present (directory_entry m pd) ≡ false
    → ((j : ℕ) → j < 1024 → (with_table m pd).memory j ≡ 0)
      × (4096 ≤ m.kernel_directory → directory_entry (with_table m pd) pd ≡ 3)
unfolding with_table
with_table_exhausted m pd full gone =
    rw (gone, pmm_alloc_page_full m.pmm full)
      (
        (λ j lt. clear_entries-inside 1024 0 0 linked j (omega arith) (omega arith)),
        (λ high.
            clear_entries-outside 1024 0 0 linked (word_of m.kernel_directory pd)
              (inr (omega arith))
            ∙ rw (eq→== (word_of m.kernel_directory pd) (word_of m.kernel_directory pd) refl) refl),
      )
  where
    linked : ℕ → ℕ
    linked = update m.memory (word_of m.kernel_directory pd) 3
