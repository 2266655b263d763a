-- ===== src/Vmm/Written.antt =====
-- A write to the entry of an address in its page table, in vmm.c: what the directory gives after it.
use veni.Base.{
  ℕ, ◌/◌, ◌%◌, ◌^◌, ◌<◌, ◌≡◌, ◌≢◌, refl, sym, ap, ap₂, ◌∙◌, true, not, bit_or, ◌==◌, if◌then◌else◌,
  arith, inl, inr, Bool-cases, ==→eq, ==→ne, eq→==, ne→==,
}
use veni.Vmm.{
  Vmm, word_of, directory_entry, pd_index, pt_index, page_of, is_present, table_for, set_entry,
  get_physical_address,
}
use veni.Vmm.Entries.{IsPaged}
use veni.Vmm.Paged.{address, address_lem, absent}

-- The address that an entry of a page table gives.
abbrev pub mapped : (entry virtual_addr : ℕ) → ℕ
mapped e v = if not (is_present e) then 0 else bit_or (page_of e) (v % 2 ^ 12)

module _ (m : Vmm) (v e : ℕ) (paged : IsPaged m)
    (here : is_present (directory_entry m (pd_index v)) ≡ true) (v_lt : v < 2 ^ 32) where
  entry_word : ℕ
  entry_word = word_of (table_for m v) (pt_index v)

  table_ne : directory_entry m (pd_index v) / 4096 ≢ m.kernel_directory / 4096
  table_ne = paged.table_apart (pd_index v) (omega arith) here

  pub same_directory_entry :
      (i : ℕ) → i < 1024 → directory_entry (set_entry m v e) i ≡ directory_entry m i
  same_directory_entry i lt =
      rw
        (ne→== (word_of (table_for m v) (pt_index v)) (word_of m.kernel_directory i)
          (omega (arith, table_ne, paged.aligned)))
        refl

  pub set_entry-IsPaged : IsPaged (set_entry m v e)
  set_entry-IsPaged = record {
    aligned = paged.aligned;
    directory_used = paged.directory_used;
    table_used = λ i lt. rw (same_directory_entry i lt) (paged.table_used i lt);
    table_apart = λ i lt. rw (same_directory_entry i lt) (paged.table_apart i lt);
    tables_apart = λ i j lt lt'.
        rw (same_directory_entry i lt, same_directory_entry j lt') (paged.tables_apart i j lt lt');
  }

  -- An address with entries that were not written.
  kept :
      (u : ℕ)
      → u < 2 ^ 32
      → (is_present (directory_entry m (pd_index u)) ≡ true
          → word_of (table_for m v) (pt_index v) ≢ word_of (table_for m u) (pt_index u))
      → get_physical_address (set_entry m v e) u ≡ get_physical_address m u
  kept u lt ne = elim (Bool-cases (is_present (directory_entry m (pd_index u)))) [
    | inl there ↦
        address_lem (set_entry m v e) u
        ∙ ap₂ (λ d w. address d w u) same
            (ap (λ d. (set_entry m v e).memory (word_of (page_of d) (pt_index u))) same
              ∙ rw (ne→== _ _ (ne there)) refl)
        ∙ sym (address_lem m u)
    | inr gone ↦ absent (set_entry m v e) u (ap is_present same ∙ gone) ∙ sym (absent m u gone)
  ]
    where
      same : directory_entry (set_entry m v e) (pd_index u) ≡ directory_entry m (pd_index u)
      same = same_directory_entry (pd_index u) (omega arith)

  other_page :
      (u : ℕ)
      → u < 2 ^ 32
      → u / 4096 ≢ v / 4096
      → is_present (directory_entry m (pd_index u)) ≡ true
      → word_of (table_for m v) (pt_index v) ≢ word_of (table_for m u) (pt_index u)
  other_page u lt ne there = elim (Bool-cases (pd_index u == pd_index v)) [
    | inl f ↦ λ w. omega (arith, ap (λ i. page_of (directory_entry m i)) (==→eq _ _ f), ==→eq _ _ f)
    | inr f ↦ omega (
      arith,
      paged.tables_apart (pd_index u) (pd_index v) (omega arith) (omega arith) there here
          (==→ne _ _ f),
    )
  ]

  same_page : (u : ℕ) → u / 4096 ≡ v / 4096 → get_physical_address (set_entry m v e) u ≡ mapped e u
  unfolding entry_word
  same_page u f =
      address_lem (set_entry m v e) u
      ∙ ap₂ (λ d w. address d w u) same
          (ap₂ (λ d j. (set_entry m v e).memory (word_of (page_of d) j)) same pt_same ∙ own_word)
      ∙ rw here refl
    where
      own_word : (set_entry m v e).memory entry_word ≡ e
      own_word = rw (eq→== entry_word entry_word refl) refl

      pd_same : pd_index u ≡ pd_index v
      pd_same = omega (arith, f)

      pt_same : pt_index u ≡ pt_index v
      pt_same = omega (arith, f)

      same : directory_entry (set_entry m v e) (pd_index u) ≡ directory_entry m (pd_index v)
      same =
          ap (directory_entry (set_entry m v e)) pd_same
          ∙ same_directory_entry (pd_index v) (omega arith)

  pub set_entry-address :
      (u : ℕ)
      → u < 2 ^ 32
      → get_physical_address (set_entry m v e) u
        ≡ (if u / 4096 == v / 4096 then mapped e u else get_physical_address m u)
  set_entry-address u lt = elim (Bool-cases (u / 4096 == v / 4096)) [
    | inl f ↦ rw f (same_page u (==→eq _ _ f))
    | inr f ↦ rw f (kept u lt (other_page u lt (==→ne _ _ f)))
  ]
