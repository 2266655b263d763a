-- ===== src/Vmm/Paged.antt =====
-- The invariant of the page directory of vmm.c, and the addresses that it gives, after a new table and
-- after a write to an entry of a table.
use veni.Base.{
  ℕ, ◌*◌, ◌/◌, ◌%◌, ◌^◌, ◌<◌, ◌≡◌, ◌≢◌, refl, sym, ap, ap₂, subst, ◌∙◌, true, false, not, bit_or,
  ◌==◌, if◌then◌else◌, arith, inl, inr, Bool-cases, ==→eq, ==→ne, eq→==, ne→==, true≢false,
}
use veni.Pmm.{is_used}
use veni.Vmm.{
  Vmm, word_of, directory_entry, pd_index, pt_index, page_of, is_present, table_for,
  get_physical_address,
}
use veni.Vmm.Entries.{IsPaged, page_of-page}
use veni.Vmm.Tabled.{Tabled}

-- The address for the two entries that are read.
abbrev pub address : (directory_entry entry virtual_addr : ℕ) → ℕ
address d e v =
    if not (is_present d)
    then 0
    else if not (is_present e)
    then 0
    else bit_or (page_of e) (v % 2 ^ 12)

abbrev pub table_entry_of : Vmm → ℕ → ℕ
table_entry_of m v = m.memory (word_of (table_for m v) (pt_index v))

pub address_lem :
    (m : Vmm) (v : ℕ)
    → get_physical_address m v ≡ address (directory_entry m (pd_index v)) (table_entry_of m v) v
unfolding get_physical_address
address_lem m v = refl

address_zero : (d v : ℕ) → address d 0 v ≡ 0
address_zero d v = elim (Bool-cases (is_present d)) [ inl e ↦ rw e refl | inr e ↦ rw e refl ]

-- An absent entry on either level gives 0.
pub absent :
    (m : Vmm) (v : ℕ)
    → is_present (directory_entry m (pd_index v)) ≡ false
    → get_physical_address m v ≡ 0
unfolding get_physical_address
absent m v e = rw e refl

module _ (m : Vmm) (pd : ℕ) (m' : Vmm) (paged : IsPaged m) (t : Tabled m pd m')
    (pd_lt : pd < 1024) where
  was_free : (p : ℕ) → is_used m.pmm p ≡ true → t.page ≢ p
  was_free p used e = true≢false (sym (subst (λ i. is_used m.pmm i ≡ true) (sym e) used) ∙ t.free)

  kept_used : (p : ℕ) → is_used m.pmm p ≡ true → is_used m'.pmm p ≡ true
  kept_used p used = rw (t.used p, ne→== t.page p (was_free p used)) used

  new_page : directory_entry m' pd / 4096 ≡ t.page
  new_page = omega (arith, t.new_entry)

  -- Of each entry: the new one, or as it was.
  by_entry :
      (P : ℕ → Type 0) (i : ℕ)
      → i < 1024
      → (pd ≡ i → P (directory_entry m' pd))
      → (pd ≢ i → P (directory_entry m i))
      → P (directory_entry m' i)
  by_entry P i lt new old = elim (Bool-cases (pd == i)) [
    | inl e ↦ subst (λ j. P (directory_entry m' j)) (==→eq _ _ e) (new (==→eq _ _ e))
    | inr e ↦ subst P (sym (t.others i lt (==→ne _ _ e))) (old (==→ne _ _ e))
  ]

  -- The new table is on another page than that of any entry which was there.
  old_page :
      (j : ℕ)
      → j < 1024
      → pd ≢ j
      → is_present (directory_entry m' j) ≡ true
      → t.page ≢ directory_entry m' j / 4096
  old_page j lt ne here =
      rw (t.others j lt ne)
        (was_free _ (paged.table_used j lt (ap is_present (sym (t.others j lt ne)) ∙ here)))

  tables_apart :
      (i j : ℕ)
      → i < 1024
      → j < 1024
      → is_present (directory_entry m' i) ≡ true
      → is_present (directory_entry m' j) ≡ true
      → i ≢ j
      → directory_entry m' i / 4096 ≢ directory_entry m' j / 4096
  tables_apart i j lt lt' here here' ne same = elim (Bool-cases (pd == i)) [
    | inl e ↦
        old_page j lt' (λ f. ne (sym (==→eq _ _ e) ∙ f)) here'
          (sym new_page ∙ ap (λ k. directory_entry m' k / 4096) (==→eq _ _ e) ∙ same)
    | inr e ↦ elim (Bool-cases (pd == j)) [
      | inl f ↦
          old_page i lt (==→ne _ _ e) here
            (sym new_page ∙ ap (λ k. directory_entry m' k / 4096) (==→eq _ _ f) ∙ sym same)
      | inr f ↦
          paged.tables_apart i j lt lt' (ap is_present (sym (t.others i lt (==→ne _ _ e))) ∙ here)
            (ap is_present (sym (t.others j lt' (==→ne _ _ f))) ∙ here') ne
            (ap (λ x. x / 4096) (sym (t.others i lt (==→ne _ _ e)))
              ∙ same
              ∙ ap (λ x. x / 4096) (t.others j lt' (==→ne _ _ f)))
    ]
  ]

  pub Tabled-IsPaged : IsPaged m'
  Tabled-IsPaged = record {
    aligned = ap (λ d. d % 4096) t.same_directory ∙ paged.aligned;
    directory_used =
        ap (λ d. is_used m'.pmm (d / 4096)) t.same_directory
        ∙ kept_used (m.kernel_directory / 4096) paged.directory_used;
    table_used = λ i lt.
        by_entry (λ e. is_present e ≡ true → is_used m'.pmm (e / 4096) ≡ true) i lt
          (λ e here. rw (new_page, t.used t.page, eq→== t.page t.page refl) refl)
          (λ ne here. kept_used _ (paged.table_used i lt here));
    table_apart = λ i lt.
        by_entry (λ e. is_present e ≡ true → e / 4096 ≢ m'.kernel_directory / 4096) i lt
          (λ e here same.
            was_free (m.kernel_directory / 4096) paged.directory_used
              (sym new_page ∙ same ∙ ap (λ d. d / 4096) t.same_directory))
          (λ ne here same.
            paged.table_apart i lt here (same ∙ ap (λ d. d / 4096) t.same_directory));
    tables_apart = tables_apart;
  }

  -- A new table maps nothing.
  pub Tabled-same :
      is_present (directory_entry m pd) ≡ false
      → (v : ℕ) → v < 2 ^ 32
      → get_physical_address m' v ≡ get_physical_address m v
  Tabled-same missing v lt = elim (Bool-cases (pd == pd_index v)) [
    | inl e ↦
        empty_table (==→eq _ _ e)
        ∙ sym
            (absent m v (ap (λ i. is_present (directory_entry m i)) (sym (==→eq _ _ e)) ∙ missing))
    | inr e ↦ elim (Bool-cases (is_present (directory_entry m (pd_index v)))) [
      | inl here ↦ old_table here (t.others (pd_index v) (omega arith) (==→ne _ _ e))
      | inr gone ↦
          absent m' v (ap is_present (t.others (pd_index v) (omega arith) (==→ne _ _ e)) ∙ gone)
          ∙ sym (absent m v gone)
    ]
  ]
    where
      empty_table : pd ≡ pd_index v → get_physical_address m' v ≡ 0
      empty_table e =
          address_lem m' v
          ∙ ap (λ w. address (directory_entry m' (pd_index v)) w v)
              (ap (λ k. m'.memory (word_of k (pt_index v))) place
                ∙ t.empty (pt_index v) (omega arith))
          ∙ address_zero (directory_entry m' (pd_index v)) v
        where
          place : table_for m' v ≡ t.page * 4096
          place = omega (arith, t.new_entry, ap (λ i. directory_entry m' i) e)

      old_table :
          is_present (directory_entry m (pd_index v)) ≡ true
          → directory_entry m' (pd_index v) ≡ directory_entry m (pd_index v)
          → get_physical_address m' v ≡ get_physical_address m v
      old_table here e =
          address_lem m' v
          ∙ ap₂ (λ d w. address d w v) e
              (ap (λ d. m'.memory (word_of (page_of d) (pt_index v))) e
                ∙ t.same_tables (table_for m v) (pt_index v) (omega arith)
                    (λ f.
                      was_free (directory_entry m (pd_index v) / 4096)
                        (paged.table_used (pd_index v) (omega arith) here) (sym f ∙ page_of-page _))
                    (λ f.
                      paged.table_apart (pd_index v) (omega arith) here (sym (page_of-page _) ∙ f))
                    (omega arith))
          ∙ sym (address_lem m v)
