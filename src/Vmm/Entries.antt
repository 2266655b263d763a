-- ===== src/Vmm/Entries.antt =====
-- The invariant of the page directory of vmm.c, and what a write to one word of it changes.
use veni.Base.{
  ℕ, zero, suc, ◌+◌, ◌*◌, ◌/◌, ◌%◌, ◌<◌, ◌≤◌, ◌≡◌, ◌≢◌, refl, ap, subst, ◌∙◌, true, not, bit_or,
  ◌==◌, update, arith, inl, inr, ◌⊎◌, Bool-cases, ==→eq, ==→ne, ne→==, ltb, ltb→lt, ltb→le,
}
use veni.Base.Masks.{bit_or-low, bit_or-two, mask_test_one}
use veni.Pmm.{is_used}
use veni.Vmm.{present, writable, Vmm, word_of, directory_entry, page_of, is_present, clear_entries}

-- An entry of the directory that is present leads to a page table in a used page of its own.
pub record IsPaged (m : Vmm) : Type 0 where
  pub aligned : m.kernel_directory % 4096 ≡ 0
  pub directory_used : is_used m.pmm (m.kernel_directory / 4096) ≡ true
  pub table_used :
      (i : ℕ)
      → i < 1024
      → is_present (directory_entry m i) ≡ true
      → is_used m.pmm (directory_entry m i / 4096) ≡ true
  pub table_apart :
      (i : ℕ)
      → i < 1024
      → is_present (directory_entry m i) ≡ true
      → directory_entry m i / 4096 ≢ m.kernel_directory / 4096
  pub tables_apart :
      (i j : ℕ)
      → i < 1024
      → j < 1024
      → is_present (directory_entry m i) ≡ true
      → is_present (directory_entry m j) ≡ true
      → i ≢ j
      → directory_entry m i / 4096 ≢ directory_entry m j / 4096

pub is_present_lem : (e : ℕ) → is_present e ≡ not (e % 2 == 0)
is_present_lem e = ap not (mask_test_one e)

-- A loop of clears writes the words of one table.
clear_entries-word :
    (n i table : ℕ) (memory : ℕ → ℕ) (w : ℕ)
    → w < table / 4 + i
    → clear_entries n i table memory w ≡ memory w
unfolding clear_entries
clear_entries-word zero i table memory w lt = refl
clear_entries-word (suc n) i table memory w lt =
    clear_entries-word n (i + 1) table (update memory (word_of table i) 0) w (omega arith)
    ∙ rw (ne→== (word_of table i) w (omega arith)) refl

pub clear_entries-inside :
    (n i table : ℕ) (memory : ℕ → ℕ) (w : ℕ)
    → table / 4 + i ≤ w
    → w < table / 4 + i + n
    → clear_entries n i table memory w ≡ 0
unfolding clear_entries
clear_entries-inside zero i table memory w le lt = absurd (omega arith)
clear_entries-inside (suc n) i table memory w le lt = elim (Bool-cases (word_of table i == w)) [
  | inl e ↦
      clear_entries-word n (i + 1) table (update memory (word_of table i) 0) w
        (omega (arith, ==→eq _ _ e))
      ∙ rw e refl
  | inr e ↦
      clear_entries-inside n (i + 1) table (update memory (word_of table i) 0) w
        (omega (arith, ==→ne _ _ e)) (omega arith)
]

pub clear_entries-outside :
    (n i table : ℕ) (memory : ℕ → ℕ) (w : ℕ)
    → (w < table / 4 + i) ⊎ (table / 4 + i + n ≤ w)
    → clear_entries n i table memory w ≡ memory w
unfolding clear_entries
clear_entries-outside zero i table memory w out = refl
clear_entries-outside (suc n) i table memory w (inl lt) =
    clear_entries-word (suc n) i table memory w lt
clear_entries-outside (suc n) i table memory w (inr ge) =
    clear_entries-outside n (i + 1) table (update memory (word_of table i) 0) w (inr (omega arith))
    ∙ rw (ne→== (word_of table i) w (omega arith)) refl

-- A clear of a table leaves the tables on other pages.
pub clear_entries-elsewhere :
    (t u i : ℕ) (memory : ℕ → ℕ)
    → t % 4096 ≡ 0
    → u % 4096 ≡ 0
    → u / 4096 ≢ t / 4096
    → i < 1024
    → clear_entries 1024 0 t memory (word_of u i) ≡ memory (word_of u i)
clear_entries-elsewhere t u i memory ht hu ne lt = elim (Bool-cases (ltb (word_of u i) (t / 4))) [
  | inl below ↦
      clear_entries-outside 1024 0 t memory (word_of u i) (inl (omega (arith, ltb→lt _ _ below)))
  | inr above ↦
      clear_entries-outside 1024 0 t memory (word_of u i) (inr (omega (arith, ltb→le _ _ above)))
]

pub page_of_lem : (x : ℕ) → page_of x ≡ x / 4096 * 4096
page_of_lem x = omega arith

pub page_of-page : (x : ℕ) → page_of x / 4096 ≡ x / 4096
page_of-page x = omega arith

-- The new entry of the directory, put together with `|`.
pub table_entry :
    (table : ℕ) → table % 4096 ≡ 0 → bit_or (bit_or table present) writable ≡ table + 3
table_entry table aligned =
    ap (λ e. bit_or e 2) one ∙ bit_or-two (table + 1) (omega arith) ∙ omega arith
  where
    one : bit_or table 1 ≡ table + 1
    one =
        subst (λ t. bit_or t 1 ≡ t + 1) (omega arith) (bit_or-low 12 (table / 4096) 1 (omega arith))

pub page_entry : (p f : ℕ) → f < 4096 → bit_or (page_of p) f ≡ page_of p + f
page_entry p f lt = rw (page_of_lem p) (bit_or-low 12 (p / 4096) f lt)
