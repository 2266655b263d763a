-- ===== src/Vfs/Files.antt =====
-- The table of open files of vfs.c.
use mathlib.Core.Option.{some_inj}
use veni.Base.{
  ℕ, zero, suc, ◌+◌, ◌<◌, ◌≡◌, ◌≢◌, refl, sym, ap, subst, ◌∙◌, Bool, true, false, not, Option, none,
  some, List, [], ◌∷◌, ◌==◌, ltb, if◌then◌else◌, get_or, set, get_or-set_self, get_or-set_ne,
  length-set, length, arith, inl, inr, ◌⊎◌, Bool-cases, lt→ltb, ltb→lt, ltb→le, ==→eq, ==→ne,
  true≢false,
}
use veni.Vfs.{Vfs, File, file, zero_file, unused_file, alloc_found, alloc_fd, free_fd}

none_not_some : (k : ℕ) → none ≢ some k
none_not_some k e = cc

-- The lowest file that is not in use.
abbrev IsLowest : List File → ℕ → Type 0
IsLowest fs k =
    (k < length fs)
    × ((get_or fs k zero_file).used ≡ false)
    × ((j : ℕ) → j < k → (get_or fs j zero_file).used ≡ true)

-- The outcome of the search from number `i` on.
abbrev Searched : List File → (i : ℕ) → Option ℕ → Type 0
Searched fs i r =
    ((r ≡ none) × ((j : ℕ) → j < length fs → (get_or fs j zero_file).used ≡ true))
    ⊎ ((k : ℕ) × (r ≡ some (i + k)) × IsLowest fs k)

unused_file-Searched : (fs : List File) (i : ℕ) → Searched fs i (unused_file fs i)
unfolding unused_file
unused_file-Searched [] i = inl (refl, λ j lt. absurd (omega arith))
unused_file-Searched (f ∷ fs) i = by_use (unused_file-Searched fs (i + 1)) f.used refl
  where
    later : f.used ≡ true → (r : Option ℕ) → Searched fs (i + 1) r → Searched (f ∷ fs) i r
    later used r (inl (e, all)) = inl (e, every)
      where
        every : (j : ℕ) → j < length (f ∷ fs) → (get_or (f ∷ fs) j zero_file).used ≡ true
        every zero lt = used
        every (suc j) lt = all j (omega arith)
    later used r (inr (k, e, (lt, free, low))) =
        inr (suc k, e ∙ ap some (omega arith), (omega arith, free, lower))
      where
        lower : (j : ℕ) → j < suc k → (get_or (f ∷ fs) j zero_file).used ≡ true
        lower zero h = used
        lower (suc j) h = low j (omega arith)

    by_use :
        Searched fs (i + 1) (unused_file fs (i + 1))
        → (b : Bool) → f.used ≡ b
        → Searched (f ∷ fs) i (if not b then some i else unused_file fs (i + 1))
    by_use rest true used = later used (unused_file fs (i + 1)) rest
    by_use rest false free =
        inr (0, ap some (omega arith), (omega arith, free, λ j lt. absurd (omega arith)))

-- A new descriptor: the lowest one that was free, at offset 0, and no other file is touched.
pub record Opened (v : Vfs) (fd : ℕ) (v' : Vfs) : Type 0 where
  pub in_table : fd < length v.files
  pub was_free : (file v fd).used ≡ false
  pub lowest : (j : ℕ) → j < fd → (file v j).used ≡ true
  pub now_used : (file v' fd).used ≡ true
  pub at_start : (file v' fd).offset ≡ 0
  pub others : (j : ℕ) → fd ≢ j → file v' j ≡ file v j
  pub same_mounts : v'.mounts ≡ v.mounts
  pub same_length : length v'.files ≡ length v.files

-- `alloc_fd` returns the lowest descriptor that is free and marks it as used, at offset 0; no other
-- file changes. If all are in use it fails and changes nothing.
pub alloc_fd-Opened :
    (v : Vfs)
    → ((alloc_fd v ≡ (none, v)) × ((j : ℕ) → j < length v.files → (file v j).used ≡ true))
      ⊎ ((fd : ℕ) × ((alloc_fd v).0 ≡ some fd) × Opened v fd (alloc_fd v).1)
unfolding alloc_fd alloc_found
alloc_fd-Opened v = by_search (unused_file v.files 0) refl (unused_file-Searched v.files 0)
  where
    opened : (fd : ℕ) → IsLowest v.files fd → Opened v fd (alloc_found v (some fd)).1
    opened fd (lt, free, low) = record {
      in_table = lt;
      was_free = free;
      lowest = low;
      now_used = ap (λ f. f.used) self;
      at_start = ap (λ f. f.offset) self;
      others = λ j ne. get_or-set_ne v.files fd j new zero_file ne;
      same_mounts = refl;
      same_length = length-set v.files fd new;
    }
      where
        new : File
        new = record (file v fd) { used = true; offset = 0 }

        self : file (alloc_found v (some fd)).1 fd ≡ new
        self = get_or-set_self v.files fd new zero_file lt

    from_zero : (k : ℕ) → 0 + k ≡ k
    from_zero k = omega arith

    by_search :
        (r : Option ℕ)
        → unused_file v.files 0 ≡ r
        → Searched v.files 0 r
        → ((alloc_found v (unused_file v.files 0) ≡ (none, v))
            × ((j : ℕ) → j < length v.files → (file v j).used ≡ true))
          ⊎ ((fd : ℕ) × ((alloc_found v (unused_file v.files 0)).0 ≡ some fd)
              × Opened v fd (alloc_found v (unused_file v.files 0)).1)
    by_search r e (inl (f, all)) = rw (e, f) (inl (refl, all))
    by_search r e (inr (k, f, low)) =
        rw (e ∙ f ∙ ap some (from_zero k)) (inr (k, refl, opened k low))

pub alloc_fd-some : (v v' : Vfs) (fd : ℕ) → alloc_fd v ≡ (some fd, v') → Opened v fd v'
alloc_fd-some v v' fd e = elim (alloc_fd-Opened v) [
  | inl (f, _) ↦ absurd (none_not_some fd (ap (λ r. r.0) (sym f ∙ e)))
  | inr (k, f, opened) ↦
      subst (λ w. Opened v fd w) (ap (λ r. r.1) e)
        (subst (λ i. Opened v i (alloc_fd v).1) (some_inj.0 (sym f ∙ ap (λ r. r.0) e)) opened)
]

module _ (v v' : Vfs) (fd : ℕ) (all : length v.files ≡ 64) (e : alloc_fd v ≡ (some fd, v')) where
  opened : Opened v fd v'
  opened = alloc_fd-some v v' fd e

  freed : File
  freed = record (file v' fd) { used = false }

  free_fd-used : (j : ℕ) → (file (free_fd v' fd) j).used ≡ (file v j).used
  unfolding free_fd freed
  free_fd-used j =
      rw (lt→ltb fd 64 (omega (arith, opened.in_table, all))) (elim (Bool-cases (fd == j)) [
        | inl same ↦
            subst (λ i. (get_or (set v'.files fd freed) i zero_file).used ≡ (file v i).used)
              (==→eq fd j same)
              (ap (λ f. f.used)
                  (get_or-set_self v'.files fd freed zero_file
                    (omega (arith, opened.in_table, opened.same_length)))
                ∙ sym opened.was_free)
        | inr other ↦
            ap (λ f. f.used)
              (get_or-set_ne v'.files fd j freed zero_file (==→ne _ _ other)
                ∙ opened.others j (==→ne _ _ other))
      ])

  free_fd-length : length (free_fd v' fd).files ≡ 64
  unfolding free_fd freed
  free_fd-length =
      rw (lt→ltb fd 64 (omega (arith, opened.in_table, all)))
        (length-set v'.files fd freed ∙ opened.same_length ∙ all)

  again : (alloc_fd (free_fd v' fd)).0 ≡ some fd
  again = elim (alloc_fd-Opened (free_fd v' fd)) [
    | inl (_, full) ↦ absurd (
        true≢false (
          sym (full fd (omega (arith, free_fd-length, opened.in_table, all)))
          ∙ free_fd-used fd
          ∙ opened.was_free))
    | inr (k, f, second) ↦ f ∙ ap some (by_order k second)
  ]
    where
      by_order : (k : ℕ) → Opened (free_fd v' fd) k (alloc_fd (free_fd v' fd)).1 → k ≡ fd
      by_order k second = elim (Bool-cases (ltb k fd)) [
        | inl before ↦ absurd (
            true≢false
              (sym (opened.lowest k (ltb→lt _ _ before)) ∙ sym (free_fd-used k) ∙ second.was_free))
        | inr at ↦ elim (Bool-cases (ltb fd k)) [
          | inl behind ↦ absurd (
              true≢false
                (sym (second.lowest fd (ltb→lt _ _ behind)) ∙ free_fd-used fd ∙ opened.was_free))
          | inr here ↦ omega (arith, ltb→le _ _ at, ltb→le _ _ here)
        ]
      ]

-- With 64 files, `free_fd` of the descriptor that `alloc_fd` has just returned leaves the same files
-- in use as before, and the next `alloc_fd` returns the same descriptor.
pub free_fd-alloc_fd :
    (v v' : Vfs) (fd : ℕ)
    → length v.files ≡ 64
    → alloc_fd v ≡ (some fd, v')
    → ((j : ℕ) → (file (free_fd v' fd) j).used ≡ (file v j).used)
      × ((alloc_fd (free_fd v' fd)).0 ≡ some fd)
free_fd-alloc_fd v v' fd all e = (free_fd-used v v' fd all e, again v v' fd all e)
