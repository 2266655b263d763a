-- ===== src/Ramfs/Change.antt =====
-- What `ramfs_create`, `ramfs_mkdir`, `ramfs_unlink` and `ramfs_rmdir` change in the table.
use veni.Base.{
  ℕ, ◌-◌, ◌<◌, ◌≡◌, ◌≢◌, refl, ap, sym, subst, ◌∙◌, true, false, Option, none, some, [], ◌∷◌, ◌++◌,
  ◌==◌, if◌then◌else◌, set, take, length, arith, inl, inr, Bool-cases, Option-cases, ==→eq, ne→==,
  true≢false, length-set, leb, ◌⊎◌,
}
use veni.CString.Text.{Text}
use veni.Ramfs.{
  Dirent, Inode, Inodes, inode, fresh_inode, alloc_inode, name_max, link_entry, add_child,
  drop_entry, remove_entry,
}
use veni.Ramfs.Tree.{is_used, inode-set, used-lt, alloc_inode-unused}

-- The inode of a file or directory that has just been made.
abbrev pub new_inode : ℕ → Inode
new_inode type = record fresh_inode { type = type }

abbrev pub new_entry : Text → ℕ → Dirent
new_entry name idx = record { name = take (name_max - 1) name; inode_idx = idx }

abbrev pub with_entry : Inode → Dirent → Inode
with_entry n e = record n { entries = n.entries ++ e ∷ [] }

-- `ns'` is `ns` with a new inode `idx`.
pub record Made (ns : Inodes) (type idx : ℕ) (ns' : Inodes) : Type 0 where
  pub in_table : idx < length ns
  pub was_unused : is_used ns idx ≡ false
  pub node : (j : ℕ) → inode ns' j ≡ (if idx == j then new_inode type else inode ns j)
  pub same_length : length ns' ≡ length ns

-- Besides, the directory `parent` has an entry for it at its end.
pub record Linked (ns : Inodes) (parent : ℕ) (name : Text) (type idx : ℕ) (ns' : Inodes)
    : Type 0 where
  pub in_table : idx < length ns
  pub was_unused : is_used ns idx ≡ false
  pub other_dir : parent ≢ idx
  pub node :
      (j : ℕ)
      → inode ns' j ≡ (
          if parent == j
          then with_entry (inode ns parent) (new_entry name idx)
          else if idx == j
          then new_inode type
          else inode ns j)
  pub same_length : length ns' ≡ length ns

-- What `add_child` can come to.
abbrev pub AddOutcome : Inodes → (parent : ℕ) → Text → (type : ℕ) → Option ℕ × Inodes → Type 0
AddOutcome ns parent name type (none, ns') = (ns' ≡ ns) ⊎ ((idx : ℕ) × Made ns type idx ns')
AddOutcome ns parent name type (some idx, ns') = Linked ns parent name type idx ns'

alloc_inode-Made :
    (ns ns' : Inodes) (type idx : ℕ)
    → alloc_inode ns ≡ some (idx, ns')
    → Made ns type idx (set ns' idx (record (inode ns' idx) { type = type }))
alloc_inode-Made ns ns' type idx e =
    let (inside, free, made) = alloc_inode-unused ns ns' idx e in
    let size : length ns' ≡ length ns = ap length made ∙ length-set ns idx fresh_inode in
    record {
      in_table = inside;
      was_unused = free;
      node = λ j.
          inode-set ns' idx (record (inode ns' idx) { type = type }) j (omega arith)
          ∙ ground (
            arith,
            ap (λ m. inode m idx) made,
            ap (λ m. inode m j) made,
            inode-set ns idx fresh_inode idx inside,
            inode-set ns idx fresh_inode j inside,
          );
      same_length = length-set ns' idx (record (inode ns' idx) { type = type }) ∙ size;
    }

link_entry-AddOutcome :
    (ns ns' : Inodes) (parent : ℕ) (name : Text) (type idx : ℕ)
    → is_used ns parent ≡ true
    → Made ns type idx ns'
    → AddOutcome ns parent name type (link_entry ns' parent name idx)
unfolding link_entry
link_entry-AddOutcome ns ns' parent name type idx used made =
    elim (Bool-cases (leb 256 (length (inode ns' parent).entries))) [
      | inl full ↦ rw full (inr (idx, made))
      | inr room ↦ rw room (record {
        in_table = made.in_table;
        was_unused = made.was_unused;
        other_dir = other;
        node = λ j.
            inode-set ns' parent (with_entry (inode ns' parent) (new_entry name idx)) j inside
            ∙ node j;
        same_length = length-set ns' parent _ ∙ made.same_length;
      })
    ]
  where
    other : parent ≢ idx
    other e = true≢false (sym used ∙ ap (is_used ns) e ∙ made.was_unused)

    same_parent : inode ns' parent ≡ inode ns parent
    same_parent = made.node parent ∙ rw (ne→== idx parent (λ e. other (sym e)))

    inside : parent < length ns'
    inside = omega (arith, used-lt ns parent used, made.same_length)

    node :
        (j : ℕ)
        → (if parent == j then with_entry (inode ns' parent) (new_entry name idx) else inode ns' j)
          ≡ (if parent == j
              then with_entry (inode ns parent) (new_entry name idx)
              else if idx == j
              then new_inode type
              else inode ns j)
    node j = elim (Bool-cases (parent == j)) [
      | inl e ↦ rw e (ap (λ n. with_entry n (new_entry name idx)) same_parent)
      | inr e ↦ rw e (made.node j)
    ]

add_child_full :
    (ns : Inodes) (parent : ℕ) (name : Text) (type : ℕ)
    → alloc_inode ns ≡ none
    → add_child ns parent name type ≡ (none, ns)
unfolding add_child
add_child_full ns parent name type e = rw (e, add_child)

add_child_made :
    (ns ns' : Inodes) (parent : ℕ) (name : Text) (type idx : ℕ)
    → alloc_inode ns ≡ some (idx, ns')
    → add_child ns parent name type
      ≡ link_entry (set ns' idx (record (inode ns' idx) { type = type })) parent name idx
unfolding add_child
add_child_made ns ns' parent name type idx e = rw (e, add_child)

-- On a used directory, `add_child` either makes the inode and its entry, or changes nothing, or
-- leaves an inode in use that no directory refers to.
pub add_child-AddOutcome :
    (ns : Inodes) (parent : ℕ) (name : Text) (type : ℕ)
    → is_used ns parent ≡ true
    → AddOutcome ns parent name type (add_child ns parent name type)
add_child-AddOutcome ns parent name type used = elim (Option-cases (alloc_inode ns)) [
  | inl full ↦
      subst (AddOutcome ns parent name type) (sym (add_child_full ns parent name type full))
        (inl refl)
  | inr ((idx, ns'), e) ↦
      subst (AddOutcome ns parent name type) (sym (add_child_made ns ns' parent name type idx e)) (
        link_entry-AddOutcome ns (set ns' idx (record (inode ns' idx) { type = type })) parent name
          type idx used (alloc_inode-Made ns ns' type idx e))
]

-- The directory without its entry at `k`.
abbrev pub without_entry : Inode → ℕ → Inode
without_entry n k = record n { entries = remove_entry n.entries k }

-- `ns'` is `ns` without the entry at `k` of the directory `parent`, and with the inode `idx` free.
pub record Dropped (ns : Inodes) (parent k idx : ℕ) (ns' : Inodes) : Type 0 where
  pub node :
      (j : ℕ)
      → inode ns' j
        ≡ record (if parent == j then without_entry (inode ns parent) k else inode ns j) {
          used = if idx == j then false else is_used ns j;
        }
  pub same_length : length ns' ≡ length ns

module _ (ns : Inodes) (parent k : ℕ) where
  abbrev cut_at : ℕ → Inode
  cut_at j = if parent == j then without_entry (inode ns parent) k else inode ns j

  -- What an entry's removal leaves alone.
  pub cut_at-keeps {ℓ} :
      {X : Type ℓ} (f : Inode → X) (j : ℕ)
      → f (without_entry (inode ns parent) k) ≡ f (inode ns parent)
      → f (if parent == j then without_entry (inode ns parent) k else inode ns j) ≡ f (inode ns j)
  cut_at-keeps f j same = elim (Bool-cases (parent == j)) [
    | inl e ↦ rw e (same ∙ ap (λ i. f (inode ns i)) (==→eq parent j e))
    | inr e ↦ rw e
  ]

  pub drop_entry-Dropped :
      (idx : ℕ)
      → parent < length ns
      → idx < length ns
      → Dropped ns parent k idx (drop_entry ns parent k idx)
  unfolding drop_entry
  drop_entry-Dropped idx inside inside' = record {
    node = λ j. second j ∙ node j;
    same_length =
        length-set first_table idx (record (inode first_table idx) { used = false })
        ∙ length-set ns parent (without_entry (inode ns parent) k);
  }
    where
      first_table : Inodes
      first_table = set ns parent (without_entry (inode ns parent) k)

      first : (j : ℕ) → inode first_table j ≡ cut_at j
      first j = inode-set ns parent (without_entry (inode ns parent) k) j inside

      second :
          (j : ℕ)
          → inode (set first_table idx (record (inode first_table idx) { used = false })) j ≡ (
              if idx == j
              then record (inode first_table idx) { used = false }
              else inode first_table j)
      second j =
          inode-set first_table idx (record (inode first_table idx) { used = false }) j
            (omega (arith, length-set ns parent (without_entry (inode ns parent) k)))

      node :
          (j : ℕ)
          → (if idx == j
              then record (inode first_table idx) { used = false }
              else inode first_table j)
            ≡ record (cut_at j) { used = if idx == j then false else is_used ns j }
      node j = elim (Bool-cases (idx == j)) [
        | inl e ↦ rw e (
            ap (λ (n : Inode). record n { used = false })
              (ap (inode first_table) (==→eq idx j e) ∙ first j))
        | inr e ↦ rw e (
            first j
            ∙ ap (λ u. record (cut_at j) { used = u })
                (cut_at-keeps (λ (n : Inode). n.used) j refl))
      ]
