-- ===== src/Ramfs/Unlink.antt =====
-- `ramfs_unlink` of ramfs.c: what goes, what stays, and that all that is in use can be reached.
use mathlib.Core.Option.{some_inj}
use veni.Base.{
  ℕ, ◌≤◌, ◌≡◌, ◌≢◌, refl, ap, sym, subst, ◌∙◌, true, false, Option, none, some, List, ◌==◌, ◌⊎◌,
  if◌then◌else◌, get_or, arith, inl, inr, Bool-cases, Option-cases, ==→eq, ==→ne, ne→==, true≢false,
  none_is_some, ◌<◌, length, [], ◌∷◌,
}
use veni.CString.Text.{Text}
use veni.Ramfs.{
  Dirent, Inode, Inodes, inode, zero_dirent, lookup_entry, entry_position, drop_entry,
  ramfs_find_inode, split_path, unlink_in, ramfs_unlink,
}
use veni.Ramfs.Entries.{refs_of_lookup, entry_position-lookup}
use veni.Ramfs.Tree.{is_used, links, IsTree, used-lt}
use veni.Ramfs.Change.{Dropped, cut_at-keeps, drop_entry-Dropped}
use veni.Ramfs.Drops.{dropped-used, dropped-links, none_left, Dropped-IsTree}
use veni.Ramfs.Operations.{ramfs_find_inode-used}

-- The inodes to which entries of used directories lead from the root.
pub data Reached (ns : Inodes) : ℕ → Type 0 where
  root : Reached ns 0
  child : (i t : ℕ) → Reached ns i → is_used ns i ≡ true → 1 ≤ links ns i t → Reached ns t

-- Every inode in use can be reached.
abbrev pub AllReached : Inodes → Type 0
AllReached ns = (t : ℕ) → is_used ns t ≡ true → Reached ns t

-- The entry that `ramfs_unlink` of the path looks for: its directory, and the inode that it names.
pub record IsEntry (ns : Inodes) (path : Text) (parent idx : ℕ) : Type 0 where
  pub found : ramfs_find_inode ns (some (split_path path).0) ≡ some parent
  pub is_dir : (inode ns parent).type ≡ 1
  pub named : lookup_entry (inode ns parent).entries (split_path path).1 ≡ some idx

-- The entry and its inode are gone, and nothing else has changed.
pub record Gone (ns : Inodes) (path : Text) (ns' : Inodes) : Type 0 where
  pub parent : ℕ
  pub idx : ℕ
  pub entry : IsEntry ns path parent idx
  pub used : (j : ℕ) → is_used ns' j ≡ (if idx == j then false else is_used ns j)
  pub unnamed : (j : ℕ) → is_used ns' j ≡ true → links ns' j idx ≡ 0
  pub names : (j t : ℕ) → idx ≢ t → links ns' j t ≡ links ns j t
  pub content :
      (j : ℕ)
      → ((inode ns' j).type ≡ (inode ns j).type)
        × ((inode ns' j).size ≡ (inode ns j).size)
        × ((inode ns' j).bytes ≡ (inode ns j).bytes)
  pub tree : IsTree ns'
  pub all_reached : AllReached ns'

abbrev pub UnlinkOutcome : Inodes → Text → Option ℕ × Inodes → Type 0
UnlinkOutcome ns path r =
    ((r.0 ≡ none) × (r.1 ≡ ns) × ((parent idx : ℕ) → IsEntry ns path parent idx → ⊥))
    ⊎ ((r.0 ≡ some 0) × Gone ns path r.1)

module _ (ns ns' : Inodes) (idx : ℕ)
    (used : (j : ℕ) → is_used ns' j ≡ (if idx == j then false else is_used ns j))
    (names : (j t : ℕ) → idx ≢ t → links ns' j t ≡ links ns j t)
    (childless : (t : ℕ) → links ns idx t ≡ 0) where
  -- The way to an inode does not lead through one without entries.
  Reached-without : (t : ℕ) → idx ≢ t → Reached ns t → Reached ns' t
  Reached-without _ ne root = root
  Reached-without t ne (child i _ h u one) = elim (Bool-cases (idx == i)) [
    | inl same ↦ absurd (omega (arith, childless t, one, ap (λ j. links ns j t) (==→eq idx i same)))
    | inr other ↦
        child i t (Reached-without i (==→ne idx i other) h) (used i ∙ rw other u)
          (omega (arith, names i t ne))
  ]

  AllReached-without : AllReached ns → AllReached ns'
  AllReached-without all t u = elim (Bool-cases (idx == t)) [
    | inl same ↦ absurd (true≢false (sym u ∙ used t ∙ rw same refl))
    | inr other ↦ Reached-without t (==→ne idx t other) (all t (sym (rw other at (used t)) ∙ u))
  ]

lookup-entry_position :
    (es : List Dirent) (name : Text) → entry_position es name ≡ none → lookup_entry es name ≡ none
unfolding lookup_entry entry_position
lookup-entry_position [] name e = refl
lookup-entry_position (d ∷ es) name e = elim (Option-cases (entry_position es name)) [
  | inl nowhere ↦ ground (arith, lookup-entry_position es name nowhere)
  | inr (k, found) ↦ ground arith
]

module _ (ns : Inodes) (path : Text) (v : IsTree ns) (all : AllReached ns)
    (childless : (parent idx : ℕ) → IsEntry ns path parent idx → (t : ℕ) → links ns idx t ≡ 0) where
  Gone-Gone :
      (parent k idx : ℕ)
      → IsEntry ns path parent idx
      → is_used ns parent ≡ true
      → entry_position (inode ns parent).entries (split_path path).1 ≡ some k
      → (get_or (inode ns parent).entries k zero_dirent).inode_idx ≡ idx
      → Gone ns path (drop_entry ns parent k idx)
  Gone-Gone parent k idx h u found target = record {
    parent = parent;
    idx = idx;
    entry = h;
    used = used;
    unnamed = none_left ns ns' parent k idx v u dropped inside target;
    names = names;
    content = λ j. (
      ap (λ (n : Inode). n.type) (dropped.node j)
          ∙ cut_at-keeps ns parent k (λ (n : Inode). n.type) j refl,
      ap (λ (n : Inode). n.size) (dropped.node j)
          ∙ cut_at-keeps ns parent k (λ (n : Inode). n.size) j refl,
      ap (λ (n : Inode). n.bytes) (dropped.node j)
          ∙ cut_at-keeps ns parent k (λ (n : Inode). n.bytes) j refl,
    );
    tree = Dropped-IsTree ns ns' parent k idx v u dropped inside target;
    all_reached = AllReached-without ns ns' idx used names (childless parent idx h) all;
  }
    where
      ns' : Inodes
      ns' = drop_entry ns parent k idx

      inside : k < length (inode ns parent).entries
      inside = (entry_position-lookup (inode ns parent).entries (split_path path).1 k found).0

      live : is_used ns idx ≡ true
      live =
          (v.live parent idx u
            (refs_of_lookup (inode ns parent).entries (split_path path).1 idx h.named)).0

      dropped : Dropped ns parent k idx ns'
      dropped = drop_entry-Dropped ns parent k idx (used-lt ns parent u) (used-lt ns idx live)

      used : (j : ℕ) → is_used ns' j ≡ (if idx == j then false else is_used ns j)
      used = dropped-used ns ns' parent k idx v u dropped inside target

      names : (j t : ℕ) → idx ≢ t → links ns' j t ≡ links ns j t
      names j t ne =
          ground
            (arith, dropped-links ns ns' parent k idx v u dropped inside target j t, ne→== idx t ne)

  unlink_in-UnlinkOutcome :
      (o : Option ℕ)
      → ramfs_find_inode ns (some (split_path path).0) ≡ o
      → UnlinkOutcome ns path (unlink_in ns (split_path path).1 o)
  unfolding unlink_in
  unlink_in-UnlinkOutcome none e =
      inl (refl, refl, λ parent idx h. none_is_some parent (sym e ∙ h.found))
  unlink_in-UnlinkOutcome (some parent) e = elim (Bool-cases ((inode ns parent).type == 1)) [
    | inr no_dir ↦ rw no_dir (
        inl (
          refl,
          refl,
          λ p idx h.
              ==→ne _ _ no_dir (subst (λ i. (inode ns i).type ≡ 1) (same p h.found) h.is_dir),
        ))
    | inl is_dir ↦
        rw is_dir
          (elim (Option-cases (entry_position (inode ns parent).entries (split_path path).1)) [
            | inl nowhere ↦ rw nowhere (
                inl (
                  refl,
                  refl,
                  λ p idx h. none_is_some idx (
                      sym (
                        lookup-entry_position (inode ns parent).entries (split_path path).1 nowhere)
                      ∙ ap (λ i. lookup_entry (inode ns i).entries (split_path path).1)
                          (sym (same p h.found))
                      ∙ h.named),
                ))
            | inr (k, found) ↦ rw found (
                inr (
                  refl,
                  Gone-Gone parent k _
                      (record {
                        found = e;
                        is_dir = ==→eq _ _ is_dir;
                        named =
                            (entry_position-lookup (inode ns parent).entries (split_path path).1 k
                              found).1;
                      })
                      (ramfs_find_inode-used ns (split_path path).0 parent v e) found refl,
                ))
          ])
  ]
    where
      same : (p : ℕ) → ramfs_find_inode ns (some (split_path path).0) ≡ some p → p ≡ parent
      same p f = some_inj.0 (sym f ∙ e)

  -- In a tree all of whose inodes in use can be reached from the root: `ramfs_unlink` fails, and changes
  -- nothing, exactly if the directory of the path has no entry of its name. Otherwise, where the inode
  -- of the entry names no other one, as a file does, that inode is free and no directory in use names
  -- it; all other inodes and names, and the content of all inodes, are as before; the table is still
  -- a tree, and all that is in use can still be reached.
  pub ramfs_unlink-UnlinkOutcome : UnlinkOutcome ns path (ramfs_unlink ns path)
  unfolding ramfs_unlink
  ramfs_unlink-UnlinkOutcome =
      unlink_in-UnlinkOutcome (ramfs_find_inode ns (some (split_path path).0)) refl
