-- ===== src/Ramfs/Operations.antt =====
-- Each operation of ramfs.c keeps the table a tree, on every branch.
use mathlib.Core.Option.{some_inj}
use veni.Base.{
  ℕ, ◌+◌, ◌≤◌, ◌<◌, ◌≡◌, refl, ap, sym, subst, ◌∙◌, true, false, Option, none, some, List, ◌==◌,
  get_or, length, arith, inl, inr, Bool-cases, leb, leb→lt, ◌^◌, Option-cases, ==→eq, ==→ne,
}
use veni.CString.Text.{Text, components}
use veni.Ramfs.{
  Inode, Inodes, inode, zero_dirent, max_files, temp_copy, ramfs_find_inode, split_path, has_entry,
  entry_position, add_child, drop_entry, create_in, ramfs_create, mkdir_in, ramfs_mkdir, unlink_in,
  ramfs_unlink,
}
use veni.Ramfs.Entries.{refs, refs_of_lookup, entry_position-lookup}
use veni.Ramfs.Content.{IsStored}
use veni.Ramfs.File.{Allocator, WriteResult, not_file, ramfs_write}
use veni.Ramfs.Access.{Wrote, WriteOutcome, ramfs_write-WriteOutcome}
use veni.Ramfs.Tree.{is_used, links, IsTree, used-lt, walk-used}
use veni.Ramfs.Search.{ramfs_find_inode-walk}
use veni.Ramfs.Change.{AddOutcome, add_child-AddOutcome, drop_entry-Dropped}
use veni.Ramfs.Keeps.{Made-IsTree, Linked-IsTree}
use veni.Ramfs.Drops.{Dropped-IsTree}

pub ramfs_find_inode-used :
    (ns : Inodes) (path : Text) (k : ℕ)
    → IsTree ns
    → ramfs_find_inode ns (some path) ≡ some k
    → is_used ns k ≡ true
ramfs_find_inode-used ns path k v h =
    walk-used ns 0 (components (temp_copy path)) k v v.root_used
      (sym (ramfs_find_inode-walk ns path) ∙ h)

add_child-IsTree :
    (ns : Inodes) (parent : ℕ) (name : Text) (type : ℕ)
    → IsTree ns
    → is_used ns parent ≡ true
    → IsTree (add_child ns parent name type).1
add_child-IsTree ns parent name type v used =
    by_outcome (add_child ns parent name type) (add_child-AddOutcome ns parent name type used)
  where
    by_outcome : (out : Option ℕ × Inodes) → AddOutcome ns parent name type out → IsTree out.1
    by_outcome (none, ns') (inl e) = subst IsTree (sym e) v
    by_outcome (none, ns') (inr (idx, made)) = Made-IsTree ns ns' type idx v made
    by_outcome (some idx, ns') linked = Linked-IsTree ns ns' parent name type idx v used linked

create_in-IsTree :
    (ns : Inodes) (name : Text) (o : Option ℕ)
    → IsTree ns
    → ((k : ℕ) → o ≡ some k → is_used ns k ≡ true)
    → IsTree (create_in ns name o).1
unfolding create_in
create_in-IsTree ns name none v used = v
create_in-IsTree ns name (some parent) v used = elim (Bool-cases ((inode ns parent).type == 1)) [
  | inl is_dir ↦ rw is_dir (elim (Bool-cases (has_entry (inode ns parent).entries name)) [
    | inl found ↦ rw found v
    | inr new ↦ rw new (add_child-IsTree ns parent name 0 v (used parent refl))
  ])
  | inr no_dir ↦ rw no_dir v
]

-- `ramfs_create` keeps the table a tree, also where it fails.
pub ramfs_create-IsTree :
    (ns : Inodes) (path : Option Text) → IsTree ns → IsTree (ramfs_create ns path).1
unfolding ramfs_create
ramfs_create-IsTree ns none v = v
ramfs_create-IsTree ns (some path) v =
    create_in-IsTree ns (split_path path).1 (ramfs_find_inode ns (some (split_path path).0)) v
      (λ k e. ramfs_find_inode-used ns (split_path path).0 k v e)

mkdir_in-IsTree :
    (ns : Inodes) (name : Text) (o : Option ℕ)
    → IsTree ns
    → ((k : ℕ) → o ≡ some k → is_used ns k ≡ true)
    → IsTree (mkdir_in ns name o).1
unfolding mkdir_in
mkdir_in-IsTree ns name none v used = v
mkdir_in-IsTree ns name (some parent) v used = elim (Bool-cases ((inode ns parent).type == 1)) [
  | inl is_dir ↦ rw is_dir (elim (Bool-cases (has_entry (inode ns parent).entries name)) [
    | inl found ↦ rw found v
    | inr new ↦ rw new (add_child-IsTree ns parent name 1 v (used parent refl))
  ])
  | inr no_dir ↦ rw no_dir v
]

-- `ramfs_mkdir` keeps the table a tree, also where it fails.
pub ramfs_mkdir-IsTree :
    (ns : Inodes) (path : Option Text) → IsTree ns → IsTree (ramfs_mkdir ns path).1
unfolding ramfs_mkdir
ramfs_mkdir-IsTree ns none v = v
ramfs_mkdir-IsTree ns (some path) v =
    mkdir_in-IsTree ns (split_path path).1 (ramfs_find_inode ns (some (split_path path).0)) v
      (λ k e. ramfs_find_inode-used ns (split_path path).0 k v e)

-- The entry at `k` of a used directory goes with the inode that it refers to.
pub drop_found-IsTree :
    (ns : Inodes) (parent : ℕ) (name : Text) (k idx : ℕ)
    → IsTree ns
    → is_used ns parent ≡ true
    → entry_position (inode ns parent).entries name ≡ some k
    → (get_or (inode ns parent).entries k zero_dirent).inode_idx ≡ idx
    → IsTree (drop_entry ns parent k idx)
drop_found-IsTree ns parent name k idx v used found target =
    let (inside, looked_up, same_name) =
      entry_position-lookup (inode ns parent).entries name k found in
    let ones = refs_of_lookup (inode ns parent).entries name _ looked_up in
    let target_used = subst (λ t. is_used ns t ≡ true) target (v.live parent _ used ones).0 in
    Dropped-IsTree ns (drop_entry ns parent k idx) parent k idx v used
      (drop_entry-Dropped ns parent k idx (used-lt ns parent used) (used-lt ns idx target_used))
      inside target

unlink_in-IsTree :
    (ns : Inodes) (name : Text) (o : Option ℕ)
    → IsTree ns
    → ((k : ℕ) → o ≡ some k → is_used ns k ≡ true)
    → IsTree (unlink_in ns name o).1
unfolding unlink_in
unlink_in-IsTree ns name none v used = v
unlink_in-IsTree ns name (some parent) v used = elim (Bool-cases ((inode ns parent).type == 1)) [
  | inr no_dir ↦ rw no_dir v
  | inl is_dir ↦ rw is_dir (elim (Option-cases (entry_position (inode ns parent).entries name)) [
    | inl nowhere ↦ rw nowhere v
    | inr (k, found) ↦
        rw found (drop_found-IsTree ns parent name k _ v (used parent refl) found refl)
  ])
]

-- `ramfs_unlink` keeps the table a tree, also where it fails.
pub ramfs_unlink-IsTree : (ns : Inodes) (path : Text) → IsTree ns → IsTree (ramfs_unlink ns path).1
unfolding ramfs_unlink
ramfs_unlink-IsTree ns path v =
    unlink_in-IsTree ns (split_path path).1 (ramfs_find_inode ns (some (split_path path).0)) v
      (λ k e. ramfs_find_inode-used ns (split_path path).0 k v e)

pub Wrote-IsTree :
    (ns : Inodes) (fd : ℕ) (buf : List ℕ) (size offset : ℕ) (r : WriteResult)
    → IsTree ns
    → Wrote ns fd buf size offset r
    → IsTree r.inodes
Wrote-IsTree ns fd buf size offset r v done = record {
  count = done.same_length ∙ v.count;
  root_used = same_used 0 ∙ v.root_used;
  root_dir = each (λ n. n.type) done.file.same.type 0 ∙ v.root_dir;
  once = λ i t u. ground (arith, same_links i t, same_used i, v.once i t);
  apart = λ i j t u w ne.
      ground (arith, same_links i t, same_used i, same_links j t, same_used j, v.apart i j t);
  live = λ i t u one. ground (arith, same_links i t, same_used i, same_used t, v.live i t);
  stored = λ i. elim (Bool-cases (fd == i)) [
    | inl e ↦ subst (λ j. IsStored (inode r.inodes j)) (==→eq fd i e) done.file.stored
    | inr e ↦ subst IsStored (sym (done.others i (==→ne fd i e))) (v.stored i)
  ];
}
  where
    each :
        {X : Type 0} (f : Inode → X)
        → f (inode r.inodes fd) ≡ f (inode ns fd)
        → (i : ℕ) → f (inode r.inodes i) ≡ f (inode ns i)
    each f same i = elim (Bool-cases (fd == i)) [
      | inl e ↦ subst (λ j. f (inode r.inodes j) ≡ f (inode ns j)) (==→eq fd i e) same
      | inr e ↦ ap f (done.others i (==→ne fd i e))
    ]

    same_used : (i : ℕ) → is_used r.inodes i ≡ is_used ns i
    same_used = each (λ n. n.used) done.file.same.used

    same_links : (i t : ℕ) → links r.inodes i t ≡ links ns i t
    same_links i t = each (λ n. refs n.entries t) (ap (λ es. refs es t) done.file.same.entries) i

pub not_file-bound : (ns : Inodes) (fd : ℕ) → not_file ns fd ≡ false → fd < max_files
not_file-bound ns fd e = elim (Bool-cases (leb max_files fd)) [
  | inl high ↦ ground (arith, e, high)
  | inr low ↦ leb→lt _ _ low
]

outcome-IsTree :
    (a : Allocator) (ns : Inodes) (fd : ℕ) (buf : List ℕ) (size offset : ℕ) (r : WriteResult)
    → IsTree ns
    → WriteOutcome a ns fd buf size offset r
    → IsTree r.inodes
outcome-IsTree a ns fd buf size offset r v (inl done) = Wrote-IsTree ns fd buf size offset r v done
outcome-IsTree a ns fd buf size offset r v (inr (e, _, _)) =
    subst IsTree (sym (ap (λ x. x.inodes) e)) v

-- A write to an open file whose end is below 2 ^ 27 keeps the table a tree, whether it is carried
-- out or not.
pub ramfs_write-IsTree :
    (a : Allocator) (ns : Inodes) (fd : ℕ) (buf : List ℕ) (size offset : ℕ) (r : WriteResult)
    → not_file ns fd ≡ false
    → size ≤ length buf
    → offset + size < 2 ^ 27
    → IsTree ns
    → ramfs_write a ns fd buf size offset ≡ some r
    → IsTree r.inodes
ramfs_write-IsTree a ns fd buf size offset r open_file enough small v e =
    let (k, e', o) =
      ramfs_write-WriteOutcome a ns fd buf size offset open_file
        (omega (arith, not_file-bound ns fd open_file, v.count)) (v.stored fd) enough small in
    subst (λ x. IsTree x.inodes) (some_inj.0 (sym e' ∙ e))
      (outcome-IsTree a ns fd buf size offset k v o)
