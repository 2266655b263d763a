-- ===== src/Ramfs/Rmdir.antt =====
-- `ramfs_rmdir` of ramfs.c removes the directory that it found, and keeps the table a tree.
use mathlib.Core.Option.{some_inj}
use veni.Base.{
  ℕ, ◌≡◌, ◌≢◌, refl, ap, sym, subst, ◌∙◌, false, Option, none, some, List, [], ◌∷◌, ◌==◌, get_or,
  length, arith, inl, inr, Bool-cases, ◌>>=◌, ltb,
}
use veni.CString.Text.{Text, flush}
use veni.Ramfs.{
  Dirent, Inodes, inode, zero_dirent, walk, ramfs_find_inode, split_path, entry_position, rmdir_at,
  rmdir_from, rmdir_found, ramfs_rmdir,
}
use veni.Ramfs.Entries.{entry_position-lookup}
use veni.Ramfs.Tree.{IsTree}
use veni.Ramfs.Search.{ramfs_find_inode-split, walk_name, walk_empty}
use veni.Ramfs.Operations.{ramfs_find_inode-used, drop_found-IsTree}

no_position : (name : Text) (k : ℕ) → entry_position [] name ≢ some k
unfolding entry_position
no_position name k e = cc

nil_of_empty : (es : List Dirent) → ltb 0 (length es) ≡ false → es ≡ []
nil_of_empty [] h = refl
nil_of_empty (e ∷ es) h = ground arith

-- The entry that `ramfs_rmdir` removes is the one by which it found the directory.
rmdir_target :
    (ns : Inodes) (path : Text) (idx parent k : ℕ)
    → ramfs_find_inode ns (some path) ≡ some idx
    → (inode ns idx).entries ≡ []
    → ramfs_find_inode ns (some (split_path path).0) ≡ some parent
    → entry_position (inode ns parent).entries (split_path path).1 ≡ some k
    → (get_or (inode ns parent).entries k zero_dirent).inode_idx ≡ idx
rmdir_target ns path idx parent k found empty found_dir at = some_inj.0 (
    sym (entry_position-lookup (inode ns parent).entries (split_path path).1 k at).1
    ∙ walk_name ns parent (split_path path).1 idx reached named)
  where
    reached : walk ns parent (flush (split_path path).1) ≡ some idx
    reached =
        sym (ap (λ o. o >>= λ p. walk ns p (flush (split_path path).1)) found_dir)
        ∙ sym (ramfs_find_inode-split ns path)
        ∙ found

    same_dir : (split_path path).1 ≡ [] → parent ≡ idx
    same_dir e =
        some_inj.0
          (sym (walk_empty ns parent) ∙ ap (λ b. walk ns parent (flush b)) (sym e) ∙ reached)

    named : (split_path path).1 ≢ []
    named e = no_position (split_path path).1 k (
        subst (λ es. entry_position es (split_path path).1 ≡ some k)
          (ap (λ i. (inode ns i).entries) (same_dir e) ∙ empty) at)

rmdir_at-IsTree :
    (ns : Inodes) (path : Text) (idx parent : ℕ) (o : Option ℕ)
    → IsTree ns
    → ramfs_find_inode ns (some path) ≡ some idx
    → (inode ns idx).entries ≡ []
    → ramfs_find_inode ns (some (split_path path).0) ≡ some parent
    → entry_position (inode ns parent).entries (split_path path).1 ≡ o
    → IsTree (rmdir_at ns parent idx o).1
unfolding rmdir_at
rmdir_at-IsTree ns path idx parent none v found empty found_dir at = v
rmdir_at-IsTree ns path idx parent (some k) v found empty found_dir at =
    drop_found-IsTree ns parent (split_path path).1 k idx v
      (ramfs_find_inode-used ns (split_path path).0 parent v found_dir) at
      (rmdir_target ns path idx parent k found empty found_dir at)

rmdir_from-IsTree :
    (ns : Inodes) (path : Text) (idx : ℕ) (o : Option ℕ)
    → IsTree ns
    → ramfs_find_inode ns (some path) ≡ some idx
    → (inode ns idx).entries ≡ []
    → ramfs_find_inode ns (some (split_path path).0) ≡ o
    → IsTree (rmdir_from ns (split_path path).1 idx o).1
unfolding rmdir_from
rmdir_from-IsTree ns path idx none v found empty found_dir = v
rmdir_from-IsTree ns path idx (some parent) v found empty found_dir =
    rmdir_at-IsTree ns path idx parent _ v found empty found_dir refl

rmdir_found-IsTree :
    (ns : Inodes) (path : Text) (o : Option ℕ)
    → IsTree ns
    → ramfs_find_inode ns (some path) ≡ o
    → IsTree (rmdir_found ns path o).1
unfolding rmdir_found
rmdir_found-IsTree ns path none v found = v
rmdir_found-IsTree ns path (some idx) v found = elim (Bool-cases ((inode ns idx).type == 1)) [
  | inr no_dir ↦ rw no_dir v
  | inl is_dir ↦ rw is_dir (elim (Bool-cases (ltb 0 (length (inode ns idx).entries))) [
    | inl full ↦ rw full v
    | inr empty ↦ rw empty (
        rmdir_from-IsTree ns path idx (ramfs_find_inode ns (some (split_path path).0)) v found
          (nil_of_empty (inode ns idx).entries empty) refl)
  ])
]

-- `ramfs_rmdir` keeps the table a tree, also where it fails.
pub ramfs_rmdir-IsTree : (ns : Inodes) (path : Text) → IsTree ns → IsTree (ramfs_rmdir ns path).1
unfolding ramfs_rmdir
ramfs_rmdir-IsTree ns path v = rmdir_found-IsTree ns path (ramfs_find_inode ns (some path)) v refl
