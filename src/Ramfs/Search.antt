-- ===== src/Ramfs/Search.antt =====
-- How `ramfs_find_inode` goes through a directory part and a name.
use veni.Base.{
  ℕ, ◌≡◌, ◌≢◌, refl, ap, sym, subst, ◌∙◌, false, none, some, [], ◌∷◌, ◌++◌, length, arith, inl, inr,
  Option-cases, ◌>>=◌, length-append, length-take, take-all,
}
use veni.CString.Text.{Text, slash, flush, components, split_last}
use veni.CString.Search.{has, split_last-parts, split_last-none}
use veni.CString.Paths.{components-last, components_of_name, components_nil}
use veni.Ramfs.{Inodes, inode, temp_copy, walk, lookup_entry, ramfs_find_inode, split_path}
use veni.Ramfs.Tree.{walk-append}

-- Whatever the path, the search walks the components of its copy from the root.
pub ramfs_find_inode-walk :
    (ns : Inodes) (path : Text)
    → ramfs_find_inode ns (some path) ≡ walk ns 0 (components (temp_copy path))
unfolding ramfs_find_inode walk components
ramfs_find_inode-walk ns [] = refl
ramfs_find_inode-walk ns (c ∷ path) = refl

-- The two parts into which `split_path` cuts the copy of a path.
pub record IsSplit (path d b : Text) : Type 0 where
  pub whole : components (temp_copy path) ≡ components d ++ flush b
  pub short : temp_copy d ≡ d
  pub no_slash : has slash b ≡ false

IsSplit-none : (path : Text) → split_last (temp_copy path) ≡ none → IsSplit path [] (temp_copy path)
IsSplit-none path e = record {
  whole =
      components_of_name (temp_copy path) (split_last-none (temp_copy path) e)
      ∙ ap (λ l. l ++ flush (temp_copy path)) (sym components_nil);
  short = refl;
  no_slash = split_last-none (temp_copy path) e;
}

IsSplit-some : (path d b : Text) → split_last (temp_copy path) ≡ some (d, b) → IsSplit path d b
IsSplit-some path d b e =
    let (joined, no_slash) = split_last-parts (temp_copy path) d b e in
    record {
      whole = ap components joined ∙ components-last d b no_slash;
      short =
          take-all 255 d
            (omega (arith, ap length joined, length-append d (slash ∷ b), length-take 255 path));
      no_slash = no_slash;
    }

split_path-none :
    (path : Text) → split_last (temp_copy path) ≡ none → split_path path ≡ ([], temp_copy path)
unfolding split_path
split_path-none path e = rw (e, split_path)

split_path-some :
    (path d b : Text) → split_last (temp_copy path) ≡ some (d, b) → split_path path ≡ (d, b)
unfolding split_path
split_path-some path d b e = rw (e, split_path)

pub split_path-IsSplit : (path : Text) → IsSplit path (split_path path).0 (split_path path).1
split_path-IsSplit path = elim (Option-cases (split_last (temp_copy path))) [
  | inl e ↦
      subst (λ (p : Text × Text). IsSplit path p.0 p.1) (sym (split_path-none path e))
        (IsSplit-none path e)
  | inr ((d, b), e) ↦
      subst (λ (p : Text × Text). IsSplit path p.0 p.1) (sym (split_path-some path d b e))
        (IsSplit-some path d b e)
]

-- The search for a path is the search for its directory, followed by its name if it has one.
pub ramfs_find_inode-split :
    (ns : Inodes) (path : Text)
    → ramfs_find_inode ns (some path) ≡ (
        ramfs_find_inode ns (some (split_path path).0) >>= λ parent.
        walk ns parent (flush (split_path path).1))
ramfs_find_inode-split ns path =
    let parts = split_path-IsSplit path in
    ramfs_find_inode-walk ns path
    ∙ ap (walk ns 0) parts.whole
    ∙ walk-append ns 0 (components (split_path path).0) (flush (split_path path).1)
    ∙ ap (λ o. o >>= λ parent. walk ns parent (flush (split_path path).1))
        (ap (λ d. walk ns 0 (components d)) (sym parts.short)
          ∙ sym (ramfs_find_inode-walk ns (split_path path).0))

-- To walk along one name is to look it up in a directory.
pub walk_name :
    (ns : Inodes) (parent : ℕ) (name : Text) (k : ℕ)
    → walk ns parent (flush name) ≡ some k
    → name ≢ []
    → lookup_entry (inode ns parent).entries name ≡ some k
unfolding walk
walk_name ns parent [] k h ne = absurd (ne refl)
walk_name ns parent (c ∷ name) k h ne =
    elim (Option-cases (lookup_entry (inode ns parent).entries (c ∷ name))) [
      | inl nowhere ↦ ground arith
      | inr (t, found) ↦ ground arith
    ]

pub walk_empty : (ns : Inodes) (parent : ℕ) → walk ns parent [] ≡ some parent
unfolding walk
walk_empty ns parent = refl
