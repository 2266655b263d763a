-- ===== src/Vfs/Dispatch.antt =====
-- Which file system, and which path in it, a call of vfs.c reaches.
use mathlib.Core.Option
use veni.Base.{
  ℕ, ◌≡◌, refl, ap, none, some, [], ◌∷◌, ◌++◌, ◌==◌, get_or, drop, length, arith, inl, inr, ◌⊎◌,
  Bool-cases, ==→eq, eq→==, update,
}
use veni.CString.Text.{Text, IsText, text_eq, starts_with, slash}
use veni.Ramfs.{Inodes, ramfs_mkdir, ramfs_rmdir, ramfs_stat}
use veni.Ramfs.File.{Allocator}
use veni.Vfs.{Vfs, zero_mount, is_better, find_from, find_mount}
use veni.Vfs.Mounts.{IsLongest, Uncovered, Covers-drop, find_mount-IsLongest}
use veni.Vfs.Calls.{
  ramfs, skip_slash, rel_path, target, call, mkdir_on, vfs_mkdir, rmdir_on, vfs_rmdir, stat_on,
  vfs_stat,
}

-- Where a call with the path goes: to mount `i`, the first of the longest that cover the path, with
-- what follows the mount's path, less one slash.
pub record Reaches (v : Vfs) (path : Text) (i : ℕ) (fs : ℕ) (rel : Text) : Type 0 where
  pub mount : IsLongest v.mounts path i
  pub system : fs ≡ (get_or v.mounts i zero_mount).fs
  pub rest : Text
  pub split : path ≡ (get_or v.mounts i zero_mount).mount_path ++ rest
  pub relative : rel ≡ skip_slash rest

-- For a text that begins with a slash, a call goes to the file system of the longest mount that
-- covers the path, with the rest of the path behind the mount's path and one slash; it fails exactly
-- if no mount covers the path.
pub target-Reaches :
    (v : Vfs) (path : Text)
    → IsText path
    → get_or path 0 0 ≡ slash
    → ((target v (some path) ≡ none) × Uncovered v.mounts path)
      ⊎ ((i : ℕ) × (fs : ℕ) × (rel : Text) × (target v (some path) ≡ some (fs, rel))
          × Reaches v path i fs rel)
unfolding target rel_path
target-Reaches v path is_text begins = elim (Bool-cases (length v.mounts == 0)) [
  | inl empty ↦
      rw (eq→== _ _ begins, empty) (inl (refl, λ j lt c. absurd (omega (arith, ==→eq _ _ empty))))
  | inr some_mounted ↦
      rw (eq→== _ _ begins, some_mounted) (by_mount (find_mount-IsLongest v.mounts path is_text))
]
  where
    found : ℕ → ℕ × Text
    found i = (
      (get_or v.mounts i zero_mount).fs,
      skip_slash (drop (length (get_or v.mounts i zero_mount).mount_path) path),
    )

    by_mount :
        ((find_mount v.mounts path ≡ none) × Uncovered v.mounts path)
          ⊎ ((i : ℕ) × (find_mount v.mounts path ≡ some i) × IsLongest v.mounts path i)
        → ((Option.map found (find_mount v.mounts path) ≡ none) × Uncovered v.mounts path)
          ⊎ ((i : ℕ) × (fs : ℕ) × (rel : Text) × (Option.map found (find_mount v.mounts path)
                ≡ some (fs, rel))
              × Reaches v path i fs rel)
    by_mount (inl (e, uncovered)) = inl (ap (Option.map found) e, uncovered)
    by_mount (inr (i, e, h)) = inr (
      i,
      (found i).0,
      (found i).1,
      ap (Option.map found) e,
      record {
        mount = h;
        system = refl;
        rest = drop (length (get_or v.mounts i zero_mount).mount_path) path;
        split = Covers-drop _ path h.is_cover;
        relative = refl;
      },
    )

-- The only mount is the root.
module _ (v : Vfs) (node fs : ℕ) (p : Text)
    (rooted : v.mounts ≡ record { mount_path = slash ∷ []; node = node; fs = fs } ∷ [])
    (relative : skip_slash p ≡ p) (states : ℕ → Inodes) (a : Allocator) where
  root_target : target v (some (slash ∷ p)) ≡ some (fs, p)
  unfolding target rel_path find_mount find_from is_better starts_with text_eq
  root_target = rw (rooted, relative) refl

  -- With the RAM file system at the root as the only mount, `vfs_mkdir`, `vfs_rmdir` and `vfs_stat`
  -- of a slash and a path that has no slash before it do what the RAM file system does for the path.
  pub rooted-ramfs :
      (vfs_mkdir (λ _. ramfs a) v states (some (slash ∷ p)) ≡ (
        (ramfs_mkdir (states fs) (some p)).0,
        update states fs (ramfs_mkdir (states fs) (some p)).1,
      ))
      × (vfs_rmdir (λ _. ramfs a) v states (some (slash ∷ p))
          ≡ ((ramfs_rmdir (states fs) p).0, update states fs (ramfs_rmdir (states fs) p).1))
      × (vfs_stat (λ _. ramfs a) v states (some (slash ∷ p)) ≡ ramfs_stat (states fs) (some p))
  unfolding vfs_mkdir vfs_rmdir vfs_stat mkdir_on rmdir_on stat_on call
  rooted-ramfs = rw root_target (refl, refl, refl)
