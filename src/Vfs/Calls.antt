-- ===== src/Vfs/Calls.antt =====
-- `vfs_mkdir`, `vfs_rmdir` and `vfs_stat` of vfs.c: calls through the operations of the file system
-- that a path is mounted on.
use mathlib.Core.Option
use veni.Base.{
  ℕ, Bool, ltb, not, ◌||◌, Option, none, some, List, [], ◌∷◌, ◌==◌, if◌then◌else◌, get_or, drop,
  length, update,
}
use veni.CString.Text.{Text, slash}
use veni.Ramfs.{
  Inodes, NodeType, ramfs_create, ramfs_unlink, ramfs_mkdir, ramfs_rmdir, ramfs_stat, split_path,
}
use veni.Ramfs.File.{Allocator, ReadResult, WriteResult, ramfs_read, ramfs_write, ramfs_close}
use veni.Vfs.{Mount, Vfs, zero_mount, find_mount}

-- What a write leaves: the number it returns, `*offset`, and the file system.
pub record Transfer (S : Type 0) : Type 0 where
  pub count : ℕ
  pub offset : ℕ
  pub state : S

-- `vfs_file_ops_t`, less `open`, which vfs.c does not call. `none` is -1, and in `write` an access
-- outside of a buffer. `tokenizes` says for which paths `mkdir` starts `strtok` anew, on an array that is
-- gone when it returns.
pub record FileOps (S : Type 0) : Type 0 where
  pub create : S → Text → Option ℕ × S
  pub read : S → (fd size offset : ℕ) → ReadResult
  pub write : S → (fd : ℕ) (buf : List ℕ) (size offset : ℕ) → Option (Transfer S)
  pub close : S → (fd : ℕ) → Option ℕ × S
  pub unlink : S → Text → Option ℕ × S
  pub mkdir : S → Text → Option ℕ × S
  pub tokenizes : Text → Bool
  pub rmdir : S → Text → Option ℕ × S
  pub stat : S → Text → Option (NodeType × ℕ)

abbrev pub transfer : WriteResult → Transfer Inodes
transfer r = record { count = r.count; offset = r.offset; state = r.inodes }

-- `ramfs_mkdir` looks for the directory that is to hold the new one, and `ramfs_find_inode` does so with
-- `strtok`, unless the path of that directory is empty.
unfoldable pub finds_parent : (path : Text) → Bool
finds_parent path = ltb 0 (length (split_path path).0)

-- The operations of the RAM file system, over the heap `a`.
abbrev pub ramfs : Allocator → FileOps Inodes
ramfs a = record {
  create = λ ns path. ramfs_create ns (some path);
  read = ramfs_read;
  write = λ ns fd buf size offset. Option.map transfer (ramfs_write a ns fd buf size offset);
  close = λ ns fd. (ramfs_close ns fd, ns);
  unlink = λ ns path. ramfs_unlink ns path;
  mkdir = λ ns path. ramfs_mkdir ns (some path);
  tokenizes = finds_parent;
  rmdir = λ ns path. ramfs_rmdir ns path;
  stat = λ ns path. ramfs_stat ns (some path);
}

-- `if (*rel_path == '/') rel_path++;`
abbrev pub skip_slash : Text → Text
skip_slash [] = []
skip_slash (c ∷ rest) = if c == slash then rest else c ∷ rest

-- `rel_path`.
unfoldable pub rel_path : Mount → Text → Text
rel_path mount path = skip_slash (drop (length mount.mount_path) path)

-- The file system and the path in it that the first lines of the three functions find.
unfoldable pub target : Vfs → Option Text → Option (ℕ × Text)
target v none = none
target v (some path) =
    if not (get_or path 0 0 == slash) || length v.mounts == 0
    then none
    else Option.map
        (λ i. ((get_or v.mounts i zero_mount).fs, rel_path (get_or v.mounts i zero_mount) path))
        (find_mount v.mounts path)

-- The state of each file system goes through the call of its operation.
unfoldable pub call :
    {S : Type 0} → (S → Text → Option ℕ × S) → (ℕ → S) → Option (ℕ × Text) → Option ℕ × (ℕ → S)
call op states none = (none, states)
call op states (some (fs, path)) =
    let (result, s) = op (states fs) path in (result, update states fs s)

module _ {S : Type 0} (ops : ℕ → FileOps S) (v : Vfs) (states : ℕ → S) where
  unfoldable pub mkdir_on : Option (ℕ × Text) → Option ℕ × (ℕ → S)
  mkdir_on none = (none, states)
  mkdir_on (some (fs, path)) = call (ops fs).mkdir states (some (fs, path))

  unfoldable pub vfs_mkdir : Option Text → Option ℕ × (ℕ → S)
  vfs_mkdir path = mkdir_on (target v path)

  unfoldable pub rmdir_on : Option (ℕ × Text) → Option ℕ × (ℕ → S)
  rmdir_on none = (none, states)
  rmdir_on (some (fs, path)) = call (ops fs).rmdir states (some (fs, path))

  unfoldable pub vfs_rmdir : Option Text → Option ℕ × (ℕ → S)
  vfs_rmdir path = rmdir_on (target v path)

  unfoldable pub stat_on : Option (ℕ × Text) → Option (NodeType × ℕ)
  stat_on none = none
  stat_on (some (fs, path)) = (ops fs).stat (states fs) path

  unfoldable pub vfs_stat : Option Text → Option (NodeType × ℕ)
  vfs_stat path = stat_on (target v path)
