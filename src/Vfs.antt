-- ===== src/Vfs.antt =====
-- kernel/kernel/filesystem/vfs.c and kernel/include/kernel/vfs.h: the mount table and the table of
-- open files.
pub mod Choice
pub mod Mounts
pub mod Unmount
pub mod Files
pub mod Calls
pub mod Dispatch
pub mod Nodes
pub mod Create
pub mod Io
pub mod Tree
pub mod Attached
pub mod Entered
pub mod Created
pub mod Transfer
mod Tests
mod WorldTests
use veni.Base.{
  ℕ, zero, suc, ◌+◌, Bool, true, false, not, ◌&&◌, ◌||◌, Option, none, some, List, [], ◌∷◌, ◌++◌,
  ◌==◌, ltb, leb, if◌then◌else◌, get_or, set, take, length,
}
use veni.CString.Text.{Text, text_eq, starts_with, slash}

-- `VFS_MAX_OPEN` and `VFS_MAX_FS`.
abbrev pub max_open : ℕ
max_open = 64

abbrev pub max_fs : ℕ
max_fs = 16

-- A mounted file system: its path, the address of its root node and that of the file system.
pub record Mount : Type 0 where
  pub mount_path : Text
  pub node : ℕ
  pub fs : ℕ

-- An element of `vfs_files`.
pub record File : Type 0 where
  pub node : ℕ
  pub offset : ℕ
  pub used : Bool

-- The static variables: the first `vfs_mount_count` mounts, and the files.
pub record Vfs : Type 0 where
  pub mounts : List Mount
  pub files : List File

abbrev pub zero_file : File
zero_file = record { node = 0; offset = 0; used = false }

-- The tests of `find_mount` on one mount, for the length `best_len` of the best one so far.
-- `path[len]` is the end mark where the text ends.
unfoldable pub is_better : Mount → Text → (best_len : ℕ) → Bool
is_better mount path best_len =
    let len = length mount.mount_path in
    (ltb best_len len && starts_with mount.mount_path path)
    && ((text_eq mount.mount_path (slash ∷ []) && get_or path 0 0 == slash)
        || (get_or path len 0 == slash || get_or path len 0 == 0))

-- The loop of `find_mount` from mount `i` on; a mount is given by its place in the table.
unfoldable pub find_from : List Mount → Text → (i : ℕ) (best : Option ℕ) (best_len : ℕ) → Option ℕ
find_from [] path i best best_len = best
find_from (m ∷ ms) path i best best_len =
    let taken = find_from ms path (i + 1) (some i) (length m.mount_path) in
    let passed = find_from ms path (i + 1) best best_len in
    if is_better m path best_len then taken else passed

unfoldable pub find_mount : List Mount → Text → Option ℕ
find_mount mounts path = find_from mounts path 0 none 0

abbrev pub zero_mount : Mount
zero_mount = record { mount_path = []; node = 0; fs = 0 }

-- The shift loop of `vfs_unmount` and `vfs_mount_count--`.
unfoldable pub remove_mount : List Mount → ℕ → List Mount
remove_mount [] k = []
remove_mount (m ∷ ms) zero = ms
remove_mount (m ∷ ms) (suc k) = m ∷ remove_mount ms k

-- `true` is 0, `false` is -1. The root node goes back to the heap.
unfoldable pub unmount_found : Vfs → Text → Option ℕ → Bool × Vfs
unmount_found v path none = (false, v)
unmount_found v path (some idx) =
    if not (text_eq (get_or v.mounts idx zero_mount).mount_path path)
    then (false, v)
    else (true, record v { mounts = remove_mount v.mounts idx })

unfoldable pub vfs_unmount : Vfs → Text → Bool × Vfs
vfs_unmount v path = unmount_found v path (find_mount v.mounts path)

-- `root` is what `malloc` returns for the root node, `none` for `NULL`.
unfoldable pub mount_at : Vfs → (root : Option ℕ) (fs : ℕ) → Text → Bool × Vfs
mount_at v none fs path = (false, v)
mount_at v (some root) fs path = (
  true,
  record v {
    mounts = v.mounts ++ record { mount_path = take 255 path; node = root; fs = fs } ∷ [];
  },
)

unfoldable pub vfs_mount : Vfs → (root : Option ℕ) (fs : ℕ) → Text → Bool × Vfs
vfs_mount v root fs path =
    if leb max_fs (length v.mounts) then (false, v) else mount_at v root fs path

-- The loop of `alloc_fd` from file `i` on.
unfoldable pub unused_file : List File → ℕ → Option ℕ
unused_file [] i = none
unused_file (f ∷ fs) i = let rest = unused_file fs (i + 1) in if not f.used then some i else rest

abbrev pub file : Vfs → ℕ → File
file v fd = get_or v.files fd zero_file

unfoldable pub alloc_found : Vfs → Option ℕ → Option ℕ × Vfs
alloc_found v none = (none, v)
alloc_found v (some i) =
    (some i, record v { files = set v.files i (record (file v i) { used = true; offset = 0 }) })

unfoldable pub alloc_fd : Vfs → Option ℕ × Vfs
alloc_fd v = alloc_found v (unused_file v.files 0)

-- File descriptors are numbers here: -1 is `none` before it gets here.
unfoldable pub free_fd : Vfs → (fd : ℕ) → Vfs
free_fd v fd =
    if ltb fd max_open
    then record v { files = set v.files fd (record (file v fd) { used = false }) }
    else v

unfoldable pub vfs_lseek : Vfs → (fd offset : ℕ) → Bool × Vfs
vfs_lseek v fd offset =
    if leb max_open fd || not (file v fd).used
    then (false, v)
    else (true, record v { files = set v.files fd (record (file v fd) { offset = offset }) })

unfoldable pub unused_files : List File → List File
unused_files [] = []
unused_files (f ∷ fs) = record f { used = false } ∷ unused_files fs

unfoldable pub vfs_init : Vfs → Vfs
vfs_init v = record v { files = unused_files v.files; mounts = [] }
