-- ===== src/Ramfs.antt =====
-- kernel/kernel/filesystem/ramfs.c: the table of inodes, and the nine operations over it. A result
-- of -1 is `none`; the static table is passed and returned. Paths and names are texts, and
-- the functions of CString.Text stand for the calls of `strcmp`, `strrchr` and `strtok`. The pointers
-- that `fs` and `st` hold are not modelled.
pub mod File
pub mod Entries
pub mod Patch
pub mod Content
pub mod Access
pub mod Tree
pub mod Change
pub mod Keeps
pub mod Drops
pub mod Search
pub mod Operations
pub mod Unlink
pub mod Rmdir
pub mod Overflow
pub mod Init
mod Tests
pub mod Lookup
use mathlib.Core.Option
use veni.Base.{
  ℕ, zero, suc, ◌+◌, ◌-◌, ◌%◌, ◌^◌, Bool, true, false, not, ◌||◌, Option, none, some, List, [], ◌∷◌,
  ◌++◌, ◌==◌, ltb, leb, if◌then◌else◌, get_or, set, take, drop, length, replicate, ◌>>=◌,
}
use veni.CString.Text.{Text, text_eq, split_last, components}

-- `RAMFS_MAX_FILES`.
abbrev pub max_files : ℕ
max_files = 64

-- `RAMFS_NAME_MAX`.
abbrev pub name_max : ℕ
name_max = 32

pub record Dirent : Type 0 where
  pub name : Text
  pub inode_idx : ℕ

-- `bytes` is the buffer at `data`, and `none` if that is `NULL`. `entries` holds the first
-- `num_entries` elements of the array; the code reads no others.
pub record Inode : Type 0 where
  pub type : ℕ
  pub bytes : Option (List ℕ)
  pub size : ℕ
  pub capacity : ℕ
  pub entries : List Dirent
  pub used : Bool

abbrev pub Inodes : Type 0
Inodes = List Inode

-- An element of the static table before it is first used.
abbrev pub zero_inode : Inode
zero_inode = record { type = 0; bytes = none; size = 0; capacity = 0; entries = []; used = false }

abbrev pub inode : Inodes → ℕ → Inode
inode ns i = get_or ns i zero_inode

-- The loop of `alloc_inode`, from slot `i` on.
unfoldable pub unused_from : Inodes → ℕ → Option ℕ
unused_from [] i = none
unused_from (n ∷ ns) i = let rest = unused_from ns (i + 1) in if n.used then rest else some i

abbrev pub fresh_inode : Inode
fresh_inode = record zero_inode { used = true }

unfoldable pub alloc_inode : Inodes → Option (ℕ × Inodes)
unfolding unused_from
alloc_inode ns = Option.map (λ i. (i, set ns i fresh_inode)) (unused_from ns 0)

-- The inode of the first entry with the name.
unfoldable pub lookup_entry : List Dirent → Text → Option ℕ
lookup_entry [] name = none
lookup_entry (e ∷ es) name =
    let rest = lookup_entry es name in if text_eq e.name name then some e.inode_idx else rest

-- The place of that entry.
unfoldable pub entry_position : List Dirent → Text → Option ℕ
entry_position [] name = none
entry_position (e ∷ es) name =
    let rest = Option.map suc (entry_position es name) in
    if text_eq e.name name then some 0 else rest

unfoldable pub has_entry : List Dirent → Text → Bool
has_entry [] name = false
has_entry (e ∷ es) name = text_eq e.name name || has_entry es name

-- The shift loop and `num_entries--`.
unfoldable pub remove_entry : List Dirent → ℕ → List Dirent
remove_entry [] k = []
remove_entry (e ∷ es) zero = es
remove_entry (e ∷ es) (suc k) = e ∷ remove_entry es k

-- The loop of `ramfs_find_inode` over the tokens of the path.
unfoldable pub walk : Inodes → ℕ → List Text → Option ℕ
walk ns current [] = some current
walk ns current (token ∷ tokens) =
    if not ((inode ns current).type == 1)
    then none
    else lookup_entry (inode ns current).entries token >>= λ found. walk ns found tokens

-- The copy of a path in `temp[256]`.
abbrev pub temp_copy : Text → Text
temp_copy path = take 255 path

unfoldable pub ramfs_find_inode : Inodes → Option Text → Option ℕ
ramfs_find_inode ns none = some 0
ramfs_find_inode ns (some []) = some 0
ramfs_find_inode ns (some (c ∷ path)) = walk ns 0 (components (temp_copy (c ∷ path)))

-- `dirname` and `basename`.
unfoldable pub split_path : Text → Text × Text
split_path path = elim (split_last (temp_copy path)) [ none ↦ ([], temp_copy path) | some p ↦ p ]

-- `used = 0` in each element.
unfoldable pub mark_unused : Inodes → Inodes
mark_unused [] = []
mark_unused (n ∷ ns) = record n { used = false } ∷ mark_unused ns

-- The root; its array of entries is not touched.
abbrev pub root_inode : Inode
root_inode = record fresh_inode { type = 1 }

unfoldable pub ramfs_init : Inodes → Inodes
unfolding mark_unused
ramfs_init ns = set (mark_unused ns) 0 root_inode

-- `add_child` is the end that `ramfs_create` and `ramfs_mkdir` share, from `alloc_inode` on.
unfoldable pub link_entry : Inodes → (parent : ℕ) → Text → ℕ → Option ℕ × Inodes
link_entry ns parent name idx = if leb 256 (length (inode ns parent).entries) then (none, ns) else (
  some idx,
  set ns parent (record (inode ns parent) {
    entries =
        (inode ns parent).entries
        ++ record { name = take (name_max - 1) name; inode_idx = idx } ∷ [];
  }),
)

unfoldable pub add_child : Inodes → (parent : ℕ) → Text → (type : ℕ) → Option ℕ × Inodes
add_child ns parent name type = elim (alloc_inode ns) [
  | none ↦ (none, ns)
  | some (idx, ns') ↦
      link_entry (set ns' idx (record (inode ns' idx) { type = type })) parent name idx
]

-- What follows the search for the directory.
unfoldable pub create_in : Inodes → Text → Option ℕ → Option ℕ × Inodes
create_in ns name none = (none, ns)
create_in ns name (some parent) =
    if not ((inode ns parent).type == 1)
    then (none, ns)
    else if has_entry (inode ns parent).entries name
    then (none, ns)
    else add_child ns parent name 0

unfoldable pub ramfs_create : Inodes → Option Text → Option ℕ × Inodes
ramfs_create ns none = (none, ns)
ramfs_create ns (some path) =
    let (dirname, basename) = split_path path in
    create_in ns basename (ramfs_find_inode ns (some dirname))

unfoldable pub ramfs_open : Inodes → Option Text → Option ℕ
ramfs_open ns path = ramfs_find_inode ns path

unfoldable pub mkdir_in : Inodes → Text → Option ℕ → Option ℕ × Inodes
mkdir_in ns name none = (none, ns)
mkdir_in ns name (some parent) =
    if not ((inode ns parent).type == 1)
    then (none, ns)
    else if has_entry (inode ns parent).entries name
    then (some 0, ns)
    else let (made, ns') = add_child ns parent name 1 in (Option.map (λ _. 0) made, ns')

unfoldable pub ramfs_mkdir : Inodes → Option Text → Option ℕ × Inodes
ramfs_mkdir ns none = (none, ns)
ramfs_mkdir ns (some path) =
    let (dirname, basename) = split_path path in
    mkdir_in ns basename (ramfs_find_inode ns (some dirname))

-- The entry at `k` of the directory goes, and the inode `idx` is free.
unfoldable pub drop_entry : Inodes → (parent k idx : ℕ) → Inodes
drop_entry ns parent k idx =
    let ns' =
      set ns parent
        (record (inode ns parent) { entries = remove_entry (inode ns parent).entries k }) in
    set ns' idx (record (inode ns' idx) { used = false })

abbrev pub zero_dirent : Dirent
zero_dirent = record { name = []; inode_idx = 0 }

unfoldable pub unlink_in : Inodes → Text → Option ℕ → Option ℕ × Inodes
unlink_in ns name none = (none, ns)
unlink_in ns name (some parent) =
    if not ((inode ns parent).type == 1)
    then (none, ns)
    else elim (entry_position (inode ns parent).entries name) [
      | none ↦ (none, ns)
      | some k ↦ (
        some 0,
        drop_entry ns parent k (get_or (inode ns parent).entries k zero_dirent).inode_idx,
      )
    ]

unfoldable pub ramfs_unlink : Inodes → Text → Option ℕ × Inodes
ramfs_unlink ns path =
    let (dirname, basename) = split_path path in
    unlink_in ns basename (ramfs_find_inode ns (some dirname))

unfoldable pub rmdir_at : Inodes → (parent idx : ℕ) → (position : Option ℕ) → Option ℕ × Inodes
rmdir_at ns parent idx none = (none, ns)
rmdir_at ns parent idx (some k) = (some 0, drop_entry ns parent k idx)

unfoldable pub rmdir_from : Inodes → Text → (idx : ℕ) → Option ℕ → Option ℕ × Inodes
rmdir_from ns name idx none = (none, ns)
rmdir_from ns name idx (some parent) =
    rmdir_at ns parent idx (entry_position (inode ns parent).entries name)

-- What follows the search for the directory that is to go.
unfoldable pub rmdir_found : Inodes → Text → Option ℕ → Option ℕ × Inodes
rmdir_found ns path none = (none, ns)
rmdir_found ns path (some idx) =
    if not ((inode ns idx).type == 1)
    then (none, ns)
    else if ltb 0 (length (inode ns idx).entries)
    then (none, ns)
    else (let (dirname, basename) = split_path path in
        rmdir_from ns basename idx (ramfs_find_inode ns (some dirname)))

unfoldable pub ramfs_rmdir : Inodes → Text → Option ℕ × Inodes
ramfs_rmdir ns path = rmdir_found ns path (ramfs_find_inode ns (some path))

pub data NodeType : Type 0 where
  file dir : NodeType

-- `none` is -1; otherwise what goes through `st`.
unfoldable pub ramfs_stat : Inodes → Option Text → Option (NodeType × ℕ)
ramfs_stat ns path =
    Option.map (λ idx. (if (inode ns idx).type == 0 then file else dir, (inode ns idx).size))
      (ramfs_find_inode ns path)
