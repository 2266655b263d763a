-- ===== src/Ramfs/Tests.antt =====
-- ramfs.c from its initial table on, and the theorems at its states.
use Prim.Native.Char.{code}
use Prim.Native.String.{String}
use veni.Base.{
  ℕ, zero, suc, true≢false, ◌+◌, ◌-◌, ◌<◌, ◌^◌, ◌%◌, ◌∙◌, ◌≡◌, ◌≢◌, refl, sym, ap, ◌≤◌, subst,
  false, arith, List, [], ◌∷◌, some, none, replicate, length, length-replicate, leb, if◌then◌else◌,
}
use mathlib.Core.Option.{some_inj, get_or}
use veni.CString.{memcpy, memset}
use veni.CString.Text.{Text, split_last, components, text_eq}
use veni.Ramfs.{
  Inodes, inode, zero_inode, alloc_inode, link_entry, add_child, create_in, mkdir_in, unlink_in,
  rmdir_from, rmdir_found, rmdir_at, lookup_entry, entry_position, has_entry, remove_entry,
  drop_entry, walk, ramfs_find_inode, split_path, ramfs_init, ramfs_create, ramfs_open, ramfs_mkdir,
  ramfs_unlink, ramfs_rmdir, ramfs_stat, NodeType,
}
use veni.Ramfs.File.{
  Allocator, WriteResult, buffer, not_file, ramfs_read, ramfs_write, write_grown, put_bytes, grow,
  refill, fill, at_offset, copy_out,
}
use veni.Ramfs.Access.{ReadOutcome, ramfs_read-ReadOutcome, ramfs_read-ramfs_write}
use veni.Ramfs.Tree.{IsTree, is_used, links}
use veni.Ramfs.Operations.{ramfs_create-IsTree, ramfs_mkdir-IsTree}
use veni.Ramfs.Unlink.{
  Reached, root, child, AllReached, IsEntry, UnlinkOutcome, ramfs_unlink-UnlinkOutcome,
}
use veni.Ramfs.Entries.{refs}
use veni.Ramfs.Rmdir.{ramfs_rmdir-IsTree}
use veni.Ramfs.Lookup.{ramfs_open-ramfs_create, ramfs_open-ramfs_create_other}
use veni.Ramfs.Overflow.{ramfs_write_wraps}
use veni.Ramfs.Init.{zero_table-IsStored, ramfs_init-IsTree}

abbrev text : String → Text
text String.[] = []
text (String.◌∷◌ c s) = code c ∷ text s

abbrev static_table : Inodes
static_table = replicate 64 zero_inode

abbrev formatted : Inodes
formatted = ramfs_init static_table

formatted-IsTree : IsTree formatted
formatted-IsTree =
    ramfs_init-IsTree static_table (length-replicate 64 zero_inode) (zero_table-IsStored 64)

-- A directory, a file in it, and what cannot be done with them.
home : Inodes
unfolding ramfs_init ramfs_mkdir mkdir_in add_child alloc_inode link_entry ramfs_find_inode walk
home = (ramfs_mkdir formatted (some (text "home"))).1

steps :
    ((ramfs_create home (some (text "home/a"))).0 ≡ some 2)
    × (ramfs_open (ramfs_create home (some (text "home/a"))).1 (some (text "/home//a")) ≡ some 2)
    × ((ramfs_create home (some (text "tmp/a"))).0 ≡ none)
    × ((ramfs_rmdir home (text "home")).0 ≡ some 0)
    × ((ramfs_rmdir (ramfs_create home (some (text "home/a"))).1 (text "home")).0 ≡ none)
    × ((ramfs_unlink (ramfs_create home (some (text "home/a"))).1 (text "home/a")).0 ≡ some 0)
    × (ramfs_stat home (some (text "home")) ≡ some (NodeType.dir, 0))
unfolding home ramfs_create create_in ramfs_open ramfs_rmdir rmdir_found rmdir_from rmdir_at
    ramfs_unlink unlink_in ramfs_stat split_path split_last components lookup_entry entry_position
    has_entry remove_entry drop_entry text_eq
steps = (refl, refl, refl, refl, refl, refl, refl)

home-IsTree : IsTree home
unfolding home
home-IsTree = ramfs_mkdir-IsTree formatted (some (text "home")) formatted-IsTree

with_file : Inodes
unfolding home ramfs_create create_in split_path split_last components lookup_entry has_entry
    text_eq
with_file = (ramfs_create home (some (text "home/a"))).1

with_long : Inodes
unfolding home ramfs_create create_in split_path split_last components lookup_entry has_entry
    text_eq
with_long = (ramfs_create home (some (text "home/abcdefghijklmnopqrstuvwxyz0123456789"))).1

file_made : ramfs_create home (some (text "home/a")) ≡ (some 2, with_file)
unfolding with_file
file_made = refl

last_named : (split_path (text "home/a")).1 ≢ []
unfolding split_path split_last
last_named e = cc

with_file-IsTree : IsTree with_file
unfolding with_file
with_file-IsTree = ramfs_create-IsTree home (some (text "home/a")) home-IsTree

ramfs_create-IsTree_example : IsTree (ramfs_create home (some (text "home/a"))).1
ramfs_create-IsTree_example = ramfs_create-IsTree home (some (text "home/a")) home-IsTree

rest_unused : (n t : ℕ) → is_used (replicate n zero_inode) t ≡ false
rest_unused zero t = refl
rest_unused (suc n) zero = refl
rest_unused (suc n) (suc t) = rest_unused n t

home-Reached : Reached with_file 1
unfolding with_file refs
home-Reached = child 0 1 root refl (omega arith)

with_file-AllReached : AllReached with_file
unfolding with_file refs
with_file-AllReached zero u = root
with_file-AllReached (suc zero) u = home-Reached
with_file-AllReached (suc (suc zero)) u = child 1 2 home-Reached refl (omega arith)
with_file-AllReached (suc (suc (suc t))) u = absurd (true≢false (sym u ∙ rest_unused 61 t))

file_childless :
    (parent idx : ℕ)
    → IsEntry with_file (text "home/a") parent idx
    → (t : ℕ) → links with_file idx t ≡ 0
unfolding with_file refs
file_childless parent idx h t = subst (λ i. links with_file i t ≡ 0) is_two refl
  where
    in_home : 1 ≡ parent
    in_home = some_inj.0 h.found

    is_two : 2 ≡ idx
    is_two = some_inj.0 (
        subst
          (λ p. lookup_entry (inode with_file p).entries (split_path (text "home/a")).1 ≡ some idx)
          (sym in_home) h.named)

ramfs_unlink-UnlinkOutcome_example :
    UnlinkOutcome with_file (text "home/a") (ramfs_unlink with_file (text "home/a"))
ramfs_unlink-UnlinkOutcome_example =
    ramfs_unlink-UnlinkOutcome with_file (text "home/a") with_file-IsTree with_file-AllReached
      file_childless

ramfs_rmdir-IsTree_example : IsTree (ramfs_rmdir home (text "home")).1
ramfs_rmdir-IsTree_example = ramfs_rmdir-IsTree home (text "home") home-IsTree

ramfs_open-ramfs_create_example :
    ramfs_open with_file (some (text "home/a"))
    ≡ (if leb (length (split_path (text "home/a")).1) 31 then some 2 else none)
ramfs_open-ramfs_create_example =
    ramfs_open-ramfs_create home with_file (text "home/a") 2 home-IsTree file_made last_named

home_found : ramfs_open home (some (text "home")) ≡ some 1
unfolding home ramfs_open components lookup_entry text_eq split_path split_last has_entry
home_found = refl

ramfs_open-ramfs_create_other_example : ramfs_open with_file (some (text "home")) ≡ some 1
ramfs_open-ramfs_create_other_example =
    ramfs_open-ramfs_create_other home with_file (text "home/a") 2 home-IsTree file_made
      (text "home") 1 home_found

-- The name of 36 bytes is cut to 31, and is not found again.
long_lost : ramfs_open with_long (some (text "home/abcdefghijklmnopqrstuvwxyz0123456789")) ≡ none
unfolding with_long ramfs_open
long_lost = refl

zeros_size : (n : ℕ) (b : List ℕ) → some (replicate n 0) ≡ some b → n ≤ length b
zeros_size n b e = omega (arith, length-replicate {A = ℕ} n 0, ap length (some_inj.0 e))

-- An allocator that never fails.
abbrev zeros : Allocator
zeros = record { malloc = λ n. some (replicate n 0); malloc_size = λ n b small e. zeros_size n b e }

file_open : not_file with_file 2 ≡ false
unfolding with_file
file_open = refl

in_table : 2 < length with_file
unfolding with_file
in_table = omega arith

abbrev hello : List ℕ
hello = text "hello world"

written_file : WriteResult
unfolding with_file ramfs_write write_grown put_bytes grow refill fill at_offset memcpy memset
written_file = get_or (ramfs_write zeros with_file 2 hello 11 3) default
  where
    default : WriteResult
    default = record { count = 0; offset = 0; inodes = [] }

-- The three bytes of the gap are zeros.
read_back :
    (written_file.count ≡ 11)
    × (written_file.offset ≡ 14)
    × ((ramfs_read written_file.inodes 2 5 2).copied ≡ 0 ∷ text "hell")
unfolding written_file ramfs_read copy_out
read_back = (refl, refl, refl)

written_file_lem : ramfs_write zeros with_file 2 hello 11 3 ≡ some written_file
unfolding written_file
written_file_lem = refl

written_all : written_file.count ≡ 11
unfolding written_file
written_all = refl

ramfs_read-ReadOutcome_example : ReadOutcome (inode with_file 2) 5 2 (ramfs_read with_file 2 5 2)
ramfs_read-ReadOutcome_example =
    ramfs_read-ReadOutcome with_file 2 5 2 file_open (with_file-IsTree.stored 2)

ramfs_read-ramfs_write_example : (ramfs_read written_file.inodes 2 11 3).copied ≡ text "hello world"
ramfs_read-ramfs_write_example =
    ramfs_read-ramfs_write zeros with_file 2 hello 11 3 written_file file_open in_table
      (with_file-IsTree.stored 2) (omega arith) (omega arith) written_file_lem written_all

no_buffer : length (buffer (inode with_file 2).bytes) < 2 ^ 32 - 1
unfolding with_file
no_buffer = omega arith

wrapped : (2 ^ 32 - 1 + 1) % 2 ^ 32 ≤ (inode with_file 2).capacity
wrapped = omega arith

ramfs_write_wraps_example : ramfs_write zeros with_file 2 hello 1 (2 ^ 32 - 1) ≡ none
ramfs_write_wraps_example =
    ramfs_write_wraps zeros with_file 2 hello 1 (2 ^ 32 - 1) file_open (with_file-IsTree.stored 2)
      no_buffer wrapped
