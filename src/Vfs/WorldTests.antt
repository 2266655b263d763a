-- ===== src/Vfs/WorldTests.antt =====
-- vfs.c over the RAM file system: a directory and a file are made, written, read and looked up.
use Prim.Native.Char.{code}
use Prim.Native.String.{String}
use mathlib.Core.Option.{some_inj}
use veni.Base.{
  ℕ, zero, suc, ◌≤◌, ◌≡◌, refl, ap, true, Option, some, none, List, [], ◌∷◌, arith, length,
  length-replicate, replicate,
}
use veni.CString.Text.{Text, starts_with, text_eq, components, split_last}
use veni.Ramfs.{
  Inodes, zero_inode, alloc_inode, link_entry, add_child, create_in, mkdir_in, lookup_entry,
  has_entry, walk, ramfs_find_inode, split_path, ramfs_init, ramfs_create, ramfs_mkdir,
}
use veni.Ramfs.File.{Allocator}
use veni.Vfs.{
  Mount, zero_file, is_better, find_from, find_mount, unused_file, alloc_found, alloc_fd,
}
use veni.Vfs.Calls.{FileOps, finds_parent, ramfs, rel_path}
use veni.Vfs.Nodes.{
  NodeHeap, World, find_in, find_child, descend, mount_of, resolve_rel, vfs_resolve, attached,
  attach,
}
use veni.Vfs.Tree.{IsClosed}
use veni.Vfs.Create.{
  next_path, set_node, open_node, make_dir, enter, loses_place, enter_dirs, opened, add_file,
  fs_create, create_named, create_last, create_on, vfs_create,
}
use veni.Vfs.Io.{root_node, node_of, vfs_open, open_found}
use veni.Vfs.Created.{Created, vfs_create-Created}

abbrev text : String → Text
text String.[] = []
text (String.◌∷◌ c s) = code c ∷ text s

zeros_size : (n : ℕ) (b : List ℕ) → some (replicate n 0) ≡ some b → n ≤ length b
zeros_size n b e = omega (arith, length-replicate {A = ℕ} n 0, ap length (some_inj.0 e))

abbrev zeros : Allocator
zeros = record { malloc = λ n. some (replicate n 0); malloc_size = λ n b small e. zeros_size n b e }

abbrev roomy : NodeHeap
roomy = record { grants = λ k. true; garbage = λ k. 7 }

abbrev systems : ℕ → FileOps Inodes
systems fs = ramfs zeros

abbrev root_mount : Mount
root_mount = record { mount_path = text "/"; node = 0; fs = 0 }

abbrev booted : World Inodes
booted = record {
  vfs = record { mounts = root_mount ∷ []; files = replicate 64 zero_file };
  nodes = root_node 0 7 ∷ [];
  states = λ fs. ramfs_init (replicate 64 zero_inode);
}

abbrev world_of : Option (Option ℕ × World Inodes) → World Inodes
world_of none = booted
world_of (some (o, w)) = w

noted : World Inodes
unfolding vfs_create create_on create_last create_named enter_dirs loses_place finds_parent enter
    make_dir attach attached opened open_node set_node add_file fs_create mount_of find_mount
    find_from is_better starts_with text_eq rel_path components find_child find_in alloc_fd
    alloc_found unused_file next_path ramfs_init ramfs_mkdir mkdir_in add_child alloc_inode
    link_entry ramfs_find_inode walk ramfs_create create_in split_path split_last lookup_entry
    has_entry
noted = world_of (vfs_create systems roomy booted (some (text "/home/notes")))

noted_made : vfs_create systems roomy booted (some (text "/home/notes")) ≡ some (some 0, noted)
unfolding noted
noted_made = refl

mounted : mount_of booted.vfs (some (text "/home/notes")) ≡ some (root_mount, text "home/notes")
unfolding mount_of find_mount find_from is_better starts_with text_eq rel_path
mounted = refl

booted-IsClosed : IsClosed booted.nodes
booted-IsClosed zero = refl
booted-IsClosed (suc i) = refl

vfs_create-Created_example :
    Created systems booted root_mount (text "/home/notes") (text "home/notes") 0 noted
unfolding components
vfs_create-Created_example =
    vfs_create-Created systems roomy booted root_mount (text "/home/notes") (text "home/notes")
      mounted 0 noted booted-IsClosed (omega arith) (omega arith, (omega arith, refl)) noted_made

-- A second new directory on the way: `mkdir` of `home/docs` starts `strtok` anew for `home`, and the
-- token behind it is looked for in the array of that call.
lost_place : vfs_create systems roomy booted (some (text "/home/docs/notes")) ≡ none
unfolding noted
lost_place = refl

-- A second file of the name is refused, and an open finds the node.
again :
    (vfs_create systems roomy noted (some (text "/home/notes")) ≡ some (none, noted))
    × ((vfs_open noted (some (text "/home/notes"))).0 ≡ some 1)
    × (vfs_resolve noted.vfs noted.nodes (some (text "/home/other")) ≡ none)
unfolding noted vfs_open open_found vfs_resolve resolve_rel descend
again = (refl, refl, refl)

noted_system : (node_of noted 0).fs ≡ 0
unfolding noted
noted_system = refl
