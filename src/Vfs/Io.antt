-- ===== src/Vfs/Io.antt =====
-- `vfs_open`, `vfs_read`, `vfs_write`, `vfs_close` and `vfs_unlink` of vfs.c, and a mount with its
-- root node.
use mathlib.Core.Option
use veni.Base.{
  ℕ, Bool, not, ◌||◌, Option, none, some, List, [], ◌∷◌, ◌++◌, if◌then◌else◌, leb, set, length,
  update,
}
use veni.CString.Text.{Text, slash}
use veni.Ramfs.{dir}
use veni.Ramfs.File.{ReadResult, nothing_read}
use veni.Vfs.{Vfs, Mount, file, max_open, free_fd, vfs_mount}
use veni.Vfs.Calls.{FileOps, Transfer}
use veni.Vfs.Nodes.{Node, node, NodeHeap, World, mount_of, vfs_resolve}
use veni.Vfs.Create.{open_node}

-- Where every function with a descriptor returns at once.
abbrev pub bad_fd : Vfs → (fd : ℕ) → Bool
bad_fd v fd = leb max_open fd || not (file v fd).used

-- The descriptor's offset after a transfer.
abbrev pub set_offset : Vfs → (fd offset : ℕ) → Vfs
set_offset v fd offset = record v {
  files = set v.files fd (record (file v fd) { offset = offset });
}

unfoldable pub open_found : {S : Type 0} → World S → Option ℕ → Option ℕ × World S
open_found w none = (none, w)
open_found w (some n) = open_node w n

unfoldable pub vfs_open : {S : Type 0} → World S → Option Text → Option ℕ × World S
vfs_open w path = open_found w (vfs_resolve w.vfs w.nodes path)

-- The node that a descriptor is for.
abbrev pub node_of : {S : Type 0} → World S → (fd : ℕ) → Node
node_of w fd = node w.nodes (file w.vfs fd).node

unfoldable pub write_done : {S : Type 0} → World S → (fd fs : ℕ) → Transfer S → ℕ × World S
write_done w fd fs r =
    (r.count, record w { vfs = set_offset w.vfs fd r.offset; states = update w.states fs r.state })

module _ {S : Type 0} (ops : ℕ → FileOps S) where
  -- What is read, and the state with the descriptor's new offset.
  unfoldable pub vfs_read : World S → (fd size : ℕ) → ReadResult × World S
  vfs_read w fd size =
      if bad_fd w.vfs fd
      then (nothing_read 0, w)
      else let n = node_of w fd in
        let r = (ops n.fs).read (w.states n.fs) n.fs_fd size (file w.vfs fd).offset in
        (r, record w { vfs = set_offset w.vfs fd r.offset })

  -- The outer `none` is an access outside of a buffer.
  unfoldable pub vfs_write : World S → (fd : ℕ) (buf : List ℕ) (size : ℕ) → Option (ℕ × World S)
  vfs_write w fd buf size =
      if bad_fd w.vfs fd
      then some (0, w)
      else let n = node_of w fd in
        Option.map (write_done w fd n.fs)
          ((ops n.fs).write (w.states n.fs) n.fs_fd buf size (file w.vfs fd).offset)

  unfoldable pub vfs_close : World S → (fd : ℕ) → Option ℕ × World S
  vfs_close w fd =
      if bad_fd w.vfs fd
      then (none, w)
      else let n = node_of w fd in
        let (res, s) = (ops n.fs).close (w.states n.fs) n.fs_fd in
        (res, record w { vfs = free_fd w.vfs fd; states = update w.states n.fs s })

  unfoldable pub unlink_on : World S → Option (Mount × Text) → Option ℕ × World S
  unlink_on w none = (none, w)
  unlink_on w (some (m, rel)) =
      let (res, s) = (ops m.fs).unlink (w.states m.fs) rel in
      (res, record w { states = update w.states m.fs s })

  unfoldable pub unlink_found : World S → Option ℕ → Option Text → Option ℕ × World S
  unlink_found w none path = (none, w)
  unlink_found w (some n) path = unlink_on w (mount_of w.vfs path)

  -- The node stays in the tree.
  unfoldable pub vfs_unlink : World S → Option Text → Option ℕ × World S
  vfs_unlink w path = unlink_found w (vfs_resolve w.vfs w.nodes path) path

abbrev pub root_node : (fs garbage : ℕ) → Node
root_node fs garbage = record {
  name = slash ∷ [];
  type = dir;
  fs = fs;
  fs_fd = garbage;
  parent = none;
  children = [];
}

-- `vfs_mount` with the node that it makes.
unfoldable pub mount_root : {S : Type 0} → NodeHeap → World S → (fs : ℕ) → Text → Bool × World S
mount_root heap w fs path =
    let (ok, v) =
      vfs_mount w.vfs (if heap.grants (length w.nodes) then some (length w.nodes) else none) fs
        path in
    (
      ok,
      record w {
        vfs = v;
        nodes =
            if ok then w.nodes ++ root_node fs (heap.garbage (length w.nodes)) ∷ [] else w.nodes;
      },
    )
