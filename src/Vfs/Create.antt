-- ===== src/Vfs/Create.antt =====
-- `vfs_create` of vfs.c: the directories on the way, the file, its node and its descriptor.
use veni.Base.{
  ℕ, ◌+◌, Option, none, some, List, [], ◌∷◌, ◌++◌, if◌then◌else◌, ltb, get_or, set, take, length,
  update, Bool, false, ◌>>=◌,
}
use veni.CString.Text.{Text, slash, components}
use veni.Ramfs.{file, dir}
use veni.Vfs.{Vfs, Mount, alloc_fd, zero_file}
use veni.Vfs.Calls.{FileOps}
use veni.Vfs.Nodes.{node, NodeHeap, World, find_child, mount_of, attach}

-- The text with a slash behind it, if it is not empty and there is room in 256 bytes.
abbrev pub with_slash : Text → Text
with_slash path =
    if ltb 0 (length path)
    then (if ltb (length path + 1) 256 then path ++ slash ∷ [] else path)
    else path

-- `current_path` behind a directory, and `mkdir_path` in it. What does not fit in 256 bytes is left.
unfoldable pub next_path : (current_path token : Text) → Text
next_path current_path token =
    let base = with_slash current_path in
    if ltb (length base + length token) 256 then base ++ token else base

-- The array for the name of a node has 32 bytes.
abbrev pub node_name : Text → Text
node_name token = take 31 token

-- `alloc_fd`, and the node that the descriptor is for.
unfoldable pub set_node : Vfs → (n : ℕ) → Option ℕ → Vfs
set_node v n none = v
set_node v n (some fd) = record v {
  files = set v.files fd (record (get_or v.files fd zero_file) { node = n });
}

unfoldable pub open_node : {S : Type 0} → World S → (n : ℕ) → Option ℕ × World S
open_node w n = let (fd, v) = alloc_fd w.vfs in (fd, record w { vfs = set_node v n fd })

-- What follows the node's creation.
unfoldable pub opened : {S : Type 0} → Option ℕ × World S → Option ℕ × World S
opened (none, w) = (none, w)
opened (some n, w) = open_node w n

module _ {S : Type 0} (ops : ℕ → FileOps S) (heap : NodeHeap) where
  -- A directory that the tree lacks: `mkdir`, whatever it returns, and a node.
  unfoldable pub make_dir :
      World S → Mount → (current : ℕ) → (current_path token : Text) → Option ℕ × World S
  make_dir w m current current_path token =
      let (_, s) = (ops m.fs).mkdir (w.states m.fs) (next_path current_path token) in
      attach heap (record w { states = update w.states m.fs s }) current
        (record {
          name = node_name token;
          type = dir;
          fs = m.fs;
          fs_fd = heap.garbage (length w.nodes);
          parent = some current;
          children = [];
        })

  unfoldable pub enter :
      Option ℕ → World S → Mount → (current : ℕ) → (current_path token : Text) → Option ℕ × World S
  enter (some child) w m current current_path token = (some child, w)
  enter none w m current current_path token = make_dir w m current current_path token

  -- `strtok` remembers where it is in a static variable. A call of `mkdir` that used `strtok` leaves it in
  -- an array that is gone.
  unfoldable pub loses_place : Option ℕ → Mount → (current_path token : Text) → Bool
  loses_place (some child) m current_path token = false
  loses_place none m current_path token = (ops m.fs).tokenizes (next_path current_path token)

  -- The directories on the way: the last one with its state, and the last token; the inner `none` is a
  -- `malloc` that failed, the outer one a `strtok` that goes on in an array that is gone. There is no
  -- token if the path is empty.
  unfoldable pub enter_dirs :
      List Text
      → World S
      → Mount
      → (current : ℕ) → (current_path : Text) → Option (Option (ℕ × Option Text) × World S)
  enter_dirs [] w m current current_path = some (some (current, none), w)
  enter_dirs (token ∷ []) w m current current_path = some (some (current, some token), w)
  enter_dirs (token ∷ (next ∷ tokens)) w m current current_path =
      let old = find_child w.nodes current token in
      let (o, w') = enter old w m current current_path token in
      elim o [
        | none ↦ some (none, w')
        | some child ↦
            let rest = enter_dirs (next ∷ tokens) w' m child (next_path current_path token) in
            if loses_place old m current_path token then none else rest
      ]

  -- The node for the handle that the file system's `create` returned.
  unfoldable pub add_file :
      Option ℕ → World S → Mount → (current : ℕ) → (token : Text) → Option ℕ × World S
  add_file none w m current token = (none, w)
  add_file (some handle) w m current token = opened (
      attach heap w current (record {
        name = node_name token;
        type = file;
        fs = m.fs;
        fs_fd = handle;
        parent = some current;
        children = [];
      }))

  unfoldable pub fs_create : World S → Mount → (rel : Text) → Option ℕ × World S
  fs_create w m rel =
      let (handle, s) = (ops m.fs).create (w.states m.fs) rel in
      (handle, record w { states = update w.states m.fs s })

  unfoldable pub create_named :
      Option ℕ → World S → Mount → (rel : Text) (current : ℕ) (token : Text) → Option ℕ × World S
  create_named (some old) w m rel current token = (none, w)
  create_named none w m rel current token =
      let (handle, w') = fs_create w m rel in add_file handle w' m current token

  -- Without a token its pointer is `NULL`, and a comparison with a name or a copy of it is a fault.
  unfoldable pub create_unnamed :
      World S → Mount → (rel : Text) (current : ℕ) → Option (Option ℕ × World S)
  create_unnamed w m rel current =
      let (handle, w') = fs_create w m rel in
      if ltb 0 (length (node w.nodes current).children) then none else elim handle [
        | none ↦ some (none, w')
        | some _ ↦ if heap.grants (length w'.nodes) then none else some (none, w')
      ]

  unfoldable pub create_last :
      Mount → (rel : Text) → Option (ℕ × Option Text) × World S → Option (Option ℕ × World S)
  create_last m rel (none, w) = some (none, w)
  create_last m rel (some (current, none), w) = create_unnamed w m rel current
  create_last m rel (some (current, some token), w) =
      some (create_named (find_child w.nodes current token) w m rel current token)

  unfoldable pub create_on : World S → Option (Mount × Text) → Option (Option ℕ × World S)
  create_on w none = some (none, w)
  create_on w (some (m, rel)) =
      enter_dirs (components (take 255 rel)) w m m.node [] >>= create_last m rel

  -- The outer `none` is a read through `NULL` or in an array that is gone, the inner one is -1.
  unfoldable pub vfs_create : World S → Option Text → Option (Option ℕ × World S)
  vfs_create w path = create_on w (mount_of w.vfs path)
