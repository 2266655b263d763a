-- ===== src/Vfs/Nodes.antt =====
-- The tree of nodes of vfs.c: `find_child`, `vfs_resolve`, and what adds a node.
use mathlib.Core.Option
use veni.Base.{
  ℕ, Bool, not, ◌||◌, Option, none, some, List, [], ◌∷◌, ◌++◌, ◌==◌, if◌then◌else◌, get_or, set,
  take, length, ◌>>=◌,
}
use veni.CString.Text.{Text, slash, text_eq, components}
use veni.Ramfs.{NodeType, file}
use veni.Vfs.{Vfs, Mount, zero_mount, find_mount}
use veni.Vfs.Calls.{rel_path}

-- A node, named by its place in the list of all nodes. `children` are the nodes from the pointer
-- `children` on, in the order of `next`, which is written only when a node goes to their end.
pub record Node : Type 0 where
  pub name : Text
  pub type : NodeType
  pub fs : ℕ
  pub fs_fd : ℕ
  pub parent : Option ℕ
  pub children : List ℕ

abbrev pub zero_node : Node
zero_node = record { name = []; type = file; fs = 0; fs_fd = 0; parent = none; children = [] }

abbrev pub node : List Node → ℕ → Node
node nodes i = get_or nodes i zero_node

-- What the heap does for node number `k`: whether `malloc` returns memory, and what the member
-- `fs_fd` of a directory, which is not written, then holds.
pub record NodeHeap : Type 0 where
  pub grants : ℕ → Bool
  pub garbage : ℕ → ℕ

-- All of the state: the tables of vfs.c, the nodes, and the state of each file system.
pub record World (S : Type 0) : Type 0 where
  pub vfs : Vfs
  pub nodes : List Node
  pub states : ℕ → S

-- The loop of `find_child`.
unfoldable pub find_in : List Node → (children : List ℕ) → Text → Option ℕ
find_in nodes [] name = none
find_in nodes (c ∷ cs) name =
    let rest = find_in nodes cs name in if text_eq (node nodes c).name name then some c else rest

unfoldable pub find_child : List Node → (parent : ℕ) → Text → Option ℕ
find_child nodes parent name = find_in nodes (node nodes parent).children name

-- The loop of `vfs_resolve` over the tokens of the path.
unfoldable pub descend : List Node → (current : ℕ) → List Text → Option ℕ
descend nodes current [] = some current
descend nodes current (token ∷ tokens) =
    find_child nodes current token >>= λ child. descend nodes child tokens

-- The mount that a path leads to, and the rest of the path: how most functions of vfs.c begin.
unfoldable pub mount_of : Vfs → Option Text → Option (Mount × Text)
mount_of v none = none
mount_of v (some path) =
    if not (get_or path 0 0 == slash) || length v.mounts == 0
    then none
    else Option.map
        (λ i. (get_or v.mounts i zero_mount, rel_path (get_or v.mounts i zero_mount) path))
        (find_mount v.mounts path)

-- The node that the rest of the path leads to, from the root of the mount on; that root is never
-- `NULL`.
unfoldable pub resolve_rel : List Node → (root : ℕ) → Text → Option ℕ
resolve_rel nodes root [] = some root
resolve_rel nodes root (c ∷ rel) = descend nodes root (components (take 255 (c ∷ rel)))

unfoldable pub vfs_resolve : Vfs → List Node → Option Text → Option ℕ
vfs_resolve v nodes path = mount_of v path >>= λ m. resolve_rel nodes m.0.node m.1

-- A new node at the end of the children of its parent.
unfoldable pub attached : List Node → (parent : ℕ) → Node → List Node
attached nodes parent n =
    set nodes parent
      (record (node nodes parent) { children = (node nodes parent).children ++ length nodes ∷ [] })
    ++ n ∷ []

module _ {S : Type 0} (heap : NodeHeap) where
  -- `malloc`, and the new node put in its place; `none` for `NULL`.
  unfoldable pub attach : World S → (parent : ℕ) → Node → Option ℕ × World S
  attach w parent n =
      if heap.grants (length w.nodes)
      then (some (length w.nodes), record w { nodes = attached w.nodes parent n })
      else (none, w)
