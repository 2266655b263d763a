-- ===== src/Vfs/Created.antt =====
-- A file that `vfs_create` of vfs.c made, and the descriptor that it returned.
use mathlib.Core.Option.{some_inj}
use veni.Base.{
  ℕ, ◌<◌, ◌≡◌, ◌≢◌, refl, sym, ap, ap₂, subst, ◌∙◌, true, false, Option, none, some, List, [], ◌∷◌,
  if◌then◌else◌, take, get_or, set, get_or-set_self, get_or-set_ne, update, length, take-all, arith,
  inl, inr, Bool-cases, none_is_some, eq→==, ltb, ◌>>=◌,
}
use veni.CString.Text.{Text, components}
use veni.CString.Paths.{components_nil}
use veni.Ramfs.{NodeType}
use veni.Vfs.{Vfs, File, Mount, file, zero_file, alloc_fd}
use veni.Vfs.Calls.{FileOps}
use veni.Vfs.Files.{Opened, alloc_fd-some}
use veni.Vfs.Nodes.{
  Node, node, NodeHeap, World, find_child, descend, mount_of, resolve_rel, vfs_resolve, attached,
  attach,
}
use veni.Vfs.Tree.{IsClosed, Extends, Extends-trans}
use veni.Vfs.Attached.{attached-Extends, find_child-attached, node-attached_last}
use veni.Vfs.Entered.{AreShort, Walked, Walks, enter_dirs-Walked}
use veni.Vfs.Create.{
  node_name, set_node, open_node, enter_dirs, opened, add_file, fs_create, create_named,
  create_unnamed, create_last, create_on, vfs_create,
}

-- A descriptor for a node, and nothing else that is new.
pub record NodeOpened {S : Type 0} (w : World S) (n fd : ℕ) (w' : World S) : Type 0 where
  pub was_free : (file w.vfs fd).used ≡ false
  pub new_file : file w'.vfs fd ≡ record { node = n; offset = 0; used = true }
  pub others : (j : ℕ) → fd ≢ j → file w'.vfs j ≡ file w.vfs j
  pub same_mounts : w'.vfs.mounts ≡ w.vfs.mounts
  pub same_nodes : w'.nodes ≡ w.nodes
  pub same_states : w'.states ≡ w.states

pub open_node-NodeOpened :
    {S : Type 0} (w w' : World S) (n fd : ℕ) → open_node w n ≡ (some fd, w') → NodeOpened w n fd w'
unfolding open_node set_node
open_node-NodeOpened {S} w w' n fd e = by_alloc (alloc_fd w.vfs) refl e
  where
    by_alloc :
        (r : Option ℕ × Vfs)
        → alloc_fd w.vfs ≡ r
        → ◌≡◌ {A = Option ℕ × World S} (r.0, record w { vfs = set_node r.1 n r.0 }) (some fd, w')
        → NodeOpened w n fd w'
    by_alloc (none, v) f g = none_is_some fd (ap (λ p. p.0) g)
    by_alloc (some k, v) f g =
        subst (λ u. NodeOpened w n fd u) (ap (λ p. p.1) g)
          (subst (λ i. NodeOpened w n i (record w { vfs = set_node v n (some k) }))
            (some_inj.0 (ap (λ p. p.0) g))
            (record {
              was_free = o.was_free;
              new_file = self;
              others = λ j ne. get_or-set_ne v.files k j new zero_file ne ∙ o.others j ne;
              same_mounts = o.same_mounts;
              same_nodes = refl;
              same_states = refl;
            }))
      where
        o : Opened w.vfs k v
        o = alloc_fd-some w.vfs v k f

        new : File
        new = record (file v k) { node = n }

        self : get_or (set v.files k new) k zero_file ≡ record { node = n; offset = 0; used = true }
        self =
            get_or-set_self v.files k new zero_file (omega (arith, o.in_table, o.same_length))
            ∙ ap₂ (λ i b. record { node = n; offset = i; used = b }) o.at_start o.now_used

-- A new file: its path leads to the node of the new descriptor, whose file system is the mount's and
-- whose handle is what the call of `create` returned there.
pub record Created {S : Type 0} (ops : ℕ → FileOps S) (w : World S) (m : Mount) (path rel : Text)
    (fd : ℕ) (w' : World S) : Type 0 where
  pub was_free : (file w.vfs fd).used ≡ false
  pub now_used : (file w'.vfs fd).used ≡ true
  pub at_start : (file w'.vfs fd).offset ≡ 0
  pub resolves : vfs_resolve w'.vfs w'.nodes (some path) ≡ some (file w'.vfs fd).node
  pub is_file : (node w'.nodes (file w'.vfs fd).node).type ≡ NodeType.file
  pub system : (node w'.nodes (file w'.vfs fd).node).fs ≡ m.fs
  pub before : S
  pub made :
      (ops m.fs).create before rel
      ≡ (some (node w'.nodes (file w'.vfs fd).node).fs_fd, w'.states m.fs)
  pub others : (j : ℕ) → fd ≢ j → file w'.vfs j ≡ file w.vfs j
  pub extends : Extends w.nodes w'.nodes

mount_of-mounts :
    (v v' : Vfs) (path : Option Text) → v'.mounts ≡ v.mounts → mount_of v' path ≡ mount_of v path
unfolding mount_of
mount_of-mounts v v' none e = refl
mount_of-mounts v v' (some path) e = rw e refl

-- A relative path leads where its components lead.
resolve_rel-components :
    (nodes : List Node) (root : ℕ) (rel : Text)
    → resolve_rel nodes root rel ≡ descend nodes root (components (take 255 rel))
unfolding resolve_rel descend
resolve_rel-components nodes root [] = rw components_nil refl
resolve_rel-components nodes root (c ∷ rel) = refl

attach-some :
    {S : Type 0} (heap : NodeHeap) (w w' : World S) (parent : ℕ) (n : Node) (k : ℕ)
    → attach heap w parent n ≡ (some k, w')
    → (k ≡ length w.nodes) × (w' ≡ record w { nodes = attached w.nodes parent n })
unfolding attach
attach-some {S} heap w w' parent n k e = elim (Bool-cases (heap.grants (length w.nodes))) [
  | inl granted ↦ by_pair (rw granted at e)
  | inr refused ↦ none_is_some k (ap (λ r. r.0) (rw refused at e))
]
  where
    by_pair :
        ◌≡◌ {A = Option ℕ × World S}
          (some (length w.nodes), record w { nodes = attached w.nodes parent n })
          (some k, w')
        → (k ≡ length w.nodes) × (w' ≡ record w { nodes = attached w.nodes parent n })
    by_pair f = (sym (some_inj.0 (ap (λ r. r.0) f)), sym (ap (λ r. r.1) f))

module _ {S : Type 0} (ops : ℕ → FileOps S) (heap : NodeHeap) (w : World S) (m : Mount)
    (path rel : Text) (mounted : mount_of w.vfs (some path) ≡ some (m, rel)) where
  -- The last steps, when no child has the name.
  module _ (current : ℕ) (token : Text) (w₁ : World S)
      (h : Walked w m.node (components (take 255 rel)) (some (current, some token), w₁))
      (missing : find_child w₁.nodes current token ≡ none) where
    new_node : ℕ → Node
    new_node handle = record {
      name = node_name token;
      type = NodeType.file;
      fs = m.fs;
      fs_fd = handle;
      parent = some current;
      children = [];
    }

    called : World S
    called = record w₁ { states = update w₁.states m.fs ((ops m.fs).create (w₁.states m.fs) rel).1 }

    resolved :
        (nodes : List Node) (v : Vfs) (n : ℕ)
        → Extends w₁.nodes nodes
        → v.mounts ≡ w.vfs.mounts
        → find_child nodes current token ≡ some n
        → vfs_resolve v nodes (some path) ≡ some n
    unfolding vfs_resolve
    resolved nodes v n ext same found =
        rw (mount_of-mounts w.vfs v (some path) same, mounted)
          (resolve_rel-components nodes m.node rel
            ∙ h.descends current token refl nodes n ext found)

    opened-Created :
        (handle n : ℕ) (w₂ : World S) (fd : ℕ) (w' : World S)
        → ((ops m.fs).create (w₁.states m.fs) rel).0 ≡ some handle
        → attach heap called current (new_node handle) ≡ (some n, w₂)
        → open_node w₂ n ≡ (some fd, w')
        → Created ops w m path rel fd w'
    unfolding called new_node
    opened-Created handle n w₂ fd w' f a e = record {
      was_free = ap (λ v. (file v fd).used) (sym (same_vfs ∙ h.grown.same_vfs)) ∙ o.was_free;
      now_used = ap (λ k. k.used) o.new_file;
      at_start = ap (λ k. k.offset) o.new_file;
      resolves =
          resolved w'.nodes w'.vfs (file w'.vfs fd).node grows
            (o.same_mounts ∙ ap (λ v. v.mounts) (same_vfs ∙ h.grown.same_vfs))
            (ap (λ ns. find_child ns current token) same_nodes
              ∙ find_child-attached w₁.nodes current (new_node handle) is_node token h.grown.closed
                  (take-all 31 token (h.short current token refl)) missing
              ∙ ap some (sym place));
      is_file = ap (λ k. k.type) same_node;
      system = ap (λ k. k.fs) same_node;
      before = w₁.states m.fs;
      made =
          ap₂ (λ b s. (b, s)) (f ∙ ap some (sym (ap (λ k. k.fs_fd) same_node)))
            (sym (ap (λ st. st m.fs) (o.same_states ∙ ap (λ u. u.states) shape) ∙ updated));
      others = λ j ne. o.others j ne ∙ ap (λ v. file v j) (same_vfs ∙ h.grown.same_vfs);
      extends = Extends-trans w.nodes w₁.nodes w'.nodes h.grown.extends grows;
    }
      where
        shape : w₂ ≡ record called { nodes = attached w₁.nodes current (new_node handle) }
        shape = (attach-some heap called w₂ current (new_node handle) n a).1

        o : NodeOpened w₂ n fd w'
        o = open_node-NodeOpened w₂ w' n fd e

        same_vfs : w₂.vfs ≡ w₁.vfs
        same_vfs = ap (λ u. u.vfs) shape

        is_node : current < length w₁.nodes
        is_node = h.is_node current (some token) refl

        same_nodes : w'.nodes ≡ attached w₁.nodes current (new_node handle)
        same_nodes = o.same_nodes ∙ ap (λ u. u.nodes) shape

        place : (file w'.vfs fd).node ≡ length w₁.nodes
        place =
            ap (λ k. k.node) o.new_file
            ∙ (attach-some heap called w₂ current (new_node handle) n a).0

        same_node : node w'.nodes (file w'.vfs fd).node ≡ new_node handle
        same_node =
            ap₂ node same_nodes place
            ∙ node-attached_last w₁.nodes current (new_node handle) is_node

        grows : Extends w₁.nodes w'.nodes
        grows =
            subst (Extends w₁.nodes) (sym same_nodes)
              (attached-Extends w₁.nodes current (new_node handle) is_node)

        updated : called.states m.fs ≡ ((ops m.fs).create (w₁.states m.fs) rel).1
        updated = rw (eq→== m.fs m.fs refl) refl

    named-Created :
        (fd : ℕ) (w' : World S)
        → create_named ops heap none w₁ m rel current token ≡ (some fd, w')
        → Created ops w m path rel fd w'
    unfolding create_named fs_create add_file opened called new_node
    named-Created fd w' e = by_handle _ refl e
      where
        by_attach :
            (handle : ℕ) (r : Option ℕ × World S)
            → ((ops m.fs).create (w₁.states m.fs) rel).0 ≡ some handle
            → attach heap called current (new_node handle) ≡ r
            → opened r ≡ (some fd, w')
            → Created ops w m path rel fd w'
        by_attach handle (none, w₂) f a g = none_is_some fd (ap (λ r. r.0) g)
        by_attach handle (some n, w₂) f a g = opened-Created handle n w₂ fd w' f a g

        by_handle :
            (o : Option ℕ)
            → ((ops m.fs).create (w₁.states m.fs) rel).0 ≡ o
            → add_file ops heap o called m current token ≡ (some fd, w')
            → Created ops w m path rel fd w'
        by_handle none f g = none_is_some fd (ap (λ r. r.0) g)
        by_handle (some handle) f g = by_attach handle _ f refl g

  -- Without a last token there is no descriptor.
  unnamed-none :
      {P : Type 0}
      → (current : ℕ) (w₁ : World S) (fd : ℕ) (w' : World S)
      → create_unnamed ops heap w₁ m rel current ≡ some (some fd, w')
      → P
  unfolding create_unnamed fs_create
  unnamed-none {P} current w₁ fd w' e =
      elim (Bool-cases (ltb 0 (length (node w₁.nodes current).children))) [
        | inl some_child ↦ none_is_some _ (rw some_child at e)
        | inr childless ↦ by_handle ((ops m.fs).create (w₁.states m.fs) rel).0 (rw childless at e)
      ]
    where
      w₂ : World S
      w₂ = record w₁ { states = update w₁.states m.fs ((ops m.fs).create (w₁.states m.fs) rel).1 }

      by_handle :
          (o : Option ℕ)
          → ◌≡◌ {A = Option (Option ℕ × World S)}
              (elim o [
                | none ↦ some (none, w₂)
                | some _ ↦ if heap.grants (length w₂.nodes) then none else some (none, w₂)
              ])
              (some (some fd, w'))
          → P
      by_handle none f = none_is_some fd (ap (λ r. r.0) (some_inj.0 f))
      by_handle (some handle) f = elim (Bool-cases (heap.grants (length w₁.nodes))) [
        | inl granted ↦ none_is_some _ (rw granted at f)
        | inr refused ↦ none_is_some fd (ap (λ r. r.0) (some_inj.0 (rw refused at f)))
      ]

  -- With names that fit in a node, a tree that is one, and the mount's root in it: where `vfs_create`
  -- returns a descriptor, that was free, it is now in use at offset 0, and `vfs_resolve` of the path
  -- gives its node. That node is a file of the mount's file system, with the handle that a call of
  -- `create` there returned for the relative path. Other descriptors are as before, and no node is
  -- lost.
  pub vfs_create-Created :
      (fd : ℕ) (w' : World S)
      → IsClosed w.nodes
      → m.node < length w.nodes
      → AreShort (components (take 255 rel))
      → vfs_create ops heap w (some path) ≡ some (some fd, w')
      → Created ops w m path rel fd w'
  unfolding vfs_create create_on create_last create_unnamed create_named
  vfs_create-Created fd w' closed is_node short e =
      by_way (enter_dirs ops heap (components (take 255 rel)) w m m.node [])
        (enter_dirs-Walked ops heap (components (take 255 rel)) w m m.node [] closed is_node short)
        (rw mounted at e)
    where
      by_child :
          (c : ℕ) (t : Text) (w₁ : World S) (o : Option ℕ)
          → Walked w m.node (components (take 255 rel)) (some (c, some t), w₁)
          → find_child w₁.nodes c t ≡ o
          → create_named ops heap o w₁ m rel c t ≡ (some fd, w')
          → Created ops w m path rel fd w'
      by_child c t w₁ none h missing g = named-Created c t w₁ h missing fd w' g
      by_child c t w₁ (some old) h there g = none_is_some fd (ap (λ r. r.0) g)

      by_walk :
          (r : Option (ℕ × Option Text) × World S)
          → Walked w m.node (components (take 255 rel)) r
          → create_last ops heap m rel r ≡ some (some fd, w')
          → Created ops w m path rel fd w'
      by_walk (none, w₁) h g = none_is_some fd (ap (λ r. r.0) (some_inj.0 g))
      by_walk (some (c, none), w₁) h g = unnamed-none c w₁ fd w' g
      by_walk (some (c, some t), w₁) h g = by_child c t w₁ _ h refl (some_inj.0 g)

      by_way :
          (o : Option (Option (ℕ × Option Text) × World S))
          → Walks w m.node (components (take 255 rel)) o
          → (o >>= create_last ops heap m rel) ≡ some (some fd, w')
          → Created ops w m path rel fd w'
      by_way none h g = none_is_some _ g
      by_way (some r) h g = by_walk r (h r refl) g
