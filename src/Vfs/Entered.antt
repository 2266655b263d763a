-- ===== src/Vfs/Entered.antt =====
-- The directories that `vfs_create` of vfs.c enters or makes on its way to the file.
use mathlib.Core.Option.{some_inj}
use veni.Base.{
  update, ℕ, ◌<◌, ◌≤◌, ◌≡◌, refl, ap, subst, ◌∙◌, Bool, true, false, if◌then◌else◌, Option, none,
  some, List, [], ◌∷◌, length, take-all, arith, inl, inr, Bool-cases, none_is_some,
}
use veni.CString.Text.{Text}
use veni.Ramfs.{dir}
use veni.Vfs.{Mount}
use veni.Vfs.Calls.{FileOps}
use veni.Vfs.Nodes.{Node, NodeHeap, World, find_child, descend, attach}
use veni.Vfs.Tree.{
  IsClosed, Extends, Extends-refl, Extends-trans, find_child-below, find_child-Extends,
}
use veni.Vfs.Attached.{length-attached, attached-Extends, attached-IsClosed, find_child-attached}
use veni.Vfs.Create.{node_name, next_path, make_dir, enter, loses_place, enter_dirs}

-- The tree has only grown, and is a tree still; the mounts and the open files are as before.
pub record Grown {S : Type 0} (w w' : World S) : Type 0 where
  pub extends : Extends w.nodes w'.nodes
  pub closed : IsClosed w'.nodes
  pub same_vfs : w'.vfs ≡ w.vfs

-- The names fit in the array of a node.
abbrev pub AreShort : List Text → Type 0
AreShort [] = true ≡ true
AreShort (t ∷ ts) = (length t ≤ 31) × AreShort ts

module _ {S : Type 0} where
  pub Grown-refl : (w : World S) → IsClosed w.nodes → Grown w w
  Grown-refl w closed = record { extends = Extends-refl w.nodes; closed = closed; same_vfs = refl }

  pub Grown-trans : (a b c : World S) → Grown a b → Grown b c → Grown a c
  Grown-trans a b c h k = record {
    extends = Extends-trans a.nodes b.nodes c.nodes h.extends k.extends;
    closed = k.closed;
    same_vfs = k.same_vfs ∙ h.same_vfs;
  }

  -- A child by a name, in a tree that has only grown.
  pub record Entered (w : World S) (current : ℕ) (token : Text) (r : Option ℕ × World S)
      : Type 0 where
    pub grown : Grown w r.1
    pub is_node : (c : ℕ) → r.0 ≡ some c → c < length r.1.nodes
    pub found : (c : ℕ) → r.0 ≡ some c → find_child r.1.nodes current token ≡ some c

  pub attach-Entered :
      (heap : NodeHeap) (w : World S) (current : ℕ) (n : Node)
      → IsClosed w.nodes
      → current < length w.nodes
      → n.children ≡ []
      → find_child w.nodes current n.name ≡ none
      → Entered w current n.name (attach heap w current n)
  unfolding attach
  attach-Entered heap w current n closed lt childless missing =
      elim (Bool-cases (heap.grants (length w.nodes))) [
        | inl e ↦ rw e (record {
          grown = record {
            extends = attached-Extends w.nodes current n lt;
            closed = attached-IsClosed w.nodes current n lt childless closed;
            same_vfs = refl;
          };
          is_node = λ c f. omega (arith, some_inj.0 f, length-attached w.nodes current n lt);
          found = λ c f. find_child-attached w.nodes current n lt n.name closed refl missing ∙ f;
        })
        | inr e ↦ rw e (record {
          grown = Grown-refl w closed;
          is_node = λ c f. none_is_some c f;
          found = λ c f. none_is_some c f;
        })
      ]

module _ {S : Type 0} (ops : ℕ → FileOps S) (heap : NodeHeap) where
  enter-Entered :
      (o : Option ℕ) (w : World S) (m : Mount) (current : ℕ) (path token : Text)
      → IsClosed w.nodes
      → current < length w.nodes
      → length token ≤ 31
      → find_child w.nodes current token ≡ o
      → Entered w current token (enter ops heap o w m current path token)
  unfolding enter make_dir
  enter-Entered (some c) w m current path token closed lt short e = record {
    grown = Grown-refl w closed;
    is_node = λ d f. find_child-below w.nodes current token d closed (e ∙ f);
    found = λ d f. e ∙ f;
  }
  enter-Entered none w m current path token closed lt short e = record {
    grown = record {
      extends = a.grown.extends;
      closed = a.grown.closed;
      same_vfs = a.grown.same_vfs;
    };
    is_node = a.is_node;
    found = a.found;
  }
    where
      call : Option ℕ × S
      call = (ops m.fs).mkdir (w.states m.fs) (next_path path token)

      n : Node
      n = record {
        name = node_name token;
        type = dir;
        fs = m.fs;
        fs_fd = heap.garbage (length w.nodes);
        parent = some current;
        children = [];
      }

      w' : World S
      w' = record w { states = update w.states m.fs call.1 }

      a : Entered w' current token (attach heap w' current n)
      a =
          subst (λ t. Entered w' current t (attach heap w' current n)) (take-all 31 token short)
            (attach-Entered heap w' current n closed lt refl
              (ap (find_child w.nodes current) (take-all 31 token short) ∙ e))

-- What the way to the last token leaves.
pub record Walked {S : Type 0} (w : World S) (current : ℕ) (tokens : List Text)
    (r : Option (ℕ × Option Text) × World S) : Type 0 where
  pub grown : Grown w r.1
  pub is_node : (c : ℕ) (last : Option Text) → r.0 ≡ some (c, last) → c < length r.1.nodes
  pub short : (c : ℕ) (last : Text) → r.0 ≡ some (c, some last) → length last ≤ 31
  pub descends :
      (c : ℕ) (last : Text)
      → r.0 ≡ some (c, some last)
      → (nodes : List Node) (k : ℕ) → Extends r.1.nodes nodes
      → find_child nodes c last ≡ some k
      → descend nodes current tokens ≡ some k

-- The same of a way that may get lost.
abbrev pub Walks :
    {S : Type 0}
    → World S
    → (current : ℕ) → List Text
    → Option (Option (ℕ × Option Text) × World S)
    → Type 0
Walks {S} w current tokens o =
    (r : Option (ℕ × Option Text) × World S) → o ≡ some r → Walked w current tokens r

some-Walks :
    {S : Type 0} (w : World S) (current : ℕ) (tokens : List Text)
    (r : Option (ℕ × Option Text) × World S)
    → Walked w current tokens r
    → Walks w current tokens (some r)
some-Walks w current tokens r h q e = subst (Walked w current tokens) (some_inj.0 e) h

module _ {S : Type 0} (ops : ℕ → FileOps S) (heap : NodeHeap) where
  -- From one directory on the way to the next.
  step-Walked :
      (t next : Text) (ts : List Text) (w : World S) (m : Mount) (current : ℕ) (path : Text)
      → IsClosed w.nodes
      → current < length w.nodes
      → (r : Option ℕ × World S) (lost : Bool) → Entered w current t r
      → ((w' : World S) (c : ℕ)
          → IsClosed w'.nodes
          → c < length w'.nodes
          → Walks w' c (next ∷ ts) (enter_dirs ops heap (next ∷ ts) w' m c path))
      → Walks w current (t ∷ (next ∷ ts)) (elim r.0 [
        | none ↦ some (none, r.1)
        | some c ↦ if lost then none else enter_dirs ops heap (next ∷ ts) r.1 m c path
      ])
  unfolding descend
  step-Walked t next ts w m current path closed lt (none, w') lost h rest r e =
      some-Walks w current (t ∷ (next ∷ ts)) (none, w')
        (record {
          grown = h.grown;
          is_node = λ c last e. none_is_some (c, last) e;
          short = λ c last e. none_is_some (c, some last) e;
          descends = λ c last e. none_is_some (c, some last) e;
        })
        r e
  step-Walked t next ts w m current path closed lt (some c, w') true h rest r e = none_is_some r e
  step-Walked t next ts w m current path closed lt (some c, w') false h rest r e = record {
    grown = Grown-trans w w' _ h.grown k.grown;
    is_node = k.is_node;
    short = k.short;
    descends = λ d last e nodes j ext found.
        rw
          (find_child-Extends w'.nodes nodes current t c h.grown.closed
            (Extends-trans _ _ _ k.grown.extends ext) (omega (arith, h.grown.extends.longer))
            (h.found c refl))
          (k.descends d last e nodes j ext found);
  }
    where
      k : Walked w' c (next ∷ ts) r
      k = rest w' c h.grown.closed (h.is_node c refl) r e

  pub enter_dirs-Walked :
      (tokens : List Text) (w : World S) (m : Mount) (current : ℕ) (path : Text)
      → IsClosed w.nodes
      → current < length w.nodes
      → AreShort tokens
      → Walks w current tokens (enter_dirs ops heap tokens w m current path)
  unfolding enter_dirs descend
  enter_dirs-Walked [] w m current path closed lt short = some-Walks w current [] _ (record {
    grown = Grown-refl w closed;
    is_node = λ c last e. subst (λ p. p.0 < length w.nodes) (some_inj.0 e) lt;
    short = λ c last e. none_is_some last (ap (λ p. p.1) (some_inj.0 e));
    descends = λ c last e nodes j ext found. none_is_some last (ap (λ p. p.1) (some_inj.0 e));
  })
  enter_dirs-Walked (t ∷ []) w m current path closed lt short =
      some-Walks w current (t ∷ []) _ (record {
        grown = Grown-refl w closed;
        is_node = λ c last e. subst (λ p. p.0 < length w.nodes) (some_inj.0 e) lt;
        short = λ c last e.
            subst (λ u. length u ≤ 31) (some_inj.0 (ap (λ p. p.1) (some_inj.0 e))) short.0;
        descends = λ c last e nodes j ext found.
            let same_dir : current ≡ c = ap (λ p. p.0) (some_inj.0 e) in
            let same_token : t ≡ last = some_inj.0 (ap (λ p. p.1) (some_inj.0 e)) in
            rw (same_dir, same_token, found) refl;
      })
  enter_dirs-Walked (t ∷ (next ∷ ts)) w m current path closed lt (fits, short) =
      step-Walked t next ts w m current (next_path path t) closed lt
        (enter ops heap (find_child w.nodes current t) w m current path t)
        (loses_place ops heap (find_child w.nodes current t) m path t)
        (enter-Entered ops heap (find_child w.nodes current t) w m current path t closed lt fits
          refl)
        (λ w' c closed' lt'.
          enter_dirs-Walked (next ∷ ts) w' m c (next_path path t) closed' lt' short)
