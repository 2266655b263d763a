-- ===== src/Vfs/Attached.antt =====
-- What `attached`, the end of the making of a node in vfs.c, does to the tree of nodes.
use veni.Base.{
  append_nil, append_nil, ℕ, ◌+◌, ◌<◌, ◌≤◌, ◌≡◌, ◌≢◌, refl, sym, ap, subst, ◌∙◌, true, false, none,
  some, List, [], ◌∷◌, ◌++◌, ◌==◌, if◌then◌else◌, get_or, set, length, length-append, length-set,
  get_or-set_self, get_or-set_ne, get_or-append_left, get_or-append_last, get_or-beyond, arith, inl,
  inr, ◌⊎◌, Bool-cases, ==→eq, ==→ne, ltb, ltb→lt, ltb→le,
}
use veni.CString.Text.{Text, text_eq, text_eq_refl}
use veni.Vfs.Nodes.{Node, node, zero_node, find_in, find_child, attached}
use veni.Vfs.Tree.{AreBelow, IsClosed, Extends}

AreBelow-more : (m n : ℕ) (cs : List ℕ) → m ≤ n → AreBelow m cs → AreBelow n cs
AreBelow-more m n [] le below = refl
AreBelow-more m n (c ∷ cs) le (lt, below) = (omega arith, AreBelow-more m n cs le below)

AreBelow-append : (n k : ℕ) (cs : List ℕ) → k < n → AreBelow n cs → AreBelow n (cs ++ k ∷ [])
AreBelow-append n k [] lt below = (lt, refl)
AreBelow-append n k (c ∷ cs) lt (h, below) = (h, AreBelow-append n k cs lt below)

-- A search that fails, and then finds what is put at the end.
find_in-append :
    (nodes : List Node) (cs : List ℕ) (k : ℕ) (name : Text)
    → find_in nodes cs name ≡ none
    → (node nodes k).name ≡ name
    → find_in nodes (cs ++ k ∷ []) name ≡ some k
unfolding find_in
find_in-append nodes [] k name e same = rw (same, text_eq_refl name) refl
find_in-append nodes (c ∷ cs) k name e same = elim (Bool-cases (text_eq (node nodes c).name name)) [
  | inl found ↦ absurd (failed (rw found at e))
  | inr other ↦ rw other (find_in-append nodes cs k name (rw other at e) same)
]
  where
    failed : some c ≢ none
    failed f = cc

find_in-none_same :
    (nodes nodes' : List Node) (cs : List ℕ) (name : Text)
    → ((i : ℕ) → i < length nodes → (node nodes' i).name ≡ (node nodes i).name)
    → AreBelow (length nodes) cs
    → find_in nodes' cs name ≡ find_in nodes cs name
unfolding find_in
find_in-none_same nodes nodes' [] name same below = refl
find_in-none_same nodes nodes' (c ∷ cs) name same (lt, below) =
    rw (same c lt, find_in-none_same nodes nodes' cs name same below) refl

module _ (nodes : List Node) (parent : ℕ) (n : Node) (is_node : parent < length nodes) where
  changed : Node
  changed = record (node nodes parent) {
    children = (node nodes parent).children ++ length nodes ∷ [];
  }

  pub length-attached : length (attached nodes parent n) ≡ length nodes + 1
  unfolding attached changed
  length-attached =
      omega
        (arith, length-append (set nodes parent changed) (n ∷ []), length-set nodes parent changed)

  pub node-attached_last : node (attached nodes parent n) (length nodes) ≡ n
  unfolding attached changed
  node-attached_last =
      ap (λ k. get_or (set nodes parent changed ++ n ∷ []) k zero_node)
        (sym (length-set nodes parent changed))
      ∙ get_or-append_last (set nodes parent changed) n zero_node

  node-attached_parent : node (attached nodes parent n) parent ≡ changed
  unfolding attached changed
  node-attached_parent =
      get_or-append_left (set nodes parent changed) (n ∷ []) parent zero_node
        (omega (arith, length-set nodes parent changed))
      ∙ get_or-set_self nodes parent changed zero_node is_node

  node-attached_ne :
      (i : ℕ) → i < length nodes → parent ≢ i → node (attached nodes parent n) i ≡ node nodes i
  unfolding attached changed
  node-attached_ne i lt ne =
      get_or-append_left (set nodes parent changed) (n ∷ []) i zero_node
        (omega (arith, length-set nodes parent changed))
      ∙ get_or-set_ne nodes parent i changed zero_node ne

  pub attached-Extends : Extends nodes (attached nodes parent n)
  unfolding changed
  attached-Extends = record {
    longer = omega (arith, length-attached);
    same_name = names;
    more = more;
    added = added;
  }
    where
      more : ℕ → List ℕ
      more i = if parent == i then length nodes ∷ [] else []

      names :
          (i : ℕ) → i < length nodes → (node (attached nodes parent n) i).name ≡ (node nodes i).name
      names i lt = elim (Bool-cases (parent == i)) [
        | inl e ↦
            subst (λ j. (node (attached nodes parent n) j).name ≡ (node nodes j).name) (==→eq _ _ e)
              (ap (λ m. m.name) node-attached_parent)
        | inr e ↦ ap (λ m. m.name) (node-attached_ne i lt (==→ne _ _ e))
      ]

      added :
          (i : ℕ)
          → i < length nodes
          → (node (attached nodes parent n) i).children ≡ (node nodes i).children ++ more i
      added i lt = elim (Bool-cases (parent == i)) [
        | inl e ↦ rw e (
            subst
              (λ j.
                (node (attached nodes parent n) j).children
                ≡ (node nodes j).children ++ length nodes ∷ [])
              (==→eq _ _ e) (ap (λ m. m.children) node-attached_parent))
        | inr e ↦ rw e (
            ap (λ m. m.children) (node-attached_ne i lt (==→ne _ _ e))
            ∙ sym (append_nil (node nodes i).children))
      ]

  pub attached-IsClosed : n.children ≡ [] → IsClosed nodes → IsClosed (attached nodes parent n)
  unfolding changed
  attached-IsClosed childless closed i = elim (Bool-cases (parent == i)) [
    | inl e ↦
        subst (λ j. AreBelow bound (node (attached nodes parent n) j).children) (==→eq _ _ e)
          (subst (λ m. AreBelow bound m.children) (sym node-attached_parent)
            (AreBelow-append bound (length nodes) (node nodes parent).children
              (omega (arith, length-attached)) (wider _ (closed parent))))
    | inr e ↦
        by_place (==→ne _ _ e) (Bool-cases (ltb i (length nodes))) (Bool-cases (length nodes == i))
  ]
    where
      bound : ℕ
      bound = length (attached nodes parent n)

      wider : (cs : List ℕ) → AreBelow (length nodes) cs → AreBelow bound cs
      wider cs below = AreBelow-more (length nodes) bound cs (omega (arith, length-attached)) below

      by_place :
          parent ≢ i
          → (ltb i (length nodes) ≡ true) ⊎ (ltb i (length nodes) ≡ false)
          → ((length nodes == i) ≡ true) ⊎ ((length nodes == i) ≡ false)
          → AreBelow bound (node (attached nodes parent n) i).children
      by_place ne (inl lt) _ =
          subst (λ m. AreBelow bound m.children) (sym (node-attached_ne i (ltb→lt _ _ lt) ne))
            (wider _ (closed i))
      by_place ne (inr ge) (inl e) =
          subst (λ j. AreBelow bound (node (attached nodes parent n) j).children) (==→eq _ _ e)
            (subst (λ m. AreBelow bound m.children) (sym node-attached_last)
              (subst (λ cs. AreBelow bound cs) (sym childless) refl))
      by_place ne (inr ge) (inr e) =
          subst (λ m. AreBelow bound m.children)
            (sym (
              get_or-beyond (attached nodes parent n) i zero_node
                (omega (arith, ltb→le _ _ ge, ==→ne _ _ e, length-attached))))
            refl

  -- A name that was not among the children is found at the new node.
  pub find_child-attached :
      (name : Text)
      → IsClosed nodes
      → n.name ≡ name
      → find_child nodes parent name ≡ none
      → find_child (attached nodes parent n) parent name ≡ some (length nodes)
  unfolding find_child changed
  find_child-attached name closed same e = rw (node-attached_parent) (
      find_in-append (attached nodes parent n) (node nodes parent).children (length nodes) name
        (find_in-none_same nodes (attached nodes parent n) (node nodes parent).children name
            attached-Extends.same_name (closed parent)
          ∙ e)
        (ap (λ m. m.name) node-attached_last ∙ same))
