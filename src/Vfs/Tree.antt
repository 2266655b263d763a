-- ===== src/Vfs/Tree.antt =====
-- The nodes of vfs.c as a growing forest: what a search found, it still finds.
use mathlib.Core.Option.{some_inj}
use veni.Base.{
  append_nil, append_assoc, ℕ, ◌<◌, ◌≤◌, ◌≡◌, ◌≢◌, refl, sym, ap, subst, ◌∙◌, true, none, some,
  List, [], ◌∷◌, ◌++◌, length, arith, inl, inr, Bool-cases,
}
use veni.CString.Text.{Text, text_eq}
use veni.Vfs.Nodes.{Node, node, find_in, find_child}

abbrev pub AreBelow : (n : ℕ) → List ℕ → Type 0
AreBelow n [] = true ≡ true
AreBelow n (c ∷ cs) = (c < n) × AreBelow n cs

-- The children of a node are nodes.
abbrev pub IsClosed : List Node → Type 0
IsClosed nodes = (i : ℕ) → AreBelow (length nodes) (node nodes i).children

-- Nodes are only added, and children only at the end.
pub record Extends (nodes nodes' : List Node) : Type 0 where
  pub longer : length nodes ≤ length nodes'
  pub same_name : (i : ℕ) → i < length nodes → (node nodes' i).name ≡ (node nodes i).name
  pub more : ℕ → List ℕ
  pub added :
      (i : ℕ) → i < length nodes → (node nodes' i).children ≡ (node nodes i).children ++ more i

pub Extends-refl : (nodes : List Node) → Extends nodes nodes
Extends-refl nodes = record {
  longer = omega arith;
  same_name = λ i h. refl;
  more = λ i. [];
  added = λ i h. sym (append_nil (node nodes i).children);
}

pub Extends-trans : (a b c : List Node) → Extends a b → Extends b c → Extends a c
Extends-trans a b c h k = record {
  longer = omega (arith, h.longer, k.longer);
  same_name = λ i lt. k.same_name i (omega (arith, h.longer)) ∙ h.same_name i lt;
  more = λ i. h.more i ++ k.more i;
  added = λ i lt.
      k.added i (omega (arith, h.longer))
      ∙ ap (λ xs. xs ++ k.more i) (h.added i lt)
      ∙ append_assoc (node a i).children (h.more i) (k.more i);
}

pub find_in-Extends :
    (nodes nodes' : List Node) (cs more : List ℕ) (name : Text) (c : ℕ)
    → Extends nodes nodes'
    → AreBelow (length nodes) cs
    → find_in nodes cs name ≡ some c
    → find_in nodes' (cs ++ more) name ≡ some c
unfolding find_in
find_in-Extends nodes nodes' [] more name c h below e = cc
find_in-Extends nodes nodes' (d ∷ cs) more name c h (lt, below) e =
    rw (h.same_name d lt) (elim (Bool-cases (text_eq (node nodes d).name name)) [
      | inl same ↦ rw same (rw same at e)
      | inr other ↦ rw other (find_in-Extends nodes nodes' cs more name c h below (rw other at e))
    ])

-- The child that is found is a node.
find_in-below :
    (nodes : List Node) (n : ℕ) (cs : List ℕ) (name : Text) (c : ℕ)
    → AreBelow n cs
    → find_in nodes cs name ≡ some c
    → c < n
unfolding find_in
find_in-below nodes n [] name c below e = absurd (failed e)
  where
    failed : none ≢ some c
    failed f = cc
find_in-below nodes n (d ∷ cs) name c (lt, below) e =
    elim (Bool-cases (text_eq (node nodes d).name name)) [
      | inl same ↦ subst (λ k. k < n) (some_inj.0 (rw same at e)) lt
      | inr other ↦ find_in-below nodes n cs name c below (rw other at e)
    ]

pub find_child-below :
    (nodes : List Node) (parent : ℕ) (name : Text) (c : ℕ)
    → IsClosed nodes
    → find_child nodes parent name ≡ some c
    → c < length nodes
unfolding find_child
find_child-below nodes parent name c closed e =
    find_in-below nodes (length nodes) (node nodes parent).children name c (closed parent) e

pub find_child-Extends :
    (nodes nodes' : List Node) (parent : ℕ) (name : Text) (c : ℕ)
    → IsClosed nodes
    → Extends nodes nodes'
    → parent < length nodes
    → find_child nodes parent name ≡ some c
    → find_child nodes' parent name ≡ some c
unfolding find_child
find_child-Extends nodes nodes' parent name c closed h lt e = rw (h.added parent lt) (
    find_in-Extends nodes nodes' (node nodes parent).children (h.more parent) name c h
      (closed parent) e)
