-- ===== src/Ramfs/Keeps.antt =====
-- The changes that the operations of ramfs.c make to the table keep it a tree.
use veni.Base.{
  ℕ, ◌+◌, ◌≤◌, ◌≡◌, ◌≢◌, ap, sym, subst, ◌∙◌, true, false, ◌==◌, if◌then◌else◌, length, arith, inl,
  inr, Bool-cases, ==→eq, ne→==, true≢false,
}
use veni.CString.Text.{Text}
use veni.Ramfs.{Dirent, Inode, Inodes, inode}
use veni.Ramfs.Entries.{refs, refs-append}
use veni.Ramfs.Content.{IsStored}
use veni.Ramfs.Tree.{is_used, links, IsTree}
use veni.Ramfs.Change.{Made, Linked, new_inode, new_entry, with_entry}

new_inode-IsStored : (type : ℕ) → IsStored (new_inode type)
new_inode-IsStored type = record {
  capacity_in = omega arith;
  size_in = omega arith;
  word = omega arith;
}

same_buffer : (n : Inode) (e : Dirent) → IsStored n → IsStored (with_entry n e)
same_buffer n e h = record { capacity_in = h.capacity_in; size_in = h.size_in; word = h.word }

-- No used directory refers to an inode that is not used.
unused-links :
    (ns : Inodes) (j t : ℕ)
    → IsTree ns
    → is_used ns t ≡ false
    → is_used ns j ≡ true
    → links ns j t ≡ 0
unused-links ns j t v free used = elim (Bool-cases (links ns j t == 0)) [
  | inl e ↦ ==→eq _ _ e
  | inr ne ↦ absurd (true≢false (sym (v.live j t used (ground arith)).0 ∙ free))
]

-- A change of the table by one new inode `idx`, as the invariant sees it: directory `j` has
-- `more j` links to it.
record Added (ns ns' : Inodes) (idx : ℕ) (more : ℕ → ℕ) : Type 0 where
  used : (j : ℕ) → is_used ns' j ≡ (if idx == j then true else is_used ns j)
  links_now :
      (j t : ℕ)
      → links ns' j t
        ≡ (if idx == j then 0 else if idx == t then links ns j t + more j else links ns j t)
  few : (j : ℕ) → more j ≤ 1
  only : (i j : ℕ) → i ≢ j → more i + more j ≤ 1
  was_unused : is_used ns idx ≡ false
  same_length : length ns' ≡ length ns
  root_dir : (inode ns' 0).type ≡ (inode ns 0).type
  stored : (i : ℕ) → IsStored (inode ns' i)

module _ (ns ns' : Inodes) (idx : ℕ) (more : ℕ → ℕ) (v : IsTree ns)
    (a : Added ns ns' idx more) where
  not_root : idx ≢ 0
  not_root e = true≢false (sym v.root_used ∙ sym (ap (is_used ns) e) ∙ a.was_unused)

  -- There was no link to the new inode.
  no_link : (j t : ℕ) → is_used ns j ≡ true → (idx == t) ≡ true → links ns j t ≡ 0
  no_link j t u e = unused-links ns j t v (ap (is_used ns) (sym (==→eq idx t e)) ∙ a.was_unused) u

  once_after : (i t : ℕ) → is_used ns' i ≡ true → links ns' i t ≤ 1
  once_after i t u = ground (arith, a.links_now i t, a.used i, a.few i, v.once i t, no_link i t)

  apart_after :
      (i j t : ℕ)
      → is_used ns' i ≡ true
      → is_used ns' j ≡ true
      → i ≢ j
      → links ns' i t + links ns' j t ≤ 1
  apart_after i j t u w ne = ground (
    arith,
    a.links_now i t,
    a.links_now j t,
    a.used i,
    a.used j,
    a.few i,
    a.few j,
    a.only i j,
    v.once i t,
    v.once j t,
    v.apart i j t,
    no_link i t,
    no_link j t,
  )

  live_after :
      (i t : ℕ) → is_used ns' i ≡ true → 1 ≤ links ns' i t → (is_used ns' t ≡ true) × (t ≢ 0)
  live_after i t u one = elim (Bool-cases (idx == t)) [
    | inl e ↦ (a.used t ∙ rw e, λ z. not_root (==→eq idx t e ∙ z))
    | inr ne ↦
        let old =
          v.live i t (ground (arith, a.used i, a.links_now i t))
            (ground (arith, a.links_now i t)) in
        (a.used t ∙ rw ne old.0, old.1)
  ]

  Added-IsTree : IsTree ns'
  Added-IsTree = record {
    count = a.same_length ∙ v.count;
    root_used = a.used 0 ∙ rw (ne→== idx 0 not_root) v.root_used;
    root_dir = a.root_dir ∙ v.root_dir;
    once = once_after;
    apart = apart_after;
    live = live_after;
    stored = a.stored;
  }

-- A new inode that nothing refers to keeps the tree.
pub Made-IsTree : (ns ns' : Inodes) (type idx : ℕ) → IsTree ns → Made ns type idx ns' → IsTree ns'
unfolding refs
Made-IsTree ns ns' type idx v made =
    Added-IsTree ns ns' idx (λ _. 0) v
      (record {
        used = λ j. ap (λ (n : Inode). n.used) (made.node j) ∙ split_used j;
        links_now = λ j t. ap (λ (n : Inode). refs n.entries t) (made.node j) ∙ split_links j t;
        few = λ j. omega arith;
        only = λ i j ne. omega arith;
        was_unused = made.was_unused;
        same_length = made.same_length;
        root_dir =
            ap (λ (n : Inode). n.type) (made.node 0)
            ∙ rw (
                ne→== idx 0
                  (λ e. true≢false (sym v.root_used ∙ sym (ap (is_used ns) e) ∙ made.was_unused)));
        stored = λ i. subst IsStored (sym (made.node i)) (split_stored i);
      })
  where
    split_used :
        (j : ℕ)
        → (if idx == j then new_inode type else inode ns j).used
          ≡ (if idx == j then true else is_used ns j)
    split_used j = elim (Bool-cases (idx == j)) [ inl e ↦ rw e | inr e ↦ rw e ]

    split_links :
        (j t : ℕ)
        → refs (if idx == j then new_inode type else inode ns j).entries t
          ≡ (if idx == j then 0 else if idx == t then links ns j t + 0 else links ns j t)
    split_links j t = elim (Bool-cases (idx == j)) [ inl e ↦ rw e | inr e ↦ rw e (ground arith) ]

    split_stored : (i : ℕ) → IsStored (if idx == i then new_inode type else inode ns i)
    split_stored i = elim (Bool-cases (idx == i)) [
      | inl e ↦ rw e (new_inode-IsStored type)
      | inr e ↦ rw e (v.stored i)
    ]

module _ (ns ns' : Inodes) (parent : ℕ) (name : Text) (type idx : ℕ) (v : IsTree ns)
    (dir_used : is_used ns parent ≡ true) (linked : Linked ns parent name type idx ns') where
  not_parent : (j : ℕ) → (parent == j) ≡ true → (idx == j) ≡ false
  not_parent j e = ne→== idx j (λ same. linked.other_dir (==→eq parent j e ∙ sym same))

  -- What holds of the parent with its entry, of the new inode and of the others holds of each.
  each :
      {X : Type 0} (f : Inode → X) (g : ℕ → X)
      → ((j : ℕ)
          → (parent == j) ≡ true
          → f (with_entry (inode ns parent) (new_entry name idx)) ≡ g j)
      → ((j : ℕ) → (idx == j) ≡ true → f (new_inode type) ≡ g j)
      → ((j : ℕ) → (parent == j) ≡ false → (idx == j) ≡ false → f (inode ns j) ≡ g j)
      → (j : ℕ) → f (inode ns' j) ≡ g j
  each f g at_parent at_new other j = ap f (linked.node j) ∙ elim (Bool-cases (parent == j)) [
    | inl e ↦ rw e (at_parent j e)
    | inr e ↦
        rw e
          (elim (Bool-cases (idx == j)) [ inl s ↦ rw s (at_new j s) | inr s ↦ rw s (other j e s) ])
  ]

  pub linked-used : (j : ℕ) → is_used ns' j ≡ (if idx == j then true else is_used ns j)
  linked-used =
      each (λ n. n.used) (λ j. if idx == j then true else is_used ns j)
        (λ j e. rw (not_parent j e) (ap (is_used ns) (==→eq parent j e))) (λ j e. rw e)
        (λ j e s. rw s)

  linked-links :
      (t j : ℕ)
      → links ns' j t ≡ (
          if idx == j
          then 0
          else if idx == t
          then links ns j t + (if parent == j then 1 else 0)
          else links ns j t)
  unfolding refs
  linked-links t =
      each (λ n. refs n.entries t) _
        (λ j e.
          rw (not_parent j e, e)
            (refs-append (inode ns parent).entries (new_entry name idx) t
              ∙ ground (arith, ap (λ i. links ns i t) (==→eq parent j e))))
        (λ j e. rw e) (λ j e s. rw (e, s) (ground arith))

  -- A new inode with one entry for it keeps the tree.
  pub Linked-IsTree : IsTree ns'
  Linked-IsTree =
      Added-IsTree ns ns' idx (λ j. if parent == j then 1 else 0) v
        (record {
          used = linked-used;
          links_now = λ j t. linked-links t j;
          few = λ j. ground arith;
          only = λ i j ne. ground arith;
          was_unused = linked.was_unused;
          same_length = linked.same_length;
          root_dir =
              each (λ n. n.type) (λ j. if idx == j then type else (inode ns j).type)
                (λ j e. rw (not_parent j e) (ap (λ i. (inode ns i).type) (==→eq parent j e)))
                (λ j e. rw e) (λ j e s. rw s) 0
              ∙ rw (
                  ne→== idx 0 (λ e.
                    true≢false (sym v.root_used ∙ sym (ap (is_used ns) e) ∙ linked.was_unused)));
          stored = λ i. subst IsStored (sym (linked.node i)) (stored_node i);
        })
    where
      stored_node :
          (i : ℕ)
          → IsStored (
              if parent == i
              then with_entry (inode ns parent) (new_entry name idx)
              else if idx == i
              then new_inode type
              else inode ns i)
      stored_node i = elim (Bool-cases (parent == i)) [
        | inl e ↦ rw e (same_buffer (inode ns parent) (new_entry name idx) (v.stored parent))
        | inr e ↦ rw e (elim (Bool-cases (idx == i)) [
          | inl s ↦ rw s (new_inode-IsStored type)
          | inr s ↦ rw s (v.stored i)
        ])
      ]
