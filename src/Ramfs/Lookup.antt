-- ===== src/Ramfs/Lookup.antt =====
-- What paths lead to after `ramfs_create` and `ramfs_mkdir`.
use veni.Base.{
  ℕ, ◌≡◌, ◌≢◌, refl, ap, sym, subst, ◌∙◌, true, false, Option, none, some, List, [], ◌∷◌, ◌==◌, leb,
  if◌then◌else◌, take, length, arith, inl, inr, Bool-cases, Option-cases, ◌>>=◌, take-all,
  length-take, true≢false, eq→==, ne→==, ==→eq, leb→le, leb→lt,
}
use veni.CString.Text.{Text, flush, components, text_eq, text_eq_refl, ne→text_eq}
use veni.Ramfs.{
  Inode, Inodes, inode, lookup_entry, has_entry, walk, temp_copy, ramfs_find_inode, split_path,
  add_child, create_in, ramfs_create, ramfs_open,
}
use veni.Ramfs.Entries.{refs_of_lookup, lookup_entry-append, lookup_entry-last}
use veni.Ramfs.Tree.{is_used, IsTree}
use veni.Ramfs.Search.{ramfs_find_inode-walk, ramfs_find_inode-split}
use veni.Ramfs.Operations.{ramfs_find_inode-used}
use veni.Ramfs.Change.{AddOutcome, Linked, add_child-AddOutcome, new_entry, with_entry}

-- `ramfs_create` made an inode: where, and with what.
record Created (ns : Inodes) (name : Text) (o : Option ℕ) (type idx : ℕ) (ns' : Inodes)
    : Type 0 where
  parent : ℕ
  found : o ≡ some parent
  is_dir : ((inode ns parent).type == 1) ≡ true
  is_new : has_entry (inode ns parent).entries name ≡ false
  added : add_child ns parent name type ≡ (some idx, ns')

create_in-Created :
    (ns : Inodes) (name : Text) (o : Option ℕ) (idx : ℕ) (ns' : Inodes)
    → create_in ns name o ≡ (some idx, ns')
    → Created ns name o 0 idx ns'
unfolding create_in
create_in-Created ns name none idx ns' h = absurd (failed (ap (λ p. p.0) h))
  where
    failed : none ≢ some idx
    failed e = cc
create_in-Created ns name (some parent) idx ns' h = record {
  parent = parent;
  found = refl;
  is_dir = ground arith;
  is_new = ground arith;
  added = ground arith;
}

-- A name is found again unless it was cut.
cut_name : (name : Text) → text_eq (take 31 name) name ≡ leb (length name) 31
cut_name name = elim (Bool-cases (leb (length name) 31)) [
  | inl short ↦ rw short (rw (take-all 31 name (leb→le _ _ short)) (text_eq_refl name))
  | inr long ↦ rw long (
      ne→text_eq (take 31 name) name
        (λ e. absurd (omega (arith, ap length e, length-take 31 name, leb→lt _ _ long))))
]

bind_some : (o : Option ℕ) → (o >>= λ k. some k) ≡ o
bind_some none = refl
bind_some (some k) = refl

walk_one :
    (ns : Inodes) (parent : ℕ) (name : Text)
    → name ≢ []
    → ((inode ns parent).type == 1) ≡ true
    → walk ns parent (flush name) ≡ lookup_entry (inode ns parent).entries name
unfolding walk
walk_one ns parent [] named is_dir = absurd (named refl)
walk_one ns parent (c ∷ name) named is_dir =
    rw is_dir (bind_some (lookup_entry (inode ns parent).entries (c ∷ name)))

module _ (ns ns' : Inodes) (parent : ℕ) (name : Text) (type idx : ℕ) (v : IsTree ns)
    (linked : Linked ns parent name type idx ns') where
  parent_after : inode ns' parent ≡ with_entry (inode ns parent) (new_entry name idx)
  parent_after = linked.node parent ∙ rw (eq→== parent parent refl)

  other_after :
      (cur : ℕ) → is_used ns cur ≡ true → (parent == cur) ≡ false → inode ns' cur ≡ inode ns cur
  other_after cur u e =
      linked.node cur
      ∙ rw (
        e,
        ne→== idx cur (λ same. true≢false (sym u ∙ ap (is_used ns) (sym same) ∙ linked.was_unused)),
      )

  -- A search that succeeds in a directory in use succeeds as before.
  lookup_after :
      (cur : ℕ) (token : Text) (t : ℕ)
      → is_used ns cur ≡ true
      → lookup_entry (inode ns cur).entries token ≡ some t
      → lookup_entry (inode ns' cur).entries token ≡ some t
  lookup_after cur token t u found = elim (Bool-cases (parent == cur)) [
    | inl e ↦
        ap (λ i. lookup_entry (inode ns' i).entries token) (sym (==→eq parent cur e))
        ∙ ap (λ (n : Inode). lookup_entry n.entries token) parent_after
        ∙ lookup_entry-append (inode ns parent).entries (new_entry name idx) token t
            (ap (λ i. lookup_entry (inode ns i).entries token) (==→eq parent cur e) ∙ found)
    | inr e ↦ ap (λ (n : Inode). lookup_entry n.entries token) (other_after cur u e) ∙ found
  ]

  type_after : (cur : ℕ) → is_used ns cur ≡ true → (inode ns' cur).type ≡ (inode ns cur).type
  type_after cur u = elim (Bool-cases (parent == cur)) [
    | inl e ↦
        subst (λ i. (inode ns' i).type ≡ (inode ns i).type) (==→eq parent cur e)
          (ap (λ (n : Inode). n.type) parent_after)
    | inr e ↦ ap (λ (n : Inode). n.type) (other_after cur u e)
  ]

  pub walk_after :
      (cur : ℕ) (tokens : List Text) (k : ℕ)
      → is_used ns cur ≡ true
      → walk ns cur tokens ≡ some k
      → walk ns' cur tokens ≡ some k
  unfolding walk
  walk_after cur [] k u h = h
  walk_after cur (token ∷ tokens) k u h =
      elim (Option-cases (lookup_entry (inode ns cur).entries token)) [
        | inl nowhere ↦ ground arith
        | inr (t, found) ↦
            let ones = refs_of_lookup (inode ns cur).entries token t found in
            ground (
              arith,
              lookup_after cur token t u found,
              type_after cur u,
              walk_after t tokens k (v.live cur t u ones).0,
            )
      ]

  walk_new :
      has_entry (inode ns parent).entries name ≡ false
      → ((inode ns parent).type == 1) ≡ true
      → name ≢ []
      → walk ns' parent (flush name) ≡ (if leb (length name) 31 then some idx else none)
  walk_new new is_dir named =
      walk_one ns' parent name named (ap (λ (n : Inode). n.type == 1) parent_after ∙ is_dir)
      ∙ ap (λ (n : Inode). lookup_entry n.entries name) parent_after
      ∙ lookup_entry-last (inode ns parent).entries (new_entry name idx) name new
      ∙ ap (λ b. if b then some idx else none) (cut_name name)

-- The two ways in which `ramfs_create` and what follows it are seen from outside.
create-Linked :
    (ns ns' : Inodes) (name : Text) (o : Option ℕ) (idx : ℕ)
    → ((k : ℕ) → o ≡ some k → is_used ns k ≡ true)
    → (c : Created ns name o 0 idx ns') → Linked ns c.parent name 0 idx ns'
create-Linked ns ns' name o idx used c =
    subst (AddOutcome ns c.parent name 0) c.added
      (add_child-AddOutcome ns c.parent name 0 (used c.parent c.found))

module _ (ns ns' : Inodes) (path : Text) (idx : ℕ) (v : IsTree ns)
    (created : ramfs_create ns (some path) ≡ (some idx, ns')) where
  made : Created ns (split_path path).1 (ramfs_find_inode ns (some (split_path path).0)) 0 idx ns'
  unfolding ramfs_create
  made = create_in-Created ns (split_path path).1 _ idx ns' created

  linked : Linked ns made.parent (split_path path).1 0 idx ns'
  linked =
      create-Linked ns ns' (split_path path).1 _ idx
        (λ k e. ramfs_find_inode-used ns (split_path path).0 k v e) made

  -- After a successful `ramfs_create`, `ramfs_open` of every path that led to an inode leads to
  -- the same one.
  pub ramfs_open-ramfs_create_other :
      (other : Text) (k : ℕ)
      → ramfs_open ns (some other) ≡ some k
      → ramfs_open ns' (some other) ≡ some k
  unfolding ramfs_open
  ramfs_open-ramfs_create_other other k h =
      ramfs_find_inode-walk ns' other
      ∙ walk_after ns ns' made.parent (split_path path).1 0 idx v linked 0
          (components (temp_copy other)) k v.root_used (sym (ramfs_find_inode-walk ns other) ∙ h)

  -- After a successful `ramfs_create` of a path with a nonempty last part, `ramfs_open` of that
  -- path returns the inode that was created if the last part has at most 31 bytes; if it is longer,
  -- `ramfs_open` fails.
  pub ramfs_open-ramfs_create :
      (split_path path).1 ≢ []
      → ramfs_open ns' (some path)
        ≡ (if leb (length (split_path path).1) 31 then some idx else none)
  unfolding ramfs_open
  ramfs_open-ramfs_create named =
      ramfs_find_inode-split ns' path
      ∙ ap (λ o. o >>= λ parent. walk ns' parent (flush (split_path path).1)) same_dir
      ∙ walk_new ns ns' made.parent (split_path path).1 0 idx v linked made.is_new made.is_dir named
    where
      same_dir : ramfs_find_inode ns' (some (split_path path).0) ≡ some made.parent
      same_dir =
          unfold ramfs_open in
          ramfs_open-ramfs_create_other (split_path path).0 made.parent made.found
