-- ===== src/Ramfs/Tree.antt =====
-- The invariant of the inode table of ramfs.c: a tree of directories below inode 0.
use veni.Base.{
  ℕ, suc, ◌+◌, ◌≤◌, ◌<◌, ◌≡◌, ◌≢◌, refl, ap, sym, subst, ◌∙◌, Bool, true, false, none, some, List,
  [], ◌∷◌, ◌++◌, ◌==◌, if◌then◌else◌, set, length, arith, inl, inr, Bool-cases, Option-cases,
  get_or-set_self, get_or-set_ne, get_or-beyond, ==→eq, ==→ne, true≢false, ◌>>=◌, ltb, ltb→le,
}
use veni.CString.Text.{Text}
use veni.Ramfs.{
  Inode, Inodes, inode, zero_inode, fresh_inode, max_files, lookup_entry, walk, unused_from,
  alloc_inode,
}
use veni.Ramfs.Entries.{refs, refs_of_lookup}
use veni.Ramfs.Content.{IsStored}

abbrev pub is_used : Inodes → ℕ → Bool
is_used ns i = (inode ns i).used

-- How often the directory `i` refers to the inode `t`.
abbrev pub links : Inodes → ℕ → ℕ → ℕ
links ns i t = refs (inode ns i).entries t

-- No used directory refers to an inode that is not used, nor to the root; at most one entry of all
-- used directories refers to an inode; and every file's content is in its buffer.
pub record IsTree (ns : Inodes) : Type 0 where
  pub count : length ns ≡ max_files
  pub root_used : is_used ns 0 ≡ true
  pub root_dir : (inode ns 0).type ≡ 1
  pub once : (i t : ℕ) → is_used ns i ≡ true → links ns i t ≤ 1
  pub apart :
      (i j t : ℕ)
      → is_used ns i ≡ true
      → is_used ns j ≡ true
      → i ≢ j
      → links ns i t + links ns j t ≤ 1
  pub live : (i t : ℕ) → is_used ns i ≡ true → 1 ≤ links ns i t → (is_used ns t ≡ true) × (t ≢ 0)
  pub stored : (i : ℕ) → IsStored (inode ns i)

pub inode-set :
    (ns : Inodes) (i : ℕ) (n : Inode) (j : ℕ)
    → i < length ns
    → inode (set ns i n) j ≡ (if i == j then n else inode ns j)
inode-set ns i n j h = elim (Bool-cases (i == j)) [
  | inl e ↦
      rw e
        (subst (λ k. inode (set ns i n) k ≡ n) (==→eq i j e) (get_or-set_self ns i n zero_inode h))
  | inr e ↦ rw e (get_or-set_ne ns i j n zero_inode (==→ne i j e))
]

-- A used inode is in the table.
pub used-lt : (ns : Inodes) (i : ℕ) → is_used ns i ≡ true → i < length ns
used-lt ns i u = elim (Bool-cases (ltb i (length ns))) [
  | inl e ↦ ground arith
  | inr e ↦ absurd (
      true≢false
        (sym u ∙ ap (λ (n : Inode). n.used) (get_or-beyond ns i zero_inode (ltb→le _ _ e))))
]

-- Walking from a used inode ends at a used inode.
pub walk-used :
    (ns : Inodes) (cur : ℕ) (tokens : List Text) (k : ℕ)
    → IsTree ns
    → is_used ns cur ≡ true
    → walk ns cur tokens ≡ some k
    → is_used ns k ≡ true
unfolding walk
walk-used ns cur [] k v u h = ground arith
walk-used ns cur (token ∷ tokens) k v u h =
    elim (Option-cases (lookup_entry (inode ns cur).entries token)) [
      | inl nowhere ↦ ground arith
      | inr (t, found) ↦
          let ones = refs_of_lookup (inode ns cur).entries token t found in
          walk-used ns t tokens k v (v.live cur t u ones).0 (ground arith)
    ]

pub walk-append :
    (ns : Inodes) (cur : ℕ) (ts us : List Text)
    → walk ns cur (ts ++ us) ≡ (walk ns cur ts >>= λ k. walk ns k us)
unfolding walk
walk-append ns cur [] us = refl
walk-append ns cur (t ∷ ts) us = elim (Option-cases (lookup_entry (inode ns cur).entries t)) [
  | inl nowhere ↦ ground arith
  | inr (i, found) ↦ ground (arith, walk-append ns i ts us)
]

none≢some {ℓ} : {A : Type ℓ} {a : A} → none ≡ some a → ⊥
none≢some e = cc

unused_from-lem :
    (ns : Inodes) (i k : ℕ)
    → unused_from ns i ≡ some k
    → (j : ℕ) × (k ≡ i + j) × (j < length ns) × (is_used ns j ≡ false)
unfolding unused_from
unused_from-lem [] i k h = absurd (none≢some h)
unused_from-lem (n ∷ ns) i k h = elim (Bool-cases n.used) [
  | inl u ↦
      let (j, e, inside, free) = unused_from-lem ns (i + 1) k (ground arith) in
      (suc j, omega arith, omega arith, free)
  | inr free ↦ (0, ground arith, omega arith, free)
]

alloc_index :
    (ns ns' : Inodes) (i k : ℕ) → alloc_inode ns ≡ some (i, ns') → unused_from ns 0 ≡ some k → i ≡ k
unfolding alloc_inode
alloc_index ns ns' i k h found = ground arith

-- `alloc_inode` takes a slot that is not used.
pub alloc_inode-unused :
    (ns ns' : Inodes) (i : ℕ)
    → alloc_inode ns ≡ some (i, ns')
    → (i < length ns) × (is_used ns i ≡ false) × (ns' ≡ set ns i fresh_inode)
unfolding alloc_inode
alloc_inode-unused ns ns' i h = elim (Option-cases (unused_from ns 0)) [
  | inl full ↦ ground arith
  | inr (k, found) ↦
      let (j, e, inside, free) = unused_from-lem ns 0 k found in
      let here : j ≡ i = omega (arith, alloc_index ns ns' i k h found) in
      (omega (arith, here), ap (is_used ns) (sym here) ∙ free, ground arith)
]
