-- ===== src/Ramfs/Drops.antt =====
-- What removes an entry of ramfs.c and frees its inode keeps the table a tree.
use veni.Base.{
  ℕ, ◌+◌, ◌≤◌, ◌<◌, ◌≡◌, ◌≢◌, refl, ap, sym, subst, ◌∙◌, true, false, ◌==◌, if◌then◌else◌, get_or,
  length, arith, inl, inr, Bool-cases, ==→eq, ne→==,
}
use veni.Ramfs.{Inode, Inodes, inode, zero_dirent, remove_entry}
use veni.Ramfs.Entries.{refs, refs-remove_entry}
use veni.Ramfs.File.{buffer}
use veni.Ramfs.Content.{IsStored}
use veni.Ramfs.Tree.{is_used, links, IsTree}
use veni.Ramfs.Change.{Dropped, without_entry, cut_at-keeps}

same_content :
    (m n : Inode)
    → m.bytes ≡ n.bytes
    → m.size ≡ n.size
    → m.capacity ≡ n.capacity
    → IsStored n
    → IsStored m
same_content m n bytes size capacity h = record {
  capacity_in = omega (arith, h.capacity_in, capacity, ap (λ o. length (buffer o)) bytes);
  size_in = omega (arith, h.size_in, size, capacity);
  word = omega (arith, h.word, capacity);
}

-- Removing the one entry that refers to an inode, and freeing that inode, keeps the tree.
module _ (ns ns' : Inodes) (parent k idx : ℕ) (v : IsTree ns) (dir_used : is_used ns parent ≡ true)
    (dropped : Dropped ns parent k idx ns') (inside : k < length (inode ns parent).entries)
    (target : (get_or (inode ns parent).entries k zero_dirent).inode_idx ≡ idx) where
  pub dropped-used : (j : ℕ) → is_used ns' j ≡ (if idx == j then false else is_used ns j)
  dropped-used j = ap (λ (n : Inode). n.used) (dropped.node j)

  cut_links :
      (t : ℕ)
      → links ns parent t
        ≡ refs (remove_entry (inode ns parent).entries k) t + (if idx == t then 1 else 0)
  cut_links t =
      refs-remove_entry (inode ns parent).entries k t inside
      ∙ ap (λ x. refs (remove_entry (inode ns parent).entries k) t + (if x == t then 1 else 0))
          target

  pub dropped-links :
      (j t : ℕ)
      → links ns j t ≡ links ns' j t + (if parent == j then if idx == t then 1 else 0 else 0)
  dropped-links j t = elim (Bool-cases (parent == j)) [
    | inl e ↦ rw e (
        ap (λ i. links ns i t) (sym (==→eq parent j e))
        ∙ cut_links t
        ∙ ap (λ x. x + (if idx == t then 1 else 0)) (sym (now_cut e)))
    | inr e ↦ rw e (omega (arith, now_same e))
  ]
    where
      now_links :
          links ns' j t
          ≡ refs (if parent == j then without_entry (inode ns parent) k else inode ns j).entries t
      now_links = ap (λ (n : Inode). refs n.entries t) (dropped.node j)

      now_cut :
          (parent == j) ≡ true → links ns' j t ≡ refs (remove_entry (inode ns parent).entries k) t
      now_cut e = now_links ∙ rw e

      now_same : (parent == j) ≡ false → links ns' j t ≡ links ns j t
      now_same e = now_links ∙ rw e

  linked_once : 1 ≤ links ns parent idx
  linked_once = ground (arith, cut_links idx)

  target_not_root : idx ≢ 0
  target_not_root = (v.live parent idx dir_used linked_once).1

  -- No directory that is still used refers to the inode that went.
  pub none_left : (j : ℕ) → is_used ns' j ≡ true → links ns' j idx ≡ 0
  none_left j u = ground (
    arith,
    dropped-used j,
    dropped-links j idx,
    linked_once,
    v.once parent idx dir_used,
    v.apart j parent idx,
    v.once j idx,
  )

  pub Dropped-IsTree : IsTree ns'
  Dropped-IsTree = record {
    count = dropped.same_length ∙ v.count;
    root_used = dropped-used 0 ∙ rw (ne→== idx 0 target_not_root) v.root_used;
    root_dir =
        ap (λ (n : Inode). n.type) (dropped.node 0)
        ∙ cut_at-keeps ns parent k (λ (n : Inode). n.type) 0 refl
        ∙ v.root_dir;
    once = λ i t u. ground (arith, dropped-used i, dropped-links i t, v.once i t);
    apart = λ i j t u w ne. ground (
      arith,
      dropped-used i,
      dropped-links i t,
      dropped-used j,
      dropped-links j t,
      v.apart i j t,
    );
    live = live_after;
    stored = λ i. subst IsStored (sym (dropped.node i)) (
        same_content _ (inode ns i) (cut_at-keeps ns parent k (λ (n : Inode). n.bytes) i refl)
          (cut_at-keeps ns parent k (λ (n : Inode). n.size) i refl)
          (cut_at-keeps ns parent k (λ (n : Inode). n.capacity) i refl) (v.stored i));
  }
    where
      live_after :
          (i t : ℕ) → is_used ns' i ≡ true → 1 ≤ links ns' i t → (is_used ns' t ≡ true) × (t ≢ 0)
      live_after i t u one = elim (Bool-cases (idx == t)) [
        | inl e ↦ absurd (omega (arith, none_left i u, ap (links ns' i) (==→eq idx t e)))
        | inr ne ↦
            let old =
              v.live i t (ground (arith, dropped-used i)) (ground (arith, dropped-links i t)) in
            (dropped-used t ∙ rw ne old.0, old.1)
      ]
