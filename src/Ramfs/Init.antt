-- ===== src/Ramfs/Init.antt =====
-- `ramfs_init` of kernel/kernel/filesystem/ramfs.c.
use veni.Base.{
  ℕ, zero, suc, ◌≡◌, refl, ap, sym, subst, ◌∙◌, true, false, [], ◌∷◌, ◌==◌, if◌then◌else◌, length,
  length-set, arith, inl, inr, Bool-cases, ==→eq, true≢false, replicate,
}
use veni.Ramfs.{Inode, Inodes, inode, zero_inode, max_files, mark_unused, root_inode, ramfs_init}
use veni.Ramfs.Entries.{refs}
use veni.Ramfs.Content.{IsStored}
use veni.Ramfs.Tree.{is_used, links, IsTree, inode-set}

length-mark_unused : (ns : Inodes) → length (mark_unused ns) ≡ length ns
unfolding mark_unused
length-mark_unused [] = refl
length-mark_unused (n ∷ ns) = ap suc (length-mark_unused ns)

inode-mark_unused :
    (ns : Inodes) (i : ℕ) → inode (mark_unused ns) i ≡ record (inode ns i) { used = false }
unfolding mark_unused
inode-mark_unused [] i = refl
inode-mark_unused (n ∷ ns) zero = refl
inode-mark_unused (n ∷ ns) (suc i) = inode-mark_unused ns i

length-ramfs_init : (ns : Inodes) → length (ramfs_init ns) ≡ length ns
unfolding ramfs_init
length-ramfs_init ns = length-set (mark_unused ns) 0 root_inode ∙ length-mark_unused ns

root-IsStored : IsStored root_inode
root-IsStored = record { capacity_in = omega arith; size_in = omega arith; word = omega arith }

unused-IsStored : (n : Inode) → IsStored n → IsStored (record n { used = false })
unused-IsStored n h = record { capacity_in = h.capacity_in; size_in = h.size_in; word = h.word }

module _ (ns : Inodes) (size : length ns ≡ max_files)
    (stored : (i : ℕ) → IsStored (inode ns i)) where
  node :
      (i : ℕ)
      → inode (ramfs_init ns) i
        ≡ (if 0 == i then root_inode else record (inode ns i) { used = false })
  unfolding ramfs_init
  node i =
      inode-set (mark_unused ns) 0 root_inode i (omega (arith, size, length-mark_unused ns))
      ∙ ap (λ n. if 0 == i then root_inode else n) (inode-mark_unused ns i)

  only_root : (i : ℕ) → is_used (ramfs_init ns) i ≡ true → 0 ≡ i
  only_root i u = elim (Bool-cases (0 == i)) [
    | inl e ↦ ==→eq 0 i e
    | inr e ↦ absurd (true≢false (sym u ∙ ap (λ (n : Inode). n.used) (node i) ∙ rw e))
  ]

  no_links : (i t : ℕ) → is_used (ramfs_init ns) i ≡ true → links (ramfs_init ns) i t ≡ 0
  unfolding refs
  no_links i t u =
      subst (λ j. links (ramfs_init ns) j t ≡ 0) (only_root i u)
        (ap (λ (n : Inode). refs n.entries t) (node 0))

  -- `ramfs_init` makes a tree of one directory from any table of 64 inodes whose buffers hold what
  -- they say, as the zeroed static table is.
  pub ramfs_init-IsTree : IsTree (ramfs_init ns)
  ramfs_init-IsTree = record {
    count = size_after;
    root_used = ap (λ (n : Inode). n.used) (node 0);
    root_dir = ap (λ (n : Inode). n.type) (node 0);
    once = λ i t u. omega (arith, no_links i t u);
    apart = λ i j t u w ne. omega (arith, no_links i t u, no_links j t w);
    live = λ i t u one. absurd (omega (arith, no_links i t u));
    stored = λ i. subst IsStored (sym (node i)) (stored_after i);
  }
    where
      size_after : length (ramfs_init ns) ≡ max_files
      size_after = length-ramfs_init ns ∙ size

      stored_after :
          (i : ℕ) → IsStored (if 0 == i then root_inode else record (inode ns i) { used = false })
      stored_after i = elim (Bool-cases (0 == i)) [
        | inl e ↦ rw e root-IsStored
        | inr e ↦ rw e (unused-IsStored (inode ns i) (stored i))
      ]

-- The table as it is before the first use.
pub zero_table-IsStored : (n i : ℕ) → IsStored (inode (replicate n zero_inode) i)
zero_table-IsStored zero i = record {
  capacity_in = omega arith;
  size_in = omega arith;
  word = omega arith;
}
zero_table-IsStored (suc n) zero = record {
  capacity_in = omega arith;
  size_in = omega arith;
  word = omega arith;
}
zero_table-IsStored (suc n) (suc i) = zero_table-IsStored n i
