-- ===== src/Ramfs/Entries.antt =====
-- The entries of a directory of ramfs.c: searching, adding at the end, removing.
use veni.Base.{
  ℕ, zero, suc, ◌+◌, ◌≤◌, ◌<◌, ◌≡◌, refl, true, false, none, some, List, [], ◌∷◌, ◌++◌, ◌==◌,
  if◌then◌else◌, get_or, length, arith, inl, inr, Option-cases,
}
use veni.CString.Text.{Text, text_eq}
use veni.Ramfs.{Dirent, zero_dirent, lookup_entry, entry_position, has_entry, remove_entry}

-- How many entries refer to the inode `t`.
unfoldable pub refs : List Dirent → ℕ → ℕ
refs [] t = 0
refs (e ∷ es) t = refs es t + (if e.inode_idx == t then 1 else 0)

pub refs-append :
    (es : List Dirent) (e : Dirent) (t : ℕ)
    → refs (es ++ e ∷ []) t ≡ refs es t + (if e.inode_idx == t then 1 else 0)
unfolding refs
refs-append [] e t = refl
refs-append (d ∷ es) e t = omega (arith, refs-append es e t)

pub refs-remove_entry :
    (es : List Dirent) (k t : ℕ)
    → k < length es
    → refs es t
      ≡ refs (remove_entry es k) t + (if (get_or es k zero_dirent).inode_idx == t then 1 else 0)
unfolding refs remove_entry
refs-remove_entry [] k t h = absurd (omega arith)
refs-remove_entry (e ∷ es) zero t h = refl
refs-remove_entry (e ∷ es) (suc k) t h = omega (arith, refs-remove_entry es k t (omega arith))

pub refs_of_lookup :
    (es : List Dirent) (name : Text) (t : ℕ) → lookup_entry es name ≡ some t → 1 ≤ refs es t
unfolding lookup_entry refs
refs_of_lookup [] name t h = cc
refs_of_lookup (e ∷ es) name t h = ground (arith, refs_of_lookup es name t)

-- An entry that was found is still the first of its name when another follows.
pub lookup_entry-append :
    (es : List Dirent) (e : Dirent) (name : Text) (t : ℕ)
    → lookup_entry es name ≡ some t
    → lookup_entry (es ++ e ∷ []) name ≡ some t
unfolding lookup_entry
lookup_entry-append [] e name t h = cc
lookup_entry-append (d ∷ es) e name t h = ground (arith, lookup_entry-append es e name t)

pub lookup_entry-last :
    (es : List Dirent) (e : Dirent) (name : Text)
    → has_entry es name ≡ false
    → lookup_entry (es ++ e ∷ []) name ≡ (if text_eq e.name name then some e.inode_idx else none)
unfolding lookup_entry has_entry
lookup_entry-last [] e name h = refl
lookup_entry-last (d ∷ es) e name h = ground (arith, lookup_entry-last es e name)

-- The two searches stop at one entry, and `has_entry` says whether there is one.
pub entry_position-lookup :
    (es : List Dirent) (name : Text) (k : ℕ)
    → entry_position es name ≡ some k
    → (k < length es)
      × (lookup_entry es name ≡ some (get_or es k zero_dirent).inode_idx)
      × (text_eq (get_or es k zero_dirent).name name ≡ true)
unfolding entry_position lookup_entry
entry_position-lookup [] name k h = cc
entry_position-lookup (e ∷ es) name zero h = elim (Option-cases (entry_position es name)) [
  | inl nowhere ↦ ground arith
  | inr (j, found) ↦ ground arith
]
entry_position-lookup (e ∷ es) name (suc k) h = elim (Option-cases (entry_position es name)) [
  | inl nowhere ↦ ground arith
  | inr (j, found) ↦ ground (arith, entry_position-lookup es name k)
]
