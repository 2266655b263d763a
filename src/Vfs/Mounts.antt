-- ===== src/Vfs/Mounts.antt =====
-- The mount that `find_mount` of vfs.c chooses, and when a mount covers a path.
use veni.Base.{
  ℕ, ◌<◌, ◌≤◌, ◌≡◌, refl, sym, ap, ap₂, subst, ◌∙◌, Bool, true, false, ◌&&◌, ◌||◌, none, some, List,
  [], ◌∷◌, ◌++◌, ◌==◌, ltb, get_or, drop, length, arith, inl, inr, ◌⊎◌, Bool-cases, true≢false,
  ==→eq, eq→==, ne→==, append_nil, lt→ltb, get_or-drop, get_or-beyond,
}
use veni.CString.Text.{Text, IsText, text_eq, text_eq→eq, starts_with, slash}
use veni.Vfs.{Mount, zero_mount, is_better, find_mount}
use veni.Vfs.Choice.{covers, find_mount-IsChosen, and_left, and_right}

-- When a mount's path covers a path: it is the root of a path that begins with a slash, or the path
-- itself, or the path goes on behind it with a slash.
pub data Covers : (mount path : Text) → Type 0 where
  root : (rest : Text) → Covers (slash ∷ []) (slash ∷ rest)
  whole : (c : ℕ) (t : Text) → Covers (c ∷ t) (c ∷ t)
  below : (c : ℕ) (t rest : Text) → Covers (c ∷ t) ((c ∷ t) ++ slash ∷ rest)

starts_with-append : (p t : Text) → starts_with p t ≡ true → t ≡ p ++ drop (length p) t
unfolding starts_with
starts_with-append [] t e = refl
starts_with-append (c ∷ p) [] e = absurd (true≢false (sym e))
starts_with-append (c ∷ p) (d ∷ t) e =
    ap₂ (λ x y. x ∷ y) (sym (==→eq c d (and_left _ _ e))) (starts_with-append p t (and_right _ _ e))

append-starts_with : (p t : Text) → starts_with p (p ++ t) ≡ true
unfolding starts_with
append-starts_with [] t = refl
append-starts_with (c ∷ p) t = rw (eq→== c c refl) (append-starts_with p t)

starts_with_self : (p : Text) → starts_with p p ≡ true
unfolding starts_with
starts_with_self [] = refl
starts_with_self (c ∷ p) = rw (eq→== c c refl) (starts_with_self p)

get_or-next : (p t : Text) → get_or (p ++ t) (length p) 0 ≡ get_or t 0 0
get_or-next [] t = refl
get_or-next (c ∷ p) t = get_or-next p t

IsText-behind : (p t : Text) → IsText (p ++ t) → IsText t
IsText-behind [] t h = h
IsText-behind (c ∷ p) t h = IsText-behind p t h.1

-- The second half of the tests, for what follows the mount's path.
ends_well : (mount path : Text) (next : ℕ) → Bool
ends_well mount path next =
    (text_eq mount (slash ∷ []) && get_or path 0 0 == slash) || (next == slash || next == 0)

or_false : (a b : Bool) → b ≡ false → (a || b) ≡ true → a ≡ true
or_false true b e f = refl
or_false false b e f = absurd (true≢false (sym f ∙ e))

Covers-of_root :
    (mount path rest : Text)
    → text_eq mount (slash ∷ []) ≡ true
    → path ≡ mount ++ rest
    → Covers mount path
Covers-of_root mount path rest e f =
    let is_root = text_eq→eq mount (slash ∷ []) e in
    subst (λ m. Covers m path) (sym is_root)
      (subst (Covers (slash ∷ [])) (sym (f ∙ ap (λ m. m ++ rest) is_root)) (root rest))

Covers-of_rest :
    (c : ℕ) (t path rest : Text)
    → IsText path
    → path ≡ (c ∷ t) ++ rest
    → ends_well (c ∷ t) path (get_or rest 0 0) ≡ true
    → Covers (c ∷ t) path
unfolding ends_well
Covers-of_rest c t path [] h f e = subst (Covers (c ∷ t)) (sym (f ∙ append_nil (c ∷ t))) (whole c t)
Covers-of_rest c t path (d ∷ rest) h f e = elim (Bool-cases (d == slash)) [
  | inl same ↦
      subst (Covers (c ∷ t)) (sym (f ∙ ap (λ x. (c ∷ t) ++ x ∷ rest) (==→eq d slash same)))
        (below c t rest)
  | inr other ↦
      Covers-of_root (c ∷ t) path (d ∷ rest) (and_left _ _ (or_false _ _ (neither other) e)) f
]
  where
    neither : (d == slash) ≡ false → (d == slash || d == 0) ≡ false
    neither other = rw other (ne→== d 0 (IsText-behind (c ∷ t) (d ∷ rest) (subst IsText f h)).0)

-- The tests, for the path of a mount.
tests : (mount path : Text) → Bool
tests mount path =
    (ltb 0 (length mount) && starts_with mount path)
    && ends_well mount path (get_or path (length mount) 0)

covers-tests : (m : Mount) (path : Text) → covers m path ≡ tests m.mount_path path
unfolding is_better tests ends_well
covers-tests m path = refl

tests→Covers : (mount path : Text) → IsText path → tests mount path ≡ true → Covers mount path
unfolding tests
tests→Covers [] path h e = absurd (true≢false (sym e))
tests→Covers (c ∷ t) path h e =
    Covers-of_rest c t path (drop (length (c ∷ t)) path) h
      (starts_with-append (c ∷ t) path (and_right _ _ (and_left _ _ e)))
      (subst (λ k. ends_well (c ∷ t) path k ≡ true) next (and_right _ _ e))
  where
    next : get_or path (length (c ∷ t)) 0 ≡ get_or (drop (length (c ∷ t)) path) 0 0
    next = ap (λ i. get_or path i 0) (omega arith) ∙ sym (get_or-drop (length (c ∷ t)) 0 path 0)

or_true : (a b : Bool) → b ≡ true → (a || b) ≡ true
or_true true b e = refl
or_true false b e = e

tests_lem :
    (mount path : Text)
    → ltb 0 (length mount) ≡ true
    → starts_with mount path ≡ true
    → (get_or path (length mount) 0 == slash || get_or path (length mount) 0 == 0) ≡ true
    → tests mount path ≡ true
unfolding tests ends_well
tests_lem mount path some_left starts ends =
    rw (some_left, starts, ends)
      (or_true (text_eq mount (slash ∷ []) && get_or path 0 0 == slash) true refl)

at_slash : (k : ℕ) → k ≡ slash → (k == slash || k == 0) ≡ true
at_slash k e = rw e refl

at_end : (k : ℕ) → k ≡ 0 → (k == slash || k == 0) ≡ true
at_end k e = rw e refl

Covers→tests : (mount path : Text) → Covers mount path → tests mount path ≡ true
unfolding tests ends_well starts_with text_eq
Covers→tests _ _ (root rest) = refl
Covers→tests _ _ (whole c t) =
    tests_lem (c ∷ t) (c ∷ t) (lt→ltb 0 (length (c ∷ t)) (omega arith)) (starts_with_self (c ∷ t))
      (at_end _ (get_or-beyond (c ∷ t) (length (c ∷ t)) 0 (omega arith)))
Covers→tests _ _ (below c t rest) =
    tests_lem (c ∷ t) ((c ∷ t) ++ slash ∷ rest) (lt→ltb 0 (length (c ∷ t)) (omega arith))
      (append-starts_with (c ∷ t) (slash ∷ rest)) (at_slash _ (get_or-next (c ∷ t) (slash ∷ rest)))

covers→Covers :
    (m : Mount) (path : Text) → IsText path → covers m path ≡ true → Covers m.mount_path path
covers→Covers m path h e = tests→Covers m.mount_path path h (sym (covers-tests m path) ∙ e)

Covers→covers : (m : Mount) (path : Text) → Covers m.mount_path path → covers m path ≡ true
Covers→covers m path h = covers-tests m path ∙ Covers→tests m.mount_path path h

-- The path of the mount at a place of the table.
abbrev pub path_at : List Mount → ℕ → Text
path_at ms i = (get_or ms i zero_mount).mount_path

-- The choice among the mounts: the first of the longest that cover the path.
pub record IsLongest (ms : List Mount) (path : Text) (i : ℕ) : Type 0 where
  pub in_table : i < length ms
  pub is_cover : Covers (path_at ms i) path
  pub longest :
      (j : ℕ)
      → j < length ms
      → Covers (path_at ms j) path
      → length (path_at ms j) ≤ length (path_at ms i)
  pub earliest :
      (j : ℕ) → j < i → Covers (path_at ms j) path → length (path_at ms j) < length (path_at ms i)

-- No mount covers the path.
abbrev pub Uncovered : List Mount → Text → Type 0
Uncovered ms path = (j : ℕ) → j < length ms → Covers (path_at ms j) path → ⊥

-- `find_mount` of a text returns the first of the longest mounts that cover it, where a mount covers a
-- path if its own path is the path, or is its start and a slash follows, or is the root; it returns
-- `NULL` exactly if no mount covers the path.
pub find_mount-IsLongest :
    (ms : List Mount) (path : Text)
    → IsText path
    → ((find_mount ms path ≡ none) × Uncovered ms path)
      ⊎ ((i : ℕ) × (find_mount ms path ≡ some i) × IsLongest ms path i)
find_mount-IsLongest ms path h = elim (find_mount-IsChosen ms path) [
  | inl (e, none_covers) ↦ inl (
    e,
    λ j lt c. true≢false (sym (Covers→covers (get_or ms j zero_mount) path c) ∙ none_covers j lt),
  )
  | inr (i, e, k) ↦ inr (
    i,
    e,
    record {
      in_table = k.in_table;
      is_cover = covers→Covers (get_or ms i zero_mount) path h k.is_cover;
      longest = λ j lt c. k.longest j lt (Covers→covers (get_or ms j zero_mount) path c);
      earliest = λ j lt c. k.earliest j lt (Covers→covers (get_or ms j zero_mount) path c);
    },
  )
]

Covers-append : (mount path : Text) → Covers mount path → (rest : Text) × (path ≡ mount ++ rest)
Covers-append _ _ (root rest) = (rest, refl)
Covers-append _ _ (whole c t) = ([], sym (append_nil (c ∷ t)))
Covers-append _ _ (below c t rest) = (slash ∷ rest, refl)

-- What follows the path of a mount that covers the path.
pub Covers-drop : (mount path : Text) → Covers mount path → path ≡ mount ++ drop (length mount) path
Covers-drop mount path h =
    let (rest, e) = Covers-append mount path h in
    e ∙ ap (λ r. mount ++ r) (sym (ap (drop (length mount)) e ∙ drop_append mount rest))
  where
    drop_append : (p t : Text) → drop (length p) (p ++ t) ≡ t
    drop_append [] t = refl
    drop_append (c ∷ p) t = drop_append p t
