-- ===== src/Vfs/Unmount.antt =====
-- `vfs_unmount` of vfs.c after `vfs_mount`.
use veni.Base.{
  ℕ, zero, suc, ◌<◌, ◌≤◌, ◌≡◌, ◌≢◌, refl, sym, ap, ap₂, ◌∙◌, Bool, true, false, ◌&&◌, ◌||◌, some,
  List, [], ◌∷◌, ◌++◌, ◌==◌, ltb, get_or, get_or-beyond, length, length-append, take, take-all,
  arith, inl, inr, Bool-cases, ==→eq, eq→==, lt→ltb, lt→leb, ltb→lt, ltb→le, true≢false,
}
use veni.CString.Text.{Text, text_eq, text_eq_refl, starts_with, slash}
use veni.Vfs.{
  Mount, Vfs, zero_mount, is_better, find_mount, remove_mount, unmount_found, vfs_unmount, mount_at,
  vfs_mount,
}
use veni.Vfs.Choice.{covers, IsChosen, find_mount-IsChosen, and_left, and_right}

get_or-append_front :
    (ms : List Mount) (m : Mount) (i : ℕ)
    → i < length ms
    → get_or (ms ++ m ∷ []) i zero_mount ≡ get_or ms i zero_mount
get_or-append_front [] m i lt = absurd (omega arith)
get_or-append_front (n ∷ ms) m zero lt = refl
get_or-append_front (n ∷ ms) m (suc i) lt = get_or-append_front ms m i (omega arith)

get_or-append_last :
    (ms : List Mount) (m : Mount) → get_or (ms ++ m ∷ []) (length ms) zero_mount ≡ m
get_or-append_last [] m = refl
get_or-append_last (n ∷ ms) m = get_or-append_last ms m

remove_mount-append : (ms : List Mount) (m : Mount) → remove_mount (ms ++ m ∷ []) (length ms) ≡ ms
unfolding remove_mount
remove_mount-append [] m = refl
remove_mount-append (n ∷ ms) m = ap (λ ns. n ∷ ns) (remove_mount-append ms m)

starts_with_refl : (t : Text) → starts_with t t ≡ true
unfolding starts_with
starts_with_refl [] = refl
starts_with_refl (c ∷ t) = rw (eq→== c c refl, starts_with_refl t) refl

-- A start of a text that is as long as the text is the text.
starts_with-whole : (p t : Text) → starts_with p t ≡ true → length t ≤ length p → p ≡ t
unfolding starts_with
starts_with-whole [] [] e h = refl
starts_with-whole [] (d ∷ t) e h = absurd (omega arith)
starts_with-whole (c ∷ p) [] e h = absurd (true≢false (sym e))
starts_with-whole (c ∷ p) (d ∷ t) e h =
    ap₂ (λ x y. x ∷ y) (==→eq c d (and_left _ _ e))
      (starts_with-whole p t (and_right _ _ e) (omega arith))

pub covers-starts_with :
    (m : Mount) (path : Text) → covers m path ≡ true → starts_with m.mount_path path ≡ true
unfolding is_better
covers-starts_with m path c = and_right _ _ (and_left _ _ c)

or_true : (b : Bool) → (b || true) ≡ true
or_true true = refl
or_true false = refl

-- A mount covers its own path.
covers_self :
    (m : Mount) (path : Text) → m.mount_path ≡ path → 0 < length path → covers m path ≡ true
unfolding is_better
covers_self m path e some_left =
    rw
      (
        e,
        lt→ltb 0 (length path) some_left,
        starts_with_refl path,
        get_or-beyond path (length path) 0 (omega arith),
      )
      (or_true (text_eq path (slash ∷ []) && get_or path 0 0 == slash))

module _ (ms : List Mount) (m : Mount) (path : Text) (named : m.mount_path ≡ path)
    (some_left : 0 < length path)
    (fresh : (j : ℕ) → j < length ms → (get_or ms j zero_mount).mount_path ≢ path) where
  last_found : find_mount (ms ++ m ∷ []) path ≡ some (length ms)
  last_found = elim (find_mount-IsChosen (ms ++ m ∷ []) path) [
    | inl (_, none_covers) ↦ absurd (
        true≢false (
          sym (covers_self m path named some_left)
          ∙ ap (λ n. covers n path) (sym (get_or-append_last ms m))
          ∙ none_covers (length ms) (omega (arith, length-append ms (m ∷ [])))))
    | inr (i, e, h) ↦ e ∙ ap some (is_last i h)
  ]
    where
      self_covers : covers (get_or (ms ++ m ∷ []) (length ms) zero_mount) path ≡ true
      self_covers =
          ap (λ n. covers n path) (get_or-append_last ms m) ∙ covers_self m path named some_left

      whole :
          (i : ℕ)
          → IsChosen (ms ++ m ∷ []) path i
          → (get_or (ms ++ m ∷ []) i zero_mount).mount_path ≡ path
      whole i h = starts_with-whole _ path (covers-starts_with _ path h.is_cover) (
          omega (
            arith,
            h.longest (length ms) (omega (arith, length-append ms (m ∷ []))) self_covers,
            ap (λ n. length n.mount_path) (get_or-append_last ms m),
            ap length named,
          ))

      is_last : (i : ℕ) → IsChosen (ms ++ m ∷ []) path i → i ≡ length ms
      is_last i h = elim (Bool-cases (ltb i (length ms))) [
        | inl front ↦ absurd (
            fresh i (ltb→lt _ _ front) (
              ap (λ n. n.mount_path) (sym (get_or-append_front ms m i (ltb→lt _ _ front)))
              ∙ whole i h))
        | inr last ↦ omega (arith, ltb→le _ _ last, h.in_table, length-append ms (m ∷ []))
      ]

-- With a node from the heap and less than 16 mounts, `vfs_mount` at a path of 1 to 255 bytes that
-- no mount has succeeds, and `vfs_unmount` of the path then restores the state.
pub vfs_unmount-vfs_mount :
    (v : Vfs) (root fs : ℕ) (path : Text)
    → length v.mounts < 16
    → 0 < length path
    → length path ≤ 255
    → ((j : ℕ) → j < length v.mounts → (get_or v.mounts j zero_mount).mount_path ≢ path)
    → ((vfs_mount v (some root) fs path).0 ≡ true)
      × (vfs_unmount (vfs_mount v (some root) fs path).1 path ≡ (true, v))
unfolding vfs_unmount vfs_mount mount_at unmount_found
vfs_unmount-vfs_mount v root fs path room some_left short fresh =
    rw (lt→leb 16 (length v.mounts) room) (
      refl,
      rw
          (
            last_found v.mounts m path named some_left fresh,
            get_or-append_last v.mounts m,
            named,
            text_eq_refl path,
          )
          (ap (λ ms. (true, record v { mounts = ms }))
            (remove_mount-append v.mounts (record m { mount_path = path }))),
    )
  where
    m : Mount
    m = record { mount_path = take 255 path; node = root; fs = fs }

    named : take 255 path ≡ path
    named = take-all 255 path short
