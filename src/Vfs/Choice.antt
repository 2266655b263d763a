-- ===== src/Vfs/Choice.antt =====
-- The mount that the tests of `find_mount` of vfs.c choose.
use veni.Base.{
  ℕ, zero, suc, ◌+◌, ◌<◌, ◌≤◌, ◌≡◌, refl, sym, ap, ◌∙◌, Bool, true, false, ◌&&◌, Option, none, some,
  List, [], ◌∷◌, ltb, get_or, length, arith, inl, inr, ◌⊎◌, Bool-cases, ltb→lt, ltb→le, true≢false,
}
use veni.CString.Text.{Text}
use veni.Vfs.{Mount, zero_mount, is_better, find_from, find_mount}

-- The tests on a mount, without the one for the best length so far.
abbrev pub covers : Mount → Text → Bool
covers m path = is_better m path 0

abbrev pub size_at : List Mount → ℕ → ℕ
size_at ms i = length (get_or ms i zero_mount).mount_path

-- The choice among the mounts: the first of the longest that cover the path.
pub record IsChosen (ms : List Mount) (path : Text) (i : ℕ) : Type 0 where
  pub in_table : i < length ms
  pub is_cover : covers (get_or ms i zero_mount) path ≡ true
  pub longest :
      (j : ℕ)
      → j < length ms
      → covers (get_or ms j zero_mount) path ≡ true
      → size_at ms j ≤ size_at ms i
  pub earliest :
      (j : ℕ) → j < i → covers (get_or ms j zero_mount) path ≡ true → size_at ms j < size_at ms i

is_better-covers :
    (m : Mount) (path : Text) (n : ℕ)
    → is_better m path n ≡ (ltb n (length m.mount_path) && covers m path)
unfolding is_better
is_better-covers m path n = ground arith

pub and_left : (a b : Bool) → (a && b) ≡ true → a ≡ true
and_left true b e = refl
and_left false b e = e

pub and_right : (a b : Bool) → (a && b) ≡ true → b ≡ true
and_right true b e = e
and_right false b e = absurd (true≢false (sym e))

and_false : (a b : Bool) → (a && b) ≡ false → b ≡ true → a ≡ false
and_false true b e f = absurd (true≢false (sym f ∙ e))
and_false false b e f = refl

cons-IsChosen :
    (m : Mount) (ms : List Mount) (path : Text) (k : ℕ)
    → (covers m path ≡ true → length m.mount_path < size_at ms k)
    → IsChosen ms path k
    → IsChosen (m ∷ ms) path (suc k)
cons-IsChosen m ms path k shorter h = record {
  in_table = omega (arith, h.in_table);
  is_cover = h.is_cover;
  longest = longest;
  earliest = earliest;
}
  where
    longest :
        (j : ℕ)
        → j < length (m ∷ ms)
        → covers (get_or (m ∷ ms) j zero_mount) path ≡ true
        → size_at (m ∷ ms) j ≤ size_at ms k
    longest zero lt c = omega (arith, shorter c)
    longest (suc j) lt c = h.longest j (omega arith) c

    earliest :
        (j : ℕ)
        → j < suc k
        → covers (get_or (m ∷ ms) j zero_mount) path ≡ true
        → size_at (m ∷ ms) j < size_at ms k
    earliest zero lt c = shorter c
    earliest (suc j) lt c = h.earliest j (omega arith) c

head-IsChosen :
    (m : Mount) (ms : List Mount) (path : Text)
    → covers m path ≡ true
    → ((j : ℕ)
        → j < length ms
        → covers (get_or ms j zero_mount) path ≡ true
        → size_at ms j ≤ length m.mount_path)
    → IsChosen (m ∷ ms) path 0
head-IsChosen m ms path c others = record {
  in_table = omega arith;
  is_cover = c;
  longest = longest;
  earliest = λ j lt _. absurd (omega arith);
}
  where
    longest :
        (j : ℕ)
        → j < length (m ∷ ms)
        → covers (get_or (m ∷ ms) j zero_mount) path ≡ true
        → size_at (m ∷ ms) j ≤ length m.mount_path
    longest zero lt _ = omega arith
    longest (suc j) lt d = others j (omega arith) d

-- None of the mounts that cover the path has a longer path than `n`.
abbrev NoneLonger : List Mount → Text → ℕ → Type 0
NoneLonger ms path n =
    (j : ℕ) → j < length ms → covers (get_or ms j zero_mount) path ≡ true → size_at ms j ≤ n

-- What becomes of the best mount so far: it stays, or a longer one at `i + k` takes its place.
abbrev Chosen : List Mount → Text → (i : ℕ) (best : Option ℕ) (n : ℕ) → Option ℕ → Type 0
Chosen ms path i best n r =
    ((r ≡ best) × NoneLonger ms path n)
    ⊎ ((k : ℕ) × (r ≡ some (i + k)) × (n < size_at ms k) × IsChosen ms path k)

module _ (m : Mount) (ms : List Mount) (path : Text) (i : ℕ) (best : Option ℕ) (n : ℕ) where
  taken-Chosen :
      {r : Option ℕ}
      → n < length m.mount_path
      → covers m path ≡ true
      → Chosen ms path (i + 1) (some i) (length m.mount_path) r
      → Chosen (m ∷ ms) path i best n r
  taken-Chosen longer c (inl (e, others)) =
      inr (0, e ∙ ap some (omega arith), longer, head-IsChosen m ms path c others)
  taken-Chosen longer c (inr (k, e, more, h)) = inr (
    suc k,
    e ∙ ap some (omega arith),
    omega (arith, longer, more),
    cons-IsChosen m ms path k (λ _. more) h,
  )

  passed-Chosen :
      {r : Option ℕ}
      → (covers m path ≡ true → length m.mount_path ≤ n)
      → Chosen ms path (i + 1) best n r
      → Chosen (m ∷ ms) path i best n r
  passed-Chosen shorter (inl (e, others)) = inl (e, all)
    where
      all : NoneLonger (m ∷ ms) path n
      all zero lt c = shorter c
      all (suc j) lt c = others j (omega arith) c
  passed-Chosen shorter (inr (k, e, more, h)) = inr (
    suc k,
    e ∙ ap some (omega arith),
    more,
    cons-IsChosen m ms path k (λ c. omega (arith, shorter c, more)) h,
  )

find_from-Chosen :
    (ms : List Mount) (path : Text) (i : ℕ) (best : Option ℕ) (n : ℕ)
    → Chosen ms path i best n (find_from ms path i best n)
unfolding find_from
find_from-Chosen [] path i best n = inl (refl, λ j lt _. absurd (omega arith))
find_from-Chosen (m ∷ ms) path i best n = elim (Bool-cases (is_better m path n)) [
  | inl better ↦
      let e = sym (is_better-covers m path n) ∙ better in
      rw better (
        taken-Chosen m ms path i best n (ltb→lt _ _ (and_left _ _ e)) (and_right _ _ e)
          (find_from-Chosen ms path (i + 1) (some i) (length m.mount_path)))
  | inr worse ↦ rw worse (
      passed-Chosen m ms path i best n
        (λ c. ltb→le _ _ (and_false _ _ (sym (is_better-covers m path n) ∙ worse) c))
        (find_from-Chosen ms path (i + 1) best n))
]

covers-size : (m : Mount) (path : Text) → covers m path ≡ true → 0 < length m.mount_path
covers-size m path c = ltb→lt _ _ (and_left _ (covers m path) (sym (is_better-covers m path 0) ∙ c))

-- The choice in terms of the tests.
pub find_mount-IsChosen :
    (ms : List Mount) (path : Text)
    → ((find_mount ms path ≡ none)
        × ((j : ℕ) → j < length ms → covers (get_or ms j zero_mount) path ≡ false))
      ⊎ ((i : ℕ) × (find_mount ms path ≡ some i) × IsChosen ms path i)
unfolding find_mount
find_mount-IsChosen ms path =
    by_choice (find_from ms path 0 none 0) refl (find_from-Chosen ms path 0 none 0)
  where
    uncovered :
        (j : ℕ)
        → (covers (get_or ms j zero_mount) path ≡ true → size_at ms j ≤ 0)
        → covers (get_or ms j zero_mount) path ≡ false
    uncovered j short = elim (Bool-cases (covers (get_or ms j zero_mount) path)) [
      | inl c ↦ absurd (omega (arith, short c, covers-size (get_or ms j zero_mount) path c))
      | inr not_covered ↦ not_covered
    ]

    by_choice :
        (r : Option ℕ)
        → find_from ms path 0 none 0 ≡ r
        → Chosen ms path 0 none 0 r
        → ((find_from ms path 0 none 0 ≡ none)
            × ((j : ℕ) → j < length ms → covers (get_or ms j zero_mount) path ≡ false))
          ⊎ ((i : ℕ) × (find_from ms path 0 none 0 ≡ some i) × IsChosen ms path i)
    by_choice r e (inl (f, none_longer)) = inl (e ∙ f, λ j lt. uncovered j (none_longer j lt))
    by_choice r e (inr (k, f, _, h)) = inr (k, e ∙ f ∙ ap some (omega arith), h)
