-- ===== src/CString/Text.antt =====
-- Texts: what a C string holds before its `'\0'`. The file systems are modelled over texts,
-- with the functions here in the place of calls of libc/string.
use Prim.Native.Char.{code}
use Prim.Native.String.{String}
use veni.Base.{
  ℕ, zero, suc, ◌≡◌, ◌≢◌, refl, ap, inl, inr, Bool, true, false, ◌&&◌, Option, none, some, List, [],
  ◌∷◌, ◌++◌, ◌==◌, if◌then◌else◌, arith, Bool-cases, take,
}

abbrev pub Text : Type 0
Text = List ℕ

-- The bytes of a string literal.
abbrev pub of_string : String → Text
of_string String.[] = []
of_string (String.◌∷◌ c s) = code c ∷ of_string s

abbrev pub IsText : Text → Type 0
IsText [] = Unit {0}
IsText (c ∷ t) = (c ≢ 0) × IsText t

-- The array that holds `t`, its end mark and then `r`.
abbrev pub cstr : Text → List ℕ → List ℕ
cstr t r = t ++ 0 ∷ r

abbrev pub slash : ℕ
slash = 47

unfoldable pub text_eq : Text → Text → Bool
text_eq [] [] = true
text_eq [] (d ∷ u) = false
text_eq (c ∷ t) [] = false
text_eq (c ∷ t) (d ∷ u) = c == d && text_eq t u

pub text_eq_refl : (t : Text) → text_eq t t ≡ true
unfolding text_eq
text_eq_refl [] = refl
text_eq_refl (c ∷ t) = ground (arith, text_eq_refl t)

pub text_eq→eq : (t u : Text) → text_eq t u ≡ true → t ≡ u
unfolding text_eq
text_eq→eq [] [] h = refl
text_eq→eq [] (d ∷ u) h = cc
text_eq→eq (c ∷ t) [] h = cc
text_eq→eq (c ∷ t) (d ∷ u) h = ground (arith, text_eq→eq t u)

pub text_eq→ne : (t u : Text) → text_eq t u ≡ false → t ≢ u
text_eq→ne t u h e = cc (text_eq_refl t, ap (text_eq t) e)

pub ne→text_eq : (t u : Text) → t ≢ u → text_eq t u ≡ false
ne→text_eq t u h = elim (Bool-cases (text_eq t u)) [
  | inl e ↦ absurd (h (text_eq→eq t u e))
  | inr e ↦ e
]

-- Does `t` begin with `p`?
unfoldable pub starts_with : (p t : Text) → Bool
starts_with [] t = true
starts_with (c ∷ p) [] = false
starts_with (c ∷ p) (d ∷ t) = c == d && starts_with p t

-- The parts before and after the last slash.
unfoldable pub split_last : Text → Option (Text × Text)
split_last [] = none
split_last (c ∷ t) = elim (split_last t) [
  | some (d, b) ↦ some (c ∷ d, b)
  | none ↦ if c == slash then some ([], t) else none
]

abbrev pub flush : Text → List Text
flush [] = []
flush (c ∷ t) = (c ∷ t) ∷ []

-- The nonempty parts between slashes; `part` is the part that is being read.
unfoldable pub components_from : Text → Text → List Text
components_from part [] = flush part
components_from part (c ∷ t) =
    if c == slash then flush part ++ components_from [] t else components_from (part ++ c ∷ []) t

unfoldable pub components : Text → List Text
unfolding components_from
components t = components_from [] t

pub IsText-take : (n : ℕ) (t : Text) → IsText t → IsText (take n t)
IsText-take zero t h = tt
IsText-take (suc n) [] h = tt
IsText-take (suc n) (c ∷ t) h = (h.0, IsText-take n t h.1)
