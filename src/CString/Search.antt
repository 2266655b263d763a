-- ===== src/CString/Search.antt =====
-- strchr.c and strrchr.c.
use mathlib.Core.Option
use veni.Base.{
  ℕ, zero, suc, ◌+◌, ◌≡◌, ◌≢◌, refl, ap, ◌∙◌, inl, inr, Bool, true, false, Option, none, some, List,
  [], ◌∷◌, ◌++◌, ◌==◌, if◌then◌else◌, length, arith, take, Option-cases, get_elem?,
}
use veni.CString.{strchr, strchr_from, strrchr, strrchr_from}
use veni.CString.Text.{Text, IsText, cstr, slash, split_last}

-- Where the byte `c` first stands in a text.
unfoldable pub index_of : ℕ → Text → Option ℕ
index_of c [] = none
index_of c (x ∷ t) = if x == c then some 0 else Option.map suc (index_of c t)

unfoldable pub has : ℕ → Text → Bool
has c [] = false
has c (x ∷ t) = if x == c then true else has c t

-- `index_of` is the first place of `c`, and there is none exactly if the text does not hold `c`.
pub index_of-first :
    (c : ℕ) (t : Text) (i : ℕ)
    → index_of c t ≡ some i
    → (get_elem? t i ≡ some c) × (has c (take i t) ≡ false)
unfolding index_of has
index_of-first c [] i h = cc
index_of-first c (x ∷ t) zero h = elim (Option-cases (index_of c t)) [
  | inl nowhere ↦ ground arith
  | inr (j, found) ↦ ground arith
]
index_of-first c (x ∷ t) (suc i) h = elim (Option-cases (index_of c t)) [
  | inl nowhere ↦ ground arith
  | inr (j, found) ↦ ground (arith, index_of-first c t i)
]

zero_add : (n : ℕ) → 0 + n ≡ n
zero_add n = omega arith

map_zero-add : (o : Option ℕ) → Option.map (λ k. 0 + k) o ≡ o
map_zero-add none = refl
map_zero-add (some k) = ap some (omega arith)

strchr_from_lem :
    (t : Text) (r : List ℕ) (c i : ℕ)
    → IsText t
    → c ≢ 0
    → strchr_from (cstr t r) c i ≡ some (Option.map (λ k. i + k) (index_of c t))
unfolding strchr_from index_of
strchr_from_lem [] r c i h k = ground arith
strchr_from_lem (x ∷ t) r c i h k = elim (Option-cases (index_of c t)) [
  | inl nowhere ↦ ground (arith, strchr_from_lem t r c (i + 1) h.1 k, h.0)
  | inr (j, found) ↦ ground (arith, strchr_from_lem t r c (i + 1) h.1 k, h.0)
]

-- `strchr` of a byte other than 0 finds its first place in the text, or returns `NULL`.
pub strchr-index_of :
    (t : Text) (r : List ℕ) (c : ℕ) → IsText t → c ≢ 0 → strchr (cstr t r) c ≡ some (index_of c t)
unfolding strchr
strchr-index_of t r c h k = strchr_from_lem t r c 0 h k ∙ ap some (map_zero-add (index_of c t))

strchr_from_end :
    (t : Text) (r : List ℕ) (i : ℕ)
    → IsText t
    → strchr_from (cstr t r) 0 i ≡ some (some (i + length t))
unfolding strchr_from
strchr_from_end [] r i h = ground arith
strchr_from_end (x ∷ t) r i h = ground (arith, strchr_from_end t r (i + 1) h.1, h.0)

-- `strchr` of the byte 0 finds the end of the text.
pub strchr_end : (t : Text) (r : List ℕ) → IsText t → strchr (cstr t r) 0 ≡ some (some (length t))
unfolding strchr
strchr_end t r h = strchr_from_end t r 0 h ∙ ap (λ k. some (some k)) (zero_add (length t))

abbrev last_from : ℕ → Option ℕ → Option (Text × Text) → Option ℕ
last_from i found none = found
last_from i found (some (d, b)) = some (i + length d)

strrchr_from_lem :
    (t : Text) (r : List ℕ) (i : ℕ) (found : Option ℕ)
    → IsText t
    → strrchr_from (cstr t r) slash i found ≡ some (last_from i found (split_last t))
unfolding strrchr_from split_last
strrchr_from_lem [] r i found h = refl
strrchr_from_lem (x ∷ t) r i found h = elim (Option-cases (split_last t)) [
  | inl e ↦
      ground (arith, strrchr_from_lem t r (i + 1) (if x == slash then some i else found) h.1, h.0)
  | inr ((d, b), e) ↦
      ground (arith, strrchr_from_lem t r (i + 1) (if x == slash then some i else found) h.1, h.0)
]

last_from-map : (o : Option (Text × Text)) → last_from 0 none o ≡ Option.map (λ p. length p.0) o
last_from-map none = refl
last_from-map (some (d, b)) = ap some (zero_add (length d))

-- `strrchr(s, '/')` is the place where `split_last` cuts the text, and `NULL` if it does not cut.
pub strrchr-split_last :
    (t : Text) (r : List ℕ)
    → IsText t
    → strrchr (cstr t r) slash ≡ some (Option.map (λ p. length p.0) (split_last t))
unfolding strrchr
strrchr-split_last t r h = strrchr_from_lem t r 0 none h ∙ ap some (last_from-map (split_last t))

pub split_last-none : (t : Text) → split_last t ≡ none → has slash t ≡ false
unfolding split_last has
split_last-none [] h = refl
split_last-none (x ∷ t) h = elim (Option-cases (split_last t)) [
  | inl e ↦ ground (arith, split_last-none t e)
  | inr ((d', b'), e) ↦ ground arith
]

-- What `split_last` returns: the two parts with a slash between them, and no slash in the second;
-- if it returns nothing, the text has no slash.
pub split_last-parts :
    (t d b : Text) → split_last t ≡ some (d, b) → (t ≡ d ++ slash ∷ b) × (has slash b ≡ false)
unfolding split_last has
split_last-parts [] d b h = cc
split_last-parts (x ∷ t) d b h = elim (Option-cases (split_last t)) [
  | inl e ↦ ground (arith, split_last-none t e)
  | inr ((d', b'), e) ↦ ground (arith, split_last-parts t d' b' e)
]
