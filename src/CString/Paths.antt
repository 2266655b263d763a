-- ===== src/CString/Paths.antt =====
-- The components of a path that is put together from parts.
use veni.Base.{
  ◌≡◌, ◌≢◌, refl, sym, ap, ap₂, ◌∙◌, inl, inr, false, List, [], ◌∷◌, ◌++◌, ◌==◌, arith, Bool-cases,
}
use mathlib.Core.List.{append-nil, append_assoc}
use veni.CString.Text.{Text, slash, flush, components_from, components}
use veni.CString.Search.{has}

components_from-append :
    (part t u : Text)
    → components_from part (t ++ slash ∷ u) ≡ components_from part t ++ components_from [] u
unfolding components_from
components_from-append part [] u = refl
components_from-append part (c ∷ t) u = elim (Bool-cases (c == slash)) [
  | inl e ↦
      rw (e, components_from-append [] t u)
        (sym (append_assoc (flush part) (components_from [] t) (components_from [] u)))
  | inr e ↦ rw e (components_from-append (part ++ c ∷ []) t u)
]

-- A part with no slash is read to its end.
components_from-part :
    (part t u : Text)
    → has slash t ≡ false
    → components_from part (t ++ u) ≡ components_from (part ++ t) u
unfolding components_from has
components_from-part part [] u h = rw append-nil
components_from-part part (c ∷ t) u h = elim (Bool-cases (c == slash)) [
  | inl e ↦ ground arith
  | inr e ↦ rw e (
      components_from-part (part ++ c ∷ []) t u (ground arith)
      ∙ ap (λ w. components_from w u) (append_assoc part (c ∷ []) t))
]

pub components_nil : components [] ≡ []
unfolding components components_from
components_nil = refl

-- The last component follows those of the directory.
pub components-last :
    (d b : Text) → has slash b ≡ false → components (d ++ slash ∷ b) ≡ components d ++ flush b
unfolding components components_from
components-last d b h =
    components_from-append [] d b
    ∙ ap (λ l. components_from [] d ++ l)
        (ap (components_from []) (sym (append-nil b)) ∙ components_from-part [] b [] h)

-- A path without a slash is one component.
pub components_of_name : (b : Text) → has slash b ≡ false → components b ≡ flush b
unfolding components components_from
components_of_name b h =
    ap (components_from []) (sym (append-nil b)) ∙ components_from-part [] b [] h

abbrev pub AreNames : List Text → Type 0
AreNames [] = Unit {0}
AreNames (c ∷ cs) = (c ≢ []) × (has slash c ≡ false) × AreNames cs

-- "/a/b/c" from its components.
unfoldable pub join : List Text → Text
join [] = []
join (c ∷ cs) = slash ∷ (c ++ join cs)

components_from-join :
    (part : Text) (cs : List Text)
    → components_from part (join cs) ≡ flush part ++ components_from [] (join cs)
unfolding join components_from
components_from-join part [] = sym (append-nil (flush part))
components_from-join part (c ∷ cs) = refl

flush_name : (c : Text) → c ≢ [] → flush c ≡ c ∷ []
flush_name [] h = absurd (h refl)
flush_name (x ∷ c) h = refl

components_from_nil : components_from [] [] ≡ []
unfolding components_from
components_from_nil = refl

components_from-cons :
    (c t : Text) → components_from [] (slash ∷ (c ++ t)) ≡ components_from [] (c ++ t)
unfolding components_from
components_from-cons c t = refl

-- The components of a path that is joined from names are those names.
pub components-join : (cs : List Text) → AreNames cs → components (join cs) ≡ cs
unfolding components join
components-join [] h = components_from_nil
components-join (c ∷ cs) h = joined ∙ ap₂ ◌++◌ (flush_name c h.0) (components-join cs h.2)
  where
    joined : components_from [] (slash ∷ (c ++ join cs)) ≡ flush c ++ components_from [] (join cs)
    joined =
        components_from-cons c (join cs)
        ∙ components_from-part [] c (join cs) h.1
        ∙ components_from-join c cs
