-- ===== src/CString/Tests.antt =====
-- libc/string on small inputs, and the theorems at such inputs.
use Prim.Native.Char.{code}
use Prim.Native.String.{String}
use veni.Base.{◌+◌, ◌≡◌, refl, arith, [], ◌∷◌, some, none}
use veni.CString.{strlen, memmove}
use veni.CString.Text.{Text, IsText, cstr, components}
use veni.CString.Compare.{strlen-length}
use veni.CString.Copy.{memmove_lem, moved}
use veni.CString.Search.{has}
use veni.CString.Tokens.{tokens, tokens-components}
use veni.CString.Paths.{join, components-join}

abbrev text : String → Text
text String.[] = []
text (String.◌∷◌ c s) = code c ∷ text s

memmove_overlap : (memmove 1 0 3 (λ i. 10 + i) 3 ≡ 12) × (memmove 0 1 3 (λ i. 10 + i) 0 ≡ 11)
unfolding memmove
memmove_overlap = (refl, refl)

strtok_twice : tokens 9 (some (cstr (text "/ab//c/") [])) none ≡ some (text "ab" ∷ text "c" ∷ [])
unfolding tokens
strtok_twice = refl

name-IsText : IsText (text "ab")
name-IsText = omega arith

path-IsText : IsText (text "a/b")
path-IsText = omega arith

strlen-length_example : strlen (cstr (text "ab") (7 ∷ [])) ≡ some 2
strlen-length_example = strlen-length (text "ab") (7 ∷ []) name-IsText

memmove_lem_example : memmove 1 0 3 (λ i. 10 + i) 3 ≡ moved 1 0 3 (λ i. 10 + i) 3
memmove_lem_example = memmove_lem 1 0 3 (λ i. 10 + i) 3

tokens-components_example :
    tokens 4 (some (cstr (text "a/b") [])) none ≡ some (components (text "a/b"))
tokens-components_example = tokens-components 4 (text "a/b") [] none path-IsText (omega arith)

components-join_example : components (join (text "ab" ∷ text "c" ∷ [])) ≡ text "ab" ∷ text "c" ∷ []
unfolding has
components-join_example =
    components-join (text "ab" ∷ text "c" ∷ []) ((λ e. cc), refl, ((λ e. cc), refl, tt))
