-- ===== src/CString/Tokens.antt =====
-- strtok.c, as the file systems call it: over a path, with "/" for the delimiters.
use mathlib.Core.Option
use veni.Base.{
  ℕ, zero, suc, ◌≤◌, ◌<◌, ◌≡◌, ◌≢◌, refl, sym, ap, ◌∙◌, inl, inr, false, Option, none, some, List,
  [], ◌∷◌, ◌++◌, ◌==◌, if◌then◌else◌, length, arith, Bool-cases, ◌>>=◌,
}
use mathlib.Core.List.{append-nil, append_assoc}
use veni.CString.{is_delim, skip_delims, scan_token, end_token, start_token, strtok, strchr_from}
use veni.CString.Text.{Text, IsText, cstr, slash, flush, components_from, components}

-- The array of the literal "/".
abbrev pub slash_delim : List ℕ
slash_delim = cstr (slash ∷ []) []

-- The body of the loop, with `more` the rounds after it.
collect :
    (Option (List ℕ) → Option (List Text)) → Option (List ℕ) × Option (List ℕ) → Option (List Text)
collect more (none, next) = some []
collect more (some token, next) = Option.map (λ ts. token ∷ ts) (more next)

-- The tokens that `token = strtok(temp, "/"); while (token) { …; token = strtok(NULL, "/"); }` goes
-- through, with `fuel` calls allowed.
unfoldable pub tokens : ℕ → (str next : Option (List ℕ)) → Option (List Text)
unfolding strtok collect
tokens zero str next = none
tokens (suc fuel) str next = strtok str slash_delim next >>= collect (tokens fuel none)

is_delim-slash : (c : ℕ) → c ≢ 0 → is_delim slash_delim c ≡ some (c == slash)
unfolding is_delim strchr_from
is_delim-slash c h = ground arith

skip : Text → Text
skip [] = []
skip (c ∷ t) = if c == slash then skip t else c ∷ t

word : Text → Text
word [] = []
word (c ∷ t) = if c == slash then [] else c ∷ word t

after : Text → Text
after [] = []
after (c ∷ t) = if c == slash then c ∷ t else after t

-- The text behind the byte at which a token ended.
beyond : Text → Text
beyond [] = []
beyond (c ∷ t) = t

IsText-skip : (t : Text) → IsText t → IsText (skip t)
unfolding skip
IsText-skip [] h = tt
IsText-skip (c ∷ t) h = elim (Bool-cases (c == slash)) [
  | inl e ↦ rw e (IsText-skip t h.1)
  | inr e ↦ rw e h
]

IsText-after : (t : Text) → IsText t → IsText (after t)
unfolding after
IsText-after [] h = tt
IsText-after (c ∷ t) h = elim (Bool-cases (c == slash)) [
  | inl e ↦ rw e h
  | inr e ↦ rw e (IsText-after t h.1)
]

IsText-beyond : (t : Text) → IsText t → IsText (beyond t)
unfolding beyond
IsText-beyond [] h = tt
IsText-beyond (c ∷ t) h = h.1

length-skip : (t : Text) → length (skip t) ≤ length t
unfolding skip
length-skip [] = omega arith
length-skip (c ∷ t) = ground (arith, length-skip t)

length-after : (t : Text) → length (after t) ≤ length t
unfolding after
length-after [] = omega arith
length-after (c ∷ t) = ground (arith, length-after t)

length-beyond : (t : Text) → length (beyond t) ≤ length t
unfolding beyond
length-beyond [] = omega arith
length-beyond (c ∷ t) = omega arith

skip_delims-skip :
    (t : Text) (r : List ℕ) → IsText t → skip_delims slash_delim (cstr t r) ≡ some (cstr (skip t) r)
unfolding skip_delims skip
skip_delims-skip [] r h = refl
skip_delims-skip (c ∷ t) r h = ground (arith, skip_delims-skip t r h.1, is_delim-slash c h.0, h.0)

scan_token-word :
    (t : Text) (r : List ℕ)
    → IsText t
    → scan_token slash_delim (cstr t r) ≡ some (word t, cstr (after t) r)
unfolding scan_token word after
scan_token-word [] r h = refl
scan_token-word (c ∷ t) r h = ground (arith, scan_token-word t r h.1, is_delim-slash c h.0, h.0)

components_from-skip : (t : Text) → components_from [] t ≡ components_from [] (skip t)
unfolding components_from skip
components_from-skip [] = refl
components_from-skip (c ∷ t) = elim (Bool-cases (c == slash)) [
  | inl e ↦ rw e (components_from-skip t)
  | inr e ↦ ground arith
]

components_from-word :
    (part t : Text)
    → components_from part t ≡ flush (part ++ word t) ++ components_from [] (beyond (after t))
unfolding components_from word after beyond
components_from-word part [] = rw (append-nil, append-nil)
components_from-word part (c ∷ t) = elim (Bool-cases (c == slash)) [
  | inl e ↦ rw (e, append-nil)
  | inr e ↦ rw e (
      components_from-word (part ++ c ∷ []) t
      ∙ ap (λ w. flush w ++ components_from [] (beyond (after t)))
          (append_assoc part (c ∷ []) (word t)))
]

end_token-beyond :
    (token t : Text) (r : List ℕ)
    → IsText t
    → (q : List ℕ) × (end_token (token, cstr t r) ≡ some (some token, some (cstr (beyond t) q)))
unfolding end_token beyond
end_token-beyond token [] r h = (r, refl)
end_token-beyond token (c ∷ t) r h = (r, ground (arith, h.0))

-- The text that `strtok` begins a token with.
abbrev IsStart : Text → Type 0
IsStart [] = Unit {0}
IsStart (c ∷ t) = (c == slash) ≡ false

skip-IsStart : (t : Text) → IsStart (skip t)
unfolding skip
skip-IsStart [] = tt
skip-IsStart (c ∷ t) = elim (Bool-cases (c == slash)) [
  | inl e ↦ rw e (skip-IsStart t)
  | inr e ↦ rw e e
]

word-cons : (c : ℕ) (t : Text) → (c == slash) ≡ false → word (c ∷ t) ≡ c ∷ word t
unfolding word
word-cons c t e = rw e

after-cons : (c : ℕ) (t : Text) → (c == slash) ≡ false → after (c ∷ t) ≡ after t
unfolding after
after-cons c t e = rw e

start_token-cons :
    (c : ℕ) (s : List ℕ)
    → c ≢ 0
    → start_token slash_delim (c ∷ s) ≡ (scan_token slash_delim (c ∷ s) >>= end_token)
unfolding start_token
start_token-cons c s h = ground arith

start_token_end : (r : List ℕ) → start_token slash_delim (0 ∷ r) ≡ some (none, some (0 ∷ r))
unfolding start_token
start_token_end r = refl

-- One call at the start of a token, and the rounds after it.
collect-components :
    (more : Option (List ℕ) → Option (List Text)) (s : Text) (r : List ℕ)
    → IsText s
    → IsStart s
    → ((t : Text) (q : List ℕ)
        → IsText t
        → suc (length t) ≤ length s
        → more (some (cstr t q)) ≡ some (components_from [] t))
    → (start_token slash_delim (cstr s r) >>= collect more) ≡ some (components_from [] s)
unfolding collect
collect-components more [] r h start ih = rw (start_token_end r) (unfold components_from in refl)
collect-components more (c ∷ s) r h start ih =
    step (end_token-beyond (word (c ∷ s)) (after (c ∷ s)) r (IsText-after (c ∷ s) h))
  where
    last_step :
        flush (word (c ∷ s)) ++ components_from [] (beyond (after (c ∷ s)))
        ≡ word (c ∷ s) ∷ components_from [] (beyond (after s))
    last_step = rw (word-cons c s start, after-cons c s start)

    step :
        (q : List ℕ) × (end_token (word (c ∷ s), cstr (after (c ∷ s)) r)
            ≡ some (some (word (c ∷ s)), some (cstr (beyond (after (c ∷ s))) q)))
        → (start_token slash_delim (c ∷ (s ++ 0 ∷ r)) >>= collect more)
          ≡ some (components_from [] (c ∷ s))
    step (q, ended) =
        rw
          (
            start_token-cons c (s ++ 0 ∷ r) h.0,
            scan_token-word (c ∷ s) r h,
            ended,
            after-cons c s start,
            ih (beyond (after s)) q (IsText-beyond (after s) (IsText-after s h.1))
                (omega (arith, length-beyond (after s), length-after s)),
          )
          (ap some (sym (components_from-word [] (c ∷ s) ∙ last_step)))

tokens_next-components :
    (fuel : ℕ) (t : Text) (r : List ℕ)
    → IsText t
    → length t < fuel
    → tokens fuel none (some (cstr t r)) ≡ some (components_from [] t)
unfolding tokens
tokens_next-components zero t r h enough = absurd (omega arith)
tokens_next-components (suc fuel) t r h enough =
    rw (skip_delims-skip t r h, components_from-skip t)
      (collect-components (tokens fuel none) (skip t) r (IsText-skip t h) (skip-IsStart t)
        (λ u q k shorter. tokens_next-components fuel u q k (omega (arith, length-skip t))))

-- Over the string of a path, and with more calls allowed than the path has bytes, the calls of
-- `strtok` return the components of the path in order and then `NULL`.
pub tokens-components :
    (fuel : ℕ) (t : Text) (r : List ℕ) (next : Option (List ℕ))
    → IsText t
    → length t < fuel
    → tokens fuel (some (cstr t r)) next ≡ some (components t)
unfolding tokens components
tokens-components zero t r next h enough = absurd (omega arith)
tokens-components (suc fuel) t r next h enough = tokens_next-components (suc fuel) t r h enough
