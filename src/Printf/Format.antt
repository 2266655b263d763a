-- ===== src/Printf/Format.antt =====
-- What a format of printf.c means, piece by piece.
use veni.Base.{
  ℕ, ◌%◌, ◌^◌, ◌≡◌, ◌≢◌, Bool, false, ◌&&◌, ◌||◌, some, List, [], ◌∷◌, ◌++◌, ◌==◌, get_or, drop,
  not, true, true≢false, sym, Bool-cases, inl, inr, ==→ne,
}
use veni.CString.Text.{Text}
use veni.Printf.{percent, Arg, int, string, pointer, size, int_text, size_text, pointer_text}

-- The text behind a percent sign begins with a directive or a percent sign.
abbrev pub is_directive : Text → Bool
is_directive t =
    get_or t 0 0 == percent
    || get_or t 0 0 == 0x63
    || get_or t 0 0 == 0x73
    || get_or t 0 0 == 0x64
    || get_or t 0 0 == 0x70
    || ((get_or t 0 0 == 0x7A) && (get_or (drop 1 t) 0 0 == 0x75))

-- A format and the arguments that it takes, and the text that they stand for: `%c`, `%s`, `%d`, `%p`,
-- `%zu` and `%%`; all from another percent sign on stands for itself.
pub data Renders : (format : Text) → List Arg → (output : Text) → Type 0 where
  ends : (args : List Arg) → Renders [] args []
  plain :
      (c : ℕ) (t : Text) (args : List Arg) (o : Text)
      → c ≢ percent
      → Renders t args o
      → Renders (c ∷ t) args (c ∷ o)
  percents :
      (t : Text) (args : List Arg) (o : Text)
      → Renders t args o
      → Renders (percent ∷ (percent ∷ t)) args (percent ∷ o)
  char :
      (t : Text) (n : ℕ) (args : List Arg) (o : Text)
      → Renders t args o
      → Renders (percent ∷ (0x63 ∷ t)) (int n ∷ args) ((n % 2 ^ 8) ∷ o)
  text :
      (t : Text) (s : Text) (args : List Arg) (o : Text)
      → Renders t args o
      → Renders (percent ∷ (0x73 ∷ t)) (string s ∷ args) (s ++ o)
  number :
      (t : Text) (n : ℕ) (s : Text) (args : List Arg) (o : Text)
      → int_text n ≡ some s
      → Renders t args o
      → Renders (percent ∷ (0x64 ∷ t)) (int n ∷ args) (s ++ o)
  address :
      (t : Text) (p : ℕ) (args : List Arg) (o : Text)
      → Renders t args o
      → Renders (percent ∷ (0x70 ∷ t)) (pointer p ∷ args) (pointer_text p ++ o)
  count :
      (t : Text) (n : ℕ) (s : Text) (args : List Arg) (o : Text)
      → size_text n ≡ some s
      → Renders t args o
      → Renders (percent ∷ (0x7A ∷ (0x75 ∷ t))) (size n ∷ args) (s ++ o)
  unknown :
      (t : Text) (args : List Arg)
      → is_directive t ≡ false
      → Renders (percent ∷ t) args (percent ∷ t)

-- No byte is a percent sign.
abbrev pub no_percent : Text → Bool
no_percent [] = true
no_percent (c ∷ p) = not (c == percent) && no_percent p

-- Text without a percent sign stands for itself.
pub plain_run :
    (p t : Text) (args : List Arg) (o : Text)
    → no_percent p ≡ true
    → Renders t args o
    → Renders (p ++ t) args (p ++ o)
plain_run [] t args o h r = r
plain_run (c ∷ p) t args o h r = elim (Bool-cases (c == percent)) [
  | inl same ↦ absurd (true≢false (sym (rw same at h)))
  | inr other ↦
      plain c (p ++ t) args (p ++ o) (==→ne c percent other)
        (plain_run p t args o (rw other at h) r)
]
