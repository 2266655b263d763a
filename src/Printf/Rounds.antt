-- ===== src/Printf/Rounds.antt =====
-- The loop of printf.c ends: every round that goes on leaves a shorter format.
use veni.Base.{
  ℕ, zero, suc, ◌<◌, ◌≤◌, ◌≡◌, refl, sym, Bool, true, false, ◌&&◌, Option, none, some, List, [],
  ◌∷◌, ◌==◌, if◌then◌else◌, ltb, get_or, drop, length, length-drop, arith, inl, inr, Bool-cases,
  true≢false,
}
use veni.CString.Text.{Text}
use veni.Printf.{
  percent, Arg, int, string, pointer, size, int_text, size_text, Printing, Round, goes_on, returns,
  faults, prints_checked, maxrem, minus_one, plain_length, literal, print_digits, print_unchecked,
  print_char, print_string, print_int, print_pointer, print_size, directive, round, rounds,
}

-- A round that goes on leaves less than `k` bytes of the format.
abbrev Leaves : (k : ℕ) → Round → Type 0
Leaves k (goes_on s) = length s.format < k
Leaves k (returns result output) = true ≡ true
Leaves k faults = true ≡ true

Leaves-if :
    (k : ℕ) (b : Bool) (r r' : Round) → Leaves k r → Leaves k r' → Leaves k (if b then r else r')
Leaves-if k true r r' h h' = h
Leaves-if k false r r' h h' = h'

checked-Leaves :
    (k : ℕ) (s : Printing) (u format : Text) (args : List Arg)
    → length format < k
    → Leaves k (prints_checked s u format args)
checked-Leaves k s u format args lt =
    Leaves-if k (ltb (maxrem s) (length u)) (returns minus_one s.output) _ refl lt

digits-Leaves :
    (k : ℕ) (s : Printing) (format : Text) (args : List Arg) (o : Option Text)
    → length format < k
    → Leaves k (print_digits s format args o) × Leaves k (print_unchecked s format args o)
unfolding print_digits print_unchecked
digits-Leaves k s format args none lt = (refl, refl)
digits-Leaves k s format args (some u) lt = (checked-Leaves k s u format args lt, lt)

module _ (k : ℕ) (s : Printing) (format : Text) (lt : length format < k) where
  char-Leaves : (args : List Arg) → Leaves k (print_char s format args)
  unfolding print_char
  char-Leaves [] = refl
  char-Leaves (int c ∷ args) = Leaves-if k (maxrem s == 0) (returns minus_one s.output) _ refl lt
  char-Leaves (string u ∷ args) = refl
  char-Leaves (pointer p ∷ args) = refl
  char-Leaves (size n ∷ args) = refl

  string-Leaves : (args : List Arg) → Leaves k (print_string s format args)
  unfolding print_string
  string-Leaves [] = refl
  string-Leaves (int c ∷ args) = refl
  string-Leaves (string u ∷ args) = checked-Leaves k s u format args lt
  string-Leaves (pointer p ∷ args) = refl
  string-Leaves (size n ∷ args) = refl

  int-Leaves : (args : List Arg) → Leaves k (print_int s format args)
  unfolding print_int
  int-Leaves [] = refl
  int-Leaves (int c ∷ args) = (digits-Leaves k s format args (int_text c) lt).0
  int-Leaves (string u ∷ args) = refl
  int-Leaves (pointer p ∷ args) = refl
  int-Leaves (size n ∷ args) = refl

  pointer-Leaves : (args : List Arg) → Leaves k (print_pointer s format args)
  unfolding print_pointer
  pointer-Leaves [] = refl
  pointer-Leaves (int c ∷ args) = refl
  pointer-Leaves (string u ∷ args) = refl
  pointer-Leaves (pointer p ∷ args) = lt
  pointer-Leaves (size n ∷ args) = refl

  size-Leaves : (args : List Arg) → Leaves k (print_size s format args)
  unfolding print_size
  size-Leaves [] = refl
  size-Leaves (int c ∷ args) = refl
  size-Leaves (string u ∷ args) = refl
  size-Leaves (pointer p ∷ args) = refl
  size-Leaves (size n ∷ args) = (digits-Leaves k s format args (size_text n) lt).1

directive-Leaves :
    (k : ℕ) (s : Printing) (raw : Text) (d : ℕ) (rest : Text)
    → length rest < k
    → Leaves k (directive s raw d rest)
unfolding directive
directive-Leaves k s raw d rest lt =
    Leaves-if k (d == 0x63) _ _ (char-Leaves k s rest lt s.arguments) (
      Leaves-if k (d == 0x73) _ _ (string-Leaves k s rest lt s.arguments) (
        Leaves-if k (d == 0x64) _ _ (int-Leaves k s rest lt s.arguments) (
          Leaves-if k (d == 0x70) _ _ (pointer-Leaves k s rest lt s.arguments) (
            Leaves-if k ((d == 0x7A) && (get_or rest 0 0 == 0x75)) _ _
              (size-Leaves k s (drop 1 rest) (omega (arith, length-drop 1 rest)) s.arguments)
              (checked-Leaves k s raw [] s.arguments (omega arith))))))

literal-Leaves :
    (k : ℕ) (s : Printing) (u : Text) → 0 < length u → length u ≤ k → Leaves k (literal s u)
unfolding literal
literal-Leaves k s u some_byte le =
    checked-Leaves k s _ (drop (suc (plain_length (drop 1 u))) u) s.arguments
      (omega (arith, length-drop (suc (plain_length (drop 1 u))) u))

first_byte : (t : Text) → (get_or t 0 0 == percent) ≡ true → 0 < length t
first_byte [] e = absurd (true≢false (sym e))
first_byte (c ∷ t) e = omega arith

round-Leaves : (s : Printing) (format : Text) → Leaves (length format) (round s format)
unfolding round
round-Leaves s [] = refl
round-Leaves s (c ∷ t) = elim (Bool-cases (c == percent)) [
  | inr other ↦ rw other (literal-Leaves (suc (length t)) s (c ∷ t) (omega arith) (omega arith))
  | inl same ↦ elim (Bool-cases (get_or t 0 0 == percent)) [
    | inl twice ↦
        rw (same, twice) (literal-Leaves (suc (length t)) s t (first_byte t twice) (omega arith))
    | inr once ↦
        rw (same, once)
          (directive-Leaves (suc (length t)) s (c ∷ t) (get_or t 0 0) (drop 1 t)
            (omega (arith, length-drop 1 t)))
  ]
]

-- The loop from a state comes to an end: after some rounds that go on, one returns or faults, with the
-- result of the loop.
pub data Ends : Printing → Option (ℕ × Text) → Type 0 where
  at_return :
      (s : Printing) (result : ℕ) (output : Text)
      → round s s.format ≡ returns result output
      → Ends s (some (result, output))
  at_fault : (s : Printing) → round s s.format ≡ faults → Ends s none
  later :
      (s s' : Printing) (r : Option (ℕ × Text))
      → round s s.format ≡ goes_on s'
      → Ends s' r
      → Ends s r

-- The loop of `printf` comes to an end, by a round that returns or faults, within one round more than
-- the format has bytes, and however many more are allowed; the result is that of its last round,
-- whatever the format, the arguments and the text printed before.
pub rounds-Ends : (n : ℕ) (s : Printing) → length s.format < n → Ends s (rounds n s)
unfolding rounds
rounds-Ends zero s lt = absurd (omega arith)
rounds-Ends (suc n) s lt =
    by_round (λ s' h. rounds-Ends n s' (omega arith)) (round s s.format) refl
      (round-Leaves s s.format)
  where
    by_round :
        ((s' : Printing) → length s'.format < length s.format → Ends s' (rounds n s'))
        → (r : Round) → round s s.format ≡ r
        → Leaves (length s.format) r
        → Ends s (elim r [
          | goes_on s' ↦ rounds n s'
          | returns result output ↦ some (result, output)
          | faults ↦ none
        ])
    by_round ih (goes_on s') e h = later s s' _ e (ih s' h)
    by_round ih (returns result output) e h = at_return s result output e
    by_round ih faults e h = at_fault s e
