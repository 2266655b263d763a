-- ===== src/Printf/Render.antt =====
-- `printf` of printf.c as an implementation of what a format means.
use veni.Base.{
  ℕ, zero, suc, ◌+◌, ◌-◌, ◌%◌, ◌^◌, ◌<◌, ◌≤◌, ◌≡◌, refl, sym, ap, subst, ◌∙◌, Bool, true, false,
  ◌&&◌, ◌||◌, Option, none, some, List, [], ◌∷◌, ◌++◌, ◌==◌, get_or, take, drop, length,
  length-append, length-drop, append_assoc, append_nil, arith, le→ltb, ne→==, true≢false,
}
use veni.CString.Text.{Text}
use veni.Printf.Format.{
  is_directive, Renders, ends, plain, percents, char, text, number, address, count, unknown,
}
use veni.Printf.{
  percent, int_max, Arg, int, string, size, int_text, size_text, pointer_text, Printing, Round,
  goes_on, returns, faults, maxrem, prints, prints_checked, plain_length, literal, print_digits,
  print_unchecked, print_char, print_string, print_int, print_pointer, print_size, directive, round,
  rounds, printf, puts,
}

-- A run of text up to the next percent sign stands for itself.
Split : Text → List Arg → Text → Type 0
Split t args o =
    (o' : Text) × (o ≡ take (plain_length t) t ++ o') × Renders (drop (plain_length t) t) args o'

split : (t : Text) (args : List Arg) (o : Text) → Renders t args o → Split t args o
unfolding Split plain_length
split _ _ _ (ends args) = ([], refl, ends args)
split _ _ _ (plain c t args o ne r) =
    let (o', e, r') = split t args o r in rw (ne→== c percent ne) (o', ap (λ u. c ∷ u) e, r')
split _ _ _ (percents t args o r) = (percent ∷ o, refl, percents t args o r)
split _ _ _ (char t n args o r) = ((n % 2 ^ 8) ∷ o, refl, char t n args o r)
split _ _ _ (text t s args o r) = (s ++ o, refl, text t s args o r)
split _ _ _ (number t n s args o e r) = (s ++ o, refl, number t n s args o e r)
split _ _ _ (address t p args o r) = (pointer_text p ++ o, refl, address t p args o r)
split _ _ _ (count t n s args o e r) = (s ++ o, refl, count t n s args o e r)
split _ _ _ (unknown t args e) = (percent ∷ t, refl, unknown t args e)

-- What is left to print, from any round on.
Goal : (n : ℕ) → Text → List Arg → Text → Type 0
Goal n format args o =
    (w : ℕ) (out : Text)
    → w ≡ length out
    → w + length o ≤ int_max
    → rounds n (record { format = format; arguments = args; written = w; output = out })
      ≡ some (length (out ++ o), out ++ o)

-- After a piece of text.
after :
    (n : ℕ) (format : Text) (args : List Arg) (piece o : Text) (w : ℕ) (out : Text)
    → Goal n format args o
    → w ≡ length out
    → w + length (piece ++ o) ≤ int_max
    → rounds n (record {
      format = format;
      arguments = args;
      written = (w + length piece) % 2 ^ 32;
      output = out ++ piece;
    })
      ≡ some (length (out ++ (piece ++ o)), out ++ (piece ++ o))
unfolding Goal
after n format args piece o w out goal e le =
    goal ((w + length piece) % 2 ^ 32) (out ++ piece)
      (omega (arith, length-append out piece, length-append piece o))
      (omega (arith, length-append piece o))
    ∙ ap (λ u. some (length u, u)) (append_assoc out piece o)

fits :
    (s : Printing) (piece o : Text) (format : Text) (args : List Arg)
    → s.written + length (piece ++ o) ≤ int_max
    → prints_checked s piece format args ≡ prints s piece format args
fits s piece o format args le =
    rw (le→ltb (maxrem s) (length piece) (omega (arith, length-append piece o))) refl

or_false : (a b : Bool) → (a || b) ≡ false → (a ≡ false) × (b ≡ false)
or_false false b e = (refl, e)
or_false true b e = absurd (true≢false e)

-- What the tests of the loop say where there is no directive.
none_of :
    (t : Text)
    → is_directive t ≡ false
    → ((get_or t 0 0 == percent) ≡ false)
      × ((get_or t 0 0 == 0x63) ≡ false)
      × ((get_or t 0 0 == 0x73) ≡ false)
      × ((get_or t 0 0 == 0x64) ≡ false)
      × ((get_or t 0 0 == 0x70) ≡ false)
      × (((get_or t 0 0 == 0x7A) && (get_or (drop 1 t) 0 0 == 0x75)) ≡ false)
none_of t e =
    let (e₁, z) = or_false _ _ e in
    let (e₂, x) = or_false _ _ e₁ in
    let (e₃, d) = or_false _ _ e₂ in
    let (e₄, s) = or_false _ _ e₃ in let (p, c) = or_false _ _ e₄ in (p, c, s, d, x, z)

print_int-prints :
    (s : Printing) (format : Text) (k : ℕ) (args : List Arg) (u : Text)
    → int_text k ≡ some u
    → print_int s format (int k ∷ args) ≡ prints_checked s u format args
unfolding print_int print_digits
print_int-prints s format k args u f = ap (print_digits s format args) f

print_size-prints :
    (s : Printing) (format : Text) (k : ℕ) (args : List Arg) (u : Text)
    → size_text k ≡ some u
    → print_size s format (size k ∷ args) ≡ prints s u format args
unfolding print_size print_unchecked
print_size-prints s format k args u f = ap (print_unchecked s format args) f

-- The rounds after one whose outcome is known.
abbrev next : (n : ℕ) → Round → Option (ℕ × Text)
next n (goes_on s) = rounds n s
next n (returns result output) = some (result, output)
next n faults = none

rounds-next : (n : ℕ) (s : Printing) → rounds (suc n) s ≡ next n (round s s.format)
unfolding rounds
rounds-next n s = refl

module _ (n : ℕ)
    (later : (format : Text) (args : List Arg) (o : Text)
      → length format < n
      → Renders format args o
      → Goal n format args o) where
  checked :
      (s : Printing) (piece o : Text) (format : Text) (args : List Arg)
      → length format < n
      → Renders format args o
      → s.written ≡ length s.output
      → s.written + length (piece ++ o) ≤ int_max
      → next n (prints_checked s piece format args)
        ≡ some (length (s.output ++ (piece ++ o)), s.output ++ (piece ++ o))
  checked s piece o format args short r e le =
      rw (fits s piece o format args le)
        (after n format args piece o s.written s.output (later format args o short r) e le)

  literal-goes :
      (s : Printing) (c : ℕ) (t o : Text)
      → length t < n
      → Renders t s.arguments o
      → s.written ≡ length s.output
      → s.written + length (c ∷ o) ≤ int_max
      → next n (literal s (c ∷ t)) ≡ some (length (s.output ++ (c ∷ o)), s.output ++ (c ∷ o))
  unfolding literal Split
  literal-goes s c t o short r e le =
      let (o', same, r') = split t s.arguments o r in
      rw same (
        checked s (c ∷ take (plain_length t) t) o' (drop (plain_length t) t) s.arguments
          (omega (arith, length-drop (plain_length t) t)) r' e
          (subst (λ u. s.written + length (c ∷ u) ≤ int_max) same le))

  one_round :
      (format : Text) (args : List Arg) (o : Text)
      → length format ≤ n
      → Renders format args o
      → Goal (suc n) format args o
  unfolding Goal rounds round directive print_char print_string print_int print_pointer print_size
  one_round _ _ _ short (ends args) w out e le =
      ap (λ u. some (w, u)) (sym (append_nil out))
      ∙ ap (λ k. some (k, out ++ [])) (e ∙ ap length (sym (append_nil out)))
  one_round _ _ _ short (plain c t args o ne r) w out e le =
      rounds-next n (record { format = c ∷ t; arguments = args; written = w; output = out })
      ∙ rw (ne→== c percent ne) (
          literal-goes (record { format = c ∷ t; arguments = args; written = w; output = out }) c t
            o (omega arith) r e le)
  one_round _ _ _ short (percents t args o r) w out e le =
      literal-goes
        (record { format = percent ∷ (percent ∷ t); arguments = args; written = w; output = out })
        percent t o (omega arith) r e le
  one_round _ _ _ short (char t k args o r) w out e le =
      rounds-next n (record {
        format = percent ∷ (0x63 ∷ t);
        arguments = int k ∷ args;
        written = w;
        output = out;
      })
      ∙ rw (ne→== ((int_max + 2 ^ 32 - w) % 2 ^ 32) 0 (omega arith))
          (after n t args ((k % 2 ^ 8) ∷ []) o w out (later t args o (omega arith) r) e le)
  one_round _ _ _ short (text t s args o r) w out e le =
      checked
        (record {
          format = percent ∷ (0x73 ∷ t);
          arguments = string s ∷ args;
          written = w;
          output = out;
        })
        s o t args (omega arith) r e le
  one_round _ _ _ short (number t k s args o f r) w out e le =
      rounds-next n (record {
        format = percent ∷ (0x64 ∷ t);
        arguments = int k ∷ args;
        written = w;
        output = out;
      })
      ∙ ap (next n) (
          print_int-prints
            (record {
              format = percent ∷ (0x64 ∷ t);
              arguments = int k ∷ args;
              written = w;
              output = out;
            })
            t k args s f)
      ∙ checked
          (record {
            format = percent ∷ (0x64 ∷ t);
            arguments = int k ∷ args;
            written = w;
            output = out;
          })
          s o t args (omega arith) r e le
  one_round _ _ _ short (address t p args o r) w out e le =
      after n t args (pointer_text p) o w out (later t args o (omega arith) r) e le
  one_round _ _ _ short (count t k s args o f r) w out e le =
      rounds-next n (record {
        format = percent ∷ (0x7A ∷ (0x75 ∷ t));
        arguments = size k ∷ args;
        written = w;
        output = out;
      })
      ∙ ap (next n) (
          print_size-prints
            (record {
              format = percent ∷ (0x7A ∷ (0x75 ∷ t));
              arguments = size k ∷ args;
              written = w;
              output = out;
            })
            t k args s f)
      ∙ after n t args s o w out (later t args o (omega arith) r) e le
  one_round _ _ _ short (unknown t args f) w out e le =
      let (no_percent, no_c, no_s, no_d, no_p, no_zu) = none_of t f in
      rounds-next n (record { format = percent ∷ t; arguments = args; written = w; output = out })
      ∙ rw (no_percent, no_c, no_s, no_d, no_p, no_zu)
          (subst
            (λ u.
              next n (
                prints_checked
                  (record { format = percent ∷ t; arguments = args; written = w; output = out })
                  (percent ∷ t) [] args)
              ≡ some (length (out ++ (percent ∷ u)), out ++ (percent ∷ u)))
            (append_nil t)
            (checked (record { format = percent ∷ t; arguments = args; written = w; output = out })
              (percent ∷ t) [] [] args (omega arith) (ends args) e
              (subst (λ u. w + length (percent ∷ u) ≤ int_max) (sym (append_nil t)) le)))

by_length :
    (n : ℕ) (format : Text) (args : List Arg) (o : Text)
    → length format < n
    → Renders format args o
    → Goal n format args o
by_length zero format args o short r = absurd (omega arith)
by_length (suc n) format args o short r = one_round n (by_length n) format args o (omega arith) r

-- `printf` of a format with the arguments that it takes ends within the rounds that are given, prints
-- the text that they stand for, and returns its length, if that is at most `INT_MAX`.
pub printf-Renders :
    (format : Text) (args : List Arg) (o : Text)
    → Renders format args o
    → length o ≤ int_max
    → printf format args ≡ some (length o, o)
unfolding printf Goal
printf-Renders format args o r le =
    by_length (length format + 1) format args o (omega arith) r 0 [] refl (omega arith)

-- `puts` prints its text and a line feed.
pub puts_lem : (t : Text) → length t < int_max → puts t ≡ some (length t + 1, t ++ 0x0A ∷ [])
unfolding puts
puts_lem t le =
    printf-Renders _ _ (t ++ 0x0A ∷ [])
      (text (0x0A ∷ []) t [] (0x0A ∷ []) (plain 0x0A [] [] [] (λ e. omega arith) (ends [])))
      (omega (arith, length-append t (0x0A ∷ [])))
    ∙ ap (λ k. some (k, t ++ 0x0A ∷ [])) (length-append t (0x0A ∷ []))
