-- ===== src/Printf/Tests.antt =====
-- printf.c on small formats, and the theorems at them.
use veni.Base.{◌-◌, ◌≤◌, ◌^◌, ◌≡◌, refl, none, some, [], ◌∷◌, arith, length}
use veni.CString.Text.{Text, of_string}
use veni.Printf.{
  int, string, pointer, size, int_text, size_text, put_digits, put_nibbles, pointer_text, Printing,
  plain_length, literal, print_digits, print_unchecked, print_char, print_string, print_int,
  print_pointer, print_size, directive, round, rounds, printf,
}
use veni.Printf.Digits.{read_int, signed, read_int-int_text}
use veni.Printf.Format.{ends, plain, percents, number}
use veni.Printf.Render.{printf-Renders}
use veni.Printf.Rounds.{Ends, rounds-Ends}

lines :
    (printf (of_string "%c=%d%%") (int 0x178 ∷ (int 42 ∷ [])) ≡ some (5, of_string "x=42%"))
    × (printf (of_string "%s at %p") (string (of_string "pool") ∷ (pointer 0xBEEF ∷ []))
        ≡ some (18, of_string "pool at 0x0000beef"))
    × (printf (of_string "%zu%x %d") (size 7 ∷ []) ≡ some (6, of_string "7%x %d"))
    × (printf (of_string "%d") (int (2 ^ 32 - 15) ∷ []) ≡ some (3, of_string "-15"))
    × (printf (of_string "%d") [] ≡ none)
unfolding printf rounds round literal directive print_char print_string print_int print_pointer
    print_size print_digits print_unchecked plain_length int_text size_text put_digits pointer_text
    put_nibbles
lines = (refl, refl, refl, refl, refl)

-- The number without a positive counterpart.
lowest : int_text (2 ^ 31) ≡ some (of_string "-(")
unfolding int_text put_digits
lowest = refl

answer : int_text 42 ≡ some (of_string "42")
unfolding int_text put_digits
answer = refl

printf-Renders_example : printf (of_string "n=%d%%") (int 42 ∷ []) ≡ some (5, of_string "n=42%")
printf-Renders_example =
    printf-Renders (of_string "n=%d%%") (int 42 ∷ []) (of_string "n=42%")
      (plain 0x6E _ _ _ (λ e. omega arith)
        (plain 0x3D _ _ _ (λ e. omega arith)
          (number (of_string "%%") 42 (of_string "42") [] (of_string "%") answer
            (percents [] [] [] (ends [])))))
      (omega arith)

read_int-int_text_example :
    (text : Text) × (int_text (2 ^ 32 - 15) ≡ some text)
    × (read_int text ≡ signed (2 ^ 32 - 15))
    × (length text ≤ 11)
read_int-int_text_example = read_int-int_text (2 ^ 32 - 15) (omega arith) (λ e. omega arith)

abbrev started : Printing
started = record { format = of_string "%d"; arguments = int 42 ∷ []; written = 0; output = [] }

rounds-Ends_example : Ends started (rounds 3 started)
rounds-Ends_example = rounds-Ends 3 started (omega arith)
