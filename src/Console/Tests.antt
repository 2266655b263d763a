-- ===== src/Console/Tests.antt =====
-- A text printed at the end of the screen, and the theorem at it.
use veni.Base.{ℕ, zero, suc, ◌≡◌, ◌≤◌, refl, arith, List, [], ◌∷◌, ◌++◌, some, length}
use veni.CString.Text.{Text, of_string}
use veni.Printf.{int, int_text, put_digits}
use veni.Printf.Format.{Renders, ends, plain, percents, number}
use veni.Serial.Sent.{crlf, empty_count}
use veni.Tty.Screen.{IsValid}
use veni.Console.{Console, print_format}
use veni.Console.Printed.{Printed, print_format-Printed}

abbrev ready : (n : ℕ) → List ℕ
ready zero = []
ready (suc n) = 0 ∷ (0x60 ∷ ready n)

abbrev last_line : Console
last_line = record {
  tty = record { row = 24; column = 78; color = 7; buffer = λ i. 0; ports = [] };
  serial = record { statuses = ready 8; trace = [] };
}

-- `n=%d`, a percent sign and a line feed.
abbrev format : Text
format = of_string "n=%d%%" ++ 0x0A ∷ []

abbrev printed : Text
printed = of_string "n=42%" ++ 0x0A ∷ []

forty_two : int_text 42 ≡ some (of_string "42")
unfolding int_text put_digits
forty_two = refl

format-Renders : Renders format (int 42 ∷ []) printed
format-Renders =
    plain 0x6E _ _ _ (λ e. omega arith)
      (plain 0x3D _ _ _ (λ e. omega arith)
        (number _ 42 (of_string "42") [] (of_string "%" ++ 0x0A ∷ []) forty_two
          (percents (0x0A ∷ []) [] (0x0A ∷ []) (plain 0x0A [] [] [] (λ e. omega arith) (ends [])))))

often : length (crlf printed) ≤ empty_count last_line.serial.statuses
unfolding crlf empty_count
often = omega arith

last_line-IsValid : IsValid last_line.tty
last_line-IsValid = record { row = omega arith; column = omega arith }

print_format-Printed_example :
    Printed printed last_line (print_format format (int 42 ∷ []) last_line)
print_format-Printed_example =
    print_format-Printed format (int 42 ∷ []) printed last_line format-Renders (omega arith) refl
      last_line-IsValid often
