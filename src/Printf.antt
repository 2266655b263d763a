-- ===== src/Printf.antt =====
-- libc/stdio/printf.c: the loop over the format and the conversions, with the bytes for `putchar` as a
-- list. `putchar` returns the byte it is given and never `EOF`, so that `print` does not fail.
pub mod Digits
pub mod Format
pub mod Render
pub mod Rounds
mod Tests
use mathlib.Core.Option
use veni.Base.{
  ℕ, zero, suc, ◌+◌, ◌-◌, ◌*◌, ◌/◌, ◌%◌, ◌^◌, Bool, true, false, not, ◌&&◌, ◌||◌, Option, none,
  some, List, [], ◌∷◌, ◌++◌, ◌==◌, ltb, if◌then◌else◌, get_or, take, drop, length, ◌>>=◌,
}
use veni.CString.Text.{Text}

abbrev pub percent : ℕ
percent = 0x25

abbrev pub int_max : ℕ
int_max = 2 ^ 31 - 1

-- What `printf` returns for -1, as a 32-bit word.
abbrev pub minus_one : ℕ
minus_one = 2 ^ 32 - 1

-- The arguments behind the format, each with the type that it was passed with; numbers are 32-bit
-- words.
pub data Arg : Type 0 where
  int : ℕ → Arg
  string : Text → Arg
  pointer : ℕ → Arg
  size : ℕ → Arg

-- The loops that write decimal digits backwards, into the `room` bytes that are left of the buffer
-- before `p`, whose text is `acc`; `none` is a write before the buffer.
unfoldable pub put_digits : (room num : ℕ) (acc : Text) → Option Text
put_digits zero num acc = none
put_digits (suc room) num acc =
    let rest = put_digits room (num / 10) ((0x30 + num % 10) ∷ acc) in
    if ltb 0 (num / 10) then rest else some ((0x30 + num % 10) ∷ acc)

-- The first rounds of the loop on a signed number, of which only -2 ^ 31 is negative here: its
-- remainder is then not positive, and its quotient ends the loop.
abbrev pub put_signed : (room num : ℕ) (acc : Text) → Option Text
put_signed room num acc =
    if ltb num (2 ^ 31)
    then put_digits room num acc
    else if ltb 0 room
    then some ((0x30 - (2 ^ 32 - num) % 10) ∷ acc)
    else none

abbrev pub put_minus : Text → Option Text
put_minus text = if ltb (length text) 31 then some (0x2D ∷ text) else none

-- The text for `%d`. On a negative number `-num` wraps for -2 ^ 31.
unfoldable pub int_text : (num : ℕ) → Option Text
int_text num =
    if ltb num (2 ^ 31)
    then put_signed 31 num []
    else put_signed 31 ((2 ^ 32 - num) % 2 ^ 32) [] >>= put_minus

-- The text for `%zu`.
unfoldable pub size_text : (num : ℕ) → Option Text
size_text num = put_digits 20 num []

abbrev pub hex_digit : ℕ → ℕ
hex_digit nibble = if ltb nibble 10 then 0x30 + nibble else 0x61 + (nibble - 10)

-- `for (i = 9; i >= 2; i--)`, with `n` rounds left; the nibbles so far are `done` times four bits.
unfoldable pub put_nibbles : (n done ptr : ℕ) (acc : Text) → Text
put_nibbles zero done ptr acc = acc
put_nibbles (suc n) done ptr acc =
    put_nibbles n (done + 1) ptr (hex_digit (ptr / 2 ^ (done * 4) % 16) ∷ acc)

-- The text for `%p`.
unfoldable pub pointer_text : (ptr : ℕ) → Text
pointer_text ptr = 0x30 ∷ (0x78 ∷ put_nibbles 8 0 ptr [])

-- The variables of the loop, and the bytes printed so far.
pub record Printing : Type 0 where
  pub format : Text
  pub arguments : List Arg
  pub written : ℕ
  pub output : Text

-- One round of the loop: it goes on, returns a number, or takes an argument that is not there or
-- has another type.
pub data Round : Type 0 where
  goes_on : Printing → Round
  returns : (result : ℕ) (output : Text) → Round
  faults : Round

-- `INT_MAX - written`, on words.
abbrev pub maxrem : Printing → ℕ
maxrem s = (int_max + 2 ^ 32 - s.written) % 2 ^ 32

-- `print` and `written += len`, and the rest of the format and of the arguments.
abbrev pub prints : Printing → Text → (format : Text) → (arguments : List Arg) → Round
prints s text format arguments = goes_on (record {
  format = format;
  arguments = arguments;
  written = (s.written + length text) % 2 ^ 32;
  output = s.output ++ text;
})

-- The same behind `if (maxrem < len) return -1`.
abbrev pub prints_checked : Printing → Text → (format : Text) → (arguments : List Arg) → Round
prints_checked s text format arguments =
    if ltb (maxrem s) (length text)
    then returns minus_one s.output
    else prints s text format arguments

-- `while (format[amount] && format[amount] != '%') amount++`, from the given place on.
unfoldable pub plain_length : Text → ℕ
plain_length [] = 0
plain_length (c ∷ t) = let rest = plain_length t in if c == percent then 0 else suc rest

-- Text up to the next directive; the first byte belongs to it in any case.
unfoldable pub literal : Printing → Text → Round
literal s text =
    let amount = suc (plain_length (drop 1 text)) in
    prints_checked s (take amount text) (drop amount text) s.arguments

unfoldable pub print_char : Printing → (format : Text) → List Arg → Round
print_char s format (int c ∷ arguments) =
    if maxrem s == 0
    then returns minus_one s.output
    else prints s ((c % 2 ^ 8) ∷ []) format arguments
print_char s format _ = faults

unfoldable pub print_string : Printing → (format : Text) → List Arg → Round
print_string s format (string text ∷ arguments) = prints_checked s text format arguments
print_string s format _ = faults

-- What `%d` and `%zu` do with their text.
unfoldable pub print_digits : Printing → (format : Text) → List Arg → Option Text → Round
print_digits s format arguments none = faults
print_digits s format arguments (some text) = prints_checked s text format arguments

unfoldable pub print_unchecked : Printing → (format : Text) → List Arg → Option Text → Round
print_unchecked s format arguments none = faults
print_unchecked s format arguments (some text) = prints s text format arguments

unfoldable pub print_int : Printing → (format : Text) → List Arg → Round
print_int s format (int num ∷ arguments) = print_digits s format arguments (int_text num)
print_int s format _ = faults

unfoldable pub print_pointer : Printing → (format : Text) → List Arg → Round
print_pointer s format (pointer ptr ∷ arguments) = prints s (pointer_text ptr) format arguments
print_pointer s format _ = faults

unfoldable pub print_size : Printing → (format : Text) → List Arg → Round
print_size s format (size num ∷ arguments) = print_unchecked s format arguments (size_text num)
print_size s format _ = faults

-- The directive whose first byte behind the percent sign is `d`, followed by `rest`; `raw` is the
-- format from the percent sign on.
unfoldable pub directive : Printing → (raw : Text) (d : ℕ) (rest : Text) → Round
directive s raw d rest =
    if d == 0x63
    then print_char s rest s.arguments
    else if d == 0x73
    then print_string s rest s.arguments
    else if d == 0x64
    then print_int s rest s.arguments
    else if d == 0x70
    then print_pointer s rest s.arguments
    else if (d == 0x7A) && (get_or rest 0 0 == 0x75)
    then print_size s (drop 1 rest) s.arguments
    else prints_checked s raw [] s.arguments

-- One round, for the format that is left.
unfoldable pub round : Printing → Text → Round
round s [] = returns s.written s.output
round s (c ∷ t) =
    if not (c == percent) || get_or t 0 0 == percent
    then literal s (if c == percent then t else c ∷ t)
    else directive s (c ∷ t) (get_or t 0 0) (drop 1 t)

-- `none` is a fault, or more than `n` rounds.
unfoldable pub rounds : (n : ℕ) → Printing → Option (ℕ × Text)
rounds zero s = none
rounds (suc n) s = elim (round s s.format) [
  | goes_on s' ↦ rounds n s'
  | returns result output ↦ some (result, output)
  | faults ↦ none
]

-- What is returned, and what is printed.
unfoldable pub printf : Text → List Arg → Option (ℕ × Text)
printf format arguments =
    rounds (length format + 1)
      (record { format = format; arguments = arguments; written = 0; output = [] })

unfoldable pub puts : Text → Option (ℕ × Text)
puts text = printf (percent ∷ (0x73 ∷ (0x0A ∷ []))) (string text ∷ [])
