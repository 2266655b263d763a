-- ===== src/Console.antt =====
-- libc/stdio/putchar.c and libc/stdlib/abort.c, and the exceptions of kernel/arch/i386/interrupts/isr.c:
-- what is printed goes to the terminal and to the serial port.
pub mod Printed
mod Tests
use veni.Base.{ℕ, ◌%◌, ◌^◌, List, [], ◌∷◌, ◌++◌, Option, none, some, ◌>>=◌}
use veni.CString.Text.{Text, of_string}
use veni.Printf.{Arg, printf}
use veni.Serial.{Serial, serial_putchar}
use veni.Tty.{Tty, terminal_write, terminal_clear, terminal_fsetcolor}

pub record Console : Type 0 where
  pub tty : Tty
  pub serial : Serial

unfoldable pub putchar : (ic : ℕ) → Console → Option Console
putchar ic s = do
  tty ← terminal_write s.tty (ic % 2 ^ 8 ∷ []) 1
  serial ← serial_putchar (ic % 2 ^ 8) s.serial
  some (record { tty = tty; serial = serial })

-- `print`, which calls `putchar` for each byte of `text`; no byte is `EOF`.
unfoldable pub print : (text : Text) → Console → Option Console
print [] s = some s
print (c ∷ text) s = putchar c s >>= print text

-- `printf`, with the text that Printf gives for it.
unfoldable pub print_format : (format : Text) → List Arg → Console → Option Console
print_format format args s = printf format args >>= λ r. print r.1 s

abbrev pub panic : Text
panic = of_string "Kernel panic." ++ 0x0A ∷ []

abbrev pub exception : Text
exception =
    of_string "An exception has occured."
    ++ 0x0A ∷ of_string "Please reboot the system."
    ++ 0x0A ∷ []

-- The state in which the processor halts.
unfoldable pub abort : Console → Option Console
abort s = print_format panic [] s

unfoldable pub exception_handler : Console → Option Console
exception_handler s =
    print_format exception [] (record s { tty = terminal_fsetcolor (terminal_clear s.tty) 12 0 })
    >>= abort
