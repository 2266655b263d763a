-- ===== src/Serial/Tests.antt =====
-- serial.c on a port that is busy at first, and the theorem at it.
use veni.Base.{ℕ, ◌≡◌, ◌≤◌, refl, arith, List, [], ◌∷◌, some, none, length}
use veni.CString.Text.{cstr, IsText}
use veni.Serial.{
  status, byte, Serial, wait_empty, put_byte, serial_putchar, serial_write, serial_writestring,
}
use veni.Serial.Sent.{Sends, crlf, empty_count, serial_writestring-Sends}

abbrev busy_first : Serial
busy_first = record { statuses = 0 ∷ (0x60 ∷ (0x20 ∷ (0 ∷ (0x61 ∷ (0x20 ∷ []))))); trace = [] }

line :
    serial_write (0x41 ∷ (0x0A ∷ (0x42 ∷ []))) 2 busy_first
    ≡ some (record {
      statuses = 0x20 ∷ [];
      trace =
          status 0
          ∷ (status 0x60
              ∷ (byte 0x41
                  ∷ (status 0x20 ∷ (byte 0x0D ∷ (status 0 ∷ (status 0x61 ∷ (byte 0x0A ∷ [])))))));
    })
unfolding serial_write serial_putchar put_byte wait_empty
line = refl

-- A port that stays busy, and an array that ends before its size.
waits : serial_write (0x41 ∷ []) 1 (record { statuses = 0 ∷ (0 ∷ []); trace = [] }) ≡ none
unfolding serial_write serial_putchar put_byte wait_empty
waits = refl

outside : serial_write (0x41 ∷ []) 2 busy_first ≡ none
unfolding serial_write serial_putchar put_byte wait_empty
outside = refl

abbrev greeting : List ℕ
greeting = 0x48 ∷ (0x0A ∷ [])

greeting-IsText : IsText greeting
greeting-IsText = ((λ e. omega (arith, e)), ((λ e. omega (arith, e)), _))

often : length (crlf greeting) ≤ empty_count busy_first.statuses
unfolding empty_count crlf
often = omega arith

serial_writestring-Sends_example :
    Sends (crlf greeting) busy_first (serial_writestring (cstr greeting (7 ∷ [])) busy_first)
serial_writestring-Sends_example =
    serial_writestring-Sends greeting (7 ∷ []) busy_first greeting-IsText often
