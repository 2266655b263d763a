-- ===== src/Serial.antt =====
-- kernel/arch/i386/serial.c: the serial port.
pub mod Sent
mod Tests
use veni.Base.{
  ℕ, zero, suc, ◌+◌, ◌-◌, Bool, not, List, [], ◌∷◌, ◌++◌, bit_and, ◌==◌, if◌then◌else◌, Option,
  none, some, ◌>>=◌,
}

-- `SERIAL_COM1_BASE`, and the ports of serial.h from there on.
abbrev serial_com1_base : ℕ
serial_com1_base = 0x3F8

-- The writes of `serial_init`, each a port and a byte.
unfoldable pub serial_init : List (ℕ × ℕ)
serial_init =
    (serial_com1_base + 3, 0x80)
    ∷ ((serial_com1_base, 0x03)
        ∷ ((serial_com1_base + 1, 0x00)
            ∷ ((serial_com1_base + 3, 0x03)
                ∷ ((serial_com1_base + 2, 0xC7) ∷ ((serial_com1_base + 4, 0x0B) ∷ [])))))

-- What happens at the ports: the line status is read, and a byte is written to the data port.
pub data Event : Type 0 where
  status : ℕ → Event
  byte : ℕ → Event

-- The bytes that the line status port has to give, one for each time it is read, and what happened at
-- the ports so far.
pub record Serial : Type 0 where
  pub statuses : List ℕ
  pub trace : List Event

abbrev pub is_empty : ℕ → Bool
is_empty line = not (bit_and line 0x20 == 0)

-- `while (!serial_is_transmit_fifo_empty(base))`; `none` if the loop still runs behind the last of the
-- bytes that the port gives.
unfoldable pub wait_empty : (statuses : List ℕ) (trace : List Event) → Option Serial
wait_empty [] trace = none
wait_empty (line ∷ later) trace =
    let rest = wait_empty later (trace ++ status line ∷ []) in
    if is_empty line
    then some (record { statuses = later; trace = trace ++ status line ∷ [] })
    else rest

unfoldable pub put_byte : ℕ → Serial → Option Serial
put_byte c s =
    wait_empty s.statuses s.trace >>= λ s'. some (record s' { trace = s'.trace ++ byte c ∷ [] })

-- A line feed is sent behind a carriage return.
unfoldable pub serial_putchar : ℕ → Serial → Option Serial
serial_putchar c s = if c == 0x0A then (put_byte 0x0D s >>= put_byte c) else put_byte c s

-- `none` also for a read behind the end of `bytes`.
unfoldable pub serial_write : (bytes : List ℕ) (size : ℕ) → Serial → Option Serial
serial_write bytes zero s = some s
serial_write [] (suc size) s = none
serial_write (c ∷ bytes) (suc size) s = serial_putchar c s >>= serial_write bytes size

unfoldable pub serial_writestring : List ℕ → Serial → Option Serial
serial_writestring [] s = none
serial_writestring (c ∷ bytes) s =
    if c == 0 then some s else serial_putchar c s >>= serial_writestring bytes
