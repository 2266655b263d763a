-- ===== src/Console/Printed.antt =====
-- putchar.c and printf.c: what is on the screen and what was sent after a text was printed.
use veni.Base.{
  ℕ, ◌+◌, ◌%◌, ◌^◌, ◌≤◌, ◌<◌, ◌≡◌, refl, sym, ◌∙◌, ap, ap₂, subst, arith, List, [], ◌∷◌, ◌++◌,
  Option, some, ◌>>=◌, length, true, true≢false, Bool, ◌&&◌, ltb, ltb→lt, Bool-cases, inl, inr,
  length-append, append_assoc, append_nil,
}
use veni.CString.Text.{Text}
use veni.Printf.{Arg, int_max}
use veni.Printf.Format.{Renders, ends, plain_run}
use veni.Printf.Render.{printf-Renders}
use veni.Serial.{Event, Serial, serial_putchar}
use veni.Serial.Sent.{
  Polled, done, Polled-append, sent_bytes, traced-sent_bytes, Sends, crlf, line_end, empty_count,
  serial_putchar-Sends,
}
use veni.Tty.{
  terminal_putchar, terminal_write, terminal_clear, terminal_fsetcolor, terminal_setcursorpos,
}
use veni.Tty.Screen.{IsValid, Screen, screen, put, Shows, putchar-Shows}
use veni.Tty.Write.{put_all}
use veni.Console.{Console, putchar, print, print_format, panic, exception, abort, exception_handler}

-- Every value is a byte.
abbrev pub is_bytes : Text → Bool
is_bytes [] = true
is_bytes (c ∷ t) = ltb c (2 ^ 8) && is_bytes t

pub byte_first : (c : ℕ) (t : Text) → is_bytes (c ∷ t) ≡ true → (c < 2 ^ 8) × (is_bytes t ≡ true)
byte_first c t b = elim (Bool-cases (ltb c (2 ^ 8))) [
  | inl small ↦ (ltb→lt c (2 ^ 8) small, rw small at b)
  | inr large ↦ absurd (true≢false (sym (rw large at b)))
]

-- A call returned; the screen shows the characters of `text` behind what it showed, and the serial port
-- has sent them with a carriage return before each line feed, each when it had read that the port was
-- empty.
pub record Printed (text : Text) (s : Console) (result : Option Console) : Type 0 where
  pub after : Console
  pub returned : result ≡ some after
  pub shown : Shows s.tty.color (put_all s.tty.color (screen s.tty) text) after.tty
  pub events : List Event
  pub traced : after.serial.trace ≡ s.serial.trace ++ events
  pub polled : Polled (crlf text) events
  pub sent : sent_bytes after.serial.trace ≡ sent_bytes s.serial.trace ++ crlf text
  pub waits : empty_count s.serial.statuses ≡ empty_count after.serial.statuses + length (crlf text)

putchar-lem :
    (c : ℕ) (s : Console) (serial : Serial)
    → c < 2 ^ 8
    → serial_putchar c s.serial ≡ some serial
    → putchar c s ≡ some (record { tty = terminal_putchar s.tty c; serial = serial })
unfolding putchar terminal_write
putchar-lem c s serial h e = rw (byte, e) refl
  where
    byte : c % 2 ^ 8 ≡ c
    byte = omega arith

put_all-append :
    (color : ℕ) (q : Screen) (t u : Text)
    → put_all color q (t ++ u) ≡ put_all color (put_all color q t) u
put_all-append color q [] u = refl
put_all-append color q (c ∷ t) u = put_all-append color (put color q c) t u

crlf-append : (t u : Text) → crlf (t ++ u) ≡ crlf t ++ crlf u
unfolding crlf
crlf-append [] u = refl
crlf-append (c ∷ t) u =
    ap (λ l. line_end c ++ l) (crlf-append t u) ∙ sym (append_assoc (line_end c) (crlf t) (crlf u))

-- One call after the other.
then-Printed :
    (t u : Text) (s : Console) (r : Option Console) (f : Console → Option Console)
    → (a : Printed t s r) → Printed u a.after (f a.after)
    → Printed (t ++ u) s (r >>= f)
then-Printed t u s r f a b = record {
  after = b.after;
  returned = ap (λ o. o >>= f) a.returned ∙ b.returned;
  shown = record {
    shown =
        b.shown.shown
        ∙ ap₂ (λ color q. put_all color q u) a.shown.same_color a.shown.shown
        ∙ sym (put_all-append s.tty.color (screen s.tty) t u);
    same_color = b.shown.same_color ∙ a.shown.same_color;
    valid = b.shown.valid;
  };
  events = a.events ++ b.events;
  traced = traced;
  polled = polled;
  sent =
      traced-sent_bytes (crlf (t ++ u)) s.serial.trace (a.events ++ b.events) b.after.serial.trace
        traced polled;
  waits =
      omega (arith, a.waits, b.waits, length-append (crlf t) (crlf u), ap length (crlf-append t u));
}
  where
    traced : b.after.serial.trace ≡ s.serial.trace ++ (a.events ++ b.events)
    traced =
        b.traced ∙ ap (λ l. l ++ b.events) a.traced ∙ append_assoc s.serial.trace a.events b.events

    polled : Polled (crlf (t ++ u)) (a.events ++ b.events)
    polled =
        subst (λ l. Polled l (a.events ++ b.events)) (sym (crlf-append t u))
          (Polled-append (crlf t) (crlf u) a.events b.events a.polled b.polled)

putchar-Printed :
    (c : ℕ) (s : Console)
    → c < 2 ^ 8
    → IsValid s.tty
    → length (crlf (c ∷ [])) ≤ empty_count s.serial.statuses
    → Printed (c ∷ []) s (putchar c s)
unfolding crlf
putchar-Printed c s b v h = record {
  after = record { tty = terminal_putchar s.tty c; serial = sends.after };
  returned = putchar-lem c s sends.after b sends.returned;
  shown = putchar-Shows s.tty c v;
  events = sends.events;
  traced = sends.traced;
  polled = polled;
  sent =
      traced-sent_bytes (crlf (c ∷ [])) s.serial.trace sends.events sends.after.trace sends.traced
        polled;
  waits = omega (arith, sends.waits, ap length (append_nil (line_end c)));
}
  where
    sends : Sends (line_end c) s.serial (serial_putchar c s.serial)
    sends = serial_putchar-Sends c s.serial (omega (arith, h, ap length (append_nil (line_end c))))

    polled : Polled (line_end c ++ []) sends.events
    polled = subst (λ l. Polled l sends.events) (sym (append_nil (line_end c))) sends.polled

print-Printed :
    (t : Text) (s : Console)
    → is_bytes t ≡ true
    → IsValid s.tty
    → length (crlf t) ≤ empty_count s.serial.statuses
    → Printed t s (print t s)
unfolding print crlf
print-Printed [] s b v h = record {
  after = s;
  returned = refl;
  shown = record { shown = refl; same_color = refl; valid = v };
  events = [];
  traced = sym (append_nil s.serial.trace);
  polled = done;
  sent = sym (append_nil (sent_bytes s.serial.trace));
  waits = omega arith;
}
print-Printed (c ∷ t) s b v h =
    let (byte, bytes) = byte_first c t b in
    let first = putchar-Printed c s byte v (omega (arith, h, total)) in
    then-Printed (c ∷ []) t s (putchar c s) (print t) first
      (print-Printed t first.after bytes first.shown.valid (omega (arith, h, total, first.waits)))
  where
    total : length (crlf (c ∷ t)) ≡ length (crlf (c ∷ [])) + length (crlf t)
    total = ap length (crlf-append (c ∷ []) t) ∙ length-append (crlf (c ∷ [])) (crlf t)

-- On a valid terminal: `printf` of a format with the arguments that it takes, which stand for a text of
-- bytes of at most `INT_MAX`, returns once the serial port has been empty as often as there are bytes to
-- send; then the screen shows the characters of the text, and the serial port has sent them with a
-- carriage return before each line feed.
pub print_format-Printed :
    (format : Text) (args : List Arg) (o : Text) (s : Console)
    → Renders format args o
    → length o ≤ int_max
    → is_bytes o ≡ true
    → IsValid s.tty
    → length (crlf o) ≤ empty_count s.serial.statuses
    → Printed o s (print_format format args s)
unfolding print_format
print_format-Printed format args o s r le b v h =
    rw (printf-Renders format args o r le) (print-Printed o s b v h)

-- The console after the screen was cleared and the color set to light red on black.
abbrev alarmed : Console → Console
alarmed s = record s { tty = terminal_fsetcolor (terminal_clear s.tty) 12 0 }

alarmed-IsValid : (s : Console) → IsValid (alarmed s).tty
unfolding terminal_clear terminal_fsetcolor terminal_setcursorpos
alarmed-IsValid s = record { row = omega arith; column = omega arith }

exception-Renders : Renders exception [] exception
exception-Renders = plain_run exception [] [] [] refl (ends [])

panic-Renders : Renders panic [] panic
panic-Renders = plain_run panic [] [] [] refl (ends [])

-- Whatever the terminal was like, `exception_handler` gets to where the processor halts once the serial
-- port has been empty as often as there are bytes to send; by then the screen shows, after it was
-- cleared, both messages, and the serial port has sent them.
pub exception_handler-Printed :
    (s : Console)
    → length (crlf (exception ++ panic)) ≤ empty_count s.serial.statuses
    → Printed (exception ++ panic) (alarmed s) (exception_handler s)
unfolding exception_handler abort
exception_handler-Printed s h =
    then-Printed exception panic (alarmed s) (print_format exception [] (alarmed s)) abort first (
      print_format-Printed panic [] panic first.after panic-Renders (omega arith) refl
        first.shown.valid enough)
  where
    total : length (crlf exception ++ crlf panic) ≡ length (crlf exception) + length (crlf panic)
    total = length-append (crlf exception) (crlf panic)

    first : Printed exception (alarmed s) (print_format exception [] (alarmed s))
    first =
        print_format-Printed exception [] exception (alarmed s) exception-Renders (omega arith) refl
          (alarmed-IsValid s) (omega (arith, h, total, ap length (crlf-append exception panic)))

    enough : length (crlf panic) ≤ empty_count first.after.serial.statuses
    enough = omega (arith, h, first.waits, total, ap length (crlf-append exception panic))
