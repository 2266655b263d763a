-- ===== src/Serial/Sent.antt =====
-- serial.c: the bytes that are sent.
use veni.Base.{
  ℕ, suc, ◌+◌, ◌≤◌, ◌<◌, ◌≡◌, refl, ◌∙◌, ap, sym, true, false, List, [], ◌∷◌, ◌++◌, ◌==◌,
  if◌then◌else◌, Option, some, ◌>>=◌, arith, length, Bool-cases, inl, inr, append_assoc, append_nil,
  length-append, ne→==,
}
use veni.CString.Text.{IsText, cstr}
use veni.Serial.{
  Event, status, byte, Serial, is_empty, wait_empty, put_byte, serial_putchar, serial_write,
  serial_writestring,
}

-- How often the port says that it is empty.
unfoldable pub empty_count : List ℕ → ℕ
empty_count [] = 0
empty_count (line ∷ later) = (if is_empty line then 1 else 0) + empty_count later

-- What a character is sent as.
abbrev pub line_end : ℕ → List ℕ
line_end c = if c == 0x0A then 0x0D ∷ (c ∷ []) else c ∷ []

-- A text with a carriage return before each line feed.
unfoldable pub crlf : List ℕ → List ℕ
crlf [] = []
crlf (c ∷ t) = line_end c ++ crlf t

-- What happens where a text is sent: before each byte the line status is read until it says that the
-- port is empty, and the byte is the next that happens.
pub data Polled : (text : List ℕ) → List Event → Type 0 where
  done : Polled [] []
  busy :
      (line : ℕ) (text : List ℕ) (events : List Event)
      → is_empty line ≡ false
      → Polled text events
      → Polled text (status line ∷ events)
  sent :
      (line c : ℕ) (text : List ℕ) (events : List Event)
      → is_empty line ≡ true
      → Polled text events
      → Polled (c ∷ text) (status line ∷ (byte c ∷ events))

-- The bytes among what happened.
abbrev pub sent_bytes : List Event → List ℕ
sent_bytes [] = []
sent_bytes (status line ∷ events) = sent_bytes events
sent_bytes (byte c ∷ events) = c ∷ sent_bytes events

-- A call returned, has sent `text`, each byte when it had read that the port was empty, and has taken
-- one time that the port was empty for each.
pub record Sends (text : List ℕ) (s : Serial) (result : Option Serial) : Type 0 where
  pub after : Serial
  pub returned : result ≡ some after
  pub events : List Event
  pub traced : after.trace ≡ s.trace ++ events
  pub polled : Polled text events
  pub waits : empty_count s.statuses ≡ empty_count after.statuses + length text

pub Polled-append :
    (t u : List ℕ) (es fs : List Event) → Polled t es → Polled u fs → Polled (t ++ u) (es ++ fs)
Polled-append _ u _ fs done k = k
Polled-append _ u _ fs (busy line t es e h) k =
    busy line (t ++ u) (es ++ fs) e (Polled-append t u es fs h k)
Polled-append _ u _ fs (sent line c t es e h) k =
    sent line c (t ++ u) (es ++ fs) e (Polled-append t u es fs h k)

sent_bytes-append : (es fs : List Event) → sent_bytes (es ++ fs) ≡ sent_bytes es ++ sent_bytes fs
sent_bytes-append [] fs = refl
sent_bytes-append (status line ∷ es) fs = sent_bytes-append es fs
sent_bytes-append (byte c ∷ es) fs = ap (λ l. c ∷ l) (sent_bytes-append es fs)

Polled-sent_bytes : (t : List ℕ) (es : List Event) → Polled t es → sent_bytes es ≡ t
Polled-sent_bytes _ _ done = refl
Polled-sent_bytes _ _ (busy line t es e h) = Polled-sent_bytes t es h
Polled-sent_bytes _ _ (sent line c t es e h) = ap (λ l. c ∷ l) (Polled-sent_bytes t es h)

-- The bytes that were sent, behind what happened before.
pub traced-sent_bytes :
    (text : List ℕ) (before events after : List Event)
    → after ≡ before ++ events
    → Polled text events
    → sent_bytes after ≡ sent_bytes before ++ text
traced-sent_bytes text before events after e polled =
    ap sent_bytes e
    ∙ sent_bytes-append before events
    ∙ ap (λ l. sent_bytes before ++ l) (Polled-sent_bytes text events polled)

nothing-Sends : (s : Serial) → Sends [] s (some s)
nothing-Sends s = record {
  after = s;
  returned = refl;
  events = [];
  traced = sym (append_nil s.trace);
  polled = done;
  waits = omega arith;
}

-- A wait that ends: the reads of the line status, less the last one.
record Waited (l : List ℕ) (trace : List Event) : Type 0 where
  later : List ℕ
  line : ℕ
  before : List Event
  ready : is_empty line ≡ true
  idle : (t : List ℕ) (es : List Event) → Polled t es → Polled t (before ++ es)
  returned :
      wait_empty l trace
      ≡ some (record { statuses = later; trace = (trace ++ before) ++ status line ∷ [] })
  count : empty_count l ≡ suc (empty_count later)

busy_round :
    (line : ℕ) (later : List ℕ) (trace : List Event)
    → is_empty line ≡ false
    → (wait_empty (line ∷ later) trace ≡ wait_empty later (trace ++ status line ∷ []))
      × (empty_count (line ∷ later) ≡ empty_count later)
unfolding wait_empty empty_count
busy_round line later trace wait = (rw wait refl, rw wait (omega arith))

wait_empty-Waited : (l : List ℕ) (trace : List Event) → 0 < empty_count l → Waited l trace
unfolding wait_empty empty_count
wait_empty-Waited [] trace h = absurd (omega arith)
wait_empty-Waited (line ∷ later) trace h = elim (Bool-cases (is_empty line)) [
  | inl now ↦ record {
    later = later;
    line = line;
    before = [];
    ready = now;
    idle = λ t es k. k;
    returned = rw now (
        ap (λ l. some (record { statuses = later; trace = l ++ status line ∷ [] }))
          (sym (append_nil trace)));
    count = rw now (omega arith);
  }
  | inr wait ↦
      let (same, count) = busy_round line later trace wait in
      waited_on same count wait
        (wait_empty-Waited later (trace ++ status line ∷ []) (omega (arith, h, count)))
]
  where
    waited_on :
        wait_empty (line ∷ later) trace ≡ wait_empty later (trace ++ status line ∷ [])
        → empty_count (line ∷ later) ≡ empty_count later
        → is_empty line ≡ false
        → Waited later (trace ++ status line ∷ [])
        → Waited (line ∷ later) trace
    waited_on same count wait k = record {
      later = k.later;
      line = k.line;
      before = status line ∷ k.before;
      ready = k.ready;
      idle = λ t es p. busy line t (k.before ++ es) wait (k.idle t es p);
      returned =
          same
          ∙ k.returned
          ∙ ap (λ l. some (record { statuses = k.later; trace = l ++ status k.line ∷ [] }))
              (append_assoc trace (status line ∷ []) k.before);
      count = count ∙ k.count;
    }

put_byte-Sends : (c : ℕ) (s : Serial) → 0 < empty_count s.statuses → Sends (c ∷ []) s (put_byte c s)
unfolding put_byte
put_byte-Sends c s h = by_wait (wait_empty-Waited s.statuses s.trace h)
  where
    by_wait :
        Waited s.statuses s.trace
        → Sends (c ∷ []) s (
            wait_empty s.statuses s.trace >>= λ s'.
            some (record s' { trace = s'.trace ++ byte c ∷ [] }))
    by_wait k = record {
      after = record {
        statuses = k.later;
        trace = ((s.trace ++ k.before) ++ status k.line ∷ []) ++ byte c ∷ [];
      };
      returned = rw k.returned refl;
      events = k.before ++ status k.line ∷ (byte c ∷ []);
      traced =
          append_assoc (s.trace ++ k.before) (status k.line ∷ []) (byte c ∷ [])
          ∙ append_assoc s.trace k.before (status k.line ∷ (byte c ∷ []));
      polled = k.idle (c ∷ []) _ (sent k.line c [] [] k.ready done);
      waits = omega (arith, k.count);
    }

-- One call after the other.
then-Sends :
    (t u : List ℕ) (s : Serial) (r : Option Serial) (f : Serial → Option Serial)
    → Sends t s r
    → ((s' : Serial)
        → empty_count s.statuses ≡ empty_count s'.statuses + length t
        → Sends u s' (f s'))
    → Sends (t ++ u) s (r >>= f)
then-Sends t u s r f a b = record {
  after = c.after;
  returned = ap (λ o. o >>= f) a.returned ∙ c.returned;
  events = a.events ++ c.events;
  traced = c.traced ∙ ap (λ l. l ++ c.events) a.traced ∙ append_assoc s.trace a.events c.events;
  polled = Polled-append t u a.events c.events a.polled c.polled;
  waits = omega (arith, a.waits, c.waits, length-append t u);
}
  where
    c : Sends u a.after (f a.after)
    c = b a.after a.waits

pub serial_putchar-Sends :
    (c : ℕ) (s : Serial)
    → length (line_end c) ≤ empty_count s.statuses
    → Sends (line_end c) s (serial_putchar c s)
unfolding serial_putchar
serial_putchar-Sends c s h = elim (Bool-cases (c == 0x0A)) [
  | inl feed ↦ rw feed (
      then-Sends (0x0D ∷ []) (c ∷ []) s (put_byte 0x0D s) (put_byte c)
        (put_byte-Sends 0x0D s (omega (arith, rw feed at h)))
        (λ s' n. put_byte-Sends c s' (omega (arith, n, rw feed at h))))
  | inr other ↦ rw other (put_byte-Sends c s (omega (arith, rw other at h)))
]

-- Where the port is empty once for each byte that `crlf` gives, `serial_write` of all bytes returns and
-- has sent them so.
serial_write-Sends :
    (t rest : List ℕ) (s : Serial)
    → length (crlf t) ≤ empty_count s.statuses
    → Sends (crlf t) s (serial_write (t ++ rest) (length t) s)
unfolding crlf serial_write
serial_write-Sends [] rest s h = nothing-Sends s
serial_write-Sends (c ∷ t) rest s h =
    then-Sends (line_end c) (crlf t) s (serial_putchar c s) (serial_write (t ++ rest) (length t))
      (serial_putchar-Sends c s (omega (arith, h, length-append (line_end c) (crlf t))))
      (λ s' n.
        serial_write-Sends t rest s' (omega (arith, h, n, length-append (line_end c) (crlf t))))

-- `serial_writestring` of a string returns once the port has been empty as often as there are bytes to
-- send, and has sent the text with a carriage return before each line feed; just before each byte it
-- has read that the port was empty, and else it has only read that it was not.
pub serial_writestring-Sends :
    (t rest : List ℕ) (s : Serial)
    → IsText t
    → length (crlf t) ≤ empty_count s.statuses
    → Sends (crlf t) s (serial_writestring (cstr t rest) s)
unfolding crlf serial_writestring
serial_writestring-Sends [] rest s x h = nothing-Sends s
serial_writestring-Sends (c ∷ t) rest s x h = rw (ne→== c 0 x.0) (
    then-Sends (line_end c) (crlf t) s (serial_putchar c s) (serial_writestring (cstr t rest))
      (serial_putchar-Sends c s (omega (arith, h, length-append (line_end c) (crlf t))))
      (λ s' n.
        serial_writestring-Sends t rest s' x.1
          (omega (arith, h, n, length-append (line_end c) (crlf t)))))
