-- ===== src/Interrupts/Dispatch.antt =====
-- kernel/arch/i386/interrupts/isr.c: what an interrupt of the controllers runs.
use mathlib.Core.Option.{some_inj}
use veni.Base.{
  ℕ, zero, suc, ◌+◌, ◌-◌, ◌/◌, ◌%◌, ◌^◌, ◌<◌, ◌≤◌, ◌≡◌, refl, sym, ap, subst, ◌∙◌, arith, true,
  false, List, [], ◌∷◌, ◌++◌, ◌==◌, if◌then◌else◌, Option, some, ◌>>=◌, length, length-append,
  Bool-cases, inl, inr, ==→ne, ltb, leb, none_is_some, ==→eq, lt→ltb, le→ltb, ne→==, append_nil,
  lt→leb, le→leb, ltb→lt, ltb→le,
}
use veni.CString.Text.{Text, of_string}
use veni.Keyboard.{Keyboard, keyboard_handler}
use veni.Printf.{int, int_text, put_digits}
use veni.Serial.Sent.{crlf, empty_count, sent_bytes, done}
use veni.Tty.Screen.{IsValid}
use veni.Console.{Console, print_format}
use veni.Console.Printed.{Printed, is_bytes, byte_first, print_format-Printed}
use veni.Printf.Digits.{read_int-int_text}
use veni.Printf.Format.{ends, plain, number, plain_run}
use veni.Interrupts.{Machine, pic_send_eoi}

-- `tick_count` of pit.c, the keyboard, what `printf` writes to, and the ports of the interrupt
-- controllers. The ports of the screen's cursor and the serial ones are in the console.
pub record Kernel (M : Machine) : Type 0 where
  pub tick_count : ℕ
  pub keyboard : Keyboard
  pub console : Console
  pub controllers : M.State

module _ (M : Machine) where
  unfoldable pub pit_handler : Kernel M → Kernel M
  pit_handler s = record s { tick_count = (s.tick_count + 1) % 2 ^ 32 }

  unfoldable pub get_ticks : Kernel M → ℕ
  get_ticks s = s.tick_count

  -- `uint8_t irq = vector - 32`.
  abbrev irq_number : ℕ → ℕ
  irq_number vector = (vector + 2 ^ 32 - 32) % 2 ^ 8

  -- The default branch; `none` if `printf` faults, or still waits for the serial port behind what that
  -- port gives.
  unfoldable pub unhandled : ℕ → Kernel M → Option (Kernel M)
  unhandled irq s =
      print_format (of_string "Unhandled IRQ: %d" ++ 0x0A ∷ []) (int irq ∷ []) s.console
      >>= λ console. some (record s { console = console })

  -- The `switch`.
  unfoldable pub dispatch : (irq : ℕ) (scancodes : List ℕ) → Kernel M → Option (Kernel M)
  dispatch irq scancodes s =
      if irq == 0
      then some (pit_handler s)
      else if irq == 1
      then some (record s { keyboard = keyboard_handler s.keyboard scancodes })
      else unhandled irq s

  unfoldable pub irq_handler : (vector : ℕ) (scancodes : List ℕ) → Kernel M → Option (Kernel M)
  irq_handler vector scancodes s = dispatch (irq_number vector) scancodes s >>= λ t.
      some (record t { controllers = pic_send_eoi M (irq_number vector) t.controllers })

-- What an unhandled interrupt prints.
abbrev pub message : Text → Text
message digits = of_string "Unhandled IRQ: " ++ digits ++ 0x0A ∷ []

-- What is printed for a line.
abbrev pub printed_for : (irq : ℕ) (digits : Text) → Text
printed_for irq digits = if ltb irq 2 then [] else message digits

cons-is_bytes : (c : ℕ) (t : Text) → c < 2 ^ 8 → is_bytes t ≡ true → is_bytes (c ∷ t) ≡ true
cons-is_bytes c t small b = rw (lt→ltb c (2 ^ 8) small) b

put_digits-is_bytes :
    (room num : ℕ) (acc t : Text)
    → is_bytes acc ≡ true
    → put_digits room num acc ≡ some t
    → is_bytes t ≡ true
unfolding put_digits
put_digits-is_bytes zero num acc t b e = none_is_some t e
put_digits-is_bytes (suc room) num acc t b e = elim (Bool-cases (ltb 0 (num / 10))) [
  | inl more ↦ put_digits-is_bytes room (num / 10) ((0x30 + num % 10) ∷ acc) t here (rw more at e)
  | inr last ↦ subst (λ u. is_bytes u ≡ true) (some_inj.0 (rw last at e)) here
]
  where
    here : is_bytes ((0x30 + num % 10) ∷ acc) ≡ true
    here = cons-is_bytes (0x30 + num % 10) acc (omega arith) b

int_text-is_bytes : (num : ℕ) (t : Text) → num < 2 ^ 31 → int_text num ≡ some t → is_bytes t ≡ true
unfolding int_text
int_text-is_bytes num t lt e =
    put_digits-is_bytes 31 num [] t refl (rw (lt→ltb num (2 ^ 31) lt) at e)

bytes_append : (t : Text) → is_bytes t ≡ true → is_bytes (t ++ 0x0A ∷ []) ≡ true
bytes_append [] b = refl
bytes_append (c ∷ t) b =
    let (small, rest) = byte_first c t b in
    cons-is_bytes c (t ++ 0x0A ∷ []) small (bytes_append t rest)

message-Printed :
    (irq : ℕ) (digits : Text) (s : Console)
    → irq < 16
    → int_text irq ≡ some digits
    → length digits ≤ 11
    → IsValid s.tty
    → length (crlf (message digits)) ≤ empty_count s.serial.statuses
    → Printed
        (message digits)
        s
        (print_format (of_string "Unhandled IRQ: %d" ++ 0x0A ∷ []) (int irq ∷ []) s)
message-Printed irq digits s lt e short v h =
    print_format-Printed (of_string "Unhandled IRQ: %d" ++ 0x0A ∷ []) (int irq ∷ [])
      (message digits) s
      (plain_run (of_string "Unhandled IRQ: ") _ _ _ refl (
        number (0x0A ∷ []) irq digits [] (0x0A ∷ []) e
          (plain 0x0A [] [] [] (λ e. omega arith) (ends []))))
      (omega (arith, length-append digits (0x0A ∷ [])))
      (bytes_append digits (int_text-is_bytes irq digits (omega arith) e)) v h

-- A call returned, with what the line `irq` asks for done, and `controllers` as their ports.
pub record Dispatched (M : Machine) (irq : ℕ) (scancodes : List ℕ) (digits : Text) (s : Kernel M)
    (controllers : M.State) (result : Option (Kernel M)) : Type 0 where
  pub after : Kernel M
  pub returned : result ≡ some after
  pub ticked : after.tick_count ≡ (if irq == 0 then (s.tick_count + 1) % 2 ^ 32 else s.tick_count)
  pub keys :
      after.keyboard ≡ (if irq == 1 then keyboard_handler s.keyboard scancodes else s.keyboard)
  pub printed : Printed (printed_for irq digits) s.console (some after.console)
  pub signalled : after.controllers ≡ controllers

nothing-Printed : (s : Console) → IsValid s.tty → Printed [] s (some s)
unfolding crlf
nothing-Printed s v = record {
  after = s;
  returned = refl;
  shown = record { shown = refl; same_color = refl; valid = v };
  events = [];
  traced = sym (append_nil s.serial.trace);
  polled = done;
  sent = sym (append_nil (sent_bytes s.serial.trace));
  waits = omega arith;
}

dispatch-Dispatched :
    (M : Machine) (irq : ℕ) (scancodes : List ℕ) (digits : Text) (s : Kernel M)
    → irq < 16
    → int_text irq ≡ some digits
    → length digits ≤ 11
    → IsValid s.console.tty
    → length (crlf (printed_for irq digits)) ≤ empty_count s.console.serial.statuses
    → Dispatched M irq scancodes digits s s.controllers (dispatch M irq scancodes s)
unfolding dispatch unhandled pit_handler
dispatch-Dispatched M irq scancodes digits s lt e short v h = elim (Bool-cases (irq == 0)) [
  | inl timer ↦ record {
    after = pit_handler M s;
    returned = rw timer refl;
    ticked = rw timer refl;
    keys = rw (ne→== irq 1 (λ o. omega (arith, ==→eq irq 0 timer))) refl;
    printed = rw (lt→ltb irq 2 (omega (arith, ==→eq irq 0 timer))) (nothing-Printed s.console v);
    signalled = refl;
  }
  | inr other ↦ elim (Bool-cases (irq == 1)) [
    | inl key ↦ record {
      after = record s { keyboard = keyboard_handler s.keyboard scancodes };
      returned = rw (other, key) refl;
      ticked = rw other refl;
      keys = rw key refl;
      printed = rw (lt→ltb irq 2 (omega (arith, ==→eq irq 1 key))) (nothing-Printed s.console v);
      signalled = refl;
    }
    | inr rest ↦
        let high = le→ltb irq 2 (omega (arith, ==→ne irq 0 other, ==→ne irq 1 rest)) in
        printed_line other rest high
          (message-Printed irq digits s.console lt e short v (rw high at h))
  ]
]
  where
    printed_line :
        (irq == 0) ≡ false
        → (irq == 1) ≡ false
        → ltb irq 2 ≡ false
        → Printed
            (message digits)
            s.console
            (print_format (of_string "Unhandled IRQ: %d" ++ 0x0A ∷ []) (int irq ∷ []) s.console)
        → Dispatched M irq scancodes digits s s.controllers (dispatch M irq scancodes s)
    printed_line other rest high p = record {
      after = record s { console = p.after };
      returned = rw (other, rest, p.returned) refl;
      ticked = rw other refl;
      keys = rw rest refl;
      printed = rw high (record {
        after = p.after;
        returned = refl;
        shown = p.shown;
        events = p.events;
        traced = p.traced;
        polled = p.polled;
        sent = p.sent;
        waits = p.waits;
      });
      signalled = refl;
    }

-- The end of an interrupt is signalled to the second controller, at port 0xA0, if the line is one of
-- its, and then to the first, at 0x20.
abbrev pub signalled_end : (M : Machine) (irq : ℕ) → M.State → M.State
signalled_end M irq s = M.outb 0x20 0x20 (if leb 8 irq then M.outb 0xA0 0x20 s else s)

second_line {ℓ} :
    {S : Type ℓ} (irq : ℕ) (s t : S) → (if ltb irq 8 then s else t) ≡ (if leb 8 irq then t else s)
second_line irq s t = elim (Bool-cases (ltb irq 8)) [
  | inl low ↦ rw (low, lt→leb 8 irq (ltb→lt irq 8 low)) refl
  | inr high ↦ rw (high, le→leb 8 irq (ltb→le irq 8 high)) refl
]

pic_send_eoi-signalled_end :
    (M : Machine) (irq : ℕ) (s : M.State) → pic_send_eoi M irq s ≡ signalled_end M irq s
unfolding pic_send_eoi
pic_send_eoi-signalled_end M irq s = ap (M.outb 0x20 0x20) (second_line irq s (M.outb 0xA0 0x20 s))

-- For each of the 16 lines, on a valid terminal: once the serial port has been empty as often as there
-- are bytes to send, `irq_handler` returns. It has counted a tick of the timer (line 0), read the
-- keyboard (line 1), or printed on the terminal and the serial port that the line, in decimal, is not
-- handled (the others), and nothing else of these; then it has signalled the end of the interrupt, to
-- both controllers if the line is 8 or above, to the first one if not.
pub irq_handler-Dispatched :
    (M : Machine) (irq : ℕ) (scancodes : List ℕ) (digits : Text) (s : Kernel M)
    → irq < 16
    → int_text irq ≡ some digits
    → IsValid s.console.tty
    → length (crlf (printed_for irq digits)) ≤ empty_count s.console.serial.statuses
    → Dispatched M irq scancodes digits s
        (signalled_end M irq s.controllers)
        (irq_handler M (32 + irq) scancodes s)
unfolding irq_handler
irq_handler-Dispatched M irq scancodes digits s lt e v h =
    let d = dispatch-Dispatched M irq scancodes digits s lt e short v h in
    record {
      after = record d.after { controllers = pic_send_eoi M irq d.after.controllers };
      returned = rw (same, d.returned) refl;
      ticked = d.ticked;
      keys = d.keys;
      printed = d.printed;
      signalled =
          ap (pic_send_eoi M irq) d.signalled ∙ pic_send_eoi-signalled_end M irq s.controllers;
    }
  where
    same : (32 + irq + 2 ^ 32 - 32) % 2 ^ 8 ≡ irq
    same = omega arith

    short : length digits ≤ 11
    short =
        let (text, e', _, le) = read_int-int_text irq (omega arith) (λ f. omega arith) in
        omega (arith, ap length (some_inj.0 (sym e' ∙ e)))
