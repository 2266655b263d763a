-- ===== src/Keyboard/Tests.antt =====
-- keyboard.c and kb_keys.c on scan codes and packets, and the theorems at them.
use mathlib.Core.Option
use veni.Base.{
  ℕ, ◌≤◌, ◌≡◌, ◌↔◌, refl, true, false, Bool, List, [], ◌∷◌, ◌++◌, some, none, arith, take,
}
use veni.Keyboard.{
  initial, buffer_push, handle_key, handle_scancode, keyboard_handler, keyboard_getkey,
}
use veni.Keyboard.Keys.{KeyPacket, zero_packet, code, key_f12, key_to_ascii}
use veni.Keyboard.Queue.{IsValid, pending}
use veni.Keyboard.Modifiers.{modifiers}
use veni.Keyboard.Stream.{packets, after_all, keyboard_handler-packets, AreBytes}
use veni.Keyboard.Readers.{first, concat, keyboard_getkey-first}
use veni.Keyboard.Ascii.{key_to_ascii-none}

initial-IsValid : IsValid initial
initial-IsValid = record { head = omega arith; tail = omega arith; room = refl }

-- Shift down, A down, A up, Shift up, A down.
abbrev typed : List ℕ
typed = 42 ∷ 30 ∷ 158 ∷ 170 ∷ 30 ∷ []

typed-AreBytes : AreBytes typed
typed-AreBytes = (omega arith, (omega arith, (omega arith, (omega arith, (omega arith, refl)))))

abbrev letter_a : Bool → Bool → KeyPacket
letter_a shift pressed = record zero_packet { keycode = 1; shift = shift; pressed = pressed }

queued :
    pending (keyboard_handler initial typed)
    ≡ letter_a true true ∷ letter_a true false ∷ letter_a false true ∷ []
unfolding keyboard_handler handle_scancode handle_key buffer_push
queued = refl

-- The Caps Lock key sends 0x3A, for which the table has no key; F1 sends 0x3B and toggles the lock.
caps_lock :
    ((keyboard_handler initial (58 ∷ [])).capslock ≡ false)
    × ((keyboard_handler initial (59 ∷ [])).capslock ≡ true)
unfolding keyboard_handler handle_scancode handle_key
caps_lock = (refl, refl)

characters :
    (key_to_ascii (letter_a true true) ≡ some 65)
    × (key_to_ascii (letter_a false true) ≡ some 97)
    × (key_to_ascii (record zero_packet { keycode = 27; shift = true; pressed = true }) ≡ some 33)
    × (key_to_ascii (record zero_packet { keycode = 74; pressed = true }) ≡ none)
unfolding key_to_ascii
characters = (refl, refl, refl, refl)

keyboard_handler-packets_example :
    IsValid (keyboard_handler initial typed)
    × (modifiers (keyboard_handler initial typed) ≡ after_all (modifiers initial) typed)
    × (pending (keyboard_handler initial typed)
        ≡ take 127 (pending initial ++ packets (modifiers initial) typed))
keyboard_handler-packets_example =
    keyboard_handler-packets initial typed initial-IsValid typed-AreBytes

-- The first interrupt brings the Shift key only.
keyboard_getkey-first_example :
    Option.map (λ r. r.0) (keyboard_getkey initial ((42 ∷ []) ∷ (30 ∷ []) ∷ []))
    ≡ first (pending initial ++ packets (modifiers initial) (concat ((42 ∷ []) ∷ (30 ∷ []) ∷ [])))
keyboard_getkey-first_example =
    keyboard_getkey-first initial ((42 ∷ []) ∷ (30 ∷ []) ∷ []) initial-IsValid
      ((omega arith, refl), ((omega arith, refl), refl))

key_to_ascii-none_example :
    (key_to_ascii (record zero_packet { keycode = 74; pressed = true }) ≡ none)
    ↔ ((true ≡ true) × (code key_f12 ≤ 74))
key_to_ascii-none_example = key_to_ascii-none (record zero_packet { keycode = 74; pressed = true })
