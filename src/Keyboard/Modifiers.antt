-- ===== src/Keyboard/Modifiers.antt =====
-- The modifier keys of keyboard.c: what a key does to them, and the packet that it sends.
use veni.Base.{ℕ, Bool, not, ◌&&◌, ◌||◌, List, [], ◌∷◌, ◌==◌, if◌then◌else◌}
use veni.Keyboard.Keys.{
  Key, code, key_leftshift, key_rightshift, key_leftcontrol, key_rightcontrol, key_leftalt,
  key_rightalt, key_capslock, key_numlock, key_scrolllock, KeyPacket,
}
use veni.Keyboard.{Keyboard}

pub record Modifiers : Type 0 where
  pub shift : Bool
  pub ctrl : Bool
  pub alt : Bool
  pub capslock : Bool
  pub numlock : Bool
  pub scrolllock : Bool

abbrev pub modifiers : Keyboard → Modifiers
modifiers k = record {
  shift = k.shift;
  ctrl = k.ctrl;
  alt = k.alt;
  capslock = k.capslock;
  numlock = k.numlock;
  scrolllock = k.scrolllock;
}

abbrev pub is_one : Key → Key → ℕ → Bool
is_one a b c = c == code a || c == code b

abbrev pub toggled : Key → ℕ → (released : Bool) → Bool → Bool
toggled key c released b = if c == code key && not released then not b else b

-- The modifiers after the key `c` went down or up: three are on while a key is down, three are
-- toggled when their key goes down.
abbrev pub after : Modifiers → (c : ℕ) (released : Bool) → Modifiers
after m c released = record {
  shift = if is_one key_leftshift key_rightshift c then not released else m.shift;
  ctrl = if is_one key_leftcontrol key_rightcontrol c then not released else m.ctrl;
  alt = if is_one key_leftalt key_rightalt c then not released else m.alt;
  capslock = toggled key_capslock c released m.capslock;
  numlock = toggled key_numlock c released m.numlock;
  scrolllock = toggled key_scrolllock c released m.scrolllock;
}

abbrev pub is_modifier : ℕ → Bool
is_modifier c =
    c == code key_leftshift
    || (c == code key_rightshift
        || (c == code key_leftcontrol
            || (c == code key_rightcontrol
                || (c == code key_leftalt
                    || (c == code key_rightalt
                        || (c == code key_capslock
                            || (c == code key_numlock || c == code key_scrolllock)))))))

-- The packet of the key `c`, which is sent unless the key is a modifier.
abbrev pub sent : Modifiers → (c : ℕ) (released : Bool) → List KeyPacket
sent m c released =
    if is_modifier c
    then []
    else record {
      keycode = c;
      pressed = not released;
      shift = m.shift;
      ctrl = m.ctrl;
      alt = m.alt;
      capslock = m.capslock;
      scrolllock = m.scrolllock;
      numlock = m.numlock;
    }
      ∷ []
