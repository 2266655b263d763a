-- ===== src/Keyboard.antt =====
-- kernel/arch/i386/drivers/keyboard/keyboard.c: scan codes become key packets in a ring buffer.
pub mod Keys
pub mod Queue
pub mod Modifiers
pub mod Handled
pub mod Stream
pub mod Readers
pub mod Ascii
mod Tests
use veni.Base.{
  ℕ, zero, suc, ◌+◌, ◌%◌, ◌≡◌, Bool, true, false, not, ◌&&◌, ◌||◌, List, [], ◌∷◌, ◌++◌, bit_and,
  Option, none, some, ◌==◌, leb, if◌then◌else◌, get_or, set, replicate,
}
use Keys.{
  Key, code, key_a, key_b, key_c, key_d, key_e, key_f, key_g, key_h, key_i, key_j, key_k, key_l,
  key_m, key_n, key_o, key_p, key_q, key_r, key_s, key_t, key_u, key_v, key_w, key_x, key_y, key_z,
  key_one, key_two, key_three, key_four, key_five, key_six, key_seven, key_eight, key_nine,
  key_zero, key_minus, key_equal, key_space, key_leftbracket, key_rightbracket, key_semicolon,
  key_singlequote, key_comma, key_period, key_slash, key_backslash, key_backtick, key_enter,
  key_backspace, key_tab, key_capslock, key_leftshift, key_rightshift, key_leftcontrol, key_leftalt,
  key_scrolllock, key_numlock, key_f1, key_f2, key_f3, key_f4, key_f5, key_f6, key_f7, key_f8,
  key_f9, key_f10, key_f11, key_f12, key_none, key_rightcontrol, key_rightalt, KeyPacket,
  zero_packet,
}

-- `BUFFER_SIZE`.
abbrev pub buffer_size : ℕ
buffer_size = 128

-- The file's static variables; `int` suffices for the two indices, which stay below 128.
pub record Keyboard : Type 0 where
  pub buffer : List KeyPacket
  pub buffer_head : ℕ
  pub buffer_tail : ℕ
  pub shift : Bool
  pub ctrl : Bool
  pub alt : Bool
  pub capslock : Bool
  pub numlock : Bool
  pub scrolllock : Bool

-- Their values at the start.
abbrev pub initial : Keyboard
initial = record {
  buffer = replicate 128 zero_packet;
  buffer_head = 0;
  buffer_tail = 0;
  shift = false;
  ctrl = false;
  alt = false;
  capslock = false;
  numlock = false;
  scrolllock = false;
}

-- The table up to its last initialiser; the elements that follow are 0.
abbrev pub set1_scancode_to_keycode : List ℕ
set1_scancode_to_keycode =
    0
    ∷ 0
    ∷ code key_one
    ∷ code key_two
    ∷ code key_three
    ∷ code key_four
    ∷ code key_five
    ∷ code key_six
    ∷ code key_seven
    ∷ code key_eight
    ∷ code key_nine
    ∷ code key_zero
    ∷ code key_minus
    ∷ code key_equal
    ∷ code key_backspace
    ∷ code key_tab
    ∷ code key_q
    ∷ code key_w
    ∷ code key_e
    ∷ code key_r
    ∷ code key_t
    ∷ code key_y
    ∷ code key_u
    ∷ code key_i
    ∷ code key_o
    ∷ code key_p
    ∷ code key_leftbracket
    ∷ code key_rightbracket
    ∷ code key_enter
    ∷ code key_leftcontrol
    ∷ code key_a
    ∷ code key_s
    ∷ code key_d
    ∷ code key_f
    ∷ code key_g
    ∷ code key_h
    ∷ code key_j
    ∷ code key_k
    ∷ code key_l
    ∷ code key_semicolon
    ∷ code key_singlequote
    ∷ code key_backtick
    ∷ code key_leftshift
    ∷ code key_backslash
    ∷ code key_z
    ∷ code key_x
    ∷ code key_c
    ∷ code key_v
    ∷ code key_b
    ∷ code key_n
    ∷ code key_m
    ∷ code key_comma
    ∷ code key_period
    ∷ code key_slash
    ∷ code key_rightshift
    ∷ 0
    ∷ code key_leftalt
    ∷ code key_space
    ∷ 0
    ∷ code key_capslock
    ∷ code key_f1
    ∷ code key_f2
    ∷ code key_f3
    ∷ code key_f4
    ∷ code key_f5
    ∷ code key_f6
    ∷ code key_f7
    ∷ code key_f8
    ∷ code key_f9
    ∷ code key_f10
    ∷ code key_numlock
    ∷ code key_scrolllock
    ∷ 0
    ∷ 0
    ∷ 0
    ∷ 0
    ∷ 0
    ∷ 0
    ∷ 0
    ∷ 0
    ∷ 0
    ∷ 0
    ∷ 0
    ∷ 0
    ∷ 0
    ∷ 0
    ∷ 0
    ∷ 0
    ∷ code key_f11
    ∷ code key_f12
    ∷ []

unfoldable pub buffer_push : Keyboard → KeyPacket → Keyboard
buffer_push k pkt =
    let next = (k.buffer_head + 1) % buffer_size in
    if not (next == k.buffer_tail)
    then record k { buffer = set k.buffer k.buffer_head pkt; buffer_head = next }
    else k

abbrev pub buffer_empty : Keyboard → Bool
buffer_empty k = k.buffer_head == k.buffer_tail

-- The call of `io_wait` only takes time.
unfoldable pub buffer_pop : Keyboard → KeyPacket × Keyboard
buffer_pop k = if buffer_empty k then (zero_packet, k) else (
  get_or k.buffer k.buffer_tail zero_packet,
  record k { buffer_tail = (k.buffer_tail + 1) % buffer_size },
)

-- The packet that is sent for a key, with the modifiers as they are.
abbrev pub packet : Keyboard → (keycode : ℕ) (released : Bool) → KeyPacket
packet k keycode released = record {
  keycode = keycode;
  pressed = not released;
  shift = k.shift;
  ctrl = k.ctrl;
  alt = k.alt;
  capslock = k.capslock;
  scrolllock = k.scrolllock;
  numlock = k.numlock;
}

-- The `switch` and what follows it.
unfoldable pub handle_key : Keyboard → (keycode : ℕ) (released : Bool) → Keyboard
handle_key k keycode released =
    if keycode == code key_leftshift || keycode == code key_rightshift
    then record k { shift = not released }
    else if keycode == code key_leftcontrol || keycode == code key_rightcontrol
    then record k { ctrl = not released }
    else if keycode == code key_leftalt || keycode == code key_rightalt
    then record k { alt = not released }
    else if keycode == code key_capslock
    then (if not released then record k { capslock = not k.capslock } else k)
    else if keycode == code key_numlock
    then (if not released then record k { numlock = not k.numlock } else k)
    else if keycode == code key_scrolllock
    then (if not released then record k { scrolllock = not k.scrolllock } else k)
    else buffer_push k (packet k keycode released)

-- One round of the handler's loop, for the byte `sc`.
unfoldable pub handle_scancode : Keyboard → (sc : ℕ) → Keyboard
handle_scancode k sc =
    let released = not (bit_and sc 128 == 0) in
    let scancode = bit_and sc 127 in
    if leb 128 scancode
    then k
    else let keycode = get_or set1_scancode_to_keycode scancode 0 in
      if keycode == code key_none then k else handle_key k keycode released

-- The loop over the bytes that the controller has ready.
unfoldable pub keyboard_handler : Keyboard → List ℕ → Keyboard
keyboard_handler k [] = k
keyboard_handler k (sc ∷ rest) = keyboard_handler (handle_scancode k sc) rest

unfoldable pub keyboard_available : Keyboard → Bool
keyboard_available k = not (buffer_empty k)

unfoldable pub keyboard_readkey : Keyboard → KeyPacket × Keyboard
keyboard_readkey k = if buffer_empty k then (zero_packet, k) else buffer_pop k

-- `keyboard_getkey`, with the bytes of the interrupts that arrive while it waits, one list for
-- each call of `io_wait`; `none` if the buffer is still empty behind the last of them.
unfoldable pub keyboard_getkey : Keyboard → List (List ℕ) → Option (KeyPacket × Keyboard)
keyboard_getkey k [] = if buffer_empty k then none else some (buffer_pop k)
keyboard_getkey k (bytes ∷ later) =
    let waited = keyboard_getkey (keyboard_handler k bytes) later in
    if buffer_empty k then waited else some (buffer_pop k)
