-- ===== src/Keyboard/Keys.antt =====
-- The key codes of kernel/include/kernel/kb_keys.h, and kernel/kernel/kb_keys.c, which maps a key
-- packet to a character.
use veni.Base.{
  ℕ, Bool, true, false, not, ◌&&◌, Option, some, List, [], ◌∷◌, leb, if◌then◌else◌, get_elem?,
}

-- The enumeration.
pub data Key : Type 0 where
  key_none key_a key_b key_c key_d key_e key_f key_g key_h key_i key_j key_k key_l key_m : Key
  key_n key_o key_p key_q key_r key_s key_t key_u key_v key_w key_x key_y key_z key_one : Key
  key_two key_three key_four key_five key_six key_seven key_eight key_nine key_zero : Key
  key_minus key_equal key_space key_leftbracket key_rightbracket key_semicolon : Key
  key_singlequote key_comma key_period key_slash key_backslash key_backtick key_enter : Key
  key_backspace key_tab key_escape key_capslock key_leftshift key_rightshift : Key
  key_leftcontrol key_rightcontrol key_leftalt key_rightalt key_delete key_scrolllock : Key
  key_numlock key_f1 key_f2 key_f3 key_f4 key_f5 key_f6 key_f7 key_f8 key_f9 key_f10 : Key
  key_f11 key_f12 : Key

-- The number of each, a `uint8_t`.
abbrev pub code : Key → ℕ
code key_none = 0
code key_a = 1
code key_b = 2
code key_c = 3
code key_d = 4
code key_e = 5
code key_f = 6
code key_g = 7
code key_h = 8
code key_i = 9
code key_j = 10
code key_k = 11
code key_l = 12
code key_m = 13
code key_n = 14
code key_o = 15
code key_p = 16
code key_q = 17
code key_r = 18
code key_s = 19
code key_t = 20
code key_u = 21
code key_v = 22
code key_w = 23
code key_x = 24
code key_y = 25
code key_z = 26
code key_one = 27
code key_two = 28
code key_three = 29
code key_four = 30
code key_five = 31
code key_six = 32
code key_seven = 33
code key_eight = 34
code key_nine = 35
code key_zero = 36
code key_minus = 37
code key_equal = 38
code key_space = 39
code key_leftbracket = 40
code key_rightbracket = 41
code key_semicolon = 42
code key_singlequote = 43
code key_comma = 44
code key_period = 45
code key_slash = 46
code key_backslash = 47
code key_backtick = 48
code key_enter = 49
code key_backspace = 50
code key_tab = 51
code key_escape = 52
code key_capslock = 53
code key_leftshift = 54
code key_rightshift = 55
code key_leftcontrol = 56
code key_rightcontrol = 57
code key_leftalt = 58
code key_rightalt = 59
code key_delete = 60
code key_scrolllock = 61
code key_numlock = 62
code key_f1 = 63
code key_f2 = 64
code key_f3 = 65
code key_f4 = 66
code key_f5 = 67
code key_f6 = 68
code key_f7 = 69
code key_f8 = 70
code key_f9 = 71
code key_f10 = 72
code key_f11 = 73
code key_f12 = 74

pub record KeyPacket : Type 0 where
  pub keycode : ℕ
  pub pressed : Bool
  pub shift : Bool
  pub ctrl : Bool
  pub alt : Bool
  pub capslock : Bool
  pub scrolllock : Bool
  pub numlock : Bool

-- `{0}`.
abbrev pub zero_packet : KeyPacket
zero_packet = record {
  keycode = 0;
  pressed = false;
  shift = false;
  ctrl = false;
  alt = false;
  capslock = false;
  scrolllock = false;
  numlock = false;
}

abbrev pub keycode_to_ascii : List ℕ
keycode_to_ascii =
    0 ∷ 97 ∷ 98 ∷ 99 ∷ 100 ∷ 101 ∷ 102 ∷ 103 ∷ 104 ∷ 105 ∷ 106 ∷ 107 ∷ 108 ∷ 109 ∷ 110 ∷ 111 ∷ 112
    ∷ 113 ∷ 114 ∷ 115 ∷ 116 ∷ 117 ∷ 118 ∷ 119 ∷ 120 ∷ 121 ∷ 122 ∷ 49 ∷ 50 ∷ 51 ∷ 52 ∷ 53 ∷ 54 ∷ 55
    ∷ 56 ∷ 57 ∷ 48 ∷ 45 ∷ 61 ∷ 32 ∷ 91 ∷ 93 ∷ 59 ∷ 39 ∷ 44 ∷ 46 ∷ 47 ∷ 92 ∷ 96 ∷ 10 ∷ 0 ∷ 0 ∷ 0 ∷ 0
    ∷ 0 ∷ 0 ∷ 0 ∷ 0 ∷ 0 ∷ 0 ∷ 0 ∷ 0 ∷ 0 ∷ 0 ∷ 0 ∷ 0 ∷ 0 ∷ 0 ∷ 0 ∷ 0 ∷ 0 ∷ 0 ∷ 0 ∷ 0 ∷ []

abbrev pub keycode_to_ascii_shift : List ℕ
keycode_to_ascii_shift =
    0 ∷ 65 ∷ 66 ∷ 67 ∷ 68 ∷ 69 ∷ 70 ∷ 71 ∷ 72 ∷ 73 ∷ 74 ∷ 75 ∷ 76 ∷ 77 ∷ 78 ∷ 79 ∷ 80 ∷ 81 ∷ 82 ∷ 83
    ∷ 84 ∷ 85 ∷ 86 ∷ 87 ∷ 88 ∷ 89 ∷ 90 ∷ 33 ∷ 64 ∷ 35 ∷ 36 ∷ 37 ∷ 94 ∷ 38 ∷ 42 ∷ 40 ∷ 41 ∷ 95 ∷ 43
    ∷ 32 ∷ 123 ∷ 125 ∷ 58 ∷ 34 ∷ 60 ∷ 62 ∷ 63 ∷ 124 ∷ 126 ∷ 10 ∷ 0 ∷ 0 ∷ 0 ∷ 0 ∷ 0 ∷ 0 ∷ 0 ∷ 0 ∷ 0
    ∷ 0 ∷ 0 ∷ 0 ∷ 0 ∷ 0 ∷ 0 ∷ 0 ∷ 0 ∷ 0 ∷ 0 ∷ 0 ∷ 0 ∷ 0 ∷ 0 ∷ 0 ∷ []

abbrev pub keycode_to_ascii_caps : List ℕ
keycode_to_ascii_caps =
    0 ∷ 65 ∷ 66 ∷ 67 ∷ 68 ∷ 69 ∷ 70 ∷ 71 ∷ 72 ∷ 73 ∷ 74 ∷ 75 ∷ 76 ∷ 77 ∷ 78 ∷ 79 ∷ 80 ∷ 81 ∷ 82 ∷ 83
    ∷ 84 ∷ 85 ∷ 86 ∷ 87 ∷ 88 ∷ 89 ∷ 90 ∷ 49 ∷ 50 ∷ 51 ∷ 52 ∷ 53 ∷ 54 ∷ 55 ∷ 56 ∷ 57 ∷ 48 ∷ 45 ∷ 61
    ∷ 32 ∷ 91 ∷ 93 ∷ 59 ∷ 39 ∷ 44 ∷ 46 ∷ 47 ∷ 92 ∷ 96 ∷ 10 ∷ 0 ∷ 0 ∷ 0 ∷ 0 ∷ 0 ∷ 0 ∷ 0 ∷ 0 ∷ 0 ∷ 0
    ∷ 0 ∷ 0 ∷ 0 ∷ 0 ∷ 0 ∷ 0 ∷ 0 ∷ 0 ∷ 0 ∷ 0 ∷ 0 ∷ 0 ∷ 0 ∷ 0 ∷ []

-- `^` on `bool`.
abbrev pub xor : Bool → Bool → Bool
xor true b = not b
xor false b = b

-- `none` is an access behind the table.
unfoldable pub key_to_ascii : KeyPacket → Option ℕ
key_to_ascii pkt =
    if not pkt.pressed
    then some 0
    else let is_letter = leb (code key_a) pkt.keycode && leb pkt.keycode (code key_z) in
      if is_letter && xor pkt.capslock pkt.shift
      then get_elem? keycode_to_ascii_caps pkt.keycode
      else if pkt.shift
      then get_elem? keycode_to_ascii_shift pkt.keycode
      else get_elem? keycode_to_ascii pkt.keycode
