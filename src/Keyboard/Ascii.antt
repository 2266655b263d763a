-- ===== src/Keyboard/Ascii.antt =====
-- What `key_to_ascii` of kernel/kernel/kb_keys.c returns.
use veni.Base.{
  ℕ, zero, suc, ◌+◌, ◌<◌, ◌≤◌, ◌≡◌, ◌≢◌, ◌↔◌, refl, sym, ap, ◌∙◌, Bool, true, false, ◌&&◌, ◌||◌,
  List, [], ◌∷◌, ◌==◌, leb, if◌then◌else◌, length, arith, inl, inr, Bool-cases, Option, none, some,
  get_elem?, get_or, leb→le, leb→lt, le→leb,
}
use veni.Base.Bits.{all_below, all_below_sound}
use veni.Keyboard.Keys.{
  KeyPacket, code, key_a, key_z, key_f12, xor, key_to_ascii, keycode_to_ascii,
  keycode_to_ascii_shift, keycode_to_ascii_caps,
}

get_elem?-get_or : (xs : List ℕ) (i d : ℕ) → i < length xs → get_elem? xs i ≡ some (get_or xs i d)
get_elem?-get_or [] i d h = absurd (omega arith)
get_elem?-get_or (x ∷ xs) zero d h = refl
get_elem?-get_or (x ∷ xs) (suc i) d h = get_elem?-get_or xs i d (omega arith)

get_elem?-beyond : (xs : List ℕ) (i : ℕ) → length xs ≤ i → get_elem? xs i ≡ none
get_elem?-beyond [] i h = refl
get_elem?-beyond (x ∷ xs) zero h = absurd (omega arith)
get_elem?-beyond (x ∷ xs) (suc i) h = get_elem?-beyond xs i (omega arith)

letter_row : ℕ → Bool
letter_row i =
    if leb 1 i && leb i 26
    then get_or keycode_to_ascii i 0 == i + 96
      && (get_or keycode_to_ascii_shift i 0 == i + 64 && get_or keycode_to_ascii_caps i 0 == i + 64)
    else true

letter_table : all_below 27 letter_row ≡ true
unfolding letter_row
letter_table = refl

letter_parts :
    (x y z i : ℕ)
    → 1 ≤ i
    → i ≤ 26
    → (if leb 1 i && leb i 26 then x == i + 96 && (y == i + 64 && z == i + 64) else true) ≡ true
    → (x ≡ i + 96) × (y ≡ i + 64) × (z ≡ i + 64)
letter_parts x y z i low high e = (ground (arith, e), ground (arith, e), ground (arith, e))

letter :
    (i : ℕ)
    → 1 ≤ i
    → i ≤ 26
    → (get_elem? keycode_to_ascii i ≡ some (i + 96))
      × (get_elem? keycode_to_ascii_shift i ≡ some (i + 64))
      × (get_elem? keycode_to_ascii_caps i ≡ some (i + 64))
unfolding letter_row
letter i low high =
    let (small, shifted, caps) =
      letter_parts (get_or keycode_to_ascii i 0) (get_or keycode_to_ascii_shift i 0)
        (get_or keycode_to_ascii_caps i 0) i low high
        (all_below_sound 27 letter_row i letter_table (omega arith)) in
    (
      get_elem?-get_or keycode_to_ascii i 0 (omega arith) ∙ ap some small,
      get_elem?-get_or keycode_to_ascii_shift i 0 (omega arith) ∙ ap some shifted,
      get_elem?-get_or keycode_to_ascii_caps i 0 (omega arith) ∙ ap some caps,
    )

chosen :
    (shift capslock : Bool) (t u v : Option ℕ) (i : ℕ)
    → t ≡ some (i + 96)
    → u ≡ some (i + 64)
    → v ≡ some (i + 64)
    → (if xor capslock shift then v else if shift then u else t)
      ≡ some (if shift || capslock then i + 64 else i + 96)
chosen true true t u v i small shifted caps = shifted
chosen true false t u v i small shifted caps = caps
chosen false true t u v i small shifted caps = caps
chosen false false t u v i small shifted caps = small

-- A pressed letter key gives the upper case letter if Shift or Caps Lock is on, also if both are,
-- and the lower case letter if neither is.
pub key_to_ascii_letter :
    (pkt : KeyPacket)
    → pkt.pressed ≡ true
    → code key_a ≤ pkt.keycode
    → pkt.keycode ≤ code key_z
    → key_to_ascii pkt
      ≡ some (if pkt.shift || pkt.capslock then pkt.keycode + 64 else pkt.keycode + 96)
unfolding key_to_ascii
key_to_ascii_letter pkt down low high =
    let (small, shifted, caps) = letter pkt.keycode low high in
    rw (down, le→leb 1 pkt.keycode low, le→leb pkt.keycode 26 high)
      (chosen pkt.shift pkt.capslock (get_elem? keycode_to_ascii pkt.keycode)
        (get_elem? keycode_to_ascii_shift pkt.keycode) (get_elem? keycode_to_ascii_caps pkt.keycode)
        pkt.keycode small shifted caps)

table_read :
    (pkt : KeyPacket)
    → pkt.pressed ≡ true
    → (t : List ℕ) × (key_to_ascii pkt ≡ get_elem? t pkt.keycode) × (length t ≡ 74)
unfolding key_to_ascii
table_read pkt down =
    elim (Bool-cases ((leb 1 pkt.keycode && leb pkt.keycode 26) && xor pkt.capslock pkt.shift)) [
      | inl caps ↦ (keycode_to_ascii_caps, rw (down, caps) refl, refl)
      | inr other ↦ elim (Bool-cases pkt.shift) [
        | inl on ↦ (keycode_to_ascii_shift, rw (down, other, on) refl, refl)
        | inr off ↦ (keycode_to_ascii, rw (down, other, off) refl, refl)
      ]
    ]

none_not_some : (x : ℕ) → none ≢ some x
none_not_some x e = cc

released_packet : (pkt : KeyPacket) → pkt.pressed ≡ false → key_to_ascii pkt ≡ some 0
unfolding key_to_ascii
released_packet pkt up = rw up refl

behind : (t : List ℕ) (i : ℕ) → length t ≡ 74 → get_elem? t i ≡ none → 74 ≤ i
behind t i l h = elim (Bool-cases (leb 74 i)) [
  | inl high ↦ leb→le 74 i high
  | inr low ↦ absurd (
      none_not_some (get_or t i 0)
        (sym h ∙ get_elem?-get_or t i 0 (omega (arith, l, leb→lt 74 i low))))
]

to_none :
    (pkt : KeyPacket)
    → key_to_ascii pkt ≡ none
    → (pkt.pressed ≡ true) × (code key_f12 ≤ pkt.keycode)
to_none pkt h = elim (Bool-cases pkt.pressed) [
  | inl down ↦ let (t, e, l) = table_read pkt down in (down, behind t pkt.keycode l (sym e ∙ h))
  | inr up ↦ absurd (none_not_some 0 (sym h ∙ released_packet pkt up))
]

from_none :
    (pkt : KeyPacket)
    → (pkt.pressed ≡ true) × (code key_f12 ≤ pkt.keycode)
    → key_to_ascii pkt ≡ none
from_none pkt (down, high) =
    let (t, e, l) = table_read pkt down in
    e ∙ get_elem?-beyond t pkt.keycode (omega (arith, l, high))

-- `key_to_ascii` reads behind its table exactly for the packet of a pressed key with a code of 74,
-- which is that of F12, or more.
pub key_to_ascii-none :
    (pkt : KeyPacket)
    → (key_to_ascii pkt ≡ none) ↔ ((pkt.pressed ≡ true) × (code key_f12 ≤ pkt.keycode))
key_to_ascii-none pkt = (to_none pkt, from_none pkt)
