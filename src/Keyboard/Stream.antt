-- ===== src/Keyboard/Stream.antt =====
-- The packets that the bytes of the keyboard stand for, and what the handler makes of them.
use veni.Base.{
  ℕ, zero, suc, ◌%◌, ◌<◌, ◌≡◌, refl, sym, ap, ap₂, subst, ◌∙◌, Bool, true, false, not, ◌&&◌, List,
  [], ◌∷◌, ◌++◌, ◌==◌, leb, if◌then◌else◌, get_or, take, arith, inl, inr, lt→leb, Bool-cases,
  bit_and,
}
use veni.Base.Bits.{all_below, all_below_sound}
use veni.Keyboard.Keys.{KeyPacket}
use veni.Keyboard.{
  Keyboard, set1_scancode_to_keycode, handle_key, handle_scancode, keyboard_handler,
}
use veni.Keyboard.Modifiers.{Modifiers, modifiers, after, sent}
use veni.Keyboard.Handled.{Handled, nothing_sent, key-Handled}
use veni.Keyboard.Queue.{IsValid, pending}

-- The key and the direction that a byte stands for.
abbrev pub key_of : ℕ → ℕ
key_of sc = get_or set1_scancode_to_keycode (sc % 128) 0

abbrev pub is_release : ℕ → Bool
is_release sc = leb 128 sc

-- The packets that a run of bytes sends, and nothing for a byte without a key.
unfoldable pub packets : Modifiers → List ℕ → List KeyPacket
packets m [] = []
packets m (sc ∷ rest) =
    let later = packets (after m (key_of sc) (is_release sc)) rest in
    if key_of sc == 0 then packets m rest else sent m (key_of sc) (is_release sc) ++ later

-- The modifiers after a run of bytes.
unfoldable pub after_all : Modifiers → List ℕ → Modifiers
after_all m [] = m
after_all m (sc ∷ rest) =
    if key_of sc == 0
    then after_all m rest
    else after_all (after m (key_of sc) (is_release sc)) rest

abbrev pub AreBytes : List ℕ → Type 0
AreBytes [] = true ≡ true
AreBytes (sc ∷ rest) = (sc < 256) × AreBytes rest

mask_row : ℕ → Bool
mask_row sc =
    bit_and sc 127 == sc % 128
    && (if bit_and sc 128 == 0 then not (is_release sc) else is_release sc)

mask_table : all_below 256 mask_row ≡ true
unfolding mask_row
mask_table = refl

bit_and-release :
    (sc : ℕ) → sc < 256 → (bit_and sc 127 ≡ sc % 128) × (not (bit_and sc 128 == 0) ≡ is_release sc)
unfolding mask_row
bit_and-release sc h =
    let e = all_below_sound 256 mask_row sc mask_table h in (ground (arith, e), ground (arith, e))

-- The keyboard `k'` after a run of bytes.
record Streamed (k : Keyboard) (bytes : List ℕ) (k' : Keyboard) : Type 0 where
  mods : modifiers k' ≡ after_all (modifiers k) bytes
  queue : pending k' ≡ take 127 (pending k ++ packets (modifiers k) bytes)
  valid : IsValid k'

handle_scancode-key :
    (k : Keyboard) (sc : ℕ)
    → sc < 256
    → handle_scancode k sc
      ≡ (if key_of sc == 0 then k else handle_key k (key_of sc) (is_release sc))
unfolding handle_scancode
handle_scancode-key k sc h =
    let (low, up) = bit_and-release sc h in rw (low, up, lt→leb 128 (sc % 128) (omega arith)) refl

take-take : (n : ℕ) (xs ys : List KeyPacket) → take n (take n xs ++ ys) ≡ take n (xs ++ ys)
take-take zero xs ys = refl
take-take (suc n) [] ys = refl
take-take (suc n) (x ∷ xs) ys = ap (λ zs. x ∷ zs) (take-take n xs ys)

append_assoc : (xs ys zs : List KeyPacket) → (xs ++ ys) ++ zs ≡ xs ++ (ys ++ zs)
append_assoc [] ys zs = refl
append_assoc (x ∷ xs) ys zs = ap (λ ws. x ∷ ws) (append_assoc xs ys zs)

skipped :
    (k : Keyboard) (sc : ℕ) (rest : List ℕ) {k' : Keyboard}
    → (key_of sc == 0) ≡ true
    → Streamed k rest k'
    → Streamed k (sc ∷ rest) k'
unfolding packets after_all
skipped k sc rest no_key done = record {
  mods = rw no_key done.mods;
  queue = rw no_key done.queue;
  valid = done.valid;
}

taken :
    (k : Keyboard) (sc : ℕ) (rest : List ℕ) {k' k'' : Keyboard}
    → (key_of sc == 0) ≡ false
    → Handled k (key_of sc) (is_release sc) k'
    → Streamed k' rest k''
    → Streamed k (sc ∷ rest) k''
unfolding packets after_all
taken k sc rest key now done = record {
  mods = rw key (done.mods ∙ ap (λ m. after_all m rest) now.mods);
  queue = rw key (
      done.queue
      ∙ ap₂ (λ ps m. take 127 (ps ++ packets m rest)) now.queue now.mods
      ∙ take-take 127 (pending k ++ first) later
      ∙ ap (take 127) (append_assoc (pending k) first later));
  valid = done.valid;
}
  where
    first : List KeyPacket
    first = sent (modifiers k) (key_of sc) (is_release sc)

    later : List KeyPacket
    later = packets (after (modifiers k) (key_of sc) (is_release sc)) rest

streamed :
    (bytes : List ℕ) (k : Keyboard)
    → IsValid k
    → AreBytes bytes
    → Streamed k bytes (keyboard_handler k bytes)
unfolding keyboard_handler packets after_all
streamed [] k v _ = record { mods = refl; queue = nothing_sent k v; valid = v }
streamed (sc ∷ rest) k v (h, hs) =
    subst (λ j. Streamed k (sc ∷ rest) (keyboard_handler j rest)) (sym (handle_scancode-key k sc h))
      (elim (Bool-cases (key_of sc == 0)) [
        | inl no_key ↦ rw no_key (skipped k sc rest no_key (streamed rest k v hs))
        | inr key ↦
            let now = key-Handled k v (key_of sc) (is_release sc) in
            rw key (
              taken k sc rest key now
                (streamed rest (handle_key k (key_of sc) (is_release sc)) now.valid hs))
      ])

-- From a valid state and for any bytes, `keyboard_handler` leaves the packets that waited and then
-- those that the bytes stand for, the first 127 of them, and the modifiers as the bytes set them,
-- those of packets that were dropped too.
pub keyboard_handler-packets :
    (k : Keyboard) (bytes : List ℕ)
    → IsValid k
    → AreBytes bytes
    → IsValid (keyboard_handler k bytes)
      × (modifiers (keyboard_handler k bytes) ≡ after_all (modifiers k) bytes)
      × (pending (keyboard_handler k bytes) ≡ take 127 (pending k ++ packets (modifiers k) bytes))
keyboard_handler-packets k bytes v h =
    let done = streamed bytes k v h in (done.valid, done.mods, done.queue)

pub packets-append :
    (m : Modifiers) (b rest : List ℕ)
    → packets m (b ++ rest) ≡ packets m b ++ packets (after_all m b) rest
unfolding packets after_all
packets-append m [] rest = refl
packets-append m (sc ∷ b) rest = elim (Bool-cases (key_of sc == 0)) [
  | inl no_key ↦ rw no_key (packets-append m b rest)
  | inr key ↦ rw key (
      ap (λ ps. sent m (key_of sc) (is_release sc) ++ ps)
        (packets-append (after m (key_of sc) (is_release sc)) b rest)
      ∙ sym (
          append_assoc (sent m (key_of sc) (is_release sc))
            (packets (after m (key_of sc) (is_release sc)) b)
            (packets (after_all (after m (key_of sc) (is_release sc)) b) rest)))
]
