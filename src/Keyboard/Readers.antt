-- ===== src/Keyboard/Readers.antt =====
-- `keyboard_available`, `keyboard_readkey` and `keyboard_getkey` of keyboard.c.
use mathlib.Core.Option
use veni.Base.{
  ℕ, zero, suc, ◌≡◌, refl, sym, ap, ap₂, ◌∙◌, Bool, true, false, not, List, [], ◌∷◌, ◌++◌, ◌==◌,
  take, arith, inl, inr, true≢false, Bool-cases, eq→==, ne→==, Option, none, some,
}
use veni.Keyboard.Keys.{KeyPacket}
use veni.Keyboard.{
  Keyboard, buffer_pop, keyboard_available, keyboard_readkey, keyboard_getkey, keyboard_handler,
}
use veni.Keyboard.Queue.{IsValid, pending, count, window, front, pop-front}
use veni.Keyboard.Modifiers.{modifiers}
use veni.Keyboard.Stream.{packets, after_all, AreBytes, keyboard_handler-packets, packets-append}

abbrev pub is_nil : List KeyPacket → Bool
is_nil [] = true
is_nil (p ∷ ps) = false

-- Nothing waits exactly if the head is at the tail.
empty-is_nil : (k : Keyboard) → IsValid k → (k.buffer_head == k.buffer_tail) ≡ is_nil (pending k)
empty-is_nil k v = by_count (count k) refl
  where
    by_count :
        (n : ℕ)
        → count k ≡ n
        → (k.buffer_head == k.buffer_tail) ≡ is_nil (window n k.buffer_tail k.buffer)
    by_count zero e = eq→== _ _ (omega (arith, e, v.head, v.tail))
    by_count (suc n) e = ne→== _ _ (λ same. omega (arith, e, v.head, v.tail, same))

readkey-pop : (k : Keyboard) → keyboard_readkey k ≡ buffer_pop k
unfolding keyboard_readkey buffer_pop
readkey-pop k = elim (Bool-cases (k.buffer_head == k.buffer_tail)) [
  | inl empty ↦ rw empty refl
  | inr more ↦ rw more refl
]

-- In a valid state `keyboard_available` tells whether a packet waits, and `keyboard_readkey` returns
-- the oldest one and leaves the others, or returns the zero packet if there is none.
pub keyboard_readkey-front :
    (k : Keyboard)
    → IsValid k
    → (keyboard_available k ≡ not (is_nil (pending k)))
      × (((keyboard_readkey k).0, pending (keyboard_readkey k).1) ≡ front (pending k))
unfolding keyboard_available keyboard_readkey
keyboard_readkey-front k v =
    (ap not (empty-is_nil k v), ap (λ r. (r.0, pending r.1)) (readkey-pop k) ∙ pop-front k v)

abbrev pub concat : List (List ℕ) → List ℕ
concat [] = []
concat (b ∷ bs) = b ++ concat bs

abbrev pub first : List KeyPacket → Option KeyPacket
first [] = none
first (p ∷ ps) = some p

nil_of : (ps : List KeyPacket) → is_nil ps ≡ true → ps ≡ []
nil_of [] e = refl
nil_of (p ∷ ps) e = absurd (true≢false (sym e))

first-front : (ps qs : List KeyPacket) → is_nil ps ≡ false → some (front ps).0 ≡ first (ps ++ qs)
first-front [] qs e = absurd (true≢false e)
first-front (p ∷ ps) qs e = refl

first-take : (ps qs : List KeyPacket) → first (take 127 ps ++ qs) ≡ first (ps ++ qs)
first-take [] qs = refl
first-take (p ∷ ps) qs = refl

-- With a packet waiting `buffer_pop` returns the first one, whatever comes later.
pop-first :
    (k : Keyboard) (later : List KeyPacket)
    → IsValid k
    → (k.buffer_head == k.buffer_tail) ≡ false
    → some (buffer_pop k).0 ≡ first (pending k ++ later)
pop-first k later v more =
    ap (λ r. some r.0) (pop-front k v)
    ∙ first-front (pending k) later (sym (empty-is_nil k v) ∙ more)

pending_nil : (k : Keyboard) → IsValid k → (k.buffer_head == k.buffer_tail) ≡ true → pending k ≡ []
pending_nil k v empty = nil_of (pending k) (sym (empty-is_nil k v) ∙ empty)

abbrev pub AreBatches : List (List ℕ) → Type 0
AreBatches [] = true ≡ true
AreBatches (b ∷ bs) = AreBytes b × AreBatches bs

getkey-first :
    (batches : List (List ℕ)) (k : Keyboard)
    → IsValid k
    → AreBatches batches
    → Option.map (λ r. r.0) (keyboard_getkey k batches)
      ≡ first (pending k ++ packets (modifiers k) (concat batches))
unfolding keyboard_getkey packets
getkey-first [] k v h = elim (Bool-cases (k.buffer_head == k.buffer_tail)) [
  | inl empty ↦ rw empty (ap (λ ps. first (ps ++ [])) (sym (pending_nil k v empty)))
  | inr more ↦ rw more (pop-first k [] v more)
]
getkey-first (b ∷ bs) k v (h, hs) = elim (Bool-cases (k.buffer_head == k.buffer_tail)) [
  | inl empty ↦
      let (valid, mods, queue) = keyboard_handler-packets k b v h in
      rw empty (
        getkey-first bs (keyboard_handler k b) valid hs
        ∙ ap₂ (λ ps m. first (ps ++ packets m (concat bs))) queue mods
        ∙ first-take (pending k ++ packets (modifiers k) b)
            (packets (after_all (modifiers k) b) (concat bs))
        ∙ ap
            (λ ps.
              first (
                (ps ++ packets (modifiers k) b) ++ packets (after_all (modifiers k) b) (concat bs)))
            (pending_nil k v empty)
        ∙ ap first (sym (packets-append (modifiers k) b (concat bs)))
        ∙ ap (λ ps. first (ps ++ packets (modifiers k) (b ++ concat bs)))
            (sym (pending_nil k v empty)))
  | inr more ↦ rw more (pop-first k (packets (modifiers k) (b ++ concat bs)) v more)
]

-- From a valid state `keyboard_getkey` returns the first packet, of those that wait and then those
-- that the bytes of the interrupts send: it returns once there is one, and only while there is none
-- it goes on waiting.
pub keyboard_getkey-first :
    (k : Keyboard) (batches : List (List ℕ))
    → IsValid k
    → AreBatches batches
    → Option.map (λ r. r.0) (keyboard_getkey k batches)
      ≡ first (pending k ++ packets (modifiers k) (concat batches))
keyboard_getkey-first k batches v h = getkey-first batches k v h
