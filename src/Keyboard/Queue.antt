-- ===== src/Keyboard/Queue.antt =====
-- The ring buffer of keyboard.c as a queue of at most 127 packets.
use veni.Base.{
  ℕ, zero, suc, ◌+◌, ◌-◌, ◌%◌, ◌<◌, ◌≤◌, ◌≡◌, ◌≢◌, refl, sym, ap, ap₂, ◌∙◌, List, [], ◌∷◌, ◌++◌,
  ◌==◌, get_or, set, length, take, arith, inl, inr, Bool-cases, ==→eq, ==→ne, length-set,
  length-append, get_or-set_self, get_or-set_ne, take-all, take-append_front,
}
use veni.Keyboard.Keys.{KeyPacket, zero_packet}
use veni.Keyboard.{Keyboard, buffer_push, buffer_pop}

-- The indices are inside the buffer.
pub record IsValid (k : Keyboard) : Type 0 where
  pub head : k.buffer_head < 128
  pub tail : k.buffer_tail < 128
  pub room : length k.buffer ≡ 128

-- The number of packets from the tail up to the head.
abbrev pub count : Keyboard → ℕ
count k = (k.buffer_head + 128 - k.buffer_tail) % 128

-- `n` packets from place `i` on, round the end of the buffer.
abbrev pub window : ℕ → (i : ℕ) → List KeyPacket → List KeyPacket
window zero i b = []
window (suc n) i b = get_or b (i % 128) zero_packet ∷ window n (i + 1) b

-- The packets that wait, the oldest first.
abbrev pub pending : Keyboard → List KeyPacket
pending k = window (count k) k.buffer_tail k.buffer

pub length-window : (n i : ℕ) (b : List KeyPacket) → length (window n i b) ≡ n
length-window zero i b = refl
length-window (suc n) i b = ap suc (length-window n (i + 1) b)

-- The place `h` is not among the `n` that are read.
window-set :
    (n i h : ℕ) (b : List KeyPacket) (p : KeyPacket)
    → ((j : ℕ) → j < n → h ≢ (i + j) % 128)
    → window n i (set b h p) ≡ window n i b
window-set zero i h b p apart = refl
window-set (suc n) i h b p apart =
    ap₂ (λ x w. x ∷ w)
      (get_or-set_ne b h (i % 128) p zero_packet (λ e. apart 0 (omega arith) (omega (arith, e))))
      (window-set n (i + 1) h b p (λ j lt e. apart (suc j) (omega arith) (omega (arith, e))))

window-snoc :
    (n i : ℕ) (b : List KeyPacket)
    → window (suc n) i b ≡ window n i b ++ get_or b ((i + n) % 128) zero_packet ∷ []
window-snoc zero i b = ap (λ j. get_or b (j % 128) zero_packet ∷ []) (omega arith)
window-snoc (suc n) i b =
    ap (λ w. get_or b (i % 128) zero_packet ∷ w)
      (window-snoc n (i + 1) b
        ∙ ap (λ j. window n (i + 1) b ++ get_or b (j % 128) zero_packet ∷ []) (omega arith))

window_round : (n i : ℕ) (b : List KeyPacket) → window n (i % 128) b ≡ window n i b
window_round zero i b = refl
window_round (suc n) i b =
    ap₂ (λ x w. get_or b x zero_packet ∷ w) (omega arith)
      (sym (window_round n (i % 128 + 1) b)
        ∙ ap (λ j. window n j b) (omega arith)
        ∙ window_round n (i + 1) b)

pub push-IsValid : (k : Keyboard) (p : KeyPacket) → IsValid k → IsValid (buffer_push k p)
unfolding buffer_push
push-IsValid k p v = elim (Bool-cases (((k.buffer_head + 1) % 128) == k.buffer_tail)) [
  | inl full ↦ rw full v
  | inr room ↦ rw room (record {
    head = omega arith;
    tail = v.tail;
    room = length-set k.buffer k.buffer_head p ∙ v.room;
  })
]

pub count_below : (k : Keyboard) → IsValid k → count k < 128
count_below k v = omega arith

take_front : (n : ℕ) (xs ys : List KeyPacket) → length xs ≡ n → take n (xs ++ ys) ≡ xs
take_front n xs ys e = ap (λ m. take m (xs ++ ys)) (sym e) ∙ take-append_front xs ys

-- The packet goes behind the others; the window is longer by one.
window-grown :
    (k : Keyboard) (p : KeyPacket)
    → IsValid k
    → (n : ℕ) → n ≡ suc (count k)
    → n ≤ 127
    → window n k.buffer_tail (set k.buffer k.buffer_head p) ≡ take 127 (pending k ++ p ∷ [])
window-grown k p v n e room =
    ap (λ m. window m tail b) e
    ∙ window-snoc (count k) tail b
    ∙ ap₂ (λ w x. w ++ x ∷ [])
        (window-set (count k) tail head k.buffer p
          (λ j lt same. omega (arith, v.head, v.tail, same, lt)))
        (ap (λ i. get_or b i zero_packet) place
          ∙ get_or-set_self k.buffer head p zero_packet (omega (arith, v.head, v.room)))
    ∙ sym (
        take-all 127 (pending k ++ p ∷ []) (
          omega
            (arith, length-append (pending k) (p ∷ []), length-window (count k) tail k.buffer, e)))
  where
    tail : ℕ
    tail = k.buffer_tail

    head : ℕ
    head = k.buffer_head

    b : List KeyPacket
    b = set k.buffer head p

    place : (tail + count k) % 128 ≡ head
    place = omega (arith, v.head, v.tail)

-- `buffer_push` puts the packet behind those that wait, and drops it if 127 wait already.
pub push-pending :
    (k : Keyboard) (p : KeyPacket)
    → IsValid k
    → pending (buffer_push k p) ≡ take 127 (pending k ++ p ∷ [])
unfolding buffer_push
push-pending k p v = elim (Bool-cases (((k.buffer_head + 1) % 128) == k.buffer_tail)) [
  | inl full ↦ rw full (
      sym (
        take_front 127 (pending k) (p ∷ []) (
          length-window (count k) k.buffer_tail k.buffer
          ∙ omega (arith, v.head, v.tail, ==→eq _ _ full))))
  | inr room ↦ rw room (
      window-grown k p v _ (omega (arith, v.head, v.tail, ==→ne _ _ room))
        (omega (arith, v.head, v.tail, ==→ne _ _ room)))
]

-- The oldest packet of a queue, or the zero packet, and the others.
abbrev pub front : List KeyPacket → KeyPacket × List KeyPacket
front [] = (zero_packet, [])
front (p ∷ ps) = (p, ps)

window-front :
    (n i : ℕ) (b : List KeyPacket)
    → n ≢ 0
    → (get_or b (i % 128) zero_packet, window (n - 1) ((i + 1) % 128) b) ≡ front (window n i b)
window-front zero i b some_left = absurd (some_left refl)
window-front (suc n) i b some_left =
    ap (λ w. (get_or b (i % 128) zero_packet, w))
      (ap (λ m. window m ((i + 1) % 128) b) (omega arith) ∙ window_round n (i + 1) b)

-- `buffer_pop` returns the oldest packet that waits and leaves the others; with none it returns the
-- zero packet.
pub pop-front :
    (k : Keyboard) → IsValid k → ((buffer_pop k).0, pending (buffer_pop k).1) ≡ front (pending k)
unfolding buffer_pop
pop-front k v = elim (Bool-cases (k.buffer_head == k.buffer_tail)) [
  | inl empty ↦
      let nothing : count k ≡ 0 = omega (arith, v.head, v.tail, ==→eq _ _ empty) in
      rw empty (
        ap (λ n. (zero_packet, window n k.buffer_tail k.buffer)) nothing
        ∙ ap (λ n. front (window n k.buffer_tail k.buffer)) (sym nothing))
  | inr more ↦ rw more (
      ap₂ (λ i n. (get_or k.buffer i zero_packet, window n ((k.buffer_tail + 1) % 128) k.buffer))
        (omega (arith, v.tail)) (omega (arith, v.head, v.tail, ==→ne _ _ more))
      ∙ window-front (count k) k.buffer_tail k.buffer
          (λ e. ==→ne _ _ more (omega (arith, v.head, v.tail, e))))
]

pub pop-IsValid : (k : Keyboard) → IsValid k → IsValid (buffer_pop k).1
unfolding buffer_pop
pop-IsValid k v = elim (Bool-cases (k.buffer_head == k.buffer_tail)) [
  | inl empty ↦ rw empty v
  | inr more ↦ rw more (record { head = v.head; tail = omega arith; room = v.room })
]
