-- ===== src/Keyboard/Handled.antt =====
-- What the handler of keyboard.c does for one key.
use veni.Base.{
  ℕ, ◌+◌, ◌-◌, ◌%◌, ◌≡◌, refl, sym, ap, ap₂, subst, ◌∙◌, Bool, true, false, not, ◌||◌, List, [],
  ◌∷◌, ◌++◌, ◌==◌, length, take, arith, inl, inr, true≢false, Bool-cases, ==→eq, take-all,
}
use veni.Keyboard.Keys.{KeyPacket}
use veni.Keyboard.{Keyboard, packet, buffer_push, handle_key}
use veni.Keyboard.Queue.{
  IsValid, pending, count, window, length-window, push-pending, push-IsValid, count_below,
}
use veni.Keyboard.Modifiers.{Modifiers, modifiers, after, is_modifier, sent}

-- The keyboard `k'` after the key.
pub record Handled (k : Keyboard) (c : ℕ) (released : Bool) (k' : Keyboard) : Type 0 where
  pub mods : modifiers k' ≡ after (modifiers k) c released
  pub queue : pending k' ≡ take 127 (pending k ++ sent (modifiers k) c released)
  pub valid : IsValid k'

append_nil : (xs : List KeyPacket) → xs ++ [] ≡ xs
append_nil [] = refl
append_nil (x ∷ xs) = ap (λ ys. x ∷ ys) (append_nil xs)

pub nothing_sent : (k : Keyboard) → IsValid k → pending k ≡ take 127 (pending k ++ [])
nothing_sent k v = sym (
    ap (take 127) (append_nil (pending k))
    ∙ take-all 127 (pending k)
        (omega (arith, length-window (count k) k.buffer_tail k.buffer, count_below k v)))

not_modifier : (c n : ℕ) → is_modifier c ≡ false → is_modifier n ≡ true → (c == n) ≡ false
not_modifier c n none_of e = elim (Bool-cases (c == n)) [
  | inl same ↦ absurd (true≢false (sym e ∙ ap is_modifier (sym (==→eq c n same)) ∙ none_of))
  | inr other ↦ other
]

after_plain :
    (m : Modifiers) (c : ℕ) (released : Bool) → is_modifier c ≡ false → after m c released ≡ m
after_plain m c released none_of =
    let is : (n : ℕ) → is_modifier n ≡ true → (c == n) ≡ false =
      λ n e. not_modifier c n none_of e in
    rw
      (
        is 54 refl,
        is 55 refl,
        is 56 refl,
        is 57 refl,
        is 58 refl,
        is 59 refl,
        is 53 refl,
        is 62 refl,
        is 61 refl,
      )
      refl

sent_plain :
    (m : Modifiers) (c : ℕ) (released : Bool)
    → is_modifier c ≡ false
    → sent m c released
      ≡ record {
        keycode = c;
        pressed = not released;
        shift = m.shift;
        ctrl = m.ctrl;
        alt = m.alt;
        capslock = m.capslock;
        scrolllock = m.scrolllock;
        numlock = m.numlock;
      }
        ∷ []
sent_plain m c released none_of = rw none_of refl

push-modifiers : (k : Keyboard) (p : KeyPacket) → modifiers (buffer_push k p) ≡ modifiers k
unfolding buffer_push
push-modifiers k p = elim (Bool-cases (((k.buffer_head + 1) % 128) == k.buffer_tail)) [
  | inl full ↦ rw full refl
  | inr room ↦ rw room refl
]

module _ (k : Keyboard) (v : IsValid k) where
  -- The handler changed modifiers only.
  unqueued :
      (c : ℕ) (released : Bool) (k' : Keyboard)
      → k'.buffer ≡ k.buffer
      → k'.buffer_head ≡ k.buffer_head
      → k'.buffer_tail ≡ k.buffer_tail
      → sent (modifiers k) c released ≡ []
      → modifiers k' ≡ after (modifiers k) c released
      → Handled k c released k'
  unqueued c released k' b h t none_sent m = record {
    mods = m;
    queue =
        ap₂ (λ i j. window ((i + 128 - j) % 128) j k'.buffer) h t
        ∙ ap (λ x. window (count k) k.buffer_tail x) b
        ∙ nothing_sent k v
        ∙ ap (λ ps. take 127 (pending k ++ ps)) (sym none_sent);
    valid = record {
      head = omega (arith, h, v.head);
      tail = omega (arith, t, v.tail);
      room = ap length b ∙ v.room;
    };
  }

  toggle-Handled :
      (released : Bool)
      → Handled k 53 released (handle_key k 53 released)
        × Handled k 62 released (handle_key k 62 released)
        × Handled k 61 released (handle_key k 61 released)
  unfolding handle_key
  toggle-Handled true = (
    unqueued 53 true _ refl refl refl refl refl,
    unqueued 62 true _ refl refl refl refl refl,
    unqueued 61 true _ refl refl refl refl refl,
  )
  toggle-Handled false = (
    unqueued 53 false _ refl refl refl refl refl,
    unqueued 62 false _ refl refl refl refl refl,
    unqueued 61 false _ refl refl refl refl refl,
  )

  modifier-Handled :
      (c : ℕ) (released : Bool)
      → is_modifier c ≡ true
      → Handled k c released (handle_key k c released)
  unfolding handle_key
  modifier-Handled c released =
      let (caps, num, scroll) = toggle-Handled released in
      pick c 54 (unqueued 54 released _ refl refl refl refl refl) (
        pick c 55 (unqueued 55 released _ refl refl refl refl refl) (
          pick c 56 (unqueued 56 released _ refl refl refl refl refl) (
            pick c 57 (unqueued 57 released _ refl refl refl refl refl) (
              pick c 58 (unqueued 58 released _ refl refl refl refl refl) (
                pick c 59 (unqueued 59 released _ refl refl refl refl refl)
                  (pick c 53 caps (pick c 62 num (λ e. subst P (sym (==→eq c 61 e)) scroll))))))))
    where
      P : ℕ → Type 0
      P c = Handled k c released (handle_key k c released)

      pick : (c n : ℕ) {rest : Bool} → P n → (rest ≡ true → P c) → (c == n || rest) ≡ true → P c
      pick c n {rest} here next e = elim (Bool-cases (c == n)) [
        | inl same ↦ subst P (sym (==→eq c n same)) here
        | inr other ↦ next (ap (λ b. b || rest) (sym other) ∙ e)
      ]

  plain-Handled :
      (c : ℕ) (released : Bool)
      → is_modifier c ≡ false
      → Handled k c released (handle_key k c released)
  unfolding handle_key
  plain-Handled c released none_of =
      let is : (n : ℕ) → is_modifier n ≡ true → (c == n) ≡ false =
        λ n e. not_modifier c n none_of e in
      rw
        (
          is 54 refl,
          is 55 refl,
          is 56 refl,
          is 57 refl,
          is 58 refl,
          is 59 refl,
          is 53 refl,
          is 62 refl,
          is 61 refl,
        )
        (record {
          mods =
              push-modifiers k (packet k c released)
              ∙ sym (after_plain (modifiers k) c released none_of);
          queue =
              push-pending k (packet k c released) v
              ∙ ap (λ ps. take 127 (pending k ++ ps))
                  (sym (sent_plain (modifiers k) c released none_of));
          valid = push-IsValid k (packet k c released) v;
        })

  pub key-Handled : (c : ℕ) (released : Bool) → Handled k c released (handle_key k c released)
  key-Handled c released = elim (Bool-cases (is_modifier c)) [
    | inl is ↦ modifier-Handled c released is
    | inr is_plain ↦ plain-Handled c released is_plain
  ]
