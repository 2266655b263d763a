-- ===== src/CString/Compare.antt =====
-- strlen.c, strcmp.c, strncmp.c and memcmp.c.
use mathlib.Core.Option
use veni.Base.{
  ℕ, zero, suc, ◌≤◌, ◌≡◌, ◌≢◌, refl, sym, ◌∙◌, ◌↔◌, inl, inr, true, Option, some, List, [], ◌∷◌,
  ◌==◌, ltb, length, arith, ==→ne, Bool-cases, take,
}
use veni.Base.Int.{ℤ, pos, negsuc, sub_ℕ, neg, neg-sub_ℕ, sub_ℕ-zero}
use veni.CString.{strlen, strcmp, strncmp, memcmp}
use veni.CString.Text.{Text, IsText, cstr, text_eq, starts_with}

-- `strlen` of a string is the length of its text.
pub strlen-length : (t : Text) (r : List ℕ) → IsText t → strlen (cstr t r) ≡ some (length t)
unfolding strlen
strlen-length [] r h = refl
strlen-length (c ∷ t) r h = ground (arith, strlen-length t r h.1)

-- A comparison returns a number, which is 0 exactly if `P` holds.
abbrev pub Decides : Option ℤ → Type 0 → Type 0
Decides o P = (d : ℤ) × (o ≡ some d) × ((d ≡ pos 0) ↔ P)

differ : (a b : ℕ) (o : Option ℤ) (P : Type 0) → o ≡ some (sub_ℕ a b) → a ≢ b → ¬ P → Decides o P
differ a b o P e ne np = (sub_ℕ a b, e, (λ z. absurd (ne (sub_ℕ-zero a b z)), λ p. absurd (np p)))

carry_over : (o o' : Option ℤ) (P Q : Type 0) → o' ≡ o → (P ↔ Q) → Decides o P → Decides o' Q
carry_over o o' P Q e iff (d, returned, zero_iff) =
    (d, e ∙ returned, (λ z. iff.0 (zero_iff.0 z), λ q. zero_iff.1 (iff.1 q)))

agree : (o : Option ℤ) (P : Type 0) → o ≡ some (pos 0) → P → Decides o P
agree o P e p = (pos 0, e, (λ _. p, λ _. refl))

-- `strcmp` of two strings returns, and it returns 0 exactly for equal texts.
pub strcmp-text_eq :
    (t u : Text) (r q : List ℕ)
    → IsText t
    → IsText u
    → Decides (strcmp (cstr t r) (cstr u q)) (text_eq t u ≡ true)
unfolding strcmp text_eq
strcmp-text_eq [] [] r q h k = agree _ _ refl refl
strcmp-text_eq [] (c ∷ u) r q h k = differ 0 c _ _ refl (λ e. k.0 (sym e)) (λ e. cc)
strcmp-text_eq (c ∷ t) [] r q h k = differ c 0 _ _ (ground arith) h.0 (λ e. cc)
strcmp-text_eq (c ∷ t) (d ∷ u) r q h k = elim (Bool-cases (c == d)) [
  | inl same ↦
      carry_over (strcmp (cstr t r) (cstr u q)) _ (text_eq t u ≡ true) _ (ground arith)
        (rw same ((λ e. e), (λ e. e))) (strcmp-text_eq t u r q h.1 k.1)
  | inr other ↦ differ c d _ _ (ground arith) (==→ne c d other) (ground arith)
]

-- With its arguments exchanged `strcmp` returns the opposite number, or is out of bounds too.
pub strcmp-swap : (s t : List ℕ) → strcmp t s ≡ Option.map neg (strcmp s t)
unfolding strcmp
strcmp-swap [] [] = refl
strcmp-swap [] (b ∷ t) = refl
strcmp-swap (a ∷ s) [] = refl
strcmp-swap (a ∷ s) (b ∷ t) = ground (arith, strcmp-swap s t, neg-sub_ℕ a b)

strncmp-zero : (s t : List ℕ) → strncmp s t 0 ≡ some (pos 0)
unfolding strncmp
strncmp-zero s t = refl

-- `strncmp` over the length of a text `p` returns 0 exactly for a string that begins with `p`.
pub strncmp-starts_with :
    (p t : Text) (r q : List ℕ)
    → IsText p
    → IsText t
    → Decides (strncmp (cstr t r) (cstr p q) (length p)) (starts_with p t ≡ true)
unfolding strncmp starts_with
strncmp-starts_with [] t r q h k = agree _ _ (strncmp-zero (cstr t r) (cstr [] q)) refl
strncmp-starts_with (c ∷ p) [] r q h k = differ 0 c _ _ (ground arith) (λ e. h.0 (sym e)) (λ e. cc)
strncmp-starts_with (c ∷ p) (e ∷ t) r q h k = elim (Bool-cases (c == e)) [
  | inl same ↦
      carry_over (strncmp (cstr t r) (cstr p q) (length p)) _ (starts_with p t ≡ true) _
        (ground arith) (rw same ((λ x. x), (λ x. x))) (strncmp-starts_with p t r q h.1 k.1)
  | inr other ↦ differ e c _ _ (ground arith) (λ x. ==→ne c e other (sym x)) (ground arith)
]

-- `memcmp` over `n` bytes that both arrays hold returns 0 exactly if they are the same.
pub memcmp-take :
    (n : ℕ) (a b : List ℕ)
    → n ≤ length a
    → n ≤ length b
    → Decides (memcmp a b n) (take n a ≡ take n b)
unfolding memcmp
memcmp-take zero a b h k = agree _ _ refl refl
memcmp-take (suc n) [] b h k = absurd (omega arith)
memcmp-take (suc n) (x ∷ a) [] h k = absurd (omega arith)
memcmp-take (suc n) (x ∷ a) (y ∷ b) h k = elim (Bool-cases (x == y)) [
  | inl same ↦
      carry_over (memcmp a b n) _ (take n a ≡ take n b) _ (ground arith)
        (ground arith, ground arith) (memcmp-take n a b (omega arith) (omega arith))
  | inr other ↦ elim (Bool-cases (ltb x y)) [
    | inl less ↦ (
      negsuc 0,
      ground arith,
      ((λ e. ground arith), λ e. absurd (==→ne x y other (ground arith))),
    )
    | inr more ↦
        (pos 1, ground arith, ((λ e. ground arith), λ e. absurd (==→ne x y other (ground arith))))
  ]
]
