-- ===== src/Printf/Digits.antt =====
-- The numbers that the conversions of printf.c print, read back.
use native.Mathlib.Nat.{pow-suc}
use veni.Base.{
  ℕ, zero, suc, ◌+◌, ◌-◌, ◌*◌, ◌/◌, ◌%◌, ◌^◌, ◌<◌, ◌≤◌, ◌≡◌, ◌≢◌, refl, ap, ◌∙◌, some, [], ◌∷◌,
  ◌==◌, ltb, if◌then◌else◌, get_or, drop, length, arith, inl, inr, Bool-cases, ltb→lt, ltb→le,
  lt→ltb, le→ltb, ne→==,
}
use veni.Base.Int.{ℤ, pos, neg}
use veni.CString.Text.{Text}
use veni.Printf.{put_digits, int_text, size_text, put_nibbles, hex_digit, pointer_text}

-- The number that decimal digits stand for, with `v` for those before them.
abbrev pub value : (v : ℕ) → Text → ℕ
value v [] = v
value v (c ∷ t) = value (v * 10 + (c - 0x30)) t

-- The shortest decimal text of a number, put before `acc`.
pub record IsDecimal (num : ℕ) (acc text : Text) (room : ℕ) : Type 0 where
  pub reads : value 0 text ≡ value num acc
  pub no_zero : 0 < num → get_or text 0 0 ≢ 0x30
  pub not_minus : get_or text 0 0 ≢ 0x2D
  pub bound : length text ≤ length acc + room

-- Enough room: for a number of at most `k` digits.
put_digits-IsDecimal :
    (k room num : ℕ) (acc : Text)
    → k ≤ room
    → num < 10 ^ suc k
    → (text : Text) × (put_digits (suc room) num acc ≡ some text) × IsDecimal num acc text (suc k)
unfolding put_digits
put_digits-IsDecimal zero room num acc le lt = (
  (0x30 + num % 10) ∷ acc,
  rw (le→ltb 0 (num / 10) (omega arith)) refl,
  record {
    reads = ap (λ v. value v acc) (omega arith);
    no_zero = λ more e. omega arith;
    not_minus = λ e. omega arith;
    bound = omega arith;
  },
)
put_digits-IsDecimal (suc k) zero num acc le lt = absurd (omega arith)
put_digits-IsDecimal (suc k) (suc room) num acc le lt = elim (Bool-cases (ltb 0 (num / 10))) [
  | inl more ↦ rw more (
      longer (ltb→lt _ _ more) (
        put_digits-IsDecimal k room (num / 10) ((0x30 + num % 10) ∷ acc) (omega arith)
          (omega (arith, pow-suc 10 (suc k)))))
  | inr last ↦ rw last (
    (0x30 + num % 10) ∷ acc,
    refl,
    record {
      reads = ap (λ v. value v acc) (omega (arith, ltb→le _ _ last));
      no_zero = λ more e. omega (arith, ltb→le _ _ last);
      not_minus = λ e. omega arith;
      bound = omega arith;
    },
  )
]
  where
    longer :
        0 < num / 10
        → (text : Text) × (put_digits (suc room) (num / 10) ((0x30 + num % 10) ∷ acc) ≡ some text)
          × IsDecimal (num / 10) ((0x30 + num % 10) ∷ acc) text (suc k)
        → (text : Text) × (put_digits (suc room) (num / 10) ((0x30 + num % 10) ∷ acc) ≡ some text)
          × IsDecimal num acc text (suc (suc k))
    longer more (text, e, d) = (
      text,
      e,
      record {
        reads = d.reads ∙ ap (λ v. value v acc) (omega arith);
        no_zero = λ _. d.no_zero more;
        not_minus = d.not_minus;
        bound = omega (arith, d.bound);
      },
    )

-- `%zu` of a 32-bit number prints its decimal digits, at most ten, without a zero before them.
pub size_text-IsDecimal :
    (num : ℕ)
    → num < 2 ^ 32
    → (text : Text) × (size_text num ≡ some text) × IsDecimal num [] text 10
unfolding size_text
size_text-IsDecimal num lt = put_digits-IsDecimal 9 19 num [] (omega arith) (omega arith)

-- The number that a text with or without a minus sign stands for.
abbrev pub read_int : Text → ℤ
read_int text =
    if get_or text 0 0 == 0x2D then neg (pos (value 0 (drop 1 text))) else pos (value 0 text)

-- A 32-bit word as a signed number.
abbrev pub signed : ℕ → ℤ
signed num = if ltb num (2 ^ 31) then pos num else neg (pos (2 ^ 32 - num))

-- `%d` of every 32-bit number but -2 ^ 31 prints a text that reads as the number, and writes at most 11
-- bytes of the buffer's 32.
pub read_int-int_text :
    (num : ℕ)
    → num < 2 ^ 32
    → num ≢ 2 ^ 31
    → (text : Text) × (int_text num ≡ some text) × (read_int text ≡ signed num) × (length text ≤ 11)
unfolding int_text
read_int-int_text num lt ne = elim (Bool-cases (ltb num (2 ^ 31))) [
  | inl positive ↦
      let (text, e, d) = put_digits-IsDecimal 9 30 num [] (omega arith) (omega arith) in
      rw positive (text, e, rw (ne→== _ _ d.not_minus) (ap pos d.reads), omega (arith, d.bound))
  | inr negative ↦
      let (text, e, d) =
        put_digits-IsDecimal 9 30 ((2 ^ 32 - num) % 2 ^ 32) [] (omega arith) (omega arith) in
      rw
        (
          negative,
          lt→ltb ((2 ^ 32 - num) % 2 ^ 32) (2 ^ 31) (omega (arith, ltb→le _ _ negative)),
          e,
          lt→ltb (length text) 31 (omega (arith, d.bound)),
        )
        (
          0x2D ∷ text,
          refl,
          ap (λ v. neg (pos v)) (d.reads ∙ omega (arith, ltb→le _ _ negative)),
          omega (arith, d.bound),
        )
]

abbrev pub nibble_of : (digit : ℕ) → ℕ
nibble_of c = if ltb c 0x3A then c - 0x30 else c - 0x57

-- The number that hexadecimal digits stand for.
abbrev pub hex_value : (v : ℕ) → Text → ℕ
hex_value v [] = v
hex_value v (c ∷ t) = hex_value (v * 16 + nibble_of c) t

nibble_of-hex_digit : (n : ℕ) → n < 16 → nibble_of (hex_digit n) ≡ n
nibble_of-hex_digit n lt = elim (Bool-cases (ltb n 10)) [
  | inl small ↦ rw (small, lt→ltb (0x30 + n) 0x3A (omega (arith, ltb→lt _ _ small))) (omega arith)
  | inr large ↦
      rw (large, le→ltb (0x61 + (n - 10)) 0x3A (omega (arith, ltb→le _ _ large)))
        (omega (arith, ltb→le _ _ large))
]

-- `%p` prints ten bytes, of which the last eight read as the address.
pub hex_value-pointer_text :
    (ptr : ℕ)
    → ptr < 2 ^ 32
    → (hex_value 0 (drop 2 (pointer_text ptr)) ≡ ptr) × (length (pointer_text ptr) ≡ 10)
unfolding pointer_text put_nibbles
hex_value-pointer_text ptr lt = (
  rw
      (
        nib (2 ^ 28),
        nib (2 ^ 24),
        nib (2 ^ 20),
        nib (2 ^ 16),
        nib (2 ^ 12),
        nib (2 ^ 8),
        nib (2 ^ 4),
        nib 1,
      )
      (omega arith),
  refl,
)
  where
    nib : (k : ℕ) → nibble_of (hex_digit (ptr / k % 16)) ≡ ptr / k % 16
    nib k = nibble_of-hex_digit (ptr / k % 16) (omega arith)
