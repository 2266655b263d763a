-- ===== src/Base/Bits.antt =====
-- The bits of a machine word: what `&`, `|` and `~` on single-bit masks do to each of them.
use Prim.Native.Nat.{
  ℕ, zero, suc, ◌+◌, ◌-◌, ◌*◌, ◌/◌, ◌%◌, ◌^◌, ◌≤◌, ◌<◌, min, max, bit_and, bit_or, digits,
  bit_and-bitwise, bit_or-bitwise,
}
use mathlib.Core.Path.{◌≡◌, refl, ◌∙◌, ap}
use mathlib.Core.Bool.{Bool, true, false, ◌&&◌}
use native.Mathlib.Nat.{pow-suc}
use native.Mathlib.Omega.{arith}
use mathlib.Core.Logic.{inl, inr}
use veni.Base.Compare.{◌==◌, if◌then◌else◌, ==→eq, eq→==, Bool-cases}

-- Bit `i` of `w`, as 0 or 1.
abbrev pub bit : ℕ → ℕ → ℕ
bit w zero = w % 2
bit w (suc i) = bit (w / 2) i

pub bit-lt : (w i : ℕ) → bit w i < 2
bit-lt w zero = omega arith
bit-lt w (suc i) = bit-lt (w / 2) i

pub bit-zero : (i : ℕ) → bit 0 i ≡ 0
bit-zero zero = refl
bit-zero (suc i) = bit-zero i

module _ (z : ℕ → ℕ) (f : ℕ → ℕ → ℕ) (z_bit : (b i : ℕ) → bit (z b) i ≡ f 0 (bit b i))
    (f_digit : (x y : ℕ) → x < 2 → y < 2 → f x y < 2) where
  bit-digits : (n a b i : ℕ) → a ≤ n → bit (digits z f n a b) i ≡ f (bit a i) (bit b i)
  bit-digits zero zero b i h = z_bit b i ∙ ap (λ x. f x (bit b i)) (omega (arith, bit-zero i))
  bit-digits zero (suc a) b i h = absurd (omega arith)
  bit-digits (suc n) zero b i h = z_bit b i ∙ ap (λ x. f x (bit b i)) (omega (arith, bit-zero i))
  bit-digits (suc n) (suc a) b zero h =
      omega (arith, f_digit (suc a % 2) (b % 2) (omega arith) (omega arith))
  bit-digits (suc n) (suc a) b (suc i) h =
      ap (λ w. bit w i) shifted ∙ bit-digits n (suc a / 2) (b / 2) i (omega arith)
    where
      shifted :
          (digits z f n (suc a / 2) (b / 2) * 2 + f (suc a % 2) (b % 2)) / 2
          ≡ digits z f n (suc a / 2) (b / 2)
      shifted = omega (arith, f_digit (suc a % 2) (b % 2) (omega arith) (omega arith))

pub bit-bit_and : (a b i : ℕ) → bit (bit_and a b) i ≡ min (bit a i) (bit b i)
bit-bit_and a b i = rw bit_and-bitwise (
    bit-digits (λ _. 0) min (λ b j. omega (arith, bit-zero j)) (λ x y p q. omega arith) a a b i
      (omega arith))

pub bit-bit_or : (a b i : ℕ) → bit (bit_or a b) i ≡ max (bit a i) (bit b i)
bit-bit_or a b i =
    rw bit_or-bitwise
      (bit-digits (λ b. b) max (λ b j. omega arith) (λ x y p q. omega arith) a a b i (omega arith))

pub bit-pow : (k i : ℕ) → bit (2 ^ k) i ≡ (if k == i then 1 else 0)
bit-pow zero zero = refl
bit-pow zero (suc i) = ground (arith, bit-zero i)
bit-pow (suc k) zero = ground (arith, pow-suc 2 k)
bit-pow (suc k) (suc i) = ap (λ w. bit w i) halved ∙ bit-pow k i ∙ ground arith
  where
    halved : 2 ^ suc k / 2 ≡ 2 ^ k
    halved = omega (arith, pow-suc 2 k)

-- A property of every number below a numeral is checked by evaluation.
abbrev pub all_below : ℕ → (ℕ → Bool) → Bool
all_below zero p = true
all_below (suc n) p = p n && all_below n p

pub all_below_sound : (n : ℕ) (p : ℕ → Bool) (x : ℕ) → all_below n p ≡ true → x < n → p x ≡ true
all_below_sound zero p x h lt = absurd (omega arith)
all_below_sound (suc n) p x h lt = ground (arith, all_below_sound n p x)

-- `~(1 << c)` on 32 bits.
abbrev pub clear_mask : ℕ → ℕ
clear_mask c = 2 ^ 32 - 1 - 2 ^ c

mask_row : ℕ → Bool
mask_row c = all_below 32 (λ i. bit (clear_mask c) i == (if c == i then 0 else 1))

mask_table : all_below 32 mask_row ≡ true
unfolding mask_row
mask_table = refl

pub bit-clear_mask : (c i : ℕ) → c < 32 → i < 32 → bit (clear_mask c) i ≡ (if c == i then 0 else 1)
unfolding mask_row
bit-clear_mask c i hc hi = ==→eq _ _ (
    all_below_sound 32 (λ j. bit (clear_mask c) j == (if c == j then 0 else 1)) i
      (all_below_sound 32 mask_row c mask_table hc) hi)

zero_of_bits_fuel : (n w : ℕ) → w ≤ n → ((i : ℕ) → bit w i ≡ 0) → w ≡ 0
zero_of_bits_fuel zero w h all = omega arith
zero_of_bits_fuel (suc n) zero h all = refl
zero_of_bits_fuel (suc n) (suc w) h all =
    omega (arith, all 0, zero_of_bits_fuel n (suc w / 2) (omega arith) (λ i. all (suc i)))

-- A word with no bit set is 0.
pub zero_of_bits : (w : ℕ) → ((i : ℕ) → bit w i ≡ 0) → w ≡ 0
zero_of_bits w all = zero_of_bits_fuel w w (omega arith) all

-- `w & (1 << c)` is nonzero exactly when bit `c` is set.
pub mask_test : (w c : ℕ) → (bit_and w (2 ^ c) == 0) ≡ (bit w c == 0)
mask_test w c = elim (Bool-cases (bit w c == 0)) [
  | inl clear ↦ rw (clear, eq→== _ _ (zero_of_bits (bit_and w (2 ^ c)) (λ i. none_set i clear)))
  | inr is_set ↦
      ground
        (arith, bit-bit_and w (2 ^ c) c, bit-pow c c, bit-lt w c, bit_of_zero (bit_and w (2 ^ c)) c)
]
  where
    pow_other : (i : ℕ) → (c == i) ≡ false → bit (2 ^ c) i ≡ 0
    pow_other i other = rw (bit-pow c i, other)

    none_set : (i : ℕ) → (bit w c == 0) ≡ true → bit (bit_and w (2 ^ c)) i ≡ 0
    none_set i clear = elim (Bool-cases (c == i)) [
      | inl same ↦
          omega
            (arith, bit-bit_and w (2 ^ c) i, ==→eq _ _ clear, ap (λ j. bit w j) (==→eq c i same))
      | inr other ↦ omega (arith, bit-bit_and w (2 ^ c) i, pow_other i other)
    ]

    bit_of_zero : (v j : ℕ) → v ≡ 0 → bit v j ≡ 0
    bit_of_zero v j e = ap (λ u. bit u j) e ∙ bit-zero j

pub zero-bit_and : (b : ℕ) → bit_and 0 b ≡ 0
zero-bit_and b = bit_and-bitwise 0 b
