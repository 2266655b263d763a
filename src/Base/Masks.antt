-- ===== src/Base/Masks.antt =====
-- Words that are put together with `|` from parts that share no bit, and the test of the lowest bit.
use native.Mathlib.Nat.{pow-suc}
use Prim.Native.Nat.{ℕ, zero, suc, ◌+◌, ◌*◌, ◌/◌, ◌%◌, ◌^◌, ◌≤◌, ◌<◌, max, bit_and, bit_or}
use mathlib.Core.Path.{◌≡◌, refl, ◌∙◌, ap}
use native.Mathlib.Omega.{arith}
use veni.Base.Compare.{◌==◌}
use veni.Base.Bits.{bit, bit-zero, bit-bit_or, mask_test}

eq_of_bits_fuel : (n a b : ℕ) → a + b ≤ n → ((i : ℕ) → bit a i ≡ bit b i) → a ≡ b
eq_of_bits_fuel zero a b h all = omega arith
eq_of_bits_fuel (suc n) zero zero h all = refl
eq_of_bits_fuel (suc n) zero (suc b) h all =
    omega (arith, all 0, eq_of_bits_fuel n 0 (suc b / 2) (omega arith) (λ i. all (suc i)))
eq_of_bits_fuel (suc n) (suc a) b h all =
    omega (arith, all 0, eq_of_bits_fuel n (suc a / 2) (b / 2) (omega arith) (λ i. all (suc i)))

-- Numbers with the same bits are the same.
pub eq_of_bits : (a b : ℕ) → ((i : ℕ) → bit a i ≡ bit b i) → a ≡ b
eq_of_bits a b all = eq_of_bits_fuel (a + b) a b (omega arith) all

halved : (k h p : ℕ) → h ≡ p * 2 ^ suc k → h ≡ 2 * (p * 2 ^ k)
halved k h p e = omega (arith, ap (λ t. p * t) (pow-suc 2 k))

max-bit : (k h p f i : ℕ) → h ≡ p * 2 ^ k → f < 2 ^ k → max (bit h i) (bit f i) ≡ bit (h + f) i
max-bit zero h p f i e lt =
    omega (arith, zero_low f i (omega arith), ap (λ n. bit n i) (no_more f h (omega arith)))
  where
    no_more : (f h : ℕ) → f ≡ 0 → h + f ≡ h
    no_more f h e = omega arith

    zero_low : (f i : ℕ) → f ≡ 0 → bit f i ≡ 0
    zero_low f i e = ap (λ n. bit n i) e ∙ bit-zero i
max-bit (suc k) h p f zero e lt = omega (arith, halved k h p e)
max-bit (suc k) h p f (suc i) e lt =
    max-bit k (h / 2) p (f / 2) i (omega (arith, halved k h p e)) (omega (arith, pow-suc 2 k))
    ∙ ap (λ n. bit n i) (omega (arith, halved k h p e))

-- `high | low`, where `high` is a multiple of a power of two that `low` is below.
pub bit_or-low : (k p f : ℕ) → f < 2 ^ k → bit_or (p * 2 ^ k) f ≡ p * 2 ^ k + f
bit_or-low k p f lt =
    eq_of_bits _ _ (λ i. bit-bit_or (p * 2 ^ k) f i ∙ max-bit k (p * 2 ^ k) p f i refl lt)

-- `w & 1`, as a truth value.
pub mask_test_one : (w : ℕ) → (bit_and w 1 == 0) ≡ (w % 2 == 0)
mask_test_one w = mask_test w 0

-- The second lowest bit is set where it was clear.
pub bit_or-two : (a : ℕ) → a / 2 % 2 ≡ 0 → bit_or a 2 ≡ a + 2
bit_or-two a clear = eq_of_bits _ _ (λ i. bit-bit_or a 2 i ∙ same i)
  where
    same : (i : ℕ) → max (bit a i) (bit 2 i) ≡ bit (a + 2) i
    same zero = omega arith
    same (suc zero) = omega arith
    same (suc (suc i)) = omega (arith, bit-zero i, ap (λ n. bit n i) quarter)
      where
        quarter : (a + 2) / 2 / 2 ≡ a / 2 / 2
        quarter = omega arith
