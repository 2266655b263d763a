-- ===== src/Base/Int.antt =====
-- C's `int` results as integers: `negsuc n` is -(n + 1).
use Prim.Native.Nat.{ℕ, zero, suc, ◌-◌}
use mathlib.Core.Path.{◌≡◌, refl}
use native.Mathlib.Omega.{arith}
use veni.Base.Compare.{leb, if◌then◌else◌}

pub data ℤ : Type 0 where
  pos : ℕ → ℤ
  negsuc : ℕ → ℤ

-- a - b, as an integer.
abbrev pub sub_ℕ : ℕ → ℕ → ℤ
sub_ℕ a b = if leb b a then pos (a - b) else negsuc (b - a - 1)

abbrev pub neg : ℤ → ℤ
neg (pos zero) = pos zero
neg (pos (suc n)) = negsuc n
neg (negsuc n) = pos (suc n)

neg-pos : (n : ℕ) → neg (pos n) ≡ (if leb n 0 then pos 0 else negsuc (n - 1))
neg-pos zero = refl
neg-pos (suc n) = ground arith

pub neg-sub_ℕ : (a b : ℕ) → neg (sub_ℕ a b) ≡ sub_ℕ b a
neg-sub_ℕ a b = ground (arith, neg-pos (a - b))

pub sub_ℕ-zero : (a b : ℕ) → sub_ℕ a b ≡ pos 0 → a ≡ b
sub_ℕ-zero a b h = ground arith
