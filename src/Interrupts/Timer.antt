-- ===== src/Interrupts/Timer.antt =====
-- pit.c: the rate that the timer is set to.
use native.Mathlib.Nat.{div-mul-le_self, lt-div-mul-add, mul-le-mul_left}
use veni.Base.{
  ℕ, zero, suc, ◌+◌, ◌*◌, ◌/◌, ◌%◌, ◌^◌, ◌≤◌, ◌<◌, ◌≡◌, refl, arith, ne→==, subst, zero,
}
use veni.Interrupts.{Machine, pit_divisor, pit_init}

-- The divisor of a frequency.
pub record Divides (f d : ℕ) : Type 0 where
  pub below : d * f ≤ 1193182
  pub above : 1193182 < d * f + f

quotient-lt : (q f : ℕ) → 19 ≤ f → q * f ≤ 1193182 → q < 2 ^ 16
quotient-lt q f h le = omega (arith, mul-le-mul_left q h)

pit_divisor-Divides : (f : ℕ) → 19 ≤ f → Divides f (pit_divisor f)
unfolding pit_divisor
pit_divisor-Divides f h =
    rw whole (record { below = div-mul-le_self 1193182 f; above = lt-div-mul-add (omega arith) })
  where
    whole : 1193182 / f % 2 ^ 16 ≡ 1193182 / f
    whole = omega (arith, quotient-lt (1193182 / f) f h (div-mul-le_self 1193182 f))

pit_divisor-lt : (f : ℕ) → pit_divisor f < 2 ^ 16
unfolding pit_divisor
pit_divisor-lt f = omega arith

some_rounds : (q f : ℕ) → 1193182 < q * f + f → f ≤ 1193182 → 0 < q
some_rounds zero f h le = absurd (omega arith)
some_rounds (suc q) f h le = omega arith

-- For a frequency from 19 to 1193182, `pit_init` sends the mode and then the low and the high byte of a
-- divisor of the clock's 1193182 Hz that is not 0 and gives the rate next above the frequency.
pub pit_init-Divides :
    (M : Machine) (f : ℕ) (s : M.State)
    → 19 ≤ f
    → f ≤ 1193182
    → (low : ℕ) × (high : ℕ) × (pit_init M f s
        ≡ M.outb 0x40 high (M.outb 0x40 low (M.outb 0x43 0x36 s)))
      × (low < 2 ^ 8)
      × (high < 2 ^ 8)
      × (0 < low + high * 2 ^ 8)
      × Divides f (low + high * 2 ^ 8)
unfolding pit_init
pit_init-Divides M f s h le = (
  pit_divisor f % 2 ^ 8,
  pit_divisor f / 2 ^ 8,
  rw (ne→== f 0 (λ e. omega arith)) refl,
  omega arith,
  high,
  omega (arith, some_rounds (pit_divisor f) f d.above le),
  subst (Divides f) joined d,
)
  where
    d : Divides f (pit_divisor f)
    d = pit_divisor-Divides f h

    high : pit_divisor f / 2 ^ 8 < 2 ^ 8
    high = omega (arith, pit_divisor-lt f)

    joined : pit_divisor f ≡ pit_divisor f % 2 ^ 8 + pit_divisor f / 2 ^ 8 * 2 ^ 8
    joined = omega arith
