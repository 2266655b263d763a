-- ===== src/Interrupts/Masks.antt =====
-- pic.c: which interrupt lines are masked.
use veni.Base.{
  ℕ, zero, suc, ◌-◌, ◌%◌, ◌^◌, ◌≤◌, ◌<◌, ◌≡◌, ◌≢◌, refl, ◌∙◌, arith, ◌==◌, ltb, if◌then◌else◌,
  bit_and, bit_or, Bool-cases, inl, inr, ltb→lt, ltb→le, ne→==, true, false,
}
use veni.Base.Bits.{bit, bit-lt, bit-bit_or, bit-bit_and, bit-pow, bit-clear_mask, clear_mask}
use veni.Interrupts.{Machine, data_port, line_bit, irq_set_mask, irq_clear_mask}

-- The low bits of a byte are those of the word.
bit-byte : (w i : ℕ) → i < 8 → bit (w % 2 ^ 8) i ≡ bit w i
bit-byte w zero lt = omega arith
bit-byte w (suc zero) lt = omega arith
bit-byte w (suc (suc zero)) lt = omega arith
bit-byte w (suc (suc (suc zero))) lt = omega arith
bit-byte w (suc (suc (suc (suc zero)))) lt = omega arith
bit-byte w (suc (suc (suc (suc (suc zero))))) lt = omega arith
bit-byte w (suc (suc (suc (suc (suc (suc zero)))))) lt = omega arith
bit-byte w (suc (suc (suc (suc (suc (suc (suc zero))))))) lt = omega arith
bit-byte w (suc (suc (suc (suc (suc (suc (suc (suc i)))))))) lt = absurd (omega arith)

set-byte : (b k i : ℕ) → i < 8 → bit (bit_or b (2 ^ k) % 2 ^ 8) i ≡ (if k == i then 1 else bit b i)
set-byte b k i lt =
    bit-byte (bit_or b (2 ^ k)) i lt
    ∙ ground (arith, bit-bit_or b (2 ^ k) i, bit-pow k i, bit-lt b i)

clear-byte :
    (b k i : ℕ)
    → k < 8
    → i < 8
    → bit (bit_and b (clear_mask k) % 2 ^ 8) i ≡ (if k == i then 0 else bit b i)
clear-byte b k i h lt =
    bit-byte (bit_and b (clear_mask k)) i lt
    ∙ ground (
      arith,
      bit-bit_and b (clear_mask k) i,
      bit-clear_mask k i (omega arith) (omega arith),
      bit-lt b i,
    )

minus_eq : (k j : ℕ) → 8 ≤ k → 8 ≤ j → (k - 8 == j - 8) ≡ (k == j)
minus_eq k j a b = ground arith

module _ (M : Machine) where
  -- The mask of a line, 1 if the controller does not pass its interrupts on.
  unfoldable pub masked : ℕ → M.State → ℕ
  masked line s = bit (M.inb (data_port line) s) (line_bit line)

  -- A byte at the port of line `k` that differs from its mask at the bit of `k` only.
  written :
      (k j v c : ℕ) (s : M.State)
      → M.Ready s
      → v < 2 ^ 8
      → k < 16
      → j < 16
      → ((i : ℕ) → i < 8 → bit v i ≡ (if line_bit k == i then c else bit (M.inb (data_port k) s) i))
      → masked j (M.outb (data_port k) v s) ≡ (if k == j then c else masked j s)
  unfolding masked data_port line_bit
  written k j v c s r lt hk hj bits = elim (Bool-cases (ltb k 8)) [
    | inl k1 ↦ elim (Bool-cases (ltb j 8)) [
      | inl j1 ↦ rw (k1, j1, M.mask1_read s v r lt) (rw k1 at (bits j (ltb→lt j 8 j1)))
      | inr j2 ↦ rw (k1, j2, M.mask2_kept s v r) (rw (ne→== k j (apart k1 j2)) refl)
    ]
    | inr k2 ↦ elim (Bool-cases (ltb j 8)) [
      | inl j1 ↦ rw (k2, j1, M.mask1_kept s v r) (rw (ne→== k j (apart_back k2 j1)) refl)
      | inr j2 ↦
          rw (k2, j2, M.mask2_read s v r lt)
            (rw (k2, minus_eq k j (ltb→le k 8 k2) (ltb→le j 8 j2)) at (bits (j - 8) (omega arith)))
    ]
  ]
    where
      apart : ltb k 8 ≡ true → ltb j 8 ≡ false → k ≢ j
      apart a b e = absurd (omega (arith, ltb→lt k 8 a, ltb→le j 8 b))

      apart_back : ltb k 8 ≡ false → ltb j 8 ≡ true → k ≢ j
      apart_back a b e = absurd (omega (arith, ltb→le k 8 a, ltb→lt j 8 b))

  line_bit-lt : (k : ℕ) → k < 16 → line_bit k < 8
  unfolding line_bit
  line_bit-lt k h = grind (arith, ltb→lt, ltb→le)

  -- On a machine with ready controllers, `irq_set_mask` of a line sets its mask, `irq_clear_mask` clears
  -- it, and both leave the masks of the other 15 lines as they were.
  pub irq_masks :
      (k j : ℕ) (s : M.State)
      → M.Ready s
      → k < 16
      → j < 16
      → (masked j (irq_set_mask M k s) ≡ (if k == j then 1 else masked j s))
        × (masked j (irq_clear_mask M k s) ≡ (if k == j then 0 else masked j s))
  unfolding irq_set_mask irq_clear_mask
  irq_masks k j s r hk hj = (
    written k j _ 1 s r (omega arith) hk hj
        (λ i lt. set-byte (M.inb (data_port k) s) (line_bit k) i lt),
    written k j _ 0 s r (omega arith) hk hj
        (λ i lt. clear-byte (M.inb (data_port k) s) (line_bit k) i (line_bit-lt k hk) lt),
  )
