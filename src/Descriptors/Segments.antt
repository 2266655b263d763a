-- ===== src/Descriptors/Segments.antt =====
-- gdt.c: what the processor reads from the descriptors of segments.
use veni.Base.{ℕ, ◌+◌, ◌*◌, ◌/◌, ◌%◌, ◌^◌, ◌<◌, bit_or, ◌≡◌, refl, ◌∙◌, ◌≢◌, arith, eq→==, ne→==}
use veni.Base.Bits.{bit-bit_or}
use veni.Base.Masks.{eq_of_bits, bit_or-low}
use veni.Descriptors.{GdtEntry, gdt_set_gate}

-- The base address in a descriptor, as the processor puts it together.
abbrev pub segment_base : GdtEntry → ℕ
segment_base e = e.base_low + e.base_middle * 2 ^ 16 + e.base_high * 2 ^ 24

-- The limit, of 20 bits.
abbrev pub segment_limit : GdtEntry → ℕ
segment_limit e = e.limit_low + e.granularity % 2 ^ 4 * 2 ^ 16

-- The four flags above the limit.
abbrev pub segment_flags : GdtEntry → ℕ
segment_flags e = e.granularity / 2 ^ 4

bit_or_comm : (a b : ℕ) → bit_or a b ≡ bit_or b a
bit_or_comm a b = eq_of_bits _ _ (λ i. omega (arith, bit-bit_or a b i, bit-bit_or b a i))

joined : (l g : ℕ) → l < 2 ^ 4 → bit_or l (g * 2 ^ 4) ≡ g * 2 ^ 4 + l
joined l g lt = bit_or_comm l (g * 2 ^ 4) ∙ bit_or-low 4 g l lt

-- What a gate says after it was set, and that the others are as before.
pub record Describes (num base limit access gran : ℕ) (before after : ℕ → GdtEntry) : Type 0 where
  pub base_kept : segment_base (after num) ≡ base
  pub limit_kept : segment_limit (after num) ≡ limit % 2 ^ 20
  pub access_kept : (after num).access ≡ access
  pub flags_kept : segment_flags (after num) ≡ gran / 2 ^ 4
  pub others : (i : ℕ) → num ≢ i → after i ≡ before i

-- With a base of 32 bits and flags of 8, `gdt_set_gate` writes a descriptor from which the base, the
-- low 20 bits of the limit, the access byte and the flags are read back, and no other one.
pub gdt_set_gate-Describes :
    (num base limit access gran : ℕ) (gdt : ℕ → GdtEntry)
    → base < 2 ^ 32
    → gran < 2 ^ 8
    → Describes num base limit access gran gdt (gdt_set_gate num base limit access gran gdt)
unfolding gdt_set_gate
gdt_set_gate-Describes num base limit access gran gdt b g = record {
  base_kept = rw (eq→== num num refl) (omega arith);
  limit_kept = rw (eq→== num num refl, low) (omega arith);
  access_kept = rw (eq→== num num refl);
  flags_kept = rw (eq→== num num refl, low) (omega arith);
  others = λ i ne. rw (ne→== num i ne);
}
  where
    low :
        bit_or (limit / 2 ^ 16 % 2 ^ 4) (gran / 2 ^ 4 % 2 ^ 4 * 2 ^ 4)
        ≡ gran / 2 ^ 4 % 2 ^ 4 * 2 ^ 4 + limit / 2 ^ 16 % 2 ^ 4
    low = joined (limit / 2 ^ 16 % 2 ^ 4) (gran / 2 ^ 4 % 2 ^ 4) (omega arith)
