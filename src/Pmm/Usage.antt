-- ===== src/Pmm/Usage.antt =====
-- The bitmap of pmm.c as a set of used pages, and the count that `used_pages` keeps of it.
use veni.Base.{
  ℕ, zero, suc, ◌+◌, ◌/◌, ◌%◌, ◌^◌, ◌≤◌, ◌<◌, ◌≡◌, refl, ap, inl, inr, Bool, true, false, not, ◌==◌,
  if◌then◌else◌, Bool-cases, ==→eq, arith,
}
use veni.Base.Bits.{
  bit, bit-lt, bit-bit_and, bit-bit_or, bit-pow, bit-clear_mask, clear_mask, mask_test,
}
use veni.Pmm.{Pmm, is_used, set_used, set_free}

-- How many of the pages below `n` are in `p`.
unfoldable pub count : (ℕ → Bool) → ℕ → ℕ
count p zero = 0
count p (suc n) = count p n + (if p n then 1 else 0)

-- `used_pages` counts the used pages, and every page address fits in 32 bits.
pub record IsValid (s : Pmm) : Type 0 where
  pub addressable : s.total_pages ≤ 2 ^ 20
  pub counted : s.used_pages ≡ count (is_used s) s.total_pages

pub count-le : (p : ℕ → Bool) (n : ℕ) → count p n ≤ n
unfolding count
count-le p zero = omega arith
count-le p (suc n) = ground (arith, count-le p n)

pub count-cong : (p q : ℕ → Bool) (n : ℕ) → ((i : ℕ) → i < n → p i ≡ q i) → count p n ≡ count q n
unfolding count
count-cong p q zero same = refl
count-cong p q (suc n) same =
    rw (count-cong p q n (λ i h. same i (omega arith)), same n (omega arith))

pub count-all : (p : ℕ → Bool) (n : ℕ) → ((i : ℕ) → i < n → p i ≡ true) → count p n ≡ n
unfolding count
count-all p zero all = refl
count-all p (suc n) all =
    ground (arith, count-all p n (λ i h. all i (omega arith)), all n (omega arith))

pub count-none : (p : ℕ → Bool) (n : ℕ) → ((i : ℕ) → i < n → p i ≡ false) → count p n ≡ 0
unfolding count
count-none p zero all = refl
count-none p (suc n) all =
    ground (arith, count-none p n (λ i h. all i (omega arith)), all n (omega arith))

-- One page more is used.
pub count-add :
    (p q : ℕ → Bool) (k n : ℕ)
    → p k ≡ false
    → ((i : ℕ) → q i ≡ (if k == i then true else p i))
    → k < n
    → count q n ≡ count p n + 1
unfolding count
count-add p q k zero free same h = absurd (omega arith)
count-add p q k (suc n) free same h = elim (Bool-cases (k == n)) [
  | inl here ↦ ground (
    arith,
    same n,
    ==→eq k n here,
    ap p (==→eq k n here),
    count-cong q p n (λ i lt. ground (arith, same i, ==→eq k n here)),
  )
  | inr other ↦ ground (arith, same n, count-add p q k n free same (ground arith))
]

-- A page outside the set leaves the count below the number of pages.
pub count-lt : (p : ℕ → Bool) (k n : ℕ) → p k ≡ false → k < n → count p n < n
unfolding count
count-lt p k zero free h = absurd (omega arith)
count-lt p k (suc n) free h = elim (Bool-cases (k == n)) [
  | inl here ↦ ground (arith, ap p (==→eq k n here), count-le p n)
  | inr other ↦ ground (arith, count-lt p k n free (ground arith))
]

-- One bit of one word is what `is_used` reads.
pub is_used-bit : (s : Pmm) (i : ℕ) → is_used s i ≡ not (bit (s.bitmap (i / 32)) (i % 32) == 0)
unfolding is_used
is_used-bit s i = ap not (mask_test (s.bitmap (i / 32)) (i % 32))

module _ (s t : Pmm) (i j : ℕ) where
  same_word : (i / 32 == j / 32) ≡ true → s.bitmap (i / 32) ≡ s.bitmap (j / 32)
  same_word e = ap s.bitmap (==→eq _ _ e)

  pub is_used-set_used :
      t.bitmap ≡ set_used s i → is_used t j ≡ (if i == j then true else is_used s j)
  unfolding set_used
  is_used-set_used e =
      rw (is_used-bit t j, is_used-bit s j, e)
        (ground (
          arith,
          bit-bit_or (s.bitmap (i / 32)) (2 ^ (i % 32)) (j % 32),
          bit-pow (i % 32) (j % 32),
          bit-lt (s.bitmap (j / 32)) (j % 32),
          same_word,
        ))

  pub is_used-set_free :
      t.bitmap ≡ set_free s i → is_used t j ≡ (if i == j then false else is_used s j)
  unfolding set_free
  is_used-set_free e =
      rw (is_used-bit t j, is_used-bit s j, e)
        (ground (
          arith,
          bit-bit_and (s.bitmap (i / 32)) (clear_mask (i % 32)) (j % 32),
          bit-clear_mask (i % 32) (j % 32) (omega arith) (omega arith),
          bit-lt (s.bitmap (j / 32)) (j % 32),
          same_word,
        ))
