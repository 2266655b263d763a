-- ===== src/Heap/Find.antt =====
-- `find_free_block` of heap.c: the first free block that is large enough.
use veni.Base.{
  ℕ, zero, suc, ◌+◌, ◌<◌, ◌≡◌, ◌⊎◌, refl, ap, ◌∙◌, Bool, true, false, ◌&&◌, some, List, [], ◌∷◌,
  ◌++◌, leb, if◌then◌else◌, length, arith, inl, inr, Bool-cases, ne→==,
}
use veni.Pmm.{null}
use veni.Heap.{Header, find_free_block}
use veni.Heap.Chain.{Block, follows, IsChain, end_of}

-- The pointer to the first of the blocks.
abbrev pub pointer_to : (at : ℕ) → List Block → ℕ
pointer_to at bs = if follows bs false then at else 0

abbrev pub is_fit : (size : ℕ) → Block → Bool
is_fit size b = b.is_free && leb size b.size

-- No block is free and large enough.
abbrev pub IsUnfit : (size : ℕ) → List Block → Type 0
IsUnfit size [] = true ≡ true
IsUnfit size (b ∷ bs) = (is_fit size b ≡ false) × IsUnfit size bs

-- The first block that fits.
pub record Found (size at : ℕ) (bs : List Block) (block : ℕ) : Type 0 where
  pub before : List Block
  pub fit : Block
  pub behind : List Block
  pub blocks : bs ≡ before ++ fit ∷ behind
  pub unfit : IsUnfit size before
  pub fits : is_fit size fit ≡ true
  pub place : block ≡ end_of at before

abbrev pub FindOutcome : (size at : ℕ) → List Block → ℕ → Type 0
FindOutcome size at bs block = ((block ≡ null) × IsUnfit size bs) ⊎ Found size at bs block

pub find_free_block-FindOutcome :
    (n : ℕ) (headers : ℕ → Header) (prev at size : ℕ) (bs : List Block) (stop : ℕ)
    → length bs < n
    → IsChain headers prev at bs false stop
    → (block : ℕ) × (find_free_block n headers (pointer_to at bs) size ≡ some block)
      × FindOutcome size at bs block
unfolding find_free_block
find_free_block-FindOutcome zero headers prev at size bs stop lt c = absurd (omega arith)
find_free_block-FindOutcome (suc n) headers prev at size [] stop lt c =
    (null, refl, inl (refl, refl))
find_free_block-FindOutcome (suc n) headers prev at size (b ∷ bs) stop lt (pos, room, e, c) =
    elim (Bool-cases (is_fit size b)) [
      | inl fits ↦ (
        at,
        step ∙ rw fits refl,
        inr (record {
          before = [];
          fit = b;
          behind = bs;
          blocks = refl;
          unfit = refl;
          fits = fits;
          place = refl;
        }),
      )
      | inr small ↦
          later small
            (find_free_block-FindOutcome n headers at (at + b.size) size bs stop (omega arith) c)
    ]
  where
    step : find_free_block (suc n) headers at size ≡ (
        if is_fit size b
        then some at
        else find_free_block n headers (pointer_to (at + b.size) bs) size)
    step = rw (ne→== at null (omega arith), e) refl

    later :
        is_fit size b ≡ false
        → (block : ℕ) × (find_free_block n headers (pointer_to (at + b.size) bs) size ≡ some block)
          × FindOutcome size (at + b.size) bs block
        → (block : ℕ) × (find_free_block (suc n) headers at size ≡ some block)
          × FindOutcome size at (b ∷ bs) block
    later small (block, f, inl (e', unfit)) = (block, step ∙ rw small f, inl (e', (small, unfit)))
    later small (block, f, inr found) = (
      block,
      step ∙ rw small f,
      inr (record {
        before = b ∷ found.before;
        fit = found.fit;
        behind = found.behind;
        blocks = ap (λ l. b ∷ l) found.blocks;
        unfit = (small, found.unfit);
        fits = found.fits;
        place = found.place;
      }),
    )
