-- ===== src/Heap/Take.antt =====
-- `split_block` and the marking of a block in `kmalloc` of heap.c.
use veni.Base.{
  ℕ, ◌+◌, ◌-◌, ◌%◌, ◌^◌, ◌<◌, ◌≤◌, ◌≡◌, ◌≢◌, refl, sym, ap, subst, ◌∙◌, true, false, List, [], ◌∷◌,
  ◌==◌, ltb, if◌then◌else◌, update, arith, inl, inr, Bool-cases, ltb→lt, lt→ltb, ne→==, eq→==,
}
use veni.Pmm.{null}
use veni.Heap.{block_magic, header_size, Header, set_prev, split_block}
use veni.Heap.Chain.{Block, follows, header_of, IsChain, IsChain-le, IsChain-same, IsChain-first}
use veni.Heap.Find.{pointer_to}

pub set_prev-other :
    (headers : ℕ → Header) (next prev x : ℕ) → next ≢ x → set_prev headers next prev x ≡ headers x
set_prev-other headers next prev x ne = elim (Bool-cases (next == null)) [
  | inl e ↦ rw e refl
  | inr e ↦ rw (e, ne→== next x ne) refl
]

-- The blocks get another one before them.
pub set_prev-IsChain :
    (headers : ℕ → Header) (prev prev' at : ℕ) (bs : List Block) (stop : ℕ)
    → IsChain headers prev at bs false stop
    → IsChain (set_prev headers (pointer_to at bs) prev') prev' at bs false stop
set_prev-IsChain headers prev prev' at [] stop c = c
set_prev-IsChain headers prev prev' at (b ∷ bs) stop (pos, room, e, c) =
    subst (λ h. IsChain h prev' at (b ∷ bs) false stop) (sym same)
      (IsChain-first headers prev prev' at b b bs false stop refl (pos, room, e, c))
  where
    written : Header → ℕ → Header
    written h = update headers at (record h { prev = prev' })

    same : set_prev headers at prev' ≡ update headers at (header_of prev' at b (follows bs false))
    same = rw (ne→== at null (omega arith)) (ap written e)

-- The block is split where what is left is large enough.
abbrev pub taken : (size : ℕ) → Block → List Block → List Block
taken size b bs =
    if ltb (size + 36) b.size
    then record { size = size; is_free = false }
      ∷ (record { size = b.size - size; is_free = true } ∷ bs)
    else record { size = b.size; is_free = false } ∷ bs

-- The store after `split_block` and the marking.
abbrev pub take_headers : (ℕ → Header) → (block size : ℕ) → ℕ → Header
take_headers headers block size =
    let split = split_block headers block size in
    update split block (record (split block) { is_free = false })

module _ (headers : ℕ → Header) (prev at size : ℕ) (b : Block) (bs : List Block) (stop : ℕ)
    (c : IsChain headers prev at (b ∷ bs) false stop) (enough : size ≤ b.size)
    (header_fits : header_size ≤ size) (below : stop < 2 ^ 32 - 36) where
  whole : at + b.size ≤ stop
  whole = IsChain-le headers at (at + b.size) bs false stop c.3

  small : (size + header_size + 16) % 2 ^ 32 ≡ size + 36
  small = omega (arith, whole)

  marked : (ℕ → Header) → Header → ℕ → Header
  marked split h = update split at (record h { is_free = false })

  -- No split.
  kept-IsChain :
      ltb (size + 36) b.size ≡ false
      → IsChain
          (take_headers headers at size)
          prev
          at
          (record { size = b.size; is_free = false } ∷ bs)
          false
          stop
  unfolding split_block marked
  kept-IsChain tight =
      subst (λ h. IsChain h prev at (record { size = b.size; is_free = false } ∷ bs) false stop)
        (sym (ap (λ h. marked h (h at)) unsplit ∙ ap (marked headers) c.2))
        (IsChain-first headers prev prev at b (record { size = b.size; is_free = false }) bs false
          stop refl c)
    where
      unsplit : split_block headers at size ≡ headers
      unsplit = rw (c.2, small, tight) refl

  remains : Block
  remains = record { size = b.size - size; is_free = true }

  with_new : ℕ → Header
  with_new = update headers (at + size) (record {
    magic = block_magic;
    size = b.size - size;
    is_free = true;
    next = pointer_to (at + b.size) bs;
    prev = at;
  })

  linked : ℕ → Header
  linked = set_prev with_new (pointer_to (at + b.size) bs) (at + size)

  module _ (more : size + 36 < b.size) where
    pointer-ne : (x : ℕ) → 0 < x → x < at + b.size → pointer_to (at + b.size) bs ≢ x
    pointer-ne x pos lt = elim (Bool-cases (follows bs false)) [
      | inl e ↦ rw e (λ f. omega arith)
      | inr e ↦ rw e (λ f. omega arith)
    ]

    split-linked :
        split_block headers at size
        ≡ update linked at (record (linked at) { next = at + size; size = size })
    unfolding split_block linked with_new
    split-linked = rw (c.2, small, lt→ltb (size + 36) b.size more, wrap) refl
      where
        wrap : (at + size) % 2 ^ 32 ≡ at + size
        wrap = omega (arith, whole)

    final : ℕ → Header
    final = take_headers headers at size

    final-other : (x : ℕ) → at ≢ x → final x ≡ linked x
    unfolding final
    final-other x ne = rw (split-linked, ne→== at x ne) refl

    linked-at : linked at ≡ header_of prev at b (follows bs false)
    unfolding linked with_new
    linked-at =
        set_prev-other with_new (pointer_to (at + b.size) bs) (at + size) at
          (pointer-ne at c.0 (omega (arith, c.1)))
        ∙ rw (ne→== (at + size) at (omega (arith, header_fits))) c.2

    first : final at ≡ header_of prev at (record { size = size; is_free = false }) true
    unfolding final
    first = rw (split-linked, eq→== at at refl, linked-at) refl

    made : final (at + size) ≡ header_of at (at + size) remains (follows bs false)
    unfolding linked with_new remains
    made =
        final-other (at + size) (omega (arith, header_fits))
        ∙ set_prev-other with_new (pointer_to (at + b.size) bs) (at + size) (at + size)
            (pointer-ne (at + size) (omega (arith, c.0)) (omega (arith, more)))
        ∙ rw (eq→== (at + size) (at + size) refl) (
            ap
              (λ k. record {
                magic = block_magic;
                size = b.size - size;
                is_free = true;
                next = if follows bs false then k else 0;
                prev = at;
              })
              (omega (arith, enough)))

    rest : IsChain final (at + size) (at + size + remains.size) bs false stop
    unfolding linked remains with_new
    rest =
        subst (λ k. IsChain final (at + size) k bs false stop) (omega (arith, enough))
          (IsChain-same linked final (at + size) (at + b.size) bs false stop
            (λ x le lt. final-other x (omega (arith, c.1)))
            (set_prev-IsChain with_new at (at + size) (at + b.size) bs stop (
              IsChain-same headers with_new at (at + b.size) bs false stop
                (λ x le lt. rw (ne→== (at + size) x (omega (arith, more))) refl) c.3)))

    split-IsChain :
        IsChain final prev at (record { size = size; is_free = false } ∷ (remains ∷ bs)) false stop
    unfolding remains
    split-IsChain = (c.0, header_fits, first, (omega (arith, c.0), omega (arith, more), made, rest))

  pub take_headers-IsChain :
      IsChain (take_headers headers at size) prev at (taken size b bs) false stop
  unfolding final remains
  take_headers-IsChain = elim (Bool-cases (ltb (size + 36) b.size)) [
    | inl more ↦ rw more (split-IsChain (ltb→lt _ _ more))
    | inr tight ↦ rw tight (kept-IsChain tight)
  ]

  -- Headers before the block stay.
  pub take_headers-before : (x : ℕ) → 0 < x → x < at → take_headers headers at size x ≡ headers x
  unfolding split_block final linked with_new
  take_headers-before x pos lt = elim (Bool-cases (ltb (size + 36) b.size)) [
    | inl more ↦
        final-other (ltb→lt _ _ more) x (omega arith)
        ∙ set_prev-other with_new (pointer_to (at + b.size) bs) (at + size) x
            (pointer-ne (ltb→lt _ _ more) x pos (omega arith))
        ∙ rw (ne→== (at + size) x (omega arith)) refl
    | inr tight ↦ rw (c.2, small, tight, ne→== at x (omega arith)) refl
  ]
