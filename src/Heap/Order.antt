-- ===== src/Heap/Order.antt =====
-- The invariant of heap.c, and `kmalloc` from a block that is there.
use veni.Base.{
  ℕ, ◌+◌, ◌≤◌, ◌≡◌, refl, sym, subst, ◌∙◌, true, false, List, [], ◌∷◌, ◌++◌, ltb, arith, inl, inr,
  Bool-cases,
}
use veni.Heap.{heap_begin, heap_end, header_size, Header, Heap, take_block}
use veni.Heap.Chain.{
  Block, follows, IsChain, IsChain-same, IsChain-append, IsChain-split, end_of, last_at,
}
use veni.Heap.Find.{pointer_to}
use veni.Heap.Take.{taken, take_headers, take_headers-IsChain, take_headers-before}

-- The headers are those of the blocks, which fill the heap from its begin to the break.
pub record IsHeap (h : Heap) (bs : List Block) : Type 0 where
  pub chain : IsChain h.headers 0 heap_begin bs false h.heap_current_break
  pub start : h.heap_start ≡ pointer_to heap_begin bs
  pub bound : h.heap_current_break ≤ heap_end

follows-taken : (size : ℕ) (b : Block) (bs : List Block) → follows (taken size b bs) false ≡ true
follows-taken size b bs = elim (Bool-cases (ltb (size + 36) b.size)) [
  | inl more ↦ rw more refl
  | inr tight ↦ rw tight refl
]

-- A list with something at its end has a first block.
pub pointer_to-append :
    (at : ℕ) (xs ys : List Block) → follows ys false ≡ true → pointer_to at (xs ++ ys) ≡ at
pointer_to-append at [] ys e = rw e refl
pointer_to-append at (x ∷ xs) ys e = refl

pub end_of-le : (at : ℕ) (bs : List Block) → at ≤ end_of at bs
end_of-le at [] = omega arith
end_of-le at (b ∷ bs) = omega (arith, end_of-le (at + b.size) bs)

module _ (h : Heap) (xs : List Block) (b : Block) (ys : List Block) (size : ℕ)
    (v : IsHeap h (xs ++ b ∷ ys)) (fits : size ≤ b.size) (room : header_size ≤ size) where
  block : ℕ
  block = end_of heap_begin xs

  parts :
      IsChain h.headers 0 heap_begin xs true block
      × IsChain h.headers (last_at 0 heap_begin xs) block (b ∷ ys) false h.heap_current_break
  unfolding block
  parts = IsChain-split h.headers 0 heap_begin xs (b ∷ ys) false h.heap_current_break v.chain

  -- The block is taken, and split where it is too large; the others stay.
  pub take_block-IsHeap :
      IsHeap (take_block h (end_of heap_begin xs) size).1 (xs ++ taken size b ys)
  unfolding take_block block
  take_block-IsHeap = record {
    chain =
        IsChain-append headers' 0 heap_begin xs (taken size b ys) false h.heap_current_break
          (subst (λ m. IsChain headers' 0 heap_begin xs m block) (sym (follows-taken size b ys))
            (IsChain-same h.headers headers' 0 heap_begin xs true block
              (λ x le lt.
                take_headers-before h.headers (last_at 0 heap_begin xs) block size b ys
                  h.heap_current_break parts.1 fits room (omega (arith, v.bound)) x (omega arith)
                  (omega arith))
              parts.0))
          (take_headers-IsChain h.headers (last_at 0 heap_begin xs) block size b ys
            h.heap_current_break parts.1 fits room (omega (arith, v.bound)));
    start =
        v.start
        ∙ pointer_to-append heap_begin xs (b ∷ ys) refl
        ∙ sym (pointer_to-append heap_begin xs (taken size b ys) (follows-taken size b ys));
    bound = v.bound;
  }
    where
      headers' : ℕ → Header
      headers' = take_headers h.headers block size
