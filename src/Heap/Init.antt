-- ===== src/Heap/Init.antt =====
-- `kheap_init` of heap.c.
use veni.Base.{
  ℕ, ◌≡◌, ◌⊎◌, refl, sym, ◌∙◌, [], ◌∷◌, ◌==◌, if◌then◌else◌, update, arith, inl, inr, ne→==, eq→==,
}
use veni.Pmm.{null, page_size}
use veni.Heap.{heap_begin, Header, Heap, sbrk, new_header, kheap_init}
use veni.Heap.Order.{IsHeap}
use veni.Heap.Grow.{SbrkOutcome, sbrk-SbrkOutcome}
use veni.Heap.Insert.{new_block}

-- From the break at the begin of the heap: `kheap_init` leaves a heap in order, with one free block of
-- a page, or, without memory, with no block.
pub kheap_init-IsHeap :
    (garbage : ℕ → Header) (h : Heap)
    → h.heap_current_break ≡ heap_begin
    → IsHeap (kheap_init garbage h) (new_block page_size ∷ []) ⊎ IsHeap (kheap_init garbage h) []
unfolding kheap_init
kheap_init-IsHeap garbage h begins = by_sbrk (sbrk garbage h page_size) (
    sbrk-SbrkOutcome garbage h page_size (omega (arith, begins)) (omega (arith, begins))
      (omega arith))
  where
    init : ℕ × Heap → Heap
    init r = if r.0 == null then record r.1 { heap_start = null } else record r.1 {
      heap_start = r.0;
      headers = update r.1.headers r.0 (new_header page_size);
    }

    by_sbrk :
        (r : ℕ × Heap)
        → SbrkOutcome garbage h page_size r
        → IsHeap (init r) (new_block page_size ∷ []) ⊎ IsHeap (init r) []
    by_sbrk (block, h') (inl (e, f, spent)) = rw e (
        inr (record {
          chain = sym (f.same_break ∙ begins);
          start = refl;
          bound = omega (arith, f.same_break, begins);
        }))
    by_sbrk (block, h') (inr b) = rw (ne→== block null (omega (arith, b.old_break, begins))) (
        inl (record {
          chain = (
            omega arith,
            omega arith,
            rw (eq→== block heap_begin (b.old_break ∙ begins)) refl,
            omega (arith, b.new_break, begins),
          );
          start = b.old_break ∙ begins;
          bound = b.bound;
        }))
