-- ===== src/Heap/Tests.antt =====
-- heap.c on a heap of one page, and the theorems at it.
use veni.Base.{ℕ, ◌+◌, ◌%◌, ◌^◌, ◌≡◌, refl, true, false, Option, none, some, [], ◌∷◌, ◌++◌, arith}
use veni.Heap.{
  header_size, heap_begin, Heap, find_free_block, split_block, take_block, allocate, kmalloc, kfree,
}
use veni.Heap.Sample.{garbage, one_page, one_page-IsHeap}
use veni.Heap.Chain.{Block, end_of}
use veni.Heap.Order.{IsHeap}
use veni.Heap.Free.{Freed, kfree-Freed}
use veni.Heap.Insert.{new_block}
use veni.Heap.Alloc.{KmallocOutcome, kmalloc-KmallocOutcome}

abbrev heap_of : Option (ℕ × Heap) → Heap
heap_of none = one_page
heap_of (some (p, h)) = h

-- A block of 100 bytes, one of 8, and the first one again after it was freed.
first : Heap
unfolding kmalloc find_free_block allocate take_block split_block
first = heap_of (kmalloc garbage 9 one_page 100)

first_made : kmalloc garbage 9 one_page 100 ≡ some (0xD0000014, first)
unfolding first
first_made = refl

both_made : (second : Heap) × (kmalloc garbage 9 first 8 ≡ some (0xD0000014 + 124, second))
unfolding first
both_made = (_, refl)

nothing_asked : kmalloc garbage 9 one_page 0 ≡ some (0, one_page)
unfolding kmalloc
nothing_asked = refl

kmalloc-KmallocOutcome_example :
    (p : ℕ) × (h' : Heap) × (kmalloc garbage 9 one_page 100 ≡ some (p, h'))
    × KmallocOutcome garbage one_page (new_block 4096 ∷ []) 100 p h'
kmalloc-KmallocOutcome_example =
    kmalloc-KmallocOutcome garbage 9 one_page (new_block 4096 ∷ []) 100 one_page-IsHeap refl
      (omega arith) (omega arith) (omega arith)

abbrev taken_block : Block
taken_block = record { size = 124; is_free = false }

abbrev remains : Block
remains = record { size = 3972; is_free = true }

first-IsHeap : IsHeap first ([] ++ taken_block ∷ (remains ∷ []))
unfolding first
first-IsHeap = record {
  chain = (omega arith, omega arith, refl, (omega arith, omega arith, refl, refl));
  start = refl;
  bound = omega arith;
}

kfree-Freed_example :
    (h' : Heap) × (kfree 9 first ((end_of heap_begin [] + header_size) % 2 ^ 32) ≡ some h')
    × Freed first [] taken_block (remains ∷ []) h'
kfree-Freed_example = kfree-Freed 9 first [] taken_block (remains ∷ []) first-IsHeap (omega arith)

abbrev fresh : Heap
fresh = record one_page { heap_start = 0; heap_current_break = heap_begin }
