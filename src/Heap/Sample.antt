-- ===== src/Heap/Sample.antt =====
-- A heap of one page, for the tests of heap.c and of what allocates on it.
use veni.Base.{ℕ, ◌+◌, refl, false, [], ◌∷◌, update, arith}
use veni.Vmm.{Vmm}
use veni.Ramfs.File.{Allocator}
use veni.Heap.{heap_begin, Header, Heap, new_header}
use veni.Heap.Order.{IsHeap}
use veni.Heap.Insert.{new_block}
use veni.Heap.Buffers.{heap_allocator}

abbrev pub garbage : ℕ → Header
garbage x = record { magic = 0; size = 0; is_free = false; next = 0; prev = 0 }

abbrev tables : Vmm
tables = record {
  pmm = record { base = 0x200000; bitmap = λ i. 0b1011; total_pages = 64; used_pages = 6 };
  memory = λ w. 0;
  kernel_directory = 0x3000;
}

abbrev pub one_page : Heap
one_page = record {
  vmm = tables;
  headers = update garbage heap_begin (new_header 4096);
  heap_start = heap_begin;
  heap_current_break = heap_begin + 4096;
}

pub one_page-IsHeap : IsHeap one_page (new_block 4096 ∷ [])
one_page-IsHeap = record {
  chain = (omega arith, omega arith, refl, refl);
  start = refl;
  bound = omega arith;
}

-- The heap as an allocator, over a memory of zeros.
abbrev pub page_allocator : Allocator
page_allocator =
    heap_allocator garbage (λ a. 0) 9 one_page (new_block 4096 ∷ []) one_page-IsHeap refl
      (omega arith)
