-- ===== src/Heap/Buffers.antt =====
-- The buffers that `malloc` of libc/stdlib/malloc.c gives to its callers: an allocator for Ramfs.
use veni.Base.{
  ℕ, zero, suc, ◌+◌, ◌-◌, ◌%◌, ◌^◌, ◌<◌, ◌≤◌, ◌≡◌, refl, sym, ap, ◌∙◌, Bool, false, Option, none,
  some, List, [], ◌∷◌, ◌++◌, ◌==◌, if◌then◌else◌, ◌>>=◌, length, drop, none_is_some, arith, inl,
  inr, Bool-cases, eq→==, ne→==,
}
use mathlib.Core.Option.{some_inj}
use veni.Pmm.{null}
use veni.Ramfs.File.{Allocator}
use veni.Heap.{header_size, heap_begin, Header, Heap, malloc}
use veni.Heap.Chain.{Block, IsChain}
use veni.Heap.Order.{IsHeap}
use veni.Heap.Free.{in_use}
use veni.Heap.Alloc.{KmallocOutcome, kmalloc-KmallocOutcome}

-- The bytes of a memory from an address on.
abbrev pub bytes_at : (ℕ → ℕ) → (at size : ℕ) → List ℕ
bytes_at memory at zero = []
bytes_at memory at (suc n) = memory at ∷ bytes_at memory (at + 1) n

length-bytes_at : (memory : ℕ → ℕ) (at size : ℕ) → length (bytes_at memory at size) ≡ size
length-bytes_at memory at zero = refl
length-bytes_at memory at (suc n) = omega (arith, length-bytes_at memory (at + 1) n)

head_pair : List (ℕ × ℕ) → ℕ × ℕ
head_pair [] = (0, 0)
head_pair (x ∷ xs) = x

-- The header of a block in use has its size.
in_use-header :
    (headers : ℕ → Header) (prev at : ℕ) (bs : List Block) (more : Bool) (stop : ℕ)
    (before behind : List (ℕ × ℕ)) (place amount : ℕ)
    → IsChain headers prev at bs more stop
    → in_use at bs ≡ before ++ (place, amount) ∷ behind
    → (headers place).size ≡ amount
unfolding head_pair
in_use-header headers prev at [] more stop before behind place amount c e = nothing before e
  where
    nothing :
        (before : List (ℕ × ℕ))
        → [] ≡ before ++ (place, amount) ∷ behind
        → (headers place).size ≡ amount
    nothing [] e = absurd (omega (arith, ap (λ l. length l) e))
    nothing (x ∷ xs) e = absurd (omega (arith, ap (λ l. length l) e))
in_use-header headers prev at (b ∷ bs) more stop before behind place amount (pos, room, h, c) e =
    elim (Bool-cases b.is_free) [
      | inl free ↦
          in_use-header headers at (at + b.size) bs more stop before behind place amount c
            (rw free at e)
      | inr used ↦ by_first before (rw used at e) (λ before e.
          in_use-header headers at (at + b.size) bs more stop before behind place amount c e)
    ]
  where
    by_first :
        (before : List (ℕ × ℕ))
        → ◌≡◌ {A = List (ℕ × ℕ)}
            ((at, b.size) ∷ in_use (at + b.size) bs)
            (before ++ (place, amount) ∷ behind)
        → ((before : List (ℕ × ℕ))
            → in_use (at + b.size) bs ≡ before ++ (place, amount) ∷ behind
            → (headers place).size ≡ amount)
        → (headers place).size ≡ amount
    by_first [] e rest =
        ap (λ x. (headers x).size) (sym (ap (λ l. (head_pair l).0) e))
        ∙ ap (λ k. k.size) h
        ∙ ap (λ l. (head_pair l).1) e
    by_first (x ∷ xs) e rest = rest xs (ap (drop 1) e)

module _ (garbage : ℕ → Header) (memory : ℕ → ℕ) (n : ℕ) (h : Heap) where
  -- What `malloc` returns is read as an array: the bytes behind the header, to the end of the block.
  unfoldable pub malloc_buffer : (size : ℕ) → Option (List ℕ)
  malloc_buffer size = malloc garbage n h size >>= λ r.
      if r.0 == null
      then none
      else some (bytes_at memory r.0 ((r.1.headers (r.0 - header_size)).size - header_size))

  module _ (bs : List Block) (v : IsHeap h bs) (aligned : h.heap_current_break % 4096 ≡ 0)
      (enough : length bs < n) where
    -- A buffer is as large as it was asked for.
    pub malloc_buffer-size :
        (size : ℕ) (b : List ℕ) → size < 2 ^ 27 → malloc_buffer size ≡ some b → size ≤ length b
    unfolding malloc_buffer
    malloc_buffer-size zero b small e = omega arith
    malloc_buffer-size (suc k) b small e =
        let (p, h', runs, o) =
          kmalloc-KmallocOutcome garbage n h bs (suc k) v aligned enough (omega arith) small in
        by_outcome p h' o (rw runs at e)
      where
        by_outcome :
            (p : ℕ) (h' : Heap)
            → KmallocOutcome garbage h bs (suc k) p h'
            → (if p == null
                then none
                else some (bytes_at memory p ((h'.headers (p - header_size)).size - header_size)))
              ≡ some b
            → suc k ≤ length b
        by_outcome p h' (inl refused) e =
            none_is_some b (rw (eq→== p null refused.null_pointer) at e)
        by_outcome p h' (inr a) e = omega (
          arith,
          a.room,
          length-bytes_at memory p ((h'.headers (p - header_size)).size - header_size),
          ap length (some_inj.0 (rw (ne→== p null (omega (arith, a.pointer, a.low))) at e)),
          amount,
        )
          where
            amount : (h'.headers (p - header_size)).size ≡ a.amount
            amount =
                ap (λ x. (h'.headers x).size) (omega (arith, a.pointer))
                ∙ in_use-header h'.headers 0 heap_begin a.blocks false h'.heap_current_break
                    a.before a.behind a.place a.amount a.order.chain a.now

    -- The heap as the allocator of the RAM file system.
    abbrev pub heap_allocator : Allocator
    heap_allocator = record { malloc = malloc_buffer; malloc_size = malloc_buffer-size }
