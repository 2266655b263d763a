-- ===== src/Heap/Alloc.antt =====
-- `kmalloc` of heap.c: one block in use more.
use veni.Base.{
  ℕ, ◌+◌, ◌-◌, ◌%◌, ◌^◌, ◌<◌, ◌≤◌, ◌≡◌, ◌⊎◌, refl, sym, ap, subst, ◌∙◌, Bool, true, false, ◌&&◌,
  Option, some, List, [], ◌∷◌, ◌++◌, ◌==◌, ltb, if◌then◌else◌, true≢false, ◌>>=◌, update, length,
  append_nil, arith, inl, inr, Bool-cases, ltb→le, leb→le, ne→==,
}
use veni.Pmm.{null, page_size}
use veni.Heap.{
  header_size, heap_begin, heap_end, Header, Heap, sbrk, new_header, insert_block, find_free_block,
  take_block, block_size, extend, allocate, kmalloc,
}
use veni.Heap.Chain.{Block, IsChain, IsChain-le, IsChain-same, IsChain-split, end_of}
use veni.Heap.Find.{pointer_to, IsUnfit, Found, FindOutcome, find_free_block-FindOutcome}
use veni.Heap.Take.{taken}
use veni.Heap.Order.{IsHeap, take_block-IsHeap, end_of-le}
use veni.Heap.Free.{in_use, in_use-append}
use veni.Heap.Grow.{Broken, NoMemory, SbrkOutcome, sbrk-SbrkOutcome}
use veni.Heap.Insert.{new_block, end_of-stop, insert_block-IsHeap}

-- A block of the heap is in use that was not: it has room for the header and the size that was asked
-- for, and the pointer is behind its header. All other blocks in use are as before.
pub record Allocated (bs : List Block) (size : ℕ) (p : ℕ) (h : Heap) : Type 0 where
  pub blocks : List Block
  pub order : IsHeap h blocks
  pub before : List (ℕ × ℕ)
  pub behind : List (ℕ × ℕ)
  pub place : ℕ
  pub amount : ℕ
  pub was : in_use heap_begin bs ≡ before ++ behind
  pub now : in_use heap_begin blocks ≡ before ++ (place, amount) ∷ behind
  pub room : size ≤ amount
  pub pointer : p ≡ place + header_size
  pub low : heap_begin ≤ place
  pub high : place + amount ≤ h.heap_current_break

in_use-taken :
    (at size : ℕ) (b : Block) (ys : List Block)
    → size ≤ b.size
    → (amount : ℕ) × (in_use at (taken size b ys) ≡ (at, amount) ∷ in_use (at + b.size) ys)
      × (size ≤ amount)
      × (amount ≤ b.size)
in_use-taken at size b ys fits = chosen (ltb (size + 36) b.size)
  where
    chosen :
        (f : Bool)
        → (amount : ℕ) × (in_use at (
              if f
              then record { size = size; is_free = false }
                ∷ (record { size = b.size - size; is_free = true } ∷ ys)
              else record { size = b.size; is_free = false } ∷ ys)
            ≡ (at, amount) ∷ in_use (at + b.size) ys)
          × (size ≤ amount)
          × (amount ≤ b.size)
    chosen true = (size, ap (λ k. (at, size) ∷ in_use k ys) (omega arith), omega arith, fits)
    chosen false = (b.size, refl, fits, omega arith)

module _ (h : Heap) (xs : List Block) (b : Block) (ys : List Block) (size : ℕ)
    (v : IsHeap h (xs ++ b ∷ ys)) (free : b.is_free ≡ true) (fits : size ≤ b.size)
    (room : header_size ≤ size) where
  take_block-Allocated :
      Allocated
        (xs ++ b ∷ ys)
        size
        (take_block h (end_of heap_begin xs) size).0
        (take_block h (end_of heap_begin xs) size).1
  unfolding take_block
  take_block-Allocated =
      let (amount, now, more, less) = in_use-taken (end_of heap_begin xs) size b ys fits in
      record {
        blocks = xs ++ taken size b ys;
        order = take_block-IsHeap h xs b ys size v fits room;
        before = in_use heap_begin xs;
        behind = in_use (end_of heap_begin xs + b.size) ys;
        place = end_of heap_begin xs;
        amount = amount;
        was = in_use-append heap_begin xs (b ∷ ys) ∙ rw free refl;
        now =
            in_use-append heap_begin xs (taken size b ys) ∙ ap (λ l. in_use heap_begin xs ++ l) now;
        room = more;
        pointer = omega (arith, whole, v.bound);
        low = end_of-le heap_begin xs;
        high = omega (arith, whole, less);
      }
    where
      whole : end_of heap_begin xs + b.size ≤ h.heap_current_break
      whole =
          IsChain-le h.headers (end_of heap_begin xs) (end_of heap_begin xs + b.size) ys false
            h.heap_current_break
            (IsChain-split h.headers 0 heap_begin xs (b ∷ ys) false h.heap_current_break
              v.chain).1.3

-- A free block at the end is not in use.
grown-Allocated :
    (bs : List Block) (alloc size p : ℕ) (h : Heap)
    → Allocated (bs ++ new_block alloc ∷ []) size p h
    → Allocated bs size p h
grown-Allocated bs alloc size p h a = record {
  blocks = a.blocks;
  order = a.order;
  before = a.before;
  behind = a.behind;
  place = a.place;
  amount = a.amount;
  was =
      sym (in_use-append heap_begin bs (new_block alloc ∷ []) ∙ pairs_nil (in_use heap_begin bs))
      ∙ a.was;
  now = a.now;
  room = a.room;
  pointer = a.pointer;
  low = a.low;
  high = a.high;
}
  where
    pairs_nil : (l : List (ℕ × ℕ)) → l ++ [] ≡ l
    pairs_nil l = append_nil l

both : (a b : Bool) → (a && b) ≡ true → (a ≡ true) × (b ≡ true)
both true b e = (refl, e)
both false b e = absurd (true≢false (sym e))

-- What is asked of `sbrk`: a page at least.
abbrev pub asked : (need : ℕ) → ℕ
asked need = if ltb page_size need then need else page_size

-- No memory: no block fits, there was none for another one, and neither the list nor the break has
-- changed.
pub record Refused (garbage : ℕ → Header) (h : Heap) (bs : List Block) (size : ℕ) (p : ℕ)
    (h' : Heap) : Type 0 where
  pub null_pointer : p ≡ null
  pub unfit : IsUnfit size bs
  pub no_memory : NoMemory garbage h (asked size)
  pub order : IsHeap h' bs
  pub same_break : h'.heap_current_break ≡ h.heap_current_break

abbrev pub KmallocOutcome : (ℕ → Header) → Heap → List Block → (size : ℕ) → ℕ → Heap → Type 0
KmallocOutcome garbage h bs size p h' =
    Refused garbage h bs (block_size size) p h' ⊎ Allocated bs (block_size size) p h'

module _ (garbage : ℕ → Header) (n : ℕ) (h : Heap) (bs : List Block) (size : ℕ) (v : IsHeap h bs)
    (aligned : h.heap_current_break % 4096 ≡ 0) (enough : length bs < n) (some_bytes : 0 < size)
    (small : size < 2 ^ 27) where
  need : ℕ
  need = block_size size

  Outcome : Option (ℕ × Heap) → Type 0
  Outcome r = (p : ℕ) × (h' : Heap) × (r ≡ some (p, h')) × KmallocOutcome garbage h bs size p h'

  alloc : ℕ
  alloc = asked need

  need-bounds : (header_size ≤ need) × (need < 2 ^ 28)
  unfolding need
  need-bounds = (omega arith, omega arith)

  alloc-bounds : (need ≤ alloc) × (alloc < 2 ^ 28)
  unfolding alloc
  alloc-bounds = elim (Bool-cases (ltb page_size need)) [
    | inl more ↦ rw more (omega arith, need-bounds.1)
    | inr less ↦ rw less (ltb→le _ _ less, omega arith)
  ]

  -- The end of `extend`.
  goes_on : ℕ × Heap → Option (ℕ × Heap)
  goes_on r =
      if r.0 == null
      then some (null, r.1)
      else insert_block n (record r.1 { headers = update r.1.headers r.0 (new_header alloc) }) r.0
        >>= λ h₃. some (take_block h₃ r.0 need)

  goes_on-grown :
      (p : ℕ) (h' h₃ : Heap)
      → Broken h alloc p h'
      → insert_block n (record h' { headers = update h'.headers p (new_header alloc) }) p ≡ some h₃
      → goes_on (p, h') ≡ some (take_block h₃ (end_of heap_begin bs) need)
  unfolding goes_on
  goes_on-grown p h' h₃ b e =
      rw (ne→== p null (omega (arith, place, end_of-le heap_begin bs)), e)
        (ap (λ k. some (take_block h₃ k need)) place)
    where
      place : p ≡ end_of heap_begin bs
      place =
          b.old_break
          ∙ sym (end_of-stop h.headers 0 heap_begin bs false h.heap_current_break v.chain)

  by_sbrk : IsUnfit need bs → (r : ℕ × Heap) → SbrkOutcome garbage h alloc r → Outcome (goes_on r)
  unfolding goes_on Outcome need alloc
  by_sbrk unfit (p, h') (inl (e, f, spent)) = rw e (
    null,
    h',
    refl,
    inl (record {
      null_pointer = refl;
      unfit = unfit;
      no_memory = spent;
      order = record {
        chain = subst (IsChain h'.headers 0 heap_begin bs false) (sym f.same_break) (
            IsChain-same h.headers h'.headers 0 heap_begin bs false h.heap_current_break
              (λ x le lt. f.headers x lt) v.chain);
        start = f.same_start ∙ v.start;
        bound = subst (λ k. k ≤ heap_end) (sym f.same_break) v.bound;
      };
      same_break = f.same_break;
    }),
  )
  by_sbrk unfit (p, h') (inr b) =
      let (h₃, e, order, same) =
        insert_block-IsHeap n h bs alloc p h' v b (omega (arith, need-bounds.0, alloc-bounds.0))
          enough in
      subst Outcome (sym (goes_on-grown p h' h₃ b e)) (
        (take_block h₃ (end_of heap_begin bs) need).0,
        (take_block h₃ (end_of heap_begin bs) need).1,
        refl,
        inr (
            grown-Allocated bs alloc need (take_block h₃ (end_of heap_begin bs) need).0
              (take_block h₃ (end_of heap_begin bs) need).1
              (take_block-Allocated h₃ bs (new_block alloc) [] need order refl alloc-bounds.0
                need-bounds.0)),
      )

  extended : IsUnfit need bs → Outcome (extend garbage n h need)
  unfolding extend goes_on alloc
  extended unfit =
      by_sbrk unfit (sbrk garbage h alloc)
        (sbrk-SbrkOutcome garbage h alloc aligned v.bound alloc-bounds.1)

  runs :
      (block : ℕ)
      → find_free_block n h.headers (pointer_to heap_begin bs) need ≡ some block
      → kmalloc garbage n h size ≡ allocate garbage n h need block
  unfolding kmalloc need
  runs block e = rw (ne→== size 0 (omega arith), v.start, e) refl

  found : (block : ℕ) → Found need heap_begin bs block → Outcome (allocate garbage n h need block)
  unfolding allocate Outcome need
  found block f = subst Outcome (sym taken_there) (
    (take_block h (end_of heap_begin f.before) need).0,
    (take_block h (end_of heap_begin f.before) need).1,
    refl,
    inr (
        subst
          (λ l.
            Allocated l need (take_block h (end_of heap_begin f.before) need).0
              (take_block h (end_of heap_begin f.before) need).1)
          (sym f.blocks)
          (take_block-Allocated h f.before f.fit f.behind need (subst (IsHeap h) f.blocks v)
            (both _ _ f.fits).0 (leb→le _ _ (both _ _ f.fits).1) need-bounds.0)),
  )
    where
      taken_there :
          allocate garbage n h need block ≡ some (take_block h (end_of heap_begin f.before) need)
      taken_there =
          rw (ne→== block null (omega (arith, f.place, end_of-le heap_begin f.before)))
            (ap (λ k. some (take_block h k need)) f.place)

  -- With a heap in order, whose break is the begin of a page, and enough rounds: `kmalloc` of less than
  -- 2 ^ 27 bytes, and at least one, ends and leaves the heap in order. Either one block in use is
  -- added, with room for the size rounded up to a multiple of 8 and for the header in front of the
  -- pointer that is returned, while the other blocks in use are as before; or no free block was
  -- large enough and there was no memory for another one, since it would end behind the heap or a page
  -- of it found no frame; then `NULL` is returned, and the blocks and the break are as before.
  pub kmalloc-KmallocOutcome :
      (p : ℕ) × (h' : Heap) × (kmalloc garbage n h size ≡ some (p, h'))
      × KmallocOutcome garbage h bs size p h'
  unfolding kmalloc allocate need Outcome
  kmalloc-KmallocOutcome =
      let (block, e, o) =
        find_free_block-FindOutcome n h.headers 0 heap_begin need bs h.heap_current_break enough
          v.chain in
      by_outcome block e o
    where
      by_outcome :
          (block : ℕ)
          → find_free_block n h.headers (pointer_to heap_begin bs) need ≡ some block
          → FindOutcome need heap_begin bs block
          → Outcome (kmalloc garbage n h size)
      by_outcome block e (inl (e', unfit)) =
          subst Outcome (sym (runs block e ∙ ap (allocate garbage n h need) e')) (extended unfit)
      by_outcome block e (inr f) = subst Outcome (sym (runs block e)) (found block f)
