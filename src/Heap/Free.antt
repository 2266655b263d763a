-- ===== src/Heap/Free.antt =====
-- `kfree` of heap.c: the block is free, and the other blocks in use stay.
use veni.Base.{
  ℕ, ◌+◌, ◌-◌, ◌%◌, ◌^◌, ◌<◌, ◌≡◌, refl, sym, ap, subst, ◌∙◌, Bool, true, false, some, List, [],
  ◌∷◌, ◌++◌, ◌==◌, if◌then◌else◌, update, length, arith, inl, inr, Bool-cases, ne→==,
}
use veni.Pmm.{null}
use veni.Heap.{
  block_magic, header_size, heap_begin, Header, Heap, merge_prev, merge_free_blocks, kfree,
}
use veni.Heap.Chain.{
  Block, IsChain, IsChain-le, IsChain-same, IsChain-first, IsChain-append, IsChain-split, end_of,
  last_at,
}
use veni.Heap.Find.{pointer_to}
use veni.Heap.Order.{IsHeap, pointer_to-append}
use veni.Heap.Merge.{
  wider, absorbed, Merged, merge_next-Merged, merged_prev, merge_prev-IsChain, follows-merged_prev,
}

-- The blocks in use, by address and size.
abbrev pub in_use : (at : ℕ) → List Block → List (ℕ × ℕ)
in_use at [] = []
in_use at (b ∷ bs) =
    if b.is_free then in_use (at + b.size) bs else (at, b.size) ∷ in_use (at + b.size) bs

abbrev pub freed : Block → Block
freed b = record { size = b.size; is_free = true }

-- The blocks after a free: `b` is free and merged with its neighbours.
abbrev pub after_free : List Block → Block → List Block → List Block
after_free xs b ys = merged_prev xs (absorbed (freed b) ys).0 (absorbed (freed b) ys).1

pub in_use-append :
    (at : ℕ) (xs ys : List Block) → in_use at (xs ++ ys) ≡ in_use at xs ++ in_use (end_of at xs) ys
in_use-append at [] ys = refl
in_use-append at (x ∷ xs) ys = elim (Bool-cases x.is_free) [
  | inl free ↦ rw free (in_use-append (at + x.size) xs ys)
  | inr used ↦ rw used (ap (λ l. (at, x.size) ∷ l) (in_use-append (at + x.size) xs ys))
]

-- Two free blocks as one.
in_use-wider :
    (at : ℕ) (b c : Block) (bs : List Block)
    → b.is_free ≡ true
    → c.is_free ≡ true
    → in_use at (wider b c ∷ bs) ≡ in_use at (b ∷ (c ∷ bs))
in_use-wider at b c bs free free' = rw (free, free') (ap (λ k. in_use k bs) (omega arith))

-- What is absorbed was not in use.
in_use-absorbed :
    (at : ℕ) (b : Block) (bs : List Block)
    → b.is_free ≡ true
    → in_use at ((absorbed b bs).0 ∷ (absorbed b bs).1) ≡ in_use at (b ∷ bs)
in_use-absorbed at b [] free = refl
in_use-absorbed at b (c ∷ bs) free = chosen (in_use-absorbed at (wider b c) bs free) c.is_free refl
  where
    chosen :
        (in_use at ((absorbed (wider b c) bs).0 ∷ (absorbed (wider b c) bs).1)
          ≡ in_use at (wider b c ∷ bs))
        → (f : Bool) → c.is_free ≡ f
        → (let p = if f then absorbed (wider b c) bs else (b, c ∷ bs) in in_use at (p.0 ∷ p.1))
          ≡ in_use at (b ∷ (c ∷ bs))
    chosen ih true e = ih ∙ in_use-wider at b c bs free e
    chosen ih false e = refl

in_use-merged_prev :
    (at : ℕ) (xs : List Block) (b : Block) (bs : List Block)
    → b.is_free ≡ true
    → in_use at (merged_prev xs b bs) ≡ in_use at (xs ++ b ∷ bs)
in_use-merged_prev at [] b bs free = refl
in_use-merged_prev at (x ∷ []) b bs free = chosen x.is_free refl
  where
    chosen :
        (f : Bool)
        → x.is_free ≡ f
        → in_use at (if f then wider x b ∷ bs else x ∷ (b ∷ bs)) ≡ in_use at (x ∷ (b ∷ bs))
    chosen true e = in_use-wider at x b bs e free
    chosen false e = refl
in_use-merged_prev at (x ∷ (y ∷ xs)) b bs free =
    ap (λ l. if x.is_free then l else (at, x.size) ∷ l)
      (in_use-merged_prev (at + x.size) (y ∷ xs) b bs free)

absorbed-is_free : (b : Block) (bs : List Block) → (absorbed b bs).0.is_free ≡ b.is_free
absorbed-is_free b [] = refl
absorbed-is_free b (c ∷ bs) = chosen (absorbed-is_free (wider b c) bs) c.is_free
  where
    chosen :
        (absorbed (wider b c) bs).0.is_free ≡ b.is_free
        → (f : Bool) → (if f then absorbed (wider b c) bs else (b, c ∷ bs)).0.is_free ≡ b.is_free
    chosen ih true = ih
    chosen ih false = refl

-- The heap after a free.
pub record Freed (h : Heap) (xs : List Block) (b : Block) (ys : List Block) (h' : Heap)
    : Type 0 where
  pub order : IsHeap h' (after_free xs b ys)
  pub used :
      in_use heap_begin (after_free xs b ys)
      ≡ in_use heap_begin xs ++ in_use (end_of heap_begin xs + b.size) ys
  pub same_break : h'.heap_current_break ≡ h.heap_current_break

module _ (n : ℕ) (h : Heap) (xs : List Block) (b : Block) (ys : List Block)
    (v : IsHeap h (xs ++ b ∷ ys)) (enough : length ys < n) where
  block : ℕ
  block = end_of heap_begin xs

  parts :
      IsChain h.headers 0 heap_begin xs true block
      × IsChain h.headers (last_at 0 heap_begin xs) block (b ∷ ys) false h.heap_current_break
  unfolding block
  parts = IsChain-split h.headers 0 heap_begin xs (b ∷ ys) false h.heap_current_break v.chain

  marked : ℕ → Header
  marked = update h.headers block (record (h.headers block) { is_free = true })

  marked-IsChain :
      IsChain marked (last_at 0 heap_begin xs) block (freed b ∷ ys) false h.heap_current_break
  unfolding marked
  marked-IsChain =
      subst
        (λ k. IsChain k (last_at 0 heap_begin xs) block (freed b ∷ ys) false h.heap_current_break)
        (sym (ap (λ k. update h.headers block (record k { is_free = true })) parts.1.2))
        (IsChain-first h.headers (last_at 0 heap_begin xs) (last_at 0 heap_begin xs) block b
          (freed b) ys false h.heap_current_break refl parts.1)

  block_of : ((block + header_size) % 2 ^ 32 + 2 ^ 32 - header_size) % 2 ^ 32 ≡ block
  unfolding block
  block_of = omega (
    arith,
    v.bound,
    parts.1.1,
    IsChain-le h.headers block (block + b.size) ys false h.heap_current_break parts.1.3,
  )

  not_null : ((block + header_size) % 2 ^ 32 == null) ≡ false
  unfolding block
  not_null = ne→== _ _ (
      omega (
        arith,
        v.bound,
        parts.1.1,
        IsChain-le h.headers block (block + b.size) ys false h.heap_current_break parts.1.3,
      ))

  magic_ok : ((h.headers block).magic == block_magic) ≡ true
  magic_ok = rw parts.1.2 refl

  start-same : pointer_to heap_begin (after_free xs b ys) ≡ heap_begin
  start-same = follows-after xs
    where
      follows-after :
          (zs : List Block)
          → pointer_to heap_begin
              (merged_prev zs (absorbed (freed b) ys).0 (absorbed (freed b) ys).1)
            ≡ heap_begin
      follows-after [] = refl
      follows-after (z ∷ zs) =
          rw (follows-merged_prev z zs (absorbed (freed b) ys).0 (absorbed (freed b) ys).1) refl

  Merged-Freed :
      (headers' : ℕ → Header)
      → Merged marked (last_at 0 heap_begin xs) block (freed b) ys h.heap_current_break headers'
      → Freed h xs b ys (record h { headers = merge_prev headers' block })
  unfolding block marked
  Merged-Freed headers' m = record {
    order = record {
      chain =
          merge_prev-IsChain headers' heap_begin xs (absorbed (freed b) ys).0
            (absorbed (freed b) ys).1 h.heap_current_break (omega (arith, v.bound))
            (IsChain-append headers' 0 heap_begin xs
              ((absorbed (freed b) ys).0 ∷ (absorbed (freed b) ys).1) false h.heap_current_break
              (IsChain-same h.headers headers' 0 heap_begin xs true block
                (λ x le lt.
                  m.before x (omega arith) (omega arith) ∙ rw (ne→== block x (omega arith)) refl)
                parts.0)
              m.chain);
      start = v.start ∙ pointer_to-append heap_begin xs (b ∷ ys) refl ∙ sym start-same;
      bound = v.bound;
    };
    used =
        in_use-merged_prev heap_begin xs (absorbed (freed b) ys).0 (absorbed (freed b) ys).1
          (absorbed-is_free (freed b) ys)
        ∙ in_use-append heap_begin xs ((absorbed (freed b) ys).0 ∷ (absorbed (freed b) ys).1)
        ∙ ap (λ l. in_use heap_begin xs ++ l)
            (in_use-absorbed (end_of heap_begin xs) (freed b) ys refl);
    same_break = refl;
  }

  -- With a heap in order and enough rounds, `kfree` of a block in use ends; the heap is in order, with
  -- the same break, and the blocks in use are those from before without this one, at the same
  -- addresses and with the same sizes. Free neighbours are one block with it.
  pub kfree-Freed :
      (h' : Heap) × (kfree n h ((end_of heap_begin xs + header_size) % 2 ^ 32) ≡ some h')
      × Freed h xs b ys h'
  unfolding kfree merge_free_blocks block marked
  kfree-Freed =
      let (headers', e, m) =
        merge_next-Merged n marked (last_at 0 heap_begin xs) block (freed b) ys h.heap_current_break
          enough (omega (arith, v.bound)) marked-IsChain in
      (
        record h { headers = merge_prev headers' block },
        rw (block_of, not_null, magic_ok, e) refl,
        Merged-Freed headers' m,
      )
