-- ===== src/Heap/Insert.antt =====
-- The block that `kmalloc` of heap.c puts at the end of the list.
use veni.Base.{
  ℕ, zero, suc, ◌+◌, ◌<◌, ◌≤◌, ◌≡◌, ◌≢◌, refl, sym, ap, subst, ◌∙◌, Bool, true, false, some, List,
  [], ◌∷◌, ◌++◌, update, length, arith, ne→==, eq→==,
}
use veni.Pmm.{null}
use veni.Heap.{
  block_magic, header_size, heap_begin, Header, Heap, new_header, last_block, insert_block,
}
use veni.Heap.Chain.{Block, IsChain, IsChain-le, IsChain-same, IsChain-append, end_of, last_at}
use veni.Heap.Order.{IsHeap}
use veni.Heap.Grow.{Broken}

-- The last block, and the list with something behind it.
last_at-le : (prev at : ℕ) (b : Block) (bs : List Block) → at ≤ last_at prev at (b ∷ bs)
last_at-le prev at b [] = omega arith
last_at-le prev at b (c ∷ bs) = omega (arith, last_at-le at (at + b.size) c bs)

last_block-last_at :
    (n : ℕ) (headers : ℕ → Header) (prev at : ℕ) (b : Block) (bs : List Block) (stop : ℕ)
    → length bs < n
    → IsChain headers prev at (b ∷ bs) false stop
    → last_block n headers at ≡ some (last_at prev at (b ∷ bs))
unfolding last_block
last_block-last_at zero headers prev at b bs stop lt c = absurd (omega arith)
last_block-last_at (suc n) headers prev at b [] stop lt c = rw c.2 refl
last_block-last_at (suc n) headers prev at b (d ∷ bs) stop lt c =
    rw (c.2, ne→== (at + b.size) null (omega (arith, c.0)))
      (last_block-last_at n headers at (at + b.size) d bs stop (omega arith) c.3)

link :
    (headers : ℕ → Header) (prev at : ℕ) (b : Block) (bs : List Block) (stop : ℕ)
    → IsChain headers prev at (b ∷ bs) false stop
    → IsChain
        (update headers
          (last_at prev at (b ∷ bs))
          (record (headers (last_at prev at (b ∷ bs))) { next = stop }))
        prev
        at
        (b ∷ bs)
        true
        stop
link headers prev at b [] stop c = (
  c.0,
  c.1,
  rw (eq→== at at refl, c.2)
      (ap
        (λ k. record {
          magic = block_magic;
          size = b.size;
          is_free = b.is_free;
          next = k;
          prev = prev;
        })
        (sym c.3)),
  c.3,
)
link headers prev at b (d ∷ bs) stop c = (
  c.0,
  c.1,
  rw
      (ne→== (last_at at (at + b.size) (d ∷ bs)) at
        (λ e. omega (arith, last_at-le at (at + b.size) d bs, c.1, e)))
      c.2,
  link headers at (at + b.size) d bs stop c.3,
)

pub end_of-stop :
    (headers : ℕ → Header) (prev at : ℕ) (bs : List Block) (more : Bool) (stop : ℕ)
    → IsChain headers prev at bs more stop
    → end_of at bs ≡ stop
end_of-stop headers prev at [] more stop c = c
end_of-stop headers prev at (b ∷ bs) more stop c =
    end_of-stop headers at (at + b.size) bs more stop c.3

last_at-stop :
    (headers : ℕ → Header) (prev at : ℕ) (b : Block) (bs : List Block) (more : Bool) (stop : ℕ)
    → IsChain headers prev at (b ∷ bs) more stop
    → last_at prev at (b ∷ bs) + header_size ≤ stop
last_at-stop headers prev at b [] more stop c = omega (arith, c.1, c.3)
last_at-stop headers prev at b (d ∷ bs) more stop c =
    last_at-stop headers at (at + b.size) d bs more stop c.3

abbrev pub new_block : (size : ℕ) → Block
new_block size = record { size = size; is_free = true }

module _ (n : ℕ) (h : Heap) (bs : List Block) (size block : ℕ) (h₁ : Heap) (v : IsHeap h bs)
    (b : Broken h size block h₁) (room : header_size ≤ size) (enough : length bs < n) where
  h₂ : Heap
  h₂ = record h₁ { headers = update h₁.headers block (new_header size) }

  -- The old blocks in the new store.
  old : IsChain h₂.headers 0 heap_begin bs false h.heap_current_break
  unfolding h₂
  old =
      IsChain-same h.headers h₂.headers 0 heap_begin bs false h.heap_current_break
        (λ x le lt. rw (ne→== block x (omega (arith, b.old_break))) (b.headers x lt)) v.chain

  empty-IsHeap :
      heap_begin ≡ h.heap_current_break
      → IsHeap (record h₂ { heap_start = block }) (new_block size ∷ [])
  unfolding h₂
  empty-IsHeap first = record {
    chain = (
      omega arith,
      room,
      rw (eq→== block heap_begin (b.old_break ∙ sym first)) refl,
      omega (arith, b.new_break),
    );
    start = b.old_break ∙ sym first;
    bound = b.bound;
  }

  -- The list is not empty.
  module _ (d : Block) (ds : List Block)
      (c : IsChain h₂.headers 0 heap_begin (d ∷ ds) false h.heap_current_break) where
    last : ℕ
    last = last_at 0 heap_begin (d ∷ ds)

    linked : ℕ → ℕ → Header
    linked next = update h₂.headers last (record (h₂.headers last) { next = next })

    final : ℕ → Header
    final = update (linked block) block (record (linked block block) { prev = last })

    last-ne : last ≢ block
    unfolding last
    last-ne e = omega (
      arith,
      b.old_break,
      e,
      last_at-stop h₂.headers 0 heap_begin d ds false h.heap_current_break c,
    )

    front : IsChain final 0 heap_begin (d ∷ ds) true h.heap_current_break
    unfolding final linked last
    front =
        IsChain-same (linked block) final 0 heap_begin (d ∷ ds) true h.heap_current_break
          (λ x le lt. rw (ne→== block x (omega (arith, b.old_break))) refl)
          (subst (λ k. IsChain (linked k) 0 heap_begin (d ∷ ds) true h.heap_current_break)
            (sym b.old_break) (link h₂.headers 0 heap_begin d ds h.heap_current_break c))

    behind : IsChain final last block (new_block size ∷ []) false h₁.heap_current_break
    unfolding final linked h₂
    behind = (
      omega (
        arith,
        b.old_break,
        IsChain-le h₂.headers 0 heap_begin (d ∷ ds) false h.heap_current_break c,
      ),
      room,
      rw (eq→== block block refl, ne→== last block last-ne) refl,
      omega (arith, b.old_break, b.new_break),
    )

    more-IsHeap :
        h.heap_start ≡ heap_begin
        → IsHeap (record h₂ { headers = final }) (d ∷ (ds ++ new_block size ∷ []))
    unfolding last h₂
    more-IsHeap begins = record {
      chain =
          IsChain-append final 0 heap_begin (d ∷ ds) (new_block size ∷ []) false
            h₁.heap_current_break
            (subst (IsChain final 0 heap_begin (d ∷ ds) true) (sym place) front)
            (subst (λ k. IsChain final last k (new_block size ∷ []) false h₁.heap_current_break)
              (b.old_break ∙ sym place) behind);
      start = b.same_start ∙ begins;
      bound = b.bound;
    }
      where
        place : end_of heap_begin (d ∷ ds) ≡ h.heap_current_break
        place = end_of-stop h₂.headers 0 heap_begin (d ∷ ds) false h.heap_current_break c

  run :
      (d : Block) (ds : List Block)
      (c : IsChain h₂.headers 0 heap_begin (d ∷ ds) false h.heap_current_break)
      → h₁.heap_start ≡ heap_begin
      → length ds < n
      → insert_block n h₂ block ≡ some (record h₂ { headers = final d ds c })
  unfolding insert_block final linked last h₂
  run d ds c begins lt =
      rw (begins, last_block-last_at n h₂.headers 0 heap_begin d ds h.heap_current_break lt c) refl

  pub insert_block-IsHeap :
      (h₃ : Heap) × (insert_block n
          (record h₁ { headers = update h₁.headers block (new_header size) })
          block
        ≡ some h₃)
      × IsHeap h₃ (bs ++ new_block size ∷ [])
      × (h₃.heap_current_break ≡ h₁.heap_current_break)
  unfolding insert_block h₂
  insert_block-IsHeap = by_blocks bs v old enough
    where
      by_blocks :
          (bs : List Block)
          → IsHeap h bs
          → IsChain h₂.headers 0 heap_begin bs false h.heap_current_break
          → length bs < n
          → (h₃ : Heap) × (insert_block n h₂ block ≡ some h₃)
            × IsHeap h₃ (bs ++ new_block size ∷ [])
            × (h₃.heap_current_break ≡ h₁.heap_current_break)
      by_blocks [] v c lt = (
        record h₂ { heap_start = block },
        rw (b.same_start ∙ v.start) refl,
        empty-IsHeap v.chain,
        refl,
      )
      by_blocks (d ∷ ds) v c lt = (
        record h₂ { headers = final d ds c },
        run d ds c (b.same_start ∙ v.start) (omega arith),
        more-IsHeap d ds c v.start,
        refl,
      )
