-- ===== src/Heap/Chain.antt =====
-- The blocks of heap.c as a list: the headers of a heap that is in order, one behind the other.
use veni.Base.{
  ℕ, ◌+◌, ◌<◌, ◌≤◌, ◌≡◌, refl, sym, ap, subst, ◌∙◌, Bool, true, List, [], ◌∷◌, ◌++◌, if◌then◌else◌,
  update, arith, ne→==, eq→==,
}
use veni.Heap.{block_magic, header_size, Header}

pub record Block : Type 0 where
  pub size : ℕ
  pub is_free : Bool

-- Something follows the blocks in the list.
abbrev pub follows : List Block → (more : Bool) → Bool
follows [] more = more
follows (b ∷ bs) more = true

-- The header of a block at `at`, behind the one at `prev`.
abbrev pub header_of : (prev at : ℕ) → Block → (more : Bool) → Header
header_of prev at b more = record {
  magic = block_magic;
  size = b.size;
  is_free = b.is_free;
  next = if more then at + b.size else 0;
  prev = prev;
}

-- The headers of the blocks, which fill the addresses from `at` to `stop`.
abbrev pub IsChain : (ℕ → Header) → (prev at : ℕ) → List Block → (more : Bool) → (stop : ℕ) → Type 0
IsChain headers prev at [] more stop = at ≡ stop
IsChain headers prev at (b ∷ bs) more stop =
    (0 < at)
    × (header_size ≤ b.size)
    × (headers at ≡ header_of prev at b (follows bs more))
    × IsChain headers at (at + b.size) bs more stop

pub IsChain-le :
    (headers : ℕ → Header) (prev at : ℕ) (bs : List Block) (more : Bool) (stop : ℕ)
    → IsChain headers prev at bs more stop
    → at ≤ stop
IsChain-le headers prev at [] more stop e = omega arith
IsChain-le headers prev at (b ∷ bs) more stop (pos, room, e, c) =
    omega (arith, IsChain-le headers at (at + b.size) bs more stop c)

-- Headers elsewhere do not matter.
pub IsChain-same :
    (headers headers' : ℕ → Header) (prev at : ℕ) (bs : List Block) (more : Bool) (stop : ℕ)
    → ((x : ℕ) → at ≤ x → x + header_size ≤ stop → headers' x ≡ headers x)
    → IsChain headers prev at bs more stop
    → IsChain headers' prev at bs more stop
IsChain-same headers headers' prev at [] more stop same e = e
IsChain-same headers headers' prev at (b ∷ bs) more stop same (pos, room, e, c) = (
  pos,
  room,
  same at (omega arith) (omega (arith, IsChain-le headers at (at + b.size) bs more stop c)) ∙ e,
  IsChain-same headers headers' at (at + b.size) bs more stop (λ x le lt. same x (omega arith) lt)
      c,
)

-- The address of the last block, or that of what is before the first one.
abbrev pub last_at : (prev at : ℕ) → List Block → ℕ
last_at prev at [] = prev
last_at prev at (b ∷ bs) = last_at at (at + b.size) bs

abbrev pub end_of : (at : ℕ) → List Block → ℕ
end_of at [] = at
end_of at (b ∷ bs) = end_of (at + b.size) bs

pub follows-append :
    (xs ys : List Block) (more : Bool) → follows (xs ++ ys) more ≡ follows xs (follows ys more)
follows-append [] ys more = refl
follows-append (x ∷ xs) ys more = refl

-- Two lists, one behind the other.
pub IsChain-append :
    (headers : ℕ → Header) (prev at : ℕ) (xs ys : List Block) (more : Bool) (stop : ℕ)
    → IsChain headers prev at xs (follows ys more) (end_of at xs)
    → IsChain headers (last_at prev at xs) (end_of at xs) ys more stop
    → IsChain headers prev at (xs ++ ys) more stop
IsChain-append headers prev at [] ys more stop c d = d
IsChain-append headers prev at (x ∷ xs) ys more stop (pos, room, e, c) d = (
  pos,
  room,
  e ∙ ap (header_of prev at x) (sym (follows-append xs ys more)),
  IsChain-append headers at (at + x.size) xs ys more stop c d,
)

pub IsChain-split :
    (headers : ℕ → Header) (prev at : ℕ) (xs ys : List Block) (more : Bool) (stop : ℕ)
    → IsChain headers prev at (xs ++ ys) more stop
    → IsChain headers prev at xs (follows ys more) (end_of at xs)
      × IsChain headers (last_at prev at xs) (end_of at xs) ys more stop
IsChain-split headers prev at [] ys more stop c = (refl, c)
IsChain-split headers prev at (x ∷ xs) ys more stop (pos, room, e, c) =
    let (c', d) = IsChain-split headers at (at + x.size) xs ys more stop c in
    ((pos, room, e ∙ ap (header_of prev at x) (follows-append xs ys more), c'), d)

-- A write to the header of the first block, which keeps its size.
pub IsChain-first :
    (headers : ℕ → Header) (prev prev' at : ℕ) (b b' : Block) (bs : List Block) (more : Bool)
    (stop : ℕ)
    → b'.size ≡ b.size
    → IsChain headers prev at (b ∷ bs) more stop
    → IsChain
        (update headers at (header_of prev' at b' (follows bs more)))
        prev'
        at
        (b' ∷ bs)
        more
        stop
IsChain-first headers prev prev' at b b' bs more stop same (pos, room, e, c) = (
  pos,
  omega (arith, same),
  rw (eq→== at at refl) refl,
  subst
      (λ n.
        IsChain (update headers at (header_of prev' at b' (follows bs more))) at (at + n) bs more
          stop)
      (sym same)
      (IsChain-same headers _ at (at + b.size) bs more stop
        (λ x le lt. rw (ne→== at x (omega arith)) refl) c),
)
