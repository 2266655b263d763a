-- ===== src/Heap/Merge.antt =====
-- `merge_free_blocks` of heap.c: a block takes in the free blocks behind it, and goes into a free block
-- before it.
use veni.Base.{
  ℕ, zero, suc, ◌+◌, ◌%◌, ◌^◌, ◌<◌, ◌≤◌, ◌≡◌, ◌≢◌, refl, sym, ap, ap₂, subst, ◌∙◌, Bool, true,
  false, some, List, [], ◌∷◌, ◌++◌, if◌then◌else◌, update, length, arith, inl, inr, Bool-cases,
  ne→==, eq→==,
}
use veni.Pmm.{null}
use veni.Heap.{block_magic, Header, set_prev, merge_next, merge_prev}
use veni.Heap.Chain.{Block, follows, header_of, IsChain, IsChain-le, IsChain-same, end_of}
use veni.Heap.Find.{pointer_to}
use veni.Heap.Take.{set_prev-other, set_prev-IsChain}

-- A pointer behind an address is not that of a header up to it.
pub pointer_to-ne : (at : ℕ) (bs : List Block) (x : ℕ) → 0 < x → x < at → pointer_to at bs ≢ x
pointer_to-ne at bs x pos lt = elim (Bool-cases (follows bs false)) [
  | inl e ↦ rw e (λ f. omega arith)
  | inr e ↦ rw e (λ f. omega arith)
]

abbrev pub wider : Block → Block → Block
wider b c = record { size = b.size + c.size; is_free = b.is_free }

-- Two blocks become one: what `merge_next` and `merge_prev` write.
abbrev pub join : (ℕ → Header) → (at : ℕ) → Block → Block → List Block → ℕ → Header
join headers at b c bs =
    set_prev
      (update headers at (record (headers at) {
        size = (b.size + c.size) % 2 ^ 32;
        next = pointer_to (at + b.size + c.size) bs;
      }))
      (pointer_to (at + b.size + c.size) bs) at

module _ (headers : ℕ → Header) (prev at : ℕ) (b c : Block) (bs : List Block) (stop : ℕ)
    (h : IsChain headers prev at (b ∷ (c ∷ bs)) false stop) (below : stop < 2 ^ 32) where
  whole : at + b.size + c.size ≤ stop
  whole = IsChain-le headers (at + b.size) (at + b.size + c.size) bs false stop h.3.3

  written : ℕ → Header
  written = update headers at (record (headers at) {
    size = (b.size + c.size) % 2 ^ 32;
    next = pointer_to (at + b.size + c.size) bs;
  })

  first : join headers at b c bs at ≡ header_of prev at (wider b c) (follows bs false)
  unfolding written
  first =
      set_prev-other written (pointer_to (at + b.size + c.size) bs) at at
        (pointer_to-ne (at + b.size + c.size) bs at h.0 (omega (arith, h.1)))
      ∙ rw (eq→== at at refl, h.2)
          (ap₂
            (λ s k. record {
              magic = block_magic;
              size = s;
              is_free = b.is_free;
              next = if follows bs false then k else 0;
              prev = prev;
            })
            (omega (arith, whole)) (omega arith))

  pub join-IsChain : IsChain (join headers at b c bs) prev at (wider b c ∷ bs) false stop
  unfolding written
  join-IsChain = (
    h.0,
    omega (arith, h.1),
    first,
    subst (λ k. IsChain (join headers at b c bs) at k bs false stop) (omega arith)
        (set_prev-IsChain written (at + b.size) at (at + b.size + c.size) bs stop (
          IsChain-same headers written (at + b.size) (at + b.size + c.size) bs false stop
            (λ x le lt. rw (ne→== at x (omega (arith, h.1))) refl) h.3.3)),
  )

  pub join-before : (x : ℕ) → 0 < x → x < at → join headers at b c bs x ≡ headers x
  unfolding written
  join-before x pos lt =
      set_prev-other written (pointer_to (at + b.size + c.size) bs) at x
        (pointer_to-ne (at + b.size + c.size) bs x pos (omega arith))
      ∙ rw (ne→== at x (omega arith)) refl

-- A block with the free blocks behind it, and the others.
abbrev pub absorbed : Block → List Block → Block × List Block
absorbed b [] = (b, [])
absorbed b (c ∷ bs) = if c.is_free then absorbed (wider b c) bs else (b, c ∷ bs)

-- The outcome of the loop.
pub record Merged (headers : ℕ → Header) (prev at : ℕ) (b : Block) (bs : List Block) (stop : ℕ)
    (headers' : ℕ → Header) : Type 0 where
  pub chain : IsChain headers' prev at ((absorbed b bs).0 ∷ (absorbed b bs).1) false stop
  pub before : (x : ℕ) → 0 < x → x < at → headers' x ≡ headers x

step :
    (n : ℕ) (headers : ℕ → Header) (prev at : ℕ) (b d : Block) (bs : List Block) (stop : ℕ)
    → IsChain headers prev at (b ∷ (d ∷ bs)) false stop
    → merge_next (suc n) headers at
      ≡ (if d.is_free then merge_next n (join headers at b d bs) at else some headers)
unfolding merge_next
step n headers prev at b d bs stop c =
    rw (c.2, c.3.2, ne→== (at + b.size) null (omega (arith, c.3.0))) refl

pub merge_next-Merged :
    (n : ℕ) (headers : ℕ → Header) (prev at : ℕ) (b : Block) (bs : List Block) (stop : ℕ)
    → length bs < n
    → stop < 2 ^ 32
    → IsChain headers prev at (b ∷ bs) false stop
    → (headers' : ℕ → Header) × (merge_next n headers at ≡ some headers')
      × Merged headers prev at b bs stop headers'
unfolding merge_next
merge_next-Merged zero headers prev at b bs stop lt below c = absurd (omega arith)
merge_next-Merged (suc n) headers prev at b [] stop lt below c =
    (headers, rw c.2 refl, record { chain = c; before = λ x pos h. refl })
merge_next-Merged (suc n) headers prev at b (d ∷ bs) stop lt below c = elim (Bool-cases d.is_free) [
  | inl free ↦ later free (
      merge_next-Merged n (join headers at b d bs) prev at (wider b d) bs stop (omega arith) below
        (join-IsChain headers prev at b d bs stop c below))
  | inr used ↦ (
    headers,
    step n headers prev at b d bs stop c ∙ rw used refl,
    record {
      chain = subst (λ p. IsChain headers prev at (p.0 ∷ p.1) false stop) (stays used) c;
      before = λ x pos h. refl;
    },
  )
]
  where
    stays : d.is_free ≡ false → (b, d ∷ bs) ≡ absorbed b (d ∷ bs)
    stays used = rw used refl

    joins : d.is_free ≡ true → absorbed (wider b d) bs ≡ absorbed b (d ∷ bs)
    joins free = rw free refl

    later :
        d.is_free ≡ true
        → (headers' : ℕ → Header) × (merge_next n (join headers at b d bs) at ≡ some headers')
          × Merged (join headers at b d bs) prev at (wider b d) bs stop headers'
        → (headers' : ℕ → Header) × (merge_next (suc n) headers at ≡ some headers')
          × Merged headers prev at b (d ∷ bs) stop headers'
    later free (headers', e, m) = (
      headers',
      step n headers prev at b d bs stop c ∙ rw free e,
      record {
        chain = subst (λ p. IsChain headers' prev at (p.0 ∷ p.1) false stop) (joins free) m.chain;
        before =
            λ x pos h. m.before x pos h ∙ join-before headers prev at b d bs stop c below x pos h;
      },
    )

-- The block goes into a free block before it.
abbrev pub merged_prev : List Block → Block → List Block → List Block
merged_prev [] b bs = b ∷ bs
merged_prev (x ∷ []) b bs = if x.is_free then wider x b ∷ bs else x ∷ (b ∷ bs)
merged_prev (x ∷ (y ∷ xs)) b bs = x ∷ merged_prev (y ∷ xs) b bs

-- What `merge_prev` does to the blocks from one at `at` on that is not the merged one.
record Joined (headers headers' : ℕ → Header) (prev at : ℕ) (bs : List Block) (stop : ℕ)
    : Type 0 where
  chain : IsChain headers' prev at bs false stop
  before : (x : ℕ) → 0 < x → x < at → headers' x ≡ headers x

prev-step :
    (headers : ℕ → Header) (prev at : ℕ) (x b : Block) (bs : List Block) (stop : ℕ)
    → IsChain headers prev at (x ∷ (b ∷ bs)) false stop
    → merge_prev headers (at + x.size) ≡ (if x.is_free then join headers at x b bs else headers)
unfolding merge_prev
prev-step headers prev at x b bs stop c = rw (c.3.2, ne→== at null (omega (arith, c.0)), c.2) refl

pub follows-merged_prev :
    (x : Block) (xs : List Block) (b : Block) (bs : List Block)
    → follows (merged_prev (x ∷ xs) b bs) false ≡ true
follows-merged_prev x [] b bs = elim (Bool-cases x.is_free) [
  | inl free ↦ rw free refl
  | inr used ↦ rw used refl
]
follows-merged_prev x (y ∷ xs) b bs = refl

merge_prev-Joined :
    (headers : ℕ → Header) (prev at : ℕ) (x : Block) (xs : List Block) (b : Block) (bs : List Block)
    (stop : ℕ)
    → stop < 2 ^ 32
    → IsChain headers prev at (x ∷ (xs ++ b ∷ bs)) false stop
    → Joined headers
        (merge_prev headers (end_of (at + x.size) xs))
        prev
        at
        (merged_prev (x ∷ xs) b bs)
        stop
unfolding merge_prev
merge_prev-Joined headers prev at x [] b bs stop below c =
    rw (prev-step headers prev at x b bs stop c) (chosen x.is_free)
  where
    chosen :
        (f : Bool)
        → Joined headers
            (if f then join headers at x b bs else headers)
            prev
            at
            (if f then wider x b ∷ bs else x ∷ (b ∷ bs))
            stop
    chosen true = record {
      chain = join-IsChain headers prev at x b bs stop c below;
      before = join-before headers prev at x b bs stop c below;
    }
    chosen false = record { chain = c; before = λ z pos lt. refl }
merge_prev-Joined headers prev at x (y ∷ xs) b bs stop below c =
    let k = merge_prev-Joined headers at (at + x.size) y xs b bs stop below c.3 in
    record {
      chain = (
        c.0,
        c.1,
        k.before at c.0 (omega (arith, c.1))
            ∙ c.2
            ∙ ap (header_of prev at x) (sym (follows-merged_prev y xs b bs)),
        k.chain,
      );
      before = λ z pos lt. k.before z pos (omega arith);
    }

-- The first block of the heap has none before it.
pub merge_prev-IsChain :
    (headers : ℕ → Header) (at : ℕ) (xs : List Block) (b : Block) (bs : List Block) (stop : ℕ)
    → stop < 2 ^ 32
    → IsChain headers 0 at (xs ++ b ∷ bs) false stop
    → IsChain (merge_prev headers (end_of at xs)) 0 at (merged_prev xs b bs) false stop
unfolding merge_prev
merge_prev-IsChain headers at [] b bs stop below c =
    subst (λ h. IsChain h 0 at (b ∷ bs) false stop) (sym unchanged) c
  where
    unchanged : merge_prev headers at ≡ headers
    unchanged = rw c.2 refl
merge_prev-IsChain headers at (x ∷ xs) b bs stop below c =
    (merge_prev-Joined headers 0 at x xs b bs stop below c).chain
