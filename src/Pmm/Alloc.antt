-- ===== src/Pmm/Alloc.antt =====
-- What `pmm_init`, `pmm_alloc_page` and `pmm_free_page` do to the set of used pages.
use veni.Base.{
  ℕ, zero, suc, ◌+◌, ◌*◌, ◌%◌, ◌^◌, ◌≤◌, ◌<◌, ◌≡◌, refl, sym, ap, subst, ◌∙◌, inl, inr, true, false,
  Option, none, some, ◌==◌, leb, if◌then◌else◌, Bool-cases, true≢false, leb→le, leb→lt, lt→leb,
  ==→eq, arith,
}
use veni.Pmm.{Pmm, page_size, null, is_used, set_used, find_free, take_page, pmm_alloc_page}
use veni.Pmm.Usage.{IsValid, count, count-le, count-all, count-add, count-lt, is_used-set_used}

-- Page `k` is the lowest free one.
pub record IsLowestFree (s : Pmm) (k : ℕ) : Type 0 where
  pub in_range : k < s.total_pages
  pub free : is_used s k ≡ false
  pub lowest : (i : ℕ) → i < k → is_used s i ≡ true

-- What the loop returns when it starts at `i` with `n` rounds left.
abbrev Scanned : Pmm → ℕ → ℕ → Option ℕ → Type 0
Scanned s n i none = (j : ℕ) → i ≤ j → j < i + n → is_used s j ≡ true
Scanned s n i (some k) =
    (i ≤ k) × (k < i + n) × (is_used s k ≡ false) × ((j : ℕ) → i ≤ j → j < k → is_used s j ≡ true)

find_free-Scanned : (s : Pmm) (n i : ℕ) → Scanned s n i (find_free s n i)
unfolding find_free
find_free-Scanned s zero i = λ j p q. absurd (omega arith)
find_free-Scanned s (suc n) i = elim (Bool-cases (is_used s i)) [
  | inl used ↦ rw used (later (find_free s n (i + 1)) used (find_free-Scanned s n (i + 1)))
  | inr free ↦ rw free (omega arith, omega arith, free, λ j p q. absurd (omega arith))
]
  where
    here_or_later :
        (j : ℕ) → is_used s i ≡ true → i ≤ j → (i + 1 ≤ j → is_used s j ≡ true) → is_used s j ≡ true
    here_or_later j used p rest = elim (Bool-cases (i == j)) [
      | inl e ↦ ap (is_used s) (sym (==→eq i j e)) ∙ used
      | inr ne ↦ rest (ground arith)
    ]

    later : (o : Option ℕ) → is_used s i ≡ true → Scanned s n (i + 1) o → Scanned s (suc n) i o
    later none used all = λ j p q. here_or_later j used p (λ above. all j above (omega arith))
    later (some k) used (lo, hi, free, all) =
        (omega arith, omega arith, free, λ j p q. here_or_later j used p (λ above. all j above q))

-- With a page left the loop stops at the lowest free one.
find_free-lowest :
    (s : Pmm)
    → IsValid s
    → s.used_pages < s.total_pages
    → (k : ℕ) × (find_free s s.total_pages 0 ≡ some k) × IsLowestFree s k
find_free-lowest s v room =
    go (find_free s s.total_pages 0) refl (find_free-Scanned s s.total_pages 0)
  where
    go :
        (o : Option ℕ)
        → find_free s s.total_pages 0 ≡ o
        → Scanned s s.total_pages 0 o
        → (k : ℕ) × (find_free s s.total_pages 0 ≡ some k) × IsLowestFree s k
    go none e all = absurd (
        omega (
          arith,
          v.counted,
          count-all (is_used s) s.total_pages (λ i h. all i (omega arith) (omega arith)),
        ))
    go (some k) e (lo, hi, free, all) = (
      k,
      e,
      record { in_range = omega arith; free = free; lowest = λ i h. all i (omega arith) h },
    )

-- `pmm_alloc_page` with a page left: the outcome for the lowest free page `k`.
pub record Allocated (s : Pmm) (k : ℕ) (t : Pmm) (page : ℕ) : Type 0 where
  pub lowest : IsLowestFree s k
  pub address : page ≡ k * page_size
  pub usage : (i : ℕ) → is_used t i ≡ (if k == i then true else is_used s i)
  pub one_more : t.used_pages ≡ s.used_pages + 1
  pub same_total : t.total_pages ≡ s.total_pages
  pub valid : IsValid t

take_page-Allocated :
    (s : Pmm) (k : ℕ)
    → IsValid s
    → IsLowestFree s k
    → Allocated s k (take_page s (some k)).0 (take_page s (some k)).1
unfolding take_page
take_page-Allocated s k v low = record {
  lowest = low;
  address = omega (arith, low.in_range, v.addressable);
  usage = usage;
  one_more = omega (arith, v.counted, more, bound, v.addressable);
  same_total = refl;
  valid = record {
    addressable = v.addressable;
    counted = omega (arith, v.counted, more, bound, v.addressable);
  };
}
  where
    t : Pmm
    t = record s { bitmap = set_used s k; used_pages = (s.used_pages + 1) % 2 ^ 32 }

    usage : (i : ℕ) → is_used t i ≡ (if k == i then true else is_used s i)
    usage i = is_used-set_used s t k i refl

    more : count (is_used t) s.total_pages ≡ count (is_used s) s.total_pages + 1
    more = count-add (is_used s) (is_used t) k s.total_pages low.free usage low.in_range

    bound : count (is_used s) s.total_pages ≤ s.total_pages
    bound = count-le (is_used s) s.total_pages

-- On a valid state with a page left, `pmm_alloc_page` returns the address of the lowest free page,
-- marks that page and no other, counts it, and leaves a valid state.
pub pmm_alloc_page-lowest :
    (s : Pmm)
    → IsValid s
    → s.used_pages < s.total_pages
    → (k : ℕ) × Allocated s k (pmm_alloc_page s).0 (pmm_alloc_page s).1
unfolding pmm_alloc_page
pmm_alloc_page-lowest s v room =
    let (k, found, low) = find_free-lowest s v room in
    (k, rw (lt→leb s.total_pages s.used_pages room, found) (take_page-Allocated s k v low))

pub pmm_alloc_page_full : (s : Pmm) → s.total_pages ≤ s.used_pages → pmm_alloc_page s ≡ (s, null)
unfolding pmm_alloc_page
pmm_alloc_page_full s h = ground arith

-- `pmm_alloc_page` returns no page and changes nothing, exactly when every page of a valid state
-- is used: if all are, the result is `NULL` with the state as it was, and while one is free the
-- count of used pages rises.
pub pmm_alloc_page-exhausted :
    (s : Pmm)
    → IsValid s
    → (((i : ℕ) → i < s.total_pages → is_used s i ≡ true) → pmm_alloc_page s ≡ (s, null))
      × ((i : ℕ)
          → i < s.total_pages
          → is_used s i ≡ false
          → (pmm_alloc_page s).0.used_pages ≡ s.used_pages + 1)
pmm_alloc_page-exhausted s v = (full, room)
  where
    full : ((i : ℕ) → i < s.total_pages → is_used s i ≡ true) → pmm_alloc_page s ≡ (s, null)
    full all =
        pmm_alloc_page_full s (omega (arith, v.counted, count-all (is_used s) s.total_pages all))

    room :
        (i : ℕ)
        → i < s.total_pages
        → is_used s i ≡ false
        → (pmm_alloc_page s).0.used_pages ≡ s.used_pages + 1
    room i h free =
        let (k, done) =
          pmm_alloc_page-lowest s v
            (omega (arith, v.counted, count-lt (is_used s) i s.total_pages free h)) in
        done.one_more

-- Every branch of `pmm_alloc_page` keeps the state valid.
pub pmm_alloc_page-IsValid : (s : Pmm) → IsValid s → IsValid (pmm_alloc_page s).0
pmm_alloc_page-IsValid s v = elim (Bool-cases (leb s.total_pages s.used_pages)) [
  | inl full ↦
      subst IsValid (sym (ap (λ (r : Pmm × ℕ). r.0) (pmm_alloc_page_full s (leb→le _ _ full)))) v
  | inr room ↦ let (k, done) = pmm_alloc_page-lowest s v (leb→lt _ _ room) in done.valid
]

-- While page 0 of a valid state is free, `pmm_alloc_page` takes it and no other page, counts it, and
-- returns the address that stands for failure.
pub pmm_alloc_page-null :
    (s : Pmm)
    → IsValid s
    → 0 < s.total_pages
    → is_used s 0 ≡ false
    → ((pmm_alloc_page s).1 ≡ null)
      × ((i : ℕ) → is_used (pmm_alloc_page s).0 i ≡ (if 0 == i then true else is_used s i))
      × ((pmm_alloc_page s).0.used_pages ≡ s.used_pages + 1)
pmm_alloc_page-null s v some_page free =
    let (k, done) =
      pmm_alloc_page-lowest s v
        (omega (arith, v.counted, count-lt (is_used s) 0 s.total_pages free some_page)) in
    let first = zero_of (λ above. done.lowest.lowest 0 above) in
    (
      omega (arith, done.address, first),
      λ i. done.usage i ∙ ap (λ j. if j == i then true else is_used s i) first,
      done.one_more,
    )
  where
    zero_of : {k : ℕ} → (0 < k → is_used s 0 ≡ true) → k ≡ 0
    zero_of {k} used = elim (Bool-cases (k == 0)) [
      | inl e ↦ ==→eq k 0 e
      | inr ne ↦ absurd (true≢false (sym (used (ground arith)) ∙ free))
    ]
