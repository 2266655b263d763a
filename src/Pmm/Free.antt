-- ===== src/Pmm/Free.antt =====
-- What `pmm_free_page` does to the set of used pages, and `pmm_alloc_page` followed by it.
use veni.Base.{
  ℕ, zero, suc, ◌+◌, ◌-◌, ◌/◌, ◌%◌, ◌^◌, ◌≤◌, ◌<◌, ◌≡◌, sym, ap, subst, ◌∙◌, inl, inr, true, false,
  ◌==◌, leb, if◌then◌else◌, update, Bool-cases, ==→eq, arith, leb→lt, lt→leb, ltb,
}
use veni.Pmm.{
  Pmm, page_size, is_used, set_free, pmm_init, pmm_alloc_page, pmm_free_page, pmm_get_free_pages,
  clear_words,
}
use veni.Pmm.Usage.{IsValid, count, count-le, count-add, count-none, is_used-set_free}
use veni.Base.Bits.{zero-bit_and}
use veni.Pmm.Alloc.{Allocated, pmm_alloc_page-lowest}

-- Page `k` has become free, and nothing else has changed.
pub record Freed (s : Pmm) (k : ℕ) (t : Pmm) : Type 0 where
  pub usage : (i : ℕ) → is_used t i ≡ (if k == i then false else is_used s i)
  pub one_less : t.used_pages + 1 ≡ s.used_pages
  pub same_total : t.total_pages ≡ s.total_pages
  pub valid : IsValid t

free_page-Freed :
    (s t : Pmm) (k : ℕ)
    → IsValid s
    → k < s.total_pages
    → is_used s k ≡ true
    → t ≡ record s { bitmap = set_free s k; used_pages = (s.used_pages + 2 ^ 32 - 1) % 2 ^ 32 }
    → Freed s k t
free_page-Freed s t k v h used e = record {
  usage = usage;
  one_less = omega (arith, v.counted, less, pages, bound, v.addressable);
  same_total = total;
  valid = record {
    addressable = omega (arith, total, v.addressable);
    counted =
        omega (arith, v.counted, less, pages, bound, v.addressable, ap (count (is_used t)) total);
  };
}
  where
    total : t.total_pages ≡ s.total_pages
    total = ap (λ (r : Pmm). r.total_pages) e

    pages : t.used_pages ≡ (s.used_pages + 2 ^ 32 - 1) % 2 ^ 32
    pages = ap (λ (r : Pmm). r.used_pages) e

    usage : (i : ℕ) → is_used t i ≡ (if k == i then false else is_used s i)
    usage i = is_used-set_free s t k i (ap (λ (r : Pmm). r.bitmap) e)

    less : count (is_used s) s.total_pages ≡ count (is_used t) s.total_pages + 1
    less =
        count-add (is_used t) (is_used s) k s.total_pages (ground (arith, usage k))
          (λ i. back i (usage i)) h
      where
        back :
            (i : ℕ)
            → is_used t i ≡ (if k == i then false else is_used s i)
            → is_used s i ≡ (if k == i then true else is_used t i)
        back i u = elim (Bool-cases (k == i)) [
          | inl same ↦ rw same (ap (is_used s) (sym (==→eq k i same)) ∙ used)
          | inr other ↦ rw (other, u, other)
        ]

    bound : count (is_used s) s.total_pages ≤ s.total_pages
    bound = count-le (is_used s) s.total_pages

-- `pmm_free_page` of an address in a used page of a valid state clears that page's bit and no other,
-- counts it, and leaves a valid state.
pub pmm_free_page-Freed :
    (s : Pmm) (page : ℕ)
    → IsValid s
    → page / page_size < s.total_pages
    → is_used s (page / page_size) ≡ true
    → Freed s (page / page_size) (pmm_free_page s page)
unfolding pmm_free_page
pmm_free_page-Freed s page v h used =
    free_page-Freed s (pmm_free_page s page) (page / page_size) v h used
      (rw (lt→leb s.total_pages (page / page_size) h, used))

pmm_free_page_out :
    (s : Pmm) (page : ℕ) → leb s.total_pages (page / page_size) ≡ true → pmm_free_page s page ≡ s
unfolding pmm_free_page
pmm_free_page_out s page out = rw out

pmm_free_page_free :
    (s : Pmm) (page : ℕ) → is_used s (page / page_size) ≡ false → pmm_free_page s page ≡ s
unfolding pmm_free_page
pmm_free_page_free s page free = ground arith

-- Every branch of `pmm_free_page` keeps the state valid, whatever the address.
pub pmm_free_page-IsValid : (s : Pmm) (page : ℕ) → IsValid s → IsValid (pmm_free_page s page)
pmm_free_page-IsValid s page v = elim (Bool-cases (leb s.total_pages (page / page_size))) [
  | inl out ↦ subst IsValid (sym (pmm_free_page_out s page out)) v
  | inr in_range ↦ elim (Bool-cases (is_used s (page / page_size))) [
    | inl used ↦ (pmm_free_page-Freed s page v (leb→lt _ _ in_range) used).valid
    | inr free ↦ subst IsValid (sym (pmm_free_page_free s page free)) v
  ]
]

-- To free an address twice in a row is to free it once.
pub pmm_free_page_twice :
    (s : Pmm) (page : ℕ)
    → IsValid s
    → pmm_free_page (pmm_free_page s page) page ≡ pmm_free_page s page
pmm_free_page_twice s page v = elim (Bool-cases (leb s.total_pages (page / page_size))) [
  | inl out ↦ ap (λ t. pmm_free_page t page) (pmm_free_page_out s page out)
  | inr in_range ↦ elim (Bool-cases (is_used s (page / page_size))) [
    | inl used ↦
        let done = pmm_free_page-Freed s page v (leb→lt _ _ in_range) used in
        pmm_free_page_free (pmm_free_page s page) page
          (ground (arith, done.usage (page / page_size)))
    | inr free ↦ ap (λ t. pmm_free_page t page) (pmm_free_page_free s page free)
  ]
]

-- To free the page that `pmm_alloc_page` has just returned, on a valid state with a page left,
-- restores the use of every page and the number of used pages.
pub pmm_free_page-pmm_alloc_page :
    (s : Pmm)
    → IsValid s
    → s.used_pages < s.total_pages
    → let t = pmm_free_page (pmm_alloc_page s).0 (pmm_alloc_page s).1 in
      ((i : ℕ) → is_used t i ≡ is_used s i) × (t.used_pages ≡ s.used_pages)
pmm_free_page-pmm_alloc_page s v room =
    let (k, done) = pmm_alloc_page-lowest s v room in
    back k (pmm_alloc_page s).0 (pmm_alloc_page s).1 done
  where
    back :
        (k : ℕ) (t : Pmm) (page : ℕ)
        → Allocated s k t page
        → ((i : ℕ) → is_used (pmm_free_page t page) i ≡ is_used s i)
          × ((pmm_free_page t page).used_pages ≡ s.used_pages)
    back k t page done =
        let index : page / page_size ≡ k = omega (arith, done.address) in
        let freed =
          subst (λ n. Freed t n (pmm_free_page t page)) index
            (pmm_free_page-Freed t page done.valid
              (omega (arith, index, done.lowest.in_range, done.same_total))
              (ap (is_used t) index ∙ ground (arith, done.usage k))) in
        (
          λ i. elim (Bool-cases (k == i)) [
            | inl e ↦ ground (arith, freed.usage i, done.lowest.free, ap (is_used s) (==→eq k i e))
            | inr ne ↦ ground (arith, freed.usage i, done.usage i)
          ],
          omega (arith, freed.one_less, done.one_more),
        )

clear_words_lem :
    (n i : ℕ) (words : ℕ → ℕ) (j : ℕ)
    → clear_words n i words j
      ≡ (if leb i j then (if ltb j (i + n) then 0 else words j) else words j)
unfolding clear_words
clear_words_lem zero i words j = ground arith
clear_words_lem (suc n) i words j = ground (arith, clear_words_lem n (i + 1) (update words i 0) j)

unused : (s : Pmm) (i : ℕ) → s.bitmap (i / 32) ≡ 0 → is_used s i ≡ false
unfolding is_used
unused s i e = rw (e, zero-bit_and)

-- `pmm_init` of a whole number of bitmap words, whatever the memory held before, leaves a valid
-- state in which every page is free.
pub pmm_init-IsValid :
    (words : ℕ → ℕ) (start size : ℕ)
    → size < 2 ^ 32
    → size / page_size % 32 ≡ 0
    → IsValid (pmm_init words start size)
      × ((i : ℕ) → i < size / page_size → is_used (pmm_init words start size) i ≡ false)
unfolding pmm_init
pmm_init-IsValid words start size small whole = (
  record {
    addressable = omega arith;
    counted = sym (count-none (is_used (pmm_init words start size)) (size / page_size) free);
  },
  free,
)
  where
    free : (i : ℕ) → i < size / page_size → is_used (pmm_init words start size) i ≡ false
    free i h =
        unused (pmm_init words start size) i
          (clear_words_lem (size / page_size / 32) 0 words (i / 32) ∙ ground arith)

-- On a valid state the number of free pages is the number of pages outside the set.
pub pmm_get_free_pages_lem :
    (s : Pmm) → IsValid s → pmm_get_free_pages s + count (is_used s) s.total_pages ≡ s.total_pages
unfolding pmm_get_free_pages
pmm_get_free_pages_lem s v =
    omega (arith, v.counted, v.addressable, count-le (is_used s) s.total_pages)
