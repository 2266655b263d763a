-- ===== src/Heap/Grow.antt =====
-- `sbrk` of heap.c, and the block that `kmalloc` puts at the end of the list.
use veni.Base.{
  ℕ, zero, suc, ◌+◌, ◌-◌, ◌*◌, ◌/◌, ◌%◌, ◌^◌, ◌<◌, ◌≤◌, ◌≡◌, ◌⊎◌, refl, ◌∙◌, Bool, true, false,
  ◌&&◌, ◌==◌, ltb, if◌then◌else◌, arith, inl, inr, Bool-cases, ltb→le, le→ltb, ltb→lt, ==→eq,
  true≢false, subst,
}
use veni.Pmm.{null, page_size, pmm_alloc_page}
use veni.Vmm.{page_of, map_page}
use veni.Heap.{header_size, heap_end, Header, Heap, remapped, map_range, broken, sbrk}

-- What does not change below an address.
pub record Frame (at : ℕ) (h h' : Heap) : Type 0 where
  pub same_break : h'.heap_current_break ≡ h.heap_current_break
  pub same_start : h'.heap_start ≡ h.heap_start
  pub headers : (x : ℕ) → x + header_size ≤ at → h'.headers x ≡ h.headers x

module _ (garbage : ℕ → Header) where
  remapped-below :
      (headers : ℕ → Header) (addr x : ℕ)
      → addr % 4096 ≡ 0
      → x + header_size ≤ addr
      → remapped garbage headers addr x ≡ headers x
  remapped-below headers addr x aligned below =
      rw (le→ltb (page_of addr) (x + header_size) (omega arith))
        (chosen (ltb x (page_of addr + page_size)))
    where
      chosen : (b : Bool) → (if b && false then garbage x else headers x) ≡ headers x
      chosen true = refl
      chosen false = refl

  map_range-Frame :
      (n addr : ℕ) (h : Heap)
      → addr % 4096 ≡ 0
      → addr + n * 4096 < 2 ^ 32
      → Frame addr h (map_range garbage n addr h).1
  unfolding map_range
  map_range-Frame zero addr h aligned small = record {
    same_break = refl;
    same_start = refl;
    headers = λ x below. refl;
  }
  map_range-Frame (suc n) addr h aligned small =
      elim (Bool-cases ((pmm_alloc_page h.vmm.pmm).1 == null)) [
        | inl failed ↦
            rw failed (record { same_break = refl; same_start = refl; headers = λ x below. refl })
        | inr done ↦ rw done (
            later _ (map_range-Frame n ((addr + page_size) % 2 ^ 32) _ (omega arith) (omega arith)))
      ]
    where
      next : Heap
      next = record h {
        vmm =
            map_page (record h.vmm { pmm = (pmm_alloc_page h.vmm.pmm).0 }) addr
              (pmm_alloc_page h.vmm.pmm).1 3;
        headers = remapped garbage h.headers addr;
      }

      later : (h' : Heap) → Frame ((addr + page_size) % 2 ^ 32) next h' → Frame addr h h'
      later h' k = record {
        same_break = k.same_break;
        same_start = k.same_start;
        headers =
            λ x below. k.headers x (omega arith) ∙ remapped-below h.headers addr x aligned below;
      }

  -- The loop over the pages came to one for which there was no page frame.
  abbrev pub Stopped : (n addr : ℕ) → Heap → Type 0
  Stopped n addr h =
      (k : ℕ) × (g : Heap) × (k < n)
      × (map_range garbage k addr h ≡ (true, g))
      × ((pmm_alloc_page g.vmm.pmm).1 ≡ null)

  map_range-Stopped :
      (n addr : ℕ) (h : Heap) → (map_range garbage n addr h).0 ≡ false → Stopped n addr h
  unfolding map_range
  map_range-Stopped zero addr h e = absurd (true≢false e)
  map_range-Stopped (suc n) addr h e = elim (Bool-cases ((pmm_alloc_page h.vmm.pmm).1 == null)) [
    | inl failed ↦ (0, h, omega arith, refl, ==→eq _ _ failed)
    | inr done ↦
        let (k, g, lt, runs, null_page) =
          map_range-Stopped n ((addr + page_size) % 2 ^ 32) _ (rw done at e) in
        (suc k, g, omega arith, rw done runs, null_page)
  ]

-- There was no memory for `size` more bytes: they end behind the heap, or there is no frame for one of
-- their pages after those before it were mapped.
abbrev pub NoMemory : (ℕ → Header) → Heap → (size : ℕ) → Type 0
NoMemory garbage h size =
    (heap_end < h.heap_current_break + size)
    ⊎ Stopped garbage ((size + (page_size - 1)) / page_size) h.heap_current_break
        (record h { heap_current_break = h.heap_current_break + size })

-- What `sbrk` of a size does to the break: nothing, or it goes up by the size.
pub record Broken (h : Heap) (size block : ℕ) (h' : Heap) : Type 0 where
  pub old_break : block ≡ h.heap_current_break
  pub new_break : h'.heap_current_break ≡ h.heap_current_break + size
  pub bound : h'.heap_current_break ≤ heap_end
  pub same_start : h'.heap_start ≡ h.heap_start
  pub headers : (x : ℕ) → x + header_size ≤ h.heap_current_break → h'.headers x ≡ h.headers x

abbrev pub SbrkOutcome : (ℕ → Header) → Heap → (size : ℕ) → ℕ × Heap → Type 0
SbrkOutcome garbage h size r =
    ((r.0 ≡ null) × Frame h.heap_current_break h r.1 × NoMemory garbage h size)
    ⊎ Broken h size r.0 r.1

pub sbrk-SbrkOutcome :
    (garbage : ℕ → Header) (h : Heap) (size : ℕ)
    → h.heap_current_break % 4096 ≡ 0
    → h.heap_current_break ≤ heap_end
    → size < 2 ^ 28
    → SbrkOutcome garbage h size (sbrk garbage h size)
unfolding sbrk
sbrk-SbrkOutcome garbage h size aligned bound small =
    elim (Bool-cases (ltb heap_end ((h.heap_current_break + size) % 2 ^ 32))) [
      | inl full ↦ rw full (
          inl (
            refl,
            record { same_break = refl; same_start = refl; headers = λ x below. refl },
            inl (omega (arith, ltb→lt _ _ full)),
          ))
      | inr room ↦ rw room (
          by_range (ltb→le _ _ room) _
            (map_range-Frame garbage rounds h.heap_current_break raised aligned
              (omega (arith, ltb→le _ _ room)))
            (λ e. inr (
              stopped (ltb→le _ _ room)
                (map_range-Stopped garbage rounds h.heap_current_break raised e))))
    ]
  where
    raised : Heap
    raised = record h { heap_current_break = (h.heap_current_break + size) % 2 ^ 32 }

    rounds : ℕ
    rounds =
        ((h.heap_current_break + size) % 2 ^ 32 - h.heap_current_break + (page_size - 1))
        / page_size

    stopped :
        (h.heap_current_break + size) % 2 ^ 32 ≤ heap_end
        → Stopped garbage rounds h.heap_current_break raised
        → Stopped garbage
            ((size + (page_size - 1)) / page_size)
            h.heap_current_break
            (record h { heap_current_break = h.heap_current_break + size })
    stopped under s =
        subst
          (λ k.
            Stopped garbage ((size + (page_size - 1)) / page_size) h.heap_current_break
              (record h { heap_current_break = k }))
          whole (subst (λ k. Stopped garbage k h.heap_current_break raised) pages s)
      where
        whole : (h.heap_current_break + size) % 2 ^ 32 ≡ h.heap_current_break + size
        whole = omega arith

        pages : rounds ≡ (size + (page_size - 1)) / page_size
        pages = omega arith

    by_range :
        (h.heap_current_break + size) % 2 ^ 32 ≤ heap_end
        → (r : Bool × Heap) → Frame h.heap_current_break raised r.1
        → (r.0 ≡ false → NoMemory garbage h size)
        → SbrkOutcome garbage h size (broken h.heap_current_break r)
    by_range under (true, h') f spent = inr (record {
      old_break = refl;
      new_break = f.same_break ∙ omega arith;
      bound = omega (arith, f.same_break, under);
      same_start = f.same_start;
      headers = f.headers;
    })
    by_range under (false, h') f spent = inl (
      refl,
      record { same_break = refl; same_start = f.same_start; headers = f.headers },
      spent refl,
    )

-- A size that takes the break beyond 2 ^ 32 is not refused: nothing is mapped, the break goes down,
-- and the old break is returned.
pub sbrk_wraps :
    (garbage : ℕ → Header) (h : Heap) (size : ℕ)
    → h.heap_current_break ≤ heap_end
    → size < 2 ^ 32
    → 2 ^ 32 ≤ h.heap_current_break + size
    → sbrk garbage h size ≡ (
      h.heap_current_break,
      record h { heap_current_break = h.heap_current_break + size - 2 ^ 32 },
    )
unfolding sbrk map_range
sbrk_wraps garbage h size bound word over =
    rw (wrapped, le→ltb heap_end (h.heap_current_break + size - 2 ^ 32) (omega arith), no_rounds)
      refl
  where
    wrapped : (h.heap_current_break + size) % 2 ^ 32 ≡ h.heap_current_break + size - 2 ^ 32
    wrapped = omega arith

    no_rounds :
        (h.heap_current_break + size - 2 ^ 32 - h.heap_current_break + (page_size - 1)) / page_size
        ≡ 0
    no_rounds = omega arith
