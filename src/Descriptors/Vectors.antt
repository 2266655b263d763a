-- ===== src/Descriptors/Vectors.antt =====
-- idt.c: which routine an interrupt runs after `idt_init`.
use veni.Base.{
  ℕ, zero, suc, ◌+◌, ◌-◌, ◌*◌, ◌^◌, ◌≤◌, ◌<◌, ◌≡◌, refl, ◌∙◌, arith, update, ◌==◌, eq→==, ne→==,
  true, inl, inr, Bool-cases, ==→eq, ==→ne, subst,
}
use veni.Descriptors.{IdtEntry, Idt, idt_set_descriptor, set_vectors, idt_init}

-- The routine that a descriptor leads to.
abbrev pub handler : IdtEntry → ℕ
handler e = e.isr_low + e.isr_high * 2 ^ 16

-- An interrupt gate of the kernel's code segment, present, for 32 bits, that runs `isr`.
pub record Gate (isr : ℕ) (e : IdtEntry) : Type 0 where
  pub runs : handler e ≡ isr
  pub selector : e.kernel_cs ≡ 8
  pub kind : e.attributes ≡ 0x8E

module _ (first : ℕ) (stubs : ℕ → ℕ) where
  set_vectors_before :
      (n i j : ℕ) (s : Idt) → j < first + i → (set_vectors n i first stubs s).idt j ≡ s.idt j
  unfolding set_vectors idt_set_descriptor
  set_vectors_before zero i j s h = refl
  set_vectors_before (suc n) i j s h =
      set_vectors_before n (i + 1) j _ (omega arith) ∙ rw (ne→== (first + i) j (omega arith))

  set_vectors_behind :
      (n i j : ℕ) (s : Idt) → first + i + n ≤ j → (set_vectors n i first stubs s).idt j ≡ s.idt j
  unfolding set_vectors idt_set_descriptor
  set_vectors_behind zero i j s h = refl
  set_vectors_behind (suc n) i j s h =
      set_vectors_behind n (i + 1) j _ (omega arith) ∙ rw (ne→== (first + i) j (omega arith))

  set_vectors_at :
      (n i : ℕ) (s : Idt) → 0 < n → Gate (stubs i) ((set_vectors n i first stubs s).idt (first + i))
  unfolding set_vectors idt_set_descriptor
  set_vectors_at zero i s h = absurd (omega arith)
  set_vectors_at (suc n) i s h =
      rw
        (
          set_vectors_before n (i + 1) (first + i)
              (record s {
                idt = idt_set_descriptor (first + i) (stubs i) 0x8E s.idt;
                vectors = update s.vectors (first + i) true;
              })
              (omega arith),
          eq→== (first + i) (first + i) refl,
        )
        (record { runs = omega arith; selector = refl; kind = refl })

  set_vectors_inside :
      (n i k : ℕ) (s : Idt)
      → i ≤ k
      → k < i + n
      → Gate (stubs k) ((set_vectors n i first stubs s).idt (first + k))
  unfolding set_vectors
  set_vectors_inside zero i k s h lt = absurd (omega arith)
  set_vectors_inside (suc n) i k s h lt = elim (Bool-cases (i == k)) [
    | inl same ↦
        subst (λ j. Gate (stubs j) ((set_vectors (suc n) i first stubs s).idt (first + j)))
          (==→eq i k same) (set_vectors_at (suc n) i s (omega arith))
    | inr other ↦ set_vectors_inside n (i + 1) k _ (omega (arith, ==→ne i k other)) (omega arith)
  ]

-- The vectors of exceptions run the routines in `isrs`, those of the interrupt controllers the ones in
-- `irqs`, and the others are as before.
pub record Installed (isrs irqs : ℕ → ℕ) (before after : Idt) : Type 0 where
  pub exceptions : (v : ℕ) → v < 32 → Gate (isrs v) (after.idt v)
  pub requests : (irq : ℕ) → irq < 16 → Gate (irqs irq) (after.idt (32 + irq))
  pub others : (v : ℕ) → 48 ≤ v → after.idt v ≡ before.idt v

-- After `idt_init` the vectors below 32 are present gates that run the routines of `isr_stub_table`,
-- the 16 from 32 on those of `irq_stub_table`, in their order, and no other vector has changed.
pub idt_init-Installed :
    (at : ℕ) (isrs irqs : ℕ → ℕ) (s : Idt) → Installed isrs irqs s (idt_init at isrs irqs s)
unfolding idt_init
idt_init-Installed at isrs irqs s = record {
  exceptions = λ v lt.
      subst (λ j. Gate (isrs v) ((idt_init at isrs irqs s).idt j)) (zero_add v)
        (rw (set_vectors_before 32 irqs 16 0 (0 + v) (set_vectors 32 0 0 isrs loaded) (omega arith))
          (set_vectors_inside 0 isrs 32 0 v loaded (omega arith) (omega arith)));
  requests = λ irq lt. set_vectors_inside 32 irqs 16 0 irq _ (omega arith) (omega arith);
  others = λ v le.
      set_vectors_behind 32 irqs 16 0 v _ (omega arith)
      ∙ set_vectors_behind 0 isrs 32 0 v _ (omega arith);
}
  where
    loaded : Idt
    loaded = record s { idtr = record { limit = 8 * 256 - 1; base = at } }

    zero_add : (v : ℕ) → 0 + v ≡ v
    zero_add v = omega arith
