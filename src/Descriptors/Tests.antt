-- ===== src/Descriptors/Tests.antt =====
-- The tables that the kernel loads, and the theorems at them.
use veni.Base.{ℕ, ◌+◌, ◌*◌, ◌≡◌, refl, arith, false}
use veni.Descriptors.{GdtEntry, Gdt, gdt_set_gate, gdt_init, Idt, idt_init}
use veni.Descriptors.Segments.{
  segment_base, segment_limit, segment_flags, Describes, gdt_set_gate-Describes,
}
use veni.Descriptors.Vectors.{Installed, idt_init-Installed}

abbrev blank_gate : ℕ → GdtEntry
blank_gate i = record {
  limit_low = 0;
  base_low = 0;
  base_middle = 0;
  access = 0;
  granularity = 0;
  base_high = 0;
}

abbrev loaded : Gdt
loaded = gdt_init 0x101000 (record { gdt = blank_gate; gp = record { limit = 0; base = 0 } })

-- The selector of the gates, 8, is that of entry 1: all 4 GB, as code that is present.
code_segment :
    (segment_base (loaded.gdt 1) ≡ 0)
    × (segment_limit (loaded.gdt 1) ≡ 0xFFFFF)
    × ((loaded.gdt 1).access ≡ 0x9A)
    × (segment_flags (loaded.gdt 1) ≡ 0xC)
    × ((loaded.gdt 2).access ≡ 0x92)
    × (loaded.gp.limit ≡ 23)
unfolding gdt_init gdt_set_gate
code_segment = (refl, refl, refl, refl, refl, refl)

gdt_set_gate-Describes_example :
    Describes 1 0xC0101234 0xFFFFF 0x9A 0xC0 blank_gate
      (gdt_set_gate 1 0xC0101234 0xFFFFF 0x9A 0xC0 blank_gate)
gdt_set_gate-Describes_example =
    gdt_set_gate-Describes 1 0xC0101234 0xFFFFF 0x9A 0xC0 blank_gate (omega arith) (omega arith)

abbrev no_vectors : Idt
no_vectors = record {
  idt = λ v. record { isr_low = 0; kernel_cs = 0; reserved = 0; attributes = 0; isr_high = 0 };
  idtr = record { limit = 0; base = 0 };
  vectors = λ v. false;
}

abbrev routine : ℕ → ℕ
routine v = 0x100000 + v * 16

idt_init-Installed_example :
    Installed routine
      (λ v. 0x100200 + v * 16)
      no_vectors
      (idt_init 0x102000 routine (λ v. 0x100200 + v * 16) no_vectors)
idt_init-Installed_example = idt_init-Installed 0x102000 routine (λ v. 0x100200 + v * 16) no_vectors
