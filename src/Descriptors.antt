-- ===== src/Descriptors.antt =====
-- kernel/arch/i386/gdt.c and interrupts/idt.c: the tables of segment and interrupt descriptors.
pub mod Segments
pub mod Vectors
mod Tests
use veni.Base.{ℕ, zero, suc, ◌+◌, ◌-◌, ◌*◌, ◌/◌, ◌%◌, ◌^◌, Bool, true, bit_or, update}

-- `struct gdt_entry`.
pub record GdtEntry : Type 0 where
  pub limit_low : ℕ
  pub base_low : ℕ
  pub base_middle : ℕ
  pub access : ℕ
  pub granularity : ℕ
  pub base_high : ℕ

-- `limit` and `base` of `struct gdt_ptr` and of `idtr_t`.
pub record TablePtr : Type 0 where
  pub limit : ℕ
  pub base : ℕ

-- The static variables of gdt.c.
pub record Gdt : Type 0 where
  pub gdt : ℕ → GdtEntry
  pub gp : TablePtr

-- A mask of the low bits is the remainder, and one of bits in the middle is made of two.
unfoldable pub gdt_set_gate : (num base limit access gran : ℕ) → (ℕ → GdtEntry) → ℕ → GdtEntry
gdt_set_gate num base limit access gran gdt = update gdt num (record {
  base_low = base % 2 ^ 16;
  base_middle = base / 2 ^ 16 % 2 ^ 8;
  base_high = base / 2 ^ 24 % 2 ^ 8;
  limit_low = limit % 2 ^ 16;
  granularity = bit_or (limit / 2 ^ 16 % 2 ^ 4) (gran / 2 ^ 4 % 2 ^ 4 * 2 ^ 4);
  access = access;
})

-- The flags of gdt.h.
abbrev gdt_present : ℕ
gdt_present = 0x80

abbrev gdt_code_data : ℕ
gdt_code_data = 0x10

abbrev gdt_executable : ℕ
gdt_executable = 0x08

abbrev gdt_rw : ℕ
gdt_rw = 0x02

abbrev gdt_4k_gran : ℕ
gdt_4k_gran = 0x80

abbrev gdt_32bit : ℕ
gdt_32bit = 0x40

-- `GDT_RING0` is 0. The flags share no bit, so `|` is their sum.
abbrev data_access : ℕ
data_access = gdt_present + gdt_code_data + gdt_rw

abbrev code_access : ℕ
code_access = gdt_present + gdt_code_data + gdt_executable + gdt_rw

-- `at` is the address of the table. What `gdt_flush` loads is `gp`.
unfoldable pub gdt_init : (at : ℕ) → Gdt → Gdt
gdt_init at s = record {
  gp = record { limit = 8 * 3 - 1; base = at };
  gdt = gdt_set_gate 2 0 0xFFFFFFFF data_access (gdt_4k_gran + gdt_32bit) (
      gdt_set_gate 1 0 0xFFFFFFFF code_access (gdt_4k_gran + gdt_32bit)
        (gdt_set_gate 0 0 0 0 0 s.gdt));
}

-- `idt_entry_t`.
pub record IdtEntry : Type 0 where
  pub isr_low : ℕ
  pub kernel_cs : ℕ
  pub reserved : ℕ
  pub attributes : ℕ
  pub isr_high : ℕ

-- The static variables of idt.c.
pub record Idt : Type 0 where
  pub idt : ℕ → IdtEntry
  pub idtr : TablePtr
  pub vectors : ℕ → Bool

unfoldable pub idt_set_descriptor : (vector isr flags : ℕ) → (ℕ → IdtEntry) → ℕ → IdtEntry
idt_set_descriptor vector isr flags idt = update idt vector (record {
  isr_low = isr % 2 ^ 16;
  kernel_cs = 0x08;
  attributes = flags;
  isr_high = isr / 2 ^ 16;
  reserved = 0;
})

-- A loop of `idt_init` that gives the vectors from `first` on their routines in `stubs`, with `n`
-- rounds left from `i` on.
unfoldable pub set_vectors : (n i first : ℕ) → (stubs : ℕ → ℕ) → Idt → Idt
set_vectors zero i first stubs s = s
set_vectors (suc n) i first stubs s = set_vectors n (i + 1) first stubs (record s {
  idt = idt_set_descriptor (first + i) (stubs i) 0x8E s.idt;
  vectors = update s.vectors (first + i) true;
})

-- `at` is the address of the table. `lidt` loads `idtr`.
unfoldable pub idt_init : (at : ℕ) → (isr_stub_table irq_stub_table : ℕ → ℕ) → Idt → Idt
idt_init at isr_stub_table irq_stub_table s = set_vectors 16 0 32 irq_stub_table (
    set_vectors 32 0 0 isr_stub_table
      (record s { idtr = record { limit = 8 * 256 - 1; base = at } }))
