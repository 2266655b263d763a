-- ===== src/Interrupts.antt =====
-- kernel/arch/i386/interrupts/pic.c and isr.c, and drivers/pit/pit.c: the interrupt controllers, the
-- timer, and what an interrupt runs.
pub mod Masks
pub mod Timer
pub mod Dispatch
mod Tests
use veni.Base.{
  ℕ, zero, suc, ◌+◌, ◌-◌, ◌*◌, ◌/◌, ◌%◌, ◌^◌, ◌<◌, ◌≡◌, ◌≢◌, Bool, true, false, bit_and, bit_or,
  ◌==◌, ltb, if◌then◌else◌,
}
use veni.Base.Bits.{clear_mask}

-- Ports from `PIC1` and `PIC2` on: where commands go, and where the masks are read and written.
abbrev pub pic1_command : ℕ
pic1_command = 0x20

abbrev pub pic1_data : ℕ
pic1_data = 0x21

abbrev pub pic2_command : ℕ
pic2_command = 0xA0

abbrev pub pic2_data : ℕ
pic2_data = 0xA1

-- The ports of the machine, `outb` and `inb` of io.c. `Ready` holds of a state in which both
-- controllers take a byte at their data ports for the mask, as they do after the four words of an
-- initialisation; until then, the byte at the data port of a controller is one of these words.
pub record Machine : Type 1 where
  pub State : Type 0
  pub outb : (port value : ℕ) → State → State
  pub inb : (port : ℕ) → State → ℕ
  pub Ready : State → Type 0
  pub mask1_read :
      (s : State) (v : ℕ) → Ready s → v < 2 ^ 8 → inb pic1_data (outb pic1_data v s) ≡ v
  pub mask2_read :
      (s : State) (v : ℕ) → Ready s → v < 2 ^ 8 → inb pic2_data (outb pic2_data v s) ≡ v
  pub mask1_kept :
      (s : State) (v : ℕ) → Ready s → inb pic1_data (outb pic2_data v s) ≡ inb pic1_data s
  pub mask2_kept :
      (s : State) (v : ℕ) → Ready s → inb pic2_data (outb pic1_data v s) ≡ inb pic2_data s
  pub ready1 : (s : State) (v : ℕ) → Ready s → Ready (outb pic1_data v s)
  pub ready2 : (s : State) (v : ℕ) → Ready s → Ready (outb pic2_data v s)
  pub inb-lt : (port : ℕ) (s : State) → inb port s < 2 ^ 8

-- `port` and the place of the line's bit, after `irq_line -= 8` for the second controller.
unfoldable pub data_port : ℕ → ℕ
data_port irq_line = if ltb irq_line 8 then pic1_data else pic2_data

unfoldable pub line_bit : ℕ → ℕ
line_bit irq_line = if ltb irq_line 8 then irq_line else irq_line - 8

-- `divisor`, of 16 bits.
unfoldable pub pit_divisor : (frequency : ℕ) → ℕ
pit_divisor frequency = 1193182 / frequency % 2 ^ 16

module _ (M : Machine) where
  unfoldable pub io_wait : M.State → M.State
  io_wait s = M.outb 0x80 0 s

  unfoldable pub pic_send_eoi : (irq : ℕ) → M.State → M.State
  pic_send_eoi irq s =
      M.outb pic1_command 0x20 (if ltb irq 8 then s else M.outb pic2_command 0x20 s)

  -- A byte to a port and `io_wait`. `ICW1_INIT | ICW1_ICW4` is 17.
  abbrev initialise : (port value : ℕ) → M.State → M.State
  initialise port value s = io_wait (M.outb port value s)

  unfoldable pub pic_remap : (offset1 offset2 : ℕ) → M.State → M.State
  pic_remap offset1 offset2 s0 =
      let s1 = initialise pic2_command 17 (initialise pic1_command 17 s0) in
      let s2 = initialise pic2_data (offset2 % 2 ^ 8) (initialise pic1_data (offset1 % 2 ^ 8) s1) in
      let s3 = initialise pic2_data 2 (initialise pic1_data (2 ^ 2) s2) in
      let s4 = initialise pic2_data 1 (initialise pic1_data 1 s3) in
      M.outb pic2_data 0 (M.outb pic1_data 0 s4)

  unfoldable pub pic_disable : M.State → M.State
  pic_disable s = M.outb pic2_data 0xFF (M.outb pic1_data 0xFF s)

  unfoldable pub irq_set_mask : (irq_line : ℕ) → M.State → M.State
  irq_set_mask irq_line s =
      M.outb (data_port irq_line)
        (bit_or (M.inb (data_port irq_line) s) (2 ^ line_bit irq_line) % 2 ^ 8) s

  -- `~(1 << irq_line)` is a number of 32 bits.
  unfoldable pub irq_clear_mask : (irq_line : ℕ) → M.State → M.State
  irq_clear_mask irq_line s =
      M.outb (data_port irq_line)
        (bit_and (M.inb (data_port irq_line) s) (clear_mask (line_bit irq_line)) % 2 ^ 8) s

  -- The two reads stand in one expression; they do not change the registers.
  unfoldable pub pic_get_irq_reg : (ocw3 : ℕ) → M.State → ℕ × M.State
  pic_get_irq_reg ocw3 s =
      let t = M.outb pic2_command ocw3 (M.outb pic1_command ocw3 s) in
      (bit_or (M.inb pic2_command t * 2 ^ 8) (M.inb pic1_command t), t)

  unfoldable pub pic_get_irr : M.State → ℕ × M.State
  pic_get_irr s = pic_get_irq_reg 0x0A s

  unfoldable pub pic_get_isr : M.State → ℕ × M.State
  pic_get_isr s = pic_get_irq_reg 0x0B s

  unfoldable pub pit_init : (frequency : ℕ) → M.State → M.State
  pit_init frequency s =
      if frequency == 0
      then s
      else M.outb 0x40 (pit_divisor frequency / 2 ^ 8)
          (M.outb 0x40 (pit_divisor frequency % 2 ^ 8) (M.outb 0x43 0x36 s))
