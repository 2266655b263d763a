-- ===== src/Interrupts/Tests.antt =====
-- The interrupt controllers and the timer on a small machine, and the theorems at it.
use veni.Base.{
  ℕ, zero, suc, ◌-◌, ◌/◌, ◌%◌, ◌^◌, ◌<◌, ◌≡◌, refl, arith, ◌==◌, if◌then◌else◌, [], false,
  replicate, some, length, ◌≤◌,
}
use veni.CString.Text.{of_string}
use veni.Printf.{int_text, put_digits}
use veni.Serial.Sent.{crlf, empty_count}
use veni.Tty.Screen.{IsValid}
use veni.Console.{Console}
use veni.Interrupts.{
  Machine, pic1_command, pic1_data, pic2_command, pic2_data, data_port, line_bit, io_wait,
  pic_remap, pic_disable, irq_clear_mask, pit_divisor,
}
use veni.Interrupts.Dispatch.{
  Kernel, Dispatched, signalled_end, printed_for, irq_handler, irq_handler-Dispatched,
}

-- A controller: how many words of an initialisation it still waits for, its vector offset and its mask.
record Controller : Type 0 where
  pending : ℕ
  offset : ℕ
  mask : ℕ

record Pair : Type 0 where
  first : Controller
  second : Controller

-- A word of a command with bit 4 begins an initialisation.
abbrev command : ℕ → Controller → Controller
command v c = if v / 16 % 2 == 1 then record { pending = 3; offset = c.offset; mask = 0 } else c

abbrev word : ℕ → ℕ → Controller → Controller
word v zero c = record c { mask = v % 2 ^ 8 }
word v (suc n) c = record c { pending = n; offset = if n == 2 then v else c.offset }

abbrev write : ℕ → ℕ → Pair → Pair
write port v s =
    if port == pic1_command
    then record s { first = command v s.first }
    else if port == pic1_data
    then record s { first = word v s.first.pending s.first }
    else if port == pic2_command
    then record s { second = command v s.second }
    else if port == pic2_data
    then record s { second = word v s.second.pending s.second }
    else s

abbrev read : ℕ → Pair → ℕ
read port s =
    (if port == pic1_data then s.first.mask else if port == pic2_data then s.second.mask else 0)
    % 2 ^ 8

record IsReady (s : Pair) : Type 0 where
  one : s.first.pending ≡ 0
  two : s.second.pending ≡ 0

word-mask : (v n : ℕ) (c : Controller) → n ≡ 0 → v < 2 ^ 8 → (word v n c).mask % 2 ^ 8 ≡ v
word-mask v zero c e lt = omega arith
word-mask v (suc n) c e lt = absurd (omega arith)

word-pending : (v n : ℕ) (c : Controller) → n ≡ 0 → c.pending ≡ 0 → (word v n c).pending ≡ 0
word-pending v zero c e z = z
word-pending v (suc n) c e z = absurd (omega arith)

abbrev pc : Machine
pc = record {
  State = Pair;
  outb = write;
  inb = read;
  Ready = IsReady;
  mask1_read = λ s v r lt. word-mask v s.first.pending s.first r.one lt;
  mask2_read = λ s v r lt. word-mask v s.second.pending s.second r.two lt;
  mask1_kept = λ s v r. refl;
  mask2_kept = λ s v r. refl;
  ready1 =
      λ s v r. record { one = word-pending v s.first.pending s.first r.one r.one; two = r.two };
  ready2 =
      λ s v r. record { one = r.one; two = word-pending v s.second.pending s.second r.two r.two };
  inb-lt = λ port s. omega arith;
}

abbrev cold : Pair
cold = record {
  first = record { pending = 0; offset = 0; mask = 0 };
  second = record { pending = 0; offset = 0; mask = 0 };
}

-- After `pic_remap` the controllers have their offsets, wait for no word, and mask nothing.
remapped : pic_remap pc 0x20 0x28 cold ≡ record {
  first = record { pending = 0; offset = 0x20; mask = 0 };
  second = record { pending = 0; offset = 0x28; mask = 0 };
}
unfolding pic_remap io_wait
remapped = refl

-- What the kernel leaves: the keyboard's line, 1, is the only one that is not masked.
booted : irq_clear_mask pc 1 (pic_disable pc (pic_remap pc 0x20 0x28 cold)) ≡ record {
  first = record { pending = 0; offset = 0x20; mask = 0xFD };
  second = record { pending = 0; offset = 0x28; mask = 0xFF };
}
unfolding irq_clear_mask pic_disable pic_remap io_wait data_port line_bit
booted = refl

-- 18 Hz would need a divisor of 66287, of which 16 bits are 751: the timer is set to 1588 Hz.
slow : pit_divisor 18 ≡ 751
unfolding pit_divisor
slow = refl

abbrev quiet : Console
quiet = record {
  tty = record { row = 0; column = 0; color = 7; buffer = λ i. 0; ports = [] };
  serial = record { statuses = replicate 20 0x60; trace = [] };
}

quiet-IsValid : IsValid quiet.tty
quiet-IsValid = record { row = omega arith; column = omega arith }

twelve : int_text 12 ≡ some (of_string "12")
unfolding int_text put_digits
twelve = refl

often : length (crlf (printed_for 12 (of_string "12"))) ≤ empty_count quiet.serial.statuses
unfolding crlf empty_count
often = omega arith

abbrev idle : Kernel pc
idle = record {
  tick_count = 2 ^ 32 - 1;
  keyboard = record {
    buffer = [];
    buffer_head = 0;
    buffer_tail = 0;
    shift = false;
    ctrl = false;
    alt = false;
    capslock = false;
    numlock = false;
    scrolllock = false;
  };
  console = quiet;
  controllers = cold;
}

irq_handler-Dispatched_example :
    Dispatched pc 12 [] (of_string "12") idle (signalled_end pc 12 cold) (irq_handler pc 44 [] idle)
irq_handler-Dispatched_example =
    irq_handler-Dispatched pc 12 [] (of_string "12") idle (omega arith) twelve quiet-IsValid often
