-- ===== src/Tty.antt =====
-- kernel/arch/i386/tty.c and vga.h: the text terminal on the memory of the screen.
pub mod Cells
pub mod Screen
pub mod Write
pub mod Backspace
pub mod Reach
mod Tests
use veni.Base.{
  ℕ, zero, suc, ◌+◌, ◌-◌, ◌*◌, ◌/◌, ◌%◌, ◌^◌, Bool, true, false, List, [], ◌∷◌, ◌++◌, bit_and,
  bit_or, ◌==◌, ltb, if◌then◌else◌, update, length, Option, none, some, ◌>>=◌,
}
use veni.CString.{strlen}

-- `enum vga_color` and its values.
pub data VgaColor : Type 0 where
  black blue green cyan red magenta brown light_grey : VgaColor
  dark_grey light_blue light_green light_cyan light_red light_magenta light_brown white : VgaColor

abbrev pub color_code : VgaColor → ℕ
color_code black = 0
color_code blue = 1
color_code green = 2
color_code cyan = 3
color_code red = 4
color_code magenta = 5
color_code brown = 6
color_code light_grey = 7
color_code dark_grey = 8
color_code light_blue = 9
color_code light_green = 10
color_code light_cyan = 11
color_code light_red = 12
color_code light_magenta = 13
color_code light_brown = 14
color_code white = 15

unfoldable pub vga_entry_color : (fg bg : ℕ) → ℕ
vga_entry_color fg bg = bit_or fg (bg * 2 ^ 4) % 2 ^ 8

unfoldable pub vga_entry : (uc color : ℕ) → ℕ
vga_entry uc color = bit_or uc (color * 2 ^ 8) % 2 ^ 16

-- `VGA_WIDTH` and `VGA_HEIGHT`.
abbrev pub vga_width : ℕ
vga_width = 80

abbrev pub vga_height : ℕ
vga_height = 25

-- The static variables, with the 16-bit cells from `terminal_buffer` on, and the writes to ports so
-- far, each a port and a byte.
pub record Tty : Type 0 where
  pub row : ℕ
  pub column : ℕ
  pub color : ℕ
  pub buffer : ℕ → ℕ
  pub ports : List (ℕ × ℕ)

-- The inner loop that writes `v` to a line, with `n` rounds left from `x` on.
unfoldable pub fill_line : (n x y v : ℕ) → (ℕ → ℕ) → ℕ → ℕ
fill_line zero x y v buf = buf
fill_line (suc n) x y v buf = fill_line n (x + 1) y v (update buf (y * vga_width + x) v)

-- The loop over the lines.
unfoldable pub fill_lines : (n y v : ℕ) → (ℕ → ℕ) → ℕ → ℕ
fill_lines zero y v buf = buf
fill_lines (suc n) y v buf = fill_lines n (y + 1) v (fill_line vga_width 0 y v buf)

-- The loops of `terminal_scroll` that copy line `y` to the line above it.
unfoldable pub copy_line : (n x y : ℕ) → (ℕ → ℕ) → ℕ → ℕ
copy_line zero x y buf = buf
copy_line (suc n) x y buf =
    copy_line n (x + 1) y (update buf ((y - 1) * vga_width + x) (buf (y * vga_width + x)))

unfoldable pub copy_lines : (n y : ℕ) → (ℕ → ℕ) → ℕ → ℕ
copy_lines zero y buf = buf
copy_lines (suc n) y buf = copy_lines n (y + 1) (copy_line vga_width 0 y buf)

-- `vga_entry(' ', terminal_color)`.
abbrev pub blank : ℕ → ℕ
blank color = vga_entry 32 color

unfoldable pub terminal_initialize : Tty → Tty
terminal_initialize t =
    let grey = vga_entry_color (color_code light_grey) (color_code black) in
    record t {
      row = 0;
      column = 0;
      color = grey;
      buffer = fill_lines vga_height 0 (blank grey) t.buffer;
    }

unfoldable pub terminal_setcolor : Tty → ℕ → Tty
terminal_setcolor t color = record t { color = color }

unfoldable pub terminal_putentryat : Tty → (c color x y : ℕ) → Tty
terminal_putentryat t c color x y = record t {
  buffer = update t.buffer ((y * vga_width + x) % 2 ^ 32) (vga_entry c color);
}

unfoldable pub terminal_scroll : Tty → Tty
terminal_scroll t = record t {
  buffer =
      fill_line vga_width 0 (vga_height - 1) (blank t.color)
        (copy_lines (vga_height - 1) 1 t.buffer);
  row = vga_height - 1;
  column = 0;
}

-- The four calls of `outb`.
unfoldable pub terminal_setcursorpos : Tty → (row column : ℕ) → Tty
terminal_setcursorpos t row column =
    let pos = (row * vga_width + column) % 2 ^ 16 in
    record t {
      ports =
          t.ports
          ++ (0x3D4, 0x0F)
            ∷ (0x3D5, bit_and pos 0xFF % 2 ^ 8)
            ∷ (0x3D4, 0x0E)
            ∷ (0x3D5, bit_and (pos / 2 ^ 8) 0xFF % 2 ^ 8)
            ∷ [];
    }

-- `if (++terminal_row == VGA_HEIGHT) terminal_scroll();`, with the column at 0.
unfoldable pub next_line : Tty → Tty
next_line t =
    let t' = record t { row = (t.row + 1) % 2 ^ 32; column = 0 } in
    if t'.row == vga_height then terminal_scroll t' else t'

-- The two branches of `terminal_putchar`.
unfoldable pub put_newline : Tty → Tty
put_newline t = next_line t

unfoldable pub put_visible : Tty → (uc : ℕ) → Tty
put_visible t uc =
    let t' = terminal_putentryat t uc t.color t.column t.row in
    let column = (t.column + 1) % 2 ^ 32 in
    if column == vga_width then next_line t' else record t' { column = column }

unfoldable pub terminal_putchar : Tty → (c : ℕ) → Tty
terminal_putchar t c =
    let uc = c % 2 ^ 8 in
    let t' = if c == 10 then put_newline t else put_visible t uc in
    terminal_setcursorpos t' t'.row t'.column

unfoldable pub terminal_tab : Tty → (spaces : ℕ) → Tty
terminal_tab t zero = t
terminal_tab t (suc spaces) = terminal_tab (terminal_putchar t 32) spaces

-- The cursor one place back.
unfoldable pub step_back : Tty → Tty
step_back t =
    if t.column == 0
    then (if ltb 0 t.row then record t { row = t.row - 1; column = vga_width - 1 } else t)
    else record t { column = t.column - 1 }

unfoldable pub terminal_backspace : Tty → Tty
terminal_backspace t =
    let t' = step_back t in
    let t'' = terminal_putentryat t' 32 t'.color t'.column t'.row in
    terminal_setcursorpos t'' t''.row t''.column

-- `bytes` is the array from the pointer on; `none` is a read behind its end.
unfoldable pub terminal_write : Tty → (bytes : List ℕ) (size : ℕ) → Option Tty
terminal_write t bytes zero = some t
terminal_write t [] (suc size) = none
terminal_write t (c ∷ bytes) (suc size) = terminal_write (terminal_putchar t c) bytes size

unfoldable pub terminal_writestring : Tty → List ℕ → Option Tty
terminal_writestring t bytes = strlen bytes >>= λ size. terminal_write t bytes size

unfoldable pub terminal_fsetcolor : Tty → (fg bg : ℕ) → Tty
terminal_fsetcolor t fg bg = record t { color = vga_entry_color fg bg }

unfoldable pub terminal_clear : Tty → Tty
terminal_clear t =
    let t' = record t {
      buffer = fill_lines vga_height 0 (blank t.color) t.buffer;
      row = 0;
      column = 0;
    } in
    terminal_setcursorpos t' t'.row t'.column
