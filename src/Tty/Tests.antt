-- ===== src/Tty/Tests.antt =====
-- tty.c from its initialisation on, and the theorems at its states.
use veni.Base.{ℕ, ◌≡◌, refl, List, [], ◌∷◌, some, arith}
use veni.CString.Text.{cstr, IsText}
use veni.Tty.{
  Tty, black, white, color_code, vga_entry, vga_entry_color, terminal_initialize, terminal_putchar,
  put_visible, next_line, terminal_putentryat, terminal_scroll, terminal_setcursorpos,
  terminal_backspace, terminal_writestring,
}
use veni.Tty.Screen.{IsValid, position, screen}
use veni.Tty.Write.{put_all, terminal_writestring-put_all}
use veni.Tty.Reach.{Step, Reachable, Reachable-IsValid}

abbrev dark : Tty
dark = record { row = 0; column = 0; color = 0; buffer = λ i. 0; ports = [] }

entries : (vga_entry_color (color_code white) (color_code black) ≡ 15) × (vga_entry 65 15 ≡ 3905)
unfolding vga_entry vga_entry_color
entries = (refl, refl)

-- In the last cell of line 23, and at the end of the screen.
abbrev near_end : Tty
near_end = record dark { row = 23; column = 79 }

abbrev at_end : Tty
at_end = record dark { row = 24; column = 79 }

wraps :
    (position (terminal_putchar near_end 65) ≡ 1920)
    × ((terminal_putchar near_end 65).buffer 1919 ≡ 65)
unfolding terminal_putchar put_visible next_line terminal_putentryat terminal_setcursorpos vga_entry
wraps = (refl, refl)

scrolls : position (terminal_putchar at_end 65) ≡ 1920
unfolding terminal_putchar put_visible next_line terminal_putentryat terminal_setcursorpos
    terminal_scroll
scrolls = refl

dark-IsValid : IsValid dark
dark-IsValid = record { row = omega arith; column = omega arith }

at_end-IsValid : IsValid at_end
at_end-IsValid = record { row = omega arith; column = omega arith }

-- `Hi` and a newline from the last cell of the screen on.
abbrev greeting : List ℕ
greeting = 72 ∷ 105 ∷ 10 ∷ []

greeting-IsText : IsText greeting
greeting-IsText = ((λ e. omega (arith, e)), ((λ e. omega (arith, e)), ((λ e. omega (arith, e)), _)))

terminal_writestring-put_all_example :
    (t' : Tty) × (terminal_writestring at_end (cstr greeting (7 ∷ [])) ≡ some t')
    × IsValid t'
    × (screen t' ≡ put_all 0 (1999, λ i. 0) greeting)
terminal_writestring-put_all_example =
    terminal_writestring-put_all at_end greeting (7 ∷ []) at_end-IsValid greeting-IsText

near_end-IsValid : IsValid near_end
near_end-IsValid = record { row = omega arith; column = omega arith }

abbrev started : Tty
started = terminal_initialize dark

Reachable-IsValid_example : IsValid (terminal_backspace (terminal_putchar started 65))
Reachable-IsValid_example = Reachable-IsValid (terminal_backspace (terminal_putchar started 65)) (
    Reachable.next (terminal_putchar started 65) _
      (Reachable.next started _ (Reachable.start dark) (Step.putchar started 65))
      (Step.backspace (terminal_putchar started 65)))
