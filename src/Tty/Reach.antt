-- ===== src/Tty/Reach.antt =====
-- The states of the terminal that its operations lead to, and the cursor's registers.
use veni.Base.{
  ℕ, zero, suc, ◌+◌, ◌*◌, ◌/◌, ◌%◌, ◌^◌, ◌<◌, ◌≡◌, refl, subst, Bool, true, List, [], ◌∷◌, ◌++◌,
  bit_and, ◌==◌, arith, Option, some, none, ==→eq, ◌>>=◌,
}
use mathlib.Core.Option.{some_inj}
use veni.CString.{strlen}
use veni.Base.Bits.{all_below, all_below_sound}
use veni.Tty.{
  Tty, terminal_initialize, terminal_setcolor, terminal_putentryat, terminal_scroll,
  terminal_setcursorpos, terminal_putchar, terminal_tab, terminal_backspace, terminal_write,
  terminal_writestring, terminal_fsetcolor, terminal_clear,
}
use veni.Tty.Screen.{IsValid, scroll-Shows, putchar-Shows}
use veni.Tty.Backspace.{backspace-Shows}

-- One call of an operation of the terminal.
pub data Step : Tty → Tty → Type 0 where
  setcolor : (t : Tty) (color : ℕ) → Step t (terminal_setcolor t color)
  fsetcolor : (t : Tty) (fg bg : ℕ) → Step t (terminal_fsetcolor t fg bg)
  putentryat : (t : Tty) (c color x y : ℕ) → Step t (terminal_putentryat t c color x y)
  scroll : (t : Tty) → Step t (terminal_scroll t)
  putchar : (t : Tty) (c : ℕ) → Step t (terminal_putchar t c)
  tab : (t : Tty) (spaces : ℕ) → Step t (terminal_tab t spaces)
  backspace : (t : Tty) → Step t (terminal_backspace t)
  write :
      (t t' : Tty) (bytes : List ℕ) (size : ℕ) → terminal_write t bytes size ≡ some t' → Step t t'
  writestring : (t t' : Tty) (bytes : List ℕ) → terminal_writestring t bytes ≡ some t' → Step t t'
  clear : (t : Tty) → Step t (terminal_clear t)
  setcursorpos : (t : Tty) (row column : ℕ) → Step t (terminal_setcursorpos t row column)

-- What calls lead to from the initial state, whatever was on the screen before it.
pub data Reachable : Tty → Type 0 where
  start : (t : Tty) → Reachable (terminal_initialize t)
  next : (t t' : Tty) → Reachable t → Step t t' → Reachable t'

tab-IsValid : (spaces : ℕ) (t : Tty) → IsValid t → IsValid (terminal_tab t spaces)
unfolding terminal_tab
tab-IsValid zero t v = v
tab-IsValid (suc spaces) t v =
    tab-IsValid spaces (terminal_putchar t 32) (putchar-Shows t 32 v).valid

write-IsValid :
    (bytes : List ℕ) (size : ℕ) (t t' : Tty)
    → IsValid t
    → terminal_write t bytes size ≡ some t'
    → IsValid t'
unfolding terminal_write
write-IsValid bytes zero t t' v e = subst IsValid (some_inj.0 e) v
write-IsValid [] (suc size) t t' v e = cc
write-IsValid (c ∷ bytes) (suc size) t t' v e =
    write-IsValid bytes size (terminal_putchar t c) t' (putchar-Shows t c v).valid e

writestring-IsValid :
    (t t' : Tty) (bytes : List ℕ) (o : Option ℕ)
    → IsValid t
    → (o >>= λ size. terminal_write t bytes size) ≡ some t'
    → IsValid t'
writestring-IsValid t t' bytes none v e = cc
writestring-IsValid t t' bytes (some size) v e = write-IsValid bytes size t t' v e

Step-IsValid : (t t' : Tty) → Step t t' → IsValid t → IsValid t'
unfolding terminal_setcolor terminal_fsetcolor terminal_putentryat terminal_clear
    terminal_setcursorpos terminal_writestring
Step-IsValid _ _ (setcolor t color) v = record { row = v.row; column = v.column }
Step-IsValid _ _ (fsetcolor t fg bg) v = record { row = v.row; column = v.column }
Step-IsValid _ _ (putentryat t c color x y) v = record { row = v.row; column = v.column }
Step-IsValid _ _ (scroll t) v = (scroll-Shows t).valid
Step-IsValid _ _ (putchar t c) v = (putchar-Shows t c v).valid
Step-IsValid _ _ (tab t spaces) v = tab-IsValid spaces t v
Step-IsValid _ _ (backspace t) v = (backspace-Shows t v).valid
Step-IsValid _ _ (write t t' bytes size e) v = write-IsValid bytes size t t' v e
Step-IsValid _ _ (writestring t t' bytes e) v = writestring-IsValid t t' bytes (strlen bytes) v e
Step-IsValid _ _ (clear t) v = record { row = omega arith; column = omega arith }
Step-IsValid _ _ (setcursorpos t row column) v = record { row = v.row; column = v.column }

-- Whatever operations are called after the initialisation, the cursor stays on the screen.
pub Reachable-IsValid : (t : Tty) → Reachable t → IsValid t
unfolding terminal_initialize
Reachable-IsValid _ (start t) = record { row = omega arith; column = omega arith }
Reachable-IsValid _ (next t t' r s) = Step-IsValid t t' s (Reachable-IsValid t r)

low_row : ℕ → Bool
low_row p = bit_and p 255 % 2 ^ 8 == p % 256

high_row : ℕ → Bool
high_row p = bit_and p 255 % 2 ^ 8 == p

low_table : all_below 2000 low_row ≡ true
unfolding low_row
low_table = refl

high_table : all_below 8 high_row ≡ true
unfolding high_row
high_table = refl

-- For a position on the screen, `terminal_setcursorpos` selects the low and then the high byte of
-- the cursor's location and writes to them two bytes that make up the position.
pub terminal_setcursorpos_lem :
    (t : Tty) (row column : ℕ)
    → row < 25
    → column < 80
    → (low high : ℕ) × ((terminal_setcursorpos t row column).ports
        ≡ t.ports ++ (0x3D4, 0x0F) ∷ (0x3D5, low) ∷ (0x3D4, 0x0E) ∷ (0x3D5, high) ∷ [])
      × (low < 256)
      × (high * 256 + low ≡ row * 80 + column)
unfolding terminal_setcursorpos low_row high_row
terminal_setcursorpos_lem t row column r c = (
  bit_and pos 255 % 2 ^ 8,
  bit_and (pos / 2 ^ 8) 255 % 2 ^ 8,
  refl,
  omega arith,
  omega (arith, low_is, high_is),
)
  where
    pos : ℕ
    pos = (row * 80 + column) % 2 ^ 16

    low_is : bit_and pos 255 % 2 ^ 8 ≡ pos % 256
    low_is = ==→eq _ _ (all_below_sound 2000 low_row pos low_table (omega arith))

    high_is : bit_and (pos / 2 ^ 8) 255 % 2 ^ 8 ≡ pos / 2 ^ 8
    high_is = ==→eq _ _ (all_below_sound 8 high_row (pos / 2 ^ 8) high_table (omega arith))
