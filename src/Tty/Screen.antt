-- ===== src/Tty/Screen.antt =====
-- The terminal as a position on a screen of 2000 cells, and what its operations show there.
use mathlib.Core.Path.{fun_ext}
use veni.Base.{
  ℕ, ◌+◌, ◌-◌, ◌*◌, ◌%◌, ◌^◌, ◌<◌, ◌≡◌, refl, ap, subst, lt→ltb, le→ltb, ◌==◌, ltb, if◌then◌else◌,
  update, arith, inl, inr, Bool-cases, ==→eq, ==→ne,
}
use veni.Tty.{
  Tty, vga_entry, terminal_scroll, terminal_putentryat, terminal_setcursorpos, next_line,
  put_newline, put_visible, terminal_putchar,
}
use veni.Tty.Cells.{scrolled, scroll-scrolled}

-- The cursor is on the screen.
pub record IsValid (t : Tty) : Type 0 where
  pub row : t.row < 25
  pub column : t.column < 80

abbrev pub position : Tty → ℕ
position t = t.row * 80 + t.column

-- The position and the cells.
abbrev pub Screen : Type 0
Screen = ℕ × (ℕ → ℕ)

abbrev pub screen : Tty → Screen
screen t = (position t, t.buffer)

-- The position `pos` or, if it is off the screen, the last line of the scrolled screen.
abbrev pub settle : (color : ℕ) → Screen → Screen
settle color (pos, cells) = if ltb pos 2000 then (pos, cells) else (1920, scrolled color cells)

-- A character on the screen: a newline goes to the start of the next line, any other one is
-- written and goes on by one cell.
abbrev pub put : (color : ℕ) → Screen → (c : ℕ) → Screen
put color (pos, cells) c = settle color (
    if c == 10
    then (pos - pos % 80 + 80, cells)
    else (pos + 1, update cells pos (vga_entry (c % 256) color)))

-- What a step of the terminal to `t'` shows, with the color `color`.
pub record Shows (color : ℕ) (s : Screen) (t' : Tty) : Type 0 where
  pub shown : screen t' ≡ s
  pub same_color : t'.color ≡ color
  pub valid : IsValid t'

pub scroll-Shows : (t : Tty) → Shows t.color (1920, scrolled t.color t.buffer) (terminal_scroll t)
unfolding terminal_scroll
scroll-Shows t = record {
  shown = ap (λ cells. (1920, cells)) (fun_ext (scroll-scrolled t));
  same_color = refl;
  valid = record { row = omega arith; column = omega arith };
}

next_line-Shows :
    (t : Tty)
    → t.row < 25
    → Shows t.color (settle t.color (t.row * 80 + 80, t.buffer)) (next_line t)
unfolding next_line
next_line-Shows t low = elim (Bool-cases (((t.row + 1) % 2 ^ 32) == 25)) [
  | inl last ↦
      rw (last, le→ltb (t.row * 80 + 80) 2000 (omega (arith, ==→eq _ _ last)))
        (scroll-Shows (record t { row = (t.row + 1) % 2 ^ 32; column = 0 }))
  | inr more ↦
      rw (more, lt→ltb (t.row * 80 + 80) 2000 (omega (arith, ==→ne _ _ more)))
        (record {
          shown = ap (λ pos. (pos, t.buffer)) (omega arith);
          same_color = refl;
          valid = record { row = omega (arith, ==→ne _ _ more); column = omega arith };
        })
]

put_newline-Shows :
    (t : Tty)
    → IsValid t
    → Shows t.color (settle t.color (position t - position t % 80 + 80, t.buffer)) (put_newline t)
unfolding put_newline
put_newline-Shows t v =
    subst (λ pos. Shows t.color (settle t.color (pos, t.buffer)) (next_line t))
      (omega (arith, v.column)) (next_line-Shows t v.row)

put_visible-Shows :
    (t : Tty) (uc : ℕ)
    → IsValid t
    → Shows t.color
        (settle t.color (position t + 1, update t.buffer (position t) (vga_entry uc t.color)))
        (put_visible t uc)
unfolding put_visible terminal_putentryat
put_visible-Shows t uc v = elim (Bool-cases (((t.column + 1) % 2 ^ 32) == 80)) [
  | inl last ↦
      rw (last, index)
        (subst
          (λ pos.
            Shows t.color (settle t.color (pos, cells)) (next_line (record t { buffer = cells })))
          (omega (arith, v.column, ==→eq _ _ last))
          (next_line-Shows (record t { buffer = cells }) v.row))
  | inr more ↦
      rw
        (more, index, lt→ltb (position t + 1) 2000 (omega (arith, v.row, v.column, ==→ne _ _ more)))
        (record {
          shown = ap (λ pos. (pos, cells)) (omega (arith, v.column));
          same_color = refl;
          valid = record { row = v.row; column = omega (arith, v.column, ==→ne _ _ more) };
        })
]
  where
    cells : ℕ → ℕ
    cells = update t.buffer (position t) (vga_entry uc t.color)

    index : (t.row * 80 + t.column) % 2 ^ 32 ≡ position t
    index = omega (arith, v.row, v.column)

-- The cursor's registers are set, and nothing else is changed.
pub cursor-Shows :
    (color : ℕ) (s : Screen) (t : Tty) (row column : ℕ)
    → Shows color s t
    → Shows color s (terminal_setcursorpos t row column)
unfolding terminal_setcursorpos
cursor-Shows color s t row column h = record {
  shown = h.shown;
  same_color = h.same_color;
  valid = record { row = h.valid.row; column = h.valid.column };
}

pub putchar-Shows :
    (t : Tty) (c : ℕ) → IsValid t → Shows t.color (put t.color (screen t) c) (terminal_putchar t c)
unfolding terminal_putchar
putchar-Shows t c v = elim (Bool-cases (c == 10)) [
  | inl newline ↦ rw newline (cursor-Shows t.color _ (put_newline t) _ _ (put_newline-Shows t v))
  | inr other ↦
      rw other
        (cursor-Shows t.color _ (put_visible t (c % 2 ^ 8)) _ _ (put_visible-Shows t (c % 2 ^ 8) v))
]
