-- ===== src/Tty/Backspace.antt =====
-- `terminal_backspace` of tty.c, after `terminal_putchar`.
use mathlib.Core.Path.{fun_ext}
use veni.Base.{
  ℕ, ◌+◌, ◌-◌, ◌%◌, ◌^◌, ◌<◌, ◌≡◌, ◌≢◌, refl, ap, ap₂, ◌∙◌, ◌==◌, ltb, update, arith, inl, inr,
  Bool-cases, ==→eq, ==→ne, ne→==, lt→ltb, ltb→lt, ltb→le,
}
use veni.Tty.{
  Tty, vga_entry, blank, terminal_putentryat, step_back, terminal_backspace, terminal_putchar,
}
use veni.Tty.Screen.{IsValid, Screen, screen, position, Shows, cursor-Shows, putchar-Shows}

-- The cursor goes back one cell, not further than the first one, and that cell is blanked.
abbrev pub erase : (color : ℕ) → Screen → Screen
erase color (pos, cells) = (pos - 1, update cells (pos - 1) (blank color))

step_back-Shows : (t : Tty) → IsValid t → Shows t.color (position t - 1, t.buffer) (step_back t)
unfolding step_back
step_back-Shows t v = elim (Bool-cases (t.column == 0)) [
  | inl start ↦ elim (Bool-cases (ltb 0 t.row)) [
    | inl down ↦
        rw (start, down)
          (record {
            shown = ap (λ pos. (pos, t.buffer)) (omega (arith, ==→eq _ _ start, ltb→lt _ _ down));
            same_color = refl;
            valid = record { row = omega (arith, v.row); column = omega arith };
          })
    | inr top ↦
        rw (start, top)
          (record {
            shown = ap (λ pos. (pos, t.buffer)) (omega (arith, ==→eq _ _ start, ltb→le _ _ top));
            same_color = refl;
            valid = v;
          })
  ]
  | inr inside ↦ rw inside (record {
    shown = ap (λ pos. (pos, t.buffer)) (omega (arith, ==→ne _ _ inside));
    same_color = refl;
    valid = record { row = v.row; column = omega (arith, v.column) };
  })
]

entry-Shows :
    (color : ℕ) (s : Screen) (t : Tty) (c : ℕ)
    → Shows color s t
    → Shows color
        (s.0, update s.1 s.0 (vga_entry c color))
        (terminal_putentryat t c t.color t.column t.row)
unfolding terminal_putentryat
entry-Shows color s t c h = record {
  shown =
      ap (λ i. (position t, update t.buffer i (vga_entry c t.color)))
        (omega (arith, h.valid.row, h.valid.column))
      ∙ ap₂ (λ r k. (r.0, update r.1 r.0 (vga_entry c k))) h.shown h.same_color;
  same_color = h.same_color;
  valid = record { row = h.valid.row; column = h.valid.column };
}

pub backspace-Shows :
    (t : Tty) → IsValid t → Shows t.color (erase t.color (screen t)) (terminal_backspace t)
unfolding terminal_backspace
backspace-Shows t v =
    cursor-Shows t.color _
      (terminal_putentryat (step_back t) 32 (step_back t).color (step_back t).column
        (step_back t).row)
      _ _ (entry-Shows t.color (position t - 1, t.buffer) (step_back t) 32 (step_back-Shows t v))

-- From a valid state, `terminal_backspace` after a character other than a newline that did not
-- scroll the screen puts the cursor back and leaves a blank in its cell and every other cell as it
-- was.
pub terminal_backspace-terminal_putchar :
    (t : Tty) (c : ℕ)
    → IsValid t
    → c ≢ 10
    → position t < 1999
    → screen (terminal_backspace (terminal_putchar t c))
      ≡ (position t, update t.buffer (position t) (blank t.color))
terminal_backspace-terminal_putchar t c v other room =
    let now = putchar-Shows t c v in
    (backspace-Shows (terminal_putchar t c) now.valid).shown
    ∙ ap₂ erase now.same_color now.shown
    ∙ rw (ne→== c 10 other, lt→ltb (position t + 1) 2000 (omega arith))
        (ap (λ i. (i, update written i (blank t.color))) back
          ∙ ap (λ cells. (position t, cells)) (fun_ext (λ j. ground arith)))
  where
    back : position t + 1 - 1 ≡ position t
    back = omega arith

    written : ℕ → ℕ
    written = update t.buffer (position t) (vga_entry (c % 2 ^ 8) t.color)
