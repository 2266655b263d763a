-- ===== src/Tty/Cells.antt =====
-- What the loops of tty.c do to each cell of the screen.
use veni.Base.{
  ℕ, zero, suc, ◌+◌, ◌-◌, ◌*◌, ◌≤◌, ◌≡◌, ap, ◌∙◌, true, ◌&&◌, ◌==◌, ltb, leb, if◌then◌else◌, update,
  arith, inl, inr, Bool-cases, ==→eq,
}
use veni.Tty.{Tty, vga_height, blank, fill_line, fill_lines, copy_line, copy_lines, terminal_scroll}

fill_line_lem :
    (n x y v : ℕ) (buf : ℕ → ℕ) (i : ℕ)
    → fill_line n x y v buf i ≡ (if leb (y * 80 + x) i && ltb i (y * 80 + x + n) then v else buf i)
unfolding fill_line
fill_line_lem zero x y v buf i = ground arith
fill_line_lem (suc n) x y v buf i =
    fill_line_lem n (x + 1) y v (update buf (y * 80 + x) v) i ∙ ground arith

fill_lines_lem :
    (n y v : ℕ) (buf : ℕ → ℕ) (i : ℕ)
    → fill_lines n y v buf i ≡ (if leb (y * 80) i && ltb i (y * 80 + n * 80) then v else buf i)
unfolding fill_lines
fill_lines_lem zero y v buf i = ground arith
fill_lines_lem (suc n) y v buf i =
    fill_lines_lem n (y + 1) v (fill_line 80 0 y v buf) i
    ∙ ground (arith, fill_line_lem 80 0 y v buf i)

copy_line_lem :
    (n x y : ℕ) (buf : ℕ → ℕ) (i : ℕ)
    → 1 ≤ y
    → x + n ≤ 80
    → copy_line n x y buf i
      ≡ (if leb ((y - 1) * 80 + x) i && ltb i ((y - 1) * 80 + x + n) then buf (i + 80) else buf i)
unfolding copy_line
copy_line_lem zero x y buf i low fits = ground arith
copy_line_lem (suc n) x y buf i low fits =
    copy_line_lem n (x + 1) y (update buf ((y - 1) * 80 + x) (buf (y * 80 + x))) i low (omega arith)
    ∙ elim (Bool-cases (((y - 1) * 80 + x) == i)) [
      | inl here ↦ ground (arith, here, ap buf (source here))
      | inr other ↦ ground (arith, other)
    ]
  where
    source : (((y - 1) * 80 + x) == i) ≡ true → y * 80 + x ≡ i + 80
    source here = omega (arith, ==→eq _ _ here)

copy_lines_lem :
    (n y : ℕ) (buf : ℕ → ℕ) (i : ℕ)
    → 1 ≤ y
    → copy_lines n y buf i
      ≡ (if leb ((y - 1) * 80) i && ltb i ((y - 1) * 80 + n * 80) then buf (i + 80) else buf i)
unfolding copy_lines
copy_lines_lem zero y buf i low = ground arith
copy_lines_lem (suc n) y buf i low =
    copy_lines_lem n (y + 1) (copy_line 80 0 y buf) i (omega arith)
    ∙ ground (
      arith,
      copy_line_lem 80 0 y buf i low (omega arith),
      copy_line_lem 80 0 y buf (i + 80) low (omega arith),
    )

-- The cells of a screen after a scroll: each line holds what the line below it held, and the last
-- one blanks.
abbrev pub scrolled : (color : ℕ) → (ℕ → ℕ) → ℕ → ℕ
scrolled color buf i =
    if ltb i 1920 then buf (i + 80) else if ltb i 2000 then blank color else buf i

pub scroll-scrolled : (t : Tty) (i : ℕ) → (terminal_scroll t).buffer i ≡ scrolled t.color t.buffer i
unfolding terminal_scroll
scroll-scrolled t i =
    fill_line_lem 80 0 24 (blank t.color) (copy_lines 24 1 t.buffer) i
    ∙ ground (arith, copy_lines_lem 24 1 t.buffer i (omega arith))

pub cleared_lem :
    (v : ℕ) (buf : ℕ → ℕ) (i : ℕ)
    → fill_lines vga_height 0 v buf i ≡ (if ltb i 2000 then v else buf i)
cleared_lem v buf i = fill_lines_lem 25 0 v buf i ∙ ground arith
