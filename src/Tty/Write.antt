-- ===== src/Tty/Write.antt =====
-- What `terminal_write` and `terminal_writestring` of tty.c show.
use veni.Base.{ℕ, ◌≡◌, refl, ap₂, ◌∙◌, List, [], ◌∷◌, ◌++◌, length, some}
use veni.CString.Text.{IsText, cstr}
use veni.CString.Compare.{strlen-length}
use veni.Tty.{Tty, terminal_putchar, terminal_write, terminal_writestring}
use veni.Tty.Screen.{IsValid, Screen, screen, put, Shows, putchar-Shows}

-- The characters one after the other.
abbrev pub put_all : (color : ℕ) → Screen → List ℕ → Screen
put_all color s [] = s
put_all color s (c ∷ cs) = put_all color (put color s c) cs

write-Shows :
    (text rest : List ℕ) (t : Tty)
    → IsValid t
    → (t' : Tty) × (terminal_write t (text ++ rest) (length text) ≡ some t')
      × Shows t.color (put_all t.color (screen t) text) t'
unfolding terminal_write
write-Shows [] rest t v = (t, refl, record { shown = refl; same_color = refl; valid = v })
write-Shows (c ∷ text) rest t v =
    let now = putchar-Shows t c v in
    let (t', e, later) = write-Shows text rest (terminal_putchar t c) now.valid in
    (
      t',
      e,
      record {
        shown = later.shown ∙ ap₂ (λ color s. put_all color s text) now.same_color now.shown;
        same_color = later.same_color ∙ now.same_color;
        valid = later.valid;
      },
    )

-- In a valid state `terminal_writestring` of a string returns, with the cursor on the screen, and
-- the screen shows the characters of its text one after the other, with newlines and scrolling.
pub terminal_writestring-put_all :
    (t : Tty) (text rest : List ℕ)
    → IsValid t
    → IsText text
    → (t' : Tty) × (terminal_writestring t (cstr text rest) ≡ some t')
      × IsValid t'
      × (screen t' ≡ put_all t.color (screen t) text)
unfolding terminal_writestring
terminal_writestring-put_all t text rest v h =
    let (t', e, done) = write-Shows text (0 ∷ rest) t v in
    (t', rw (strlen-length text rest h) e, done.valid, done.shown)
