-- ===== src/CString/Copy.antt =====
-- strcpy.c, strncpy.c, memset.c, memcpy.c and memmove.c.
use veni.Base.{
  ℕ, zero, suc, ◌+◌, ◌-◌, ◌%◌, ◌≤◌, ◌<◌, ◌≡◌, refl, ap, ◌∙◌, inl, inr, ◌&&◌, Option, some, List, [],
  ◌∷◌, ◌++◌, ltb, leb, if◌then◌else◌, length, arith, ltb→lt, Bool-cases, take, drop, replicate, set,
  ◌>>=◌,
}
use veni.CString.{strcpy, pad, strncpy, memset, memcpy, move_up, move_down, memmove}
use veni.CString.Text.{Text, IsText, cstr}

-- `strcpy` into an array with room for the text and its end mark writes both, and leaves the rest.
pub strcpy_lem :
    (dest : List ℕ) (t : Text) (r : List ℕ)
    → IsText t
    → length t < length dest
    → strcpy dest (cstr t r) ≡ some (cstr t (drop (length t + 1) dest))
unfolding strcpy
strcpy_lem [] t r h room = absurd (omega arith)
strcpy_lem (d ∷ dest) [] r h room = refl
strcpy_lem (d ∷ dest) (c ∷ t) r h room = ground (arith, strcpy_lem dest t r h.1 (omega arith))

pad_lem :
    (dest : List ℕ) (n : ℕ) → n ≤ length dest → pad dest n ≡ some (replicate n 0 ++ drop n dest)
unfolding pad
pad_lem dest zero room = refl
pad_lem [] (suc n) room = absurd (omega arith)
pad_lem (d ∷ dest) (suc n) room = ground (arith, pad_lem dest n (omega arith))

sub_suc : (m n : ℕ) → suc m - suc n ≡ m - n
sub_suc m n = omega arith

zero_sub : (n : ℕ) → 0 - n ≡ 0
zero_sub n = omega arith

sub_zero : (n : ℕ) → n - 0 ≡ n
sub_zero n = omega arith

one_sub : (n : ℕ) → 1 - suc n ≡ 0 - suc n
one_sub n = omega arith

-- `strncpy` of a string into an array of `n` bytes or more writes `n` bytes: the text, cut at `n`,
-- then zeros. What follows them stays.
pub strncpy_lem :
    (dest : List ℕ) (t : Text) (r : List ℕ) (n : ℕ)
    → IsText t
    → n ≤ length dest
    → strncpy dest (cstr t r) n ≡ some (take n t ++ (replicate (n - length t) 0 ++ drop n dest))
unfolding strncpy
strncpy_lem dest t r zero h room = rw (zero_sub (length t))
strncpy_lem [] t r (suc n) h room = absurd (omega arith)
strncpy_lem (d ∷ dest) [] r (suc n) h room = rw (pad_lem dest n (omega arith), sub_zero (suc n))
strncpy_lem (d ∷ dest) (c ∷ t) r (suc n) h room = ground (
  arith,
  h.0,
  strncpy_lem dest t r n h.1 (omega arith),
  ap (λ k. replicate k 0 ++ drop n dest) (sub_suc n (length t)),
)

set-replicate : (n : ℕ) (z : List ℕ) → set (replicate (suc n) 0 ++ z) n 0 ≡ replicate (suc n) 0 ++ z
set-replicate zero z = refl
set-replicate (suc n) z = ap (λ l. 0 ∷ l) (set-replicate n z)

set_last :
    (n : ℕ) (t : Text) (z : List ℕ)
    → set (take (suc n) t ++ (replicate (suc n - length t) 0 ++ z)) n 0
      ≡ cstr (take n t) (replicate (n - length t) 0 ++ z)
set_last zero [] z = refl
set_last zero (c ∷ t) z = ap (λ k. 0 ∷ (replicate k 0 ++ z)) (one_sub (length t))
set_last (suc n) [] z = rw (sub_zero (suc (suc n)), sub_zero (suc n)) (set-replicate (suc n) z)
set_last (suc n) (c ∷ t) z =
    rw (sub_suc (suc n) (length t), sub_suc n (length t)) (ap (λ l. c ∷ l) (set_last n t z))

-- `strncpy(buf, s, n); buf[n - 1] = '\0';`
unfoldable pub copy_cut : (dest src : List ℕ) → ℕ → Option (List ℕ)
unfolding strncpy
copy_cut dest src n = strncpy dest src n >>= λ buf. some (set buf (n - 1) 0)

-- The idiom by which the kernel copies a path or a name: `buf` then holds the text, cut at one
-- byte less than its size, as a string.
pub copy_cut_lem :
    (dest : List ℕ) (t : Text) (r : List ℕ) (n : ℕ)
    → IsText t
    → length dest ≡ suc n
    → (q : List ℕ) × (copy_cut dest (cstr t r) (suc n) ≡ some (cstr (take n t) q))
unfolding copy_cut
copy_cut_lem dest t r n h size = (
  replicate (n - length t) 0 ++ drop (suc n) dest,
  rw (strncpy_lem dest t r (suc n) h (omega arith), sub_suc n 0, sub_zero n)
      (ap some (set_last n t (drop (suc n) dest))),
)

-- `memset` writes the low byte of its value `n` times, and leaves the rest.
pub memset_lem :
    (buf : List ℕ) (value n : ℕ)
    → n ≤ length buf
    → memset buf value n ≡ some (replicate n (value % 256) ++ drop n buf)
unfolding memset
memset_lem buf value zero room = refl
memset_lem [] value (suc n) room = absurd (omega arith)
memset_lem (b ∷ buf) value (suc n) room = ground (arith, memset_lem buf value n (omega arith))

-- `memcpy` replaces the first `n` bytes by those of the source, and leaves the rest.
pub memcpy_lem :
    (dst src : List ℕ) (n : ℕ)
    → n ≤ length dst
    → n ≤ length src
    → memcpy dst src n ≡ some (take n src ++ drop n dst)
unfolding memcpy
memcpy_lem dst src zero h k = refl
memcpy_lem [] src (suc n) h k = absurd (omega arith)
memcpy_lem (d ∷ dst) [] (suc n) h k = absurd (omega arith)
memcpy_lem (d ∷ dst) (c ∷ src) (suc n) h k =
    ground (arith, memcpy_lem dst src n (omega arith) (omega arith))

-- The memory `m` with the `n` bytes from `src` on copied to `dst`.
abbrev pub moved : (dst src n : ℕ) → (ℕ → ℕ) → ℕ → ℕ
moved dst src n m j = if leb dst j && ltb j (dst + n) then m (src + (j - dst)) else m j

-- Upwards, with the bytes below `i` done: what was done is not read again if `dst < src`.
move_up_lem :
    (n i dst src : ℕ) (m : ℕ → ℕ) (j : ℕ)
    → dst < src
    → move_up n i dst src m j ≡ moved (dst + i) (src + i) n m j
unfolding move_up
move_up_lem zero i dst src m j h = ground arith
move_up_lem (suc n) i dst src m j h = move_up_lem n (i + 1) dst src _ j h ∙ grind arith

move_down_lem :
    (n dst src : ℕ) (m : ℕ → ℕ) (j : ℕ) → src ≤ dst → move_down n dst src m j ≡ moved dst src n m j
unfolding move_down
move_down_lem zero dst src m j h = ground arith
move_down_lem (suc n) dst src m j h = move_down_lem n dst src _ j h ∙ grind arith

-- `memmove` copies `n` bytes as they were before the call, whether or not the two ranges overlap,
-- and changes no other byte.
pub memmove_lem : (dst src n : ℕ) (m : ℕ → ℕ) (j : ℕ) → memmove dst src n m j ≡ moved dst src n m j
unfolding memmove
memmove_lem dst src n m j = elim (Bool-cases (ltb dst src)) [
  | inl up ↦ rw up (move_up_lem n 0 dst src m j (ltb→lt dst src up) ∙ ground arith)
  | inr down ↦ rw down (move_down_lem n dst src m j (ground arith))
]
