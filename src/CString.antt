-- ===== src/CString.antt =====
-- libc/string: one function for each file. A pointer into an array is the list of the bytes from
-- it to the array's end; `none` is an access past that end. A function that writes returns the
-- bytes of its array afterwards. A returned pointer is its distance from the argument, and `NULL`
-- is the inner `none`. Bytes are numbers below 256, so `(char)` and `(unsigned char)` keep them.
pub mod Text
pub mod Compare
pub mod Copy
pub mod Search
pub mod Tokens
pub mod Paths
mod Tests
use mathlib.Core.Option
use veni.Base.{
  ℕ, zero, suc, ◌+◌, ◌-◌, ◌%◌, ◌≡◌, Bool, true, false, not, ◌&&◌, Option, none, some, List, [], ◌∷◌,
  ◌==◌, ltb, if◌then◌else◌, update, ◌>>=◌,
}
use veni.Base.Int.{ℤ, pos, negsuc, sub_ℕ}

unfoldable pub strlen : List ℕ → Option ℕ
strlen [] = none
strlen (c ∷ s) = if c == 0 then some 0 else Option.map suc (strlen s)

unfoldable pub strcmp : List ℕ → List ℕ → Option ℤ
strcmp [] s2 = none
strcmp (a ∷ s1) [] = none
strcmp (a ∷ s1) (b ∷ s2) =
    let rest = strcmp s1 s2 in if not (a == 0) && a == b then rest else some (sub_ℕ a b)

-- The count comes last in C; the loop runs down on it.
unfoldable pub strncmp : List ℕ → List ℕ → ℕ → Option ℤ
strncmp s1 s2 zero = some (pos 0)
strncmp [] s2 (suc n) = none
strncmp (a ∷ s1) [] (suc n) = none
strncmp (a ∷ s1) (b ∷ s2) (suc n) =
    let rest = strncmp s1 s2 n in
    if not (a == b) then some (sub_ℕ a b) else if a == 0 then some (pos 0) else rest

unfoldable pub memcmp : List ℕ → List ℕ → ℕ → Option ℤ
memcmp a b zero = some (pos 0)
memcmp [] b (suc n) = none
memcmp (x ∷ a) [] (suc n) = none
memcmp (x ∷ a) (y ∷ b) (suc n) =
    let rest = memcmp a b n in
    if ltb x y then some (negsuc 0) else if ltb y x then some (pos 1) else rest

unfoldable pub strcpy : (dest src : List ℕ) → Option (List ℕ)
strcpy dest [] = none
strcpy [] (c ∷ src) = none
strcpy (d ∷ dest) (c ∷ src) =
    if not (c == 0) then Option.map (λ r. c ∷ r) (strcpy dest src) else some (c ∷ dest)

-- The second loop of `strncpy`.
unfoldable pub pad : List ℕ → ℕ → Option (List ℕ)
pad dest zero = some dest
pad [] (suc n) = none
pad (d ∷ dest) (suc n) = Option.map (λ r. 0 ∷ r) (pad dest n)

unfoldable pub strncpy : (dest src : List ℕ) → ℕ → Option (List ℕ)
unfolding pad
strncpy dest src zero = some dest
strncpy dest [] (suc n) = none
strncpy [] (c ∷ src) (suc n) = if not (c == 0) then none else pad [] (suc n)
strncpy (d ∷ dest) (c ∷ src) (suc n) =
    if not (c == 0) then Option.map (λ r. c ∷ r) (strncpy dest src n) else pad (d ∷ dest) (suc n)

unfoldable pub memset : (buf : List ℕ) (value size : ℕ) → Option (List ℕ)
memset buf value zero = some buf
memset [] value (suc n) = none
memset (b ∷ buf) value (suc n) = Option.map (λ r. value % 256 ∷ r) (memset buf value n)

unfoldable pub memcpy : (dst src : List ℕ) → ℕ → Option (List ℕ)
memcpy dst src zero = some dst
memcpy [] src (suc n) = none
memcpy (d ∷ dst) [] (suc n) = none
memcpy (d ∷ dst) (c ∷ src) (suc n) = Option.map (λ r. c ∷ r) (memcpy dst src n)

-- The two loops of `memmove`, over a memory in which source and destination may overlap.
-- `move_up` has `n` rounds left from index `i` on.
move_up : ℕ → ℕ → (dst src : ℕ) → (ℕ → ℕ) → ℕ → ℕ
move_up zero i dst src m = m
move_up (suc n) i dst src m = move_up n (i + 1) dst src (update m (dst + i) (m (src + i)))

move_down : ℕ → (dst src : ℕ) → (ℕ → ℕ) → ℕ → ℕ
move_down zero dst src m = m
move_down (suc i) dst src m = move_down i dst src (update m (dst + i) (m (src + i)))

pub memmove : (dst src size : ℕ) → (ℕ → ℕ) → ℕ → ℕ
unfolding move_up move_down
memmove dst src size m = if ltb dst src then move_up size 0 dst src m else move_down size dst src m

-- `strchr(s, c)`, with `i` bytes already passed.
strchr_from : List ℕ → ℕ → ℕ → Option (Option ℕ)
strchr_from [] c i = none
strchr_from (x ∷ s) c i =
    let rest = strchr_from s c (i + 1) in
    if x == 0
    then some (if c == 0 then some i else none)
    else if x == c
    then some (some i)
    else rest

pub strchr : List ℕ → ℕ → Option (Option ℕ)
unfolding strchr_from
strchr s c = strchr_from s c 0

strrchr_from : List ℕ → ℕ → ℕ → Option ℕ → Option (Option ℕ)
strrchr_from [] c i found = none
strrchr_from (x ∷ s) c i found =
    let rest = strrchr_from s c (i + 1) (if x == c then some i else found) in
    if x == 0 then some found else rest

pub strrchr : List ℕ → ℕ → Option (Option ℕ)
unfolding strrchr_from
strrchr s c = strrchr_from s c 0 none

-- `*next && strchr(delim, *next)` at a byte that is not 0.
is_delim : List ℕ → ℕ → Option Bool
unfolding strchr
is_delim delim c = Option.map (λ p. elim p [ none ↦ false | some i ↦ true ]) (strchr delim c)

-- The first loop of `strtok`: `next` after the leading delimiters.
skip_delims : List ℕ → List ℕ → Option (List ℕ)
unfolding is_delim
skip_delims delim [] = none
skip_delims delim (c ∷ s) =
    let rest = skip_delims delim s in
    if c == 0 then some (c ∷ s) else is_delim delim c >>= λ b. if b then rest else some (c ∷ s)

-- The second loop: the bytes passed, and `next` at the byte that ends the token.
scan_token : List ℕ → List ℕ → Option (List ℕ × List ℕ)
unfolding is_delim
scan_token delim [] = none
scan_token delim (c ∷ s) =
    let rest = Option.map (λ p. (c ∷ p.0, p.1)) (scan_token delim s) in
    if c == 0
    then some ([], c ∷ s)
    else is_delim delim c >>= λ b. if b then some ([], c ∷ s) else rest

-- The end of `strtok`: a delimiter is overwritten by `'\0'` and passed.
end_token : List ℕ × List ℕ → Option (Option (List ℕ) × Option (List ℕ))
end_token (token, []) = none
end_token (token, c ∷ s) = some (some token, if c == 0 then some (c ∷ s) else some s)

start_token : List ℕ → List ℕ → Option (Option (List ℕ) × Option (List ℕ))
unfolding scan_token end_token
start_token delim [] = none
start_token delim (c ∷ s) =
    if c == 0 then some (none, some (c ∷ s)) else scan_token delim (c ∷ s) >>= end_token

-- `strtok(str, delim)` with the static `next`: the token, as the string up to the `'\0'` that ends
-- it, and the new `next`.
pub strtok :
    (str : Option (List ℕ)) (delim : List ℕ) (next : Option (List ℕ))
    → Option (Option (List ℕ) × Option (List ℕ))
unfolding skip_delims start_token
strtok (some s) delim next = skip_delims delim s >>= start_token delim
strtok none delim none = some (none, none)
strtok none delim (some s) = skip_delims delim s >>= start_token delim
