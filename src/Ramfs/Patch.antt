-- ===== src/Ramfs/Patch.antt =====
-- The writes into a buffer that `ramfs_write` makes by memcpy.c and memset.c, byte by byte.
use veni.Base.{
  ℕ, zero, suc, ◌+◌, ◌-◌, ◌≤◌, ◌≡◌, refl, ap, ◌&&◌, Option, some, List, [], ◌∷◌, ltb, leb,
  if◌then◌else◌, get_or, length, arith,
}
use veni.CString.{memcpy, memset}
use veni.Ramfs.File.{at_offset}

-- `q` is `p` with the `n` bytes from `off` on replaced by `g 0`, `g 1`, ….
pub record Patched (off n : ℕ) (g : ℕ → ℕ) (p q : List ℕ) : Type 0 where
  pub same_length : length q ≡ length p
  pub byte :
      (j : ℕ) → get_or q j 0 ≡ (if leb off j && ltb j (off + n) then g (j - off) else get_or p j 0)

abbrev pub Patches : Option (List ℕ) → (off n : ℕ) → (ℕ → ℕ) → List ℕ → Type 0
Patches o off n g p = (q : List ℕ) × (o ≡ some q) × Patched off n g p q

Patched-none : (g : ℕ → ℕ) (p : List ℕ) → Patched 0 0 g p p
Patched-none g p = record { same_length = refl; byte = λ j. ground arith }

Patched-cons :
    (n v : ℕ) (g : ℕ → ℕ) (x : ℕ) (p q : List ℕ)
    → v ≡ g 0
    → Patched 0 n (λ i. g (suc i)) p q
    → Patched 0 (suc n) g (x ∷ p) (v ∷ q)
Patched-cons n v g x p q e h = record { same_length = ap suc h.same_length; byte = byte }
  where
    byte :
        (j : ℕ)
        → get_or (v ∷ q) j 0
          ≡ (if leb 0 j && ltb j (0 + suc n) then g (j - 0) else get_or (x ∷ p) j 0)
    byte zero = ground arith
    byte (suc j) = ground (arith, h.byte j)

pub memcpy-Patches :
    (n : ℕ) (p src : List ℕ)
    → n ≤ length p
    → n ≤ length src
    → Patches (memcpy p src n) 0 n (λ i. get_or src i 0) p
unfolding memcpy
memcpy-Patches zero p src h k = (p, refl, Patched-none (λ i. get_or src i 0) p)
memcpy-Patches (suc n) [] src h k = absurd (omega arith)
memcpy-Patches (suc n) (x ∷ p) [] h k = absurd (omega arith)
memcpy-Patches (suc n) (x ∷ p) (c ∷ src) h k =
    let (q, e, patched) = memcpy-Patches n p src (omega arith) (omega arith) in
    (c ∷ q, rw e, Patched-cons n c (λ i. get_or (c ∷ src) i 0) x p q refl patched)

memset-Patches : (n : ℕ) (p : List ℕ) → n ≤ length p → Patches (memset p 0 n) 0 n (λ _. 0) p
unfolding memset
memset-Patches zero p h = (p, refl, Patched-none (λ _. 0) p)
memset-Patches (suc n) [] h = absurd (omega arith)
memset-Patches (suc n) (x ∷ p) h =
    let (q, e, patched) = memset-Patches n p (omega arith) in
    (0 ∷ q, rw e, Patched-cons n 0 (λ _. 0) x p q refl patched)

Patched-shift :
    (off n : ℕ) (g : ℕ → ℕ) (x : ℕ) (p q : List ℕ)
    → Patched off n g p q
    → Patched (suc off) n g (x ∷ p) (x ∷ q)
Patched-shift off n g x p q h = record { same_length = ap suc h.same_length; byte = byte }
  where
    byte :
        (j : ℕ)
        → get_or (x ∷ q) j 0
          ≡ (if leb (suc off) j && ltb j (suc off + n) then g (j - suc off) else get_or (x ∷ p) j 0)
    byte zero = ground arith
    byte (suc j) = ground (arith, h.byte j)

-- A write at the start of any long enough array is one at `off`.
at_offset-Patches :
    (f : List ℕ → Option (List ℕ)) (n : ℕ) (g : ℕ → ℕ)
    → ((p : List ℕ) → n ≤ length p → Patches (f p) 0 n g p)
    → (off : ℕ) (p : List ℕ) → off + n ≤ length p
    → Patches (at_offset f off p) off n g p
unfolding at_offset
at_offset-Patches f n g h zero p room = h p (omega arith)
at_offset-Patches f n g h (suc off) [] room = absurd (omega arith)
at_offset-Patches f n g h (suc off) (x ∷ p) room =
    let (q, e, patched) = at_offset-Patches f n g h off p (omega arith) in
    (x ∷ q, rw e, Patched-shift off n g x p q patched)

pub copy_in-Patches :
    (off n : ℕ) (p src : List ℕ)
    → off + n ≤ length p
    → n ≤ length src
    → Patches (at_offset (λ r. memcpy r src n) off p) off n (λ i. get_or src i 0) p
copy_in-Patches off n p src room enough =
    at_offset-Patches (λ r. memcpy r src n) n (λ i. get_or src i 0)
      (λ r h. memcpy-Patches n r src h enough) off p room

pub zero_fill-Patches :
    (off n : ℕ) (p : List ℕ)
    → off + n ≤ length p
    → Patches (at_offset (λ r. memset r 0 n) off p) off n (λ _. 0) p
zero_fill-Patches off n p room =
    at_offset-Patches (λ r. memset r 0 n) n (λ _. 0) (λ r h. memset-Patches n r h) off p room
