-- ===== src/Ramfs/Content.antt =====
-- The content of a file of ramfs.c, and what growing its buffer and writing into it do to it.
use veni.Base.{
  ℕ, ◌+◌, ◌-◌, ◌%◌, ◌^◌, ◌≤◌, ◌<◌, ◌≡◌, refl, ap, sym, ◌∙◌, ◌&&◌, Option, none, some, List, [], ◌∷◌,
  ltb, leb, if◌then◌else◌, get_or, length, ◌>>=◌, arith, inl, inr, Bool-cases,
}
use veni.CString.{memcpy}
use veni.Ramfs.{Inode}
use veni.Ramfs.File.{at_offset, buffer, with_buffer, grow, fill, put_bytes}
use veni.Ramfs.Patch.{Patches, Patched, memcpy-Patches, copy_in-Patches, zero_fill-Patches}

-- The buffer has the capacity that is noted, and the content fits in it.
pub record IsStored (n : Inode) : Type 0 where
  pub capacity_in : n.capacity ≤ length (buffer n.bytes)
  pub size_in : n.size ≤ n.capacity
  pub word : n.capacity < 2 ^ 32

-- Byte `j` of the content, and 0 behind its end.
abbrev pub byte_at : Inode → ℕ → ℕ
byte_at n j = if ltb j n.size then get_or (buffer n.bytes) j 0 else 0

-- All that is no content is the same.
pub record SameNode (n m : Inode) : Type 0 where
  pub type : m.type ≡ n.type
  pub used : m.used ≡ n.used
  pub entries : m.entries ≡ n.entries

-- `m` is `n` with a larger buffer.
pub record Grown (n m : Inode) (needed : ℕ) : Type 0 where
  pub same : SameNode n m
  pub stored : IsStored m
  pub capacity : m.capacity ≡ needed
  pub size : m.size ≡ n.size
  pub byte : (j : ℕ) → byte_at m j ≡ byte_at n j

pub grow-Grown :
    (n : Inode) (needed : ℕ) (newbuf : List ℕ)
    → IsStored n
    → n.capacity < needed
    → needed < 2 ^ 32
    → needed ≤ length newbuf
    → (m : Inode) × (grow n needed newbuf ≡ some m) × Grown n m needed
unfolding grow
grow-Grown n needed newbuf v more small room = go n.bytes refl
  where
    grown :
        (b : List ℕ)
        → n.size ≤ length b
        → ((j : ℕ) → j < n.size → get_or b j 0 ≡ get_or (buffer n.bytes) j 0)
        → length b ≡ length newbuf
        → Grown n (record n { bytes = some b; capacity = needed }) needed
    grown b fits same_byte size = record {
      same = record { type = refl; used = refl; entries = refl };
      stored = record {
        capacity_in = omega arith;
        size_in = omega (arith, v.size_in);
        word = small;
      };
      capacity = refl;
      size = refl;
      byte = λ j. elim (Bool-cases (ltb j n.size)) [
        | inl e ↦ rw e (same_byte j (ground arith))
        | inr e ↦ rw e
      ];
    }

    go :
        (o : Option (List ℕ))
        → n.bytes ≡ o
        → (m : Inode) × (grow n needed newbuf ≡ some m) × Grown n m needed
    go none e = (
      record n { bytes = some newbuf; capacity = needed },
      ground arith,
      grown newbuf (omega (arith, v.size_in))
          (λ j h. absurd (omega (arith, v.capacity_in, v.size_in, ap (λ o. length (buffer o)) e)))
          refl,
    )
    go (some old) e =
        let held : length (buffer n.bytes) ≡ length old = ap (λ o. length (buffer o)) e in
        refilled old e (
          memcpy-Patches n.size newbuf old (omega (arith, v.size_in))
            (omega (arith, v.size_in, v.capacity_in, held)))
      where
        refilled :
            (old : List ℕ)
            → n.bytes ≡ some old
            → Patches (memcpy newbuf old n.size) 0 n.size (λ i. get_or old i 0) newbuf
            → (m : Inode) × (grow n needed newbuf ≡ some m) × Grown n m needed
        refilled old e (q, copied, patched) = (
          record n { bytes = some q; capacity = needed },
          ground arith,
          grown q (omega (arith, patched.same_length, v.size_in))
              (λ j h. ground (arith, patched.byte j, ap (λ o. get_or (buffer o) j 0) e))
              patched.same_length,
        )

-- The buffer after the zero fill.
fill-Patches :
    (offset : ℕ) (n : Inode) (p : List ℕ)
    → offset ≤ length p
    → Patches (fill offset n p) n.size (offset - n.size) (λ _. 0) p
unfolding fill
fill-Patches offset n p room = elim (Bool-cases (ltb n.size offset)) [
  | inl gap ↦ rw gap (zero_fill-Patches n.size (offset - n.size) p (ground arith))
  | inr none_needed ↦
      rw none_needed (p, refl, record { same_length = refl; byte = λ j. ground arith })
]

-- `m` is `n` with `size` bytes of `buf` written at `offset`.
pub record Rewritten (n m : Inode) (buf : List ℕ) (count offset : ℕ) : Type 0 where
  pub same : SameNode n m
  pub stored : IsStored m
  pub size : m.size ≡ (if ltb n.size (offset + count) then offset + count else n.size)
  pub byte :
      (j : ℕ)
      → byte_at m j ≡ (
          if leb offset j && ltb j (offset + count) then get_or buf (j - offset) 0 else byte_at n j)

-- What the pointer is after writes that leave `q` behind it: `NULL` stays `NULL`.
abbrev restore : Option (List ℕ) → List ℕ → Option (List ℕ)
restore none q = none
restore (some b) q = some q

with_buffer-restore :
    (o : Option (List ℕ)) (f : List ℕ → Option (List ℕ)) (q : List ℕ)
    → f (buffer o) ≡ some q
    → with_buffer o f ≡ some (restore o q)
with_buffer-restore none f q e = rw e
with_buffer-restore (some b) f q e = rw e

nil_of_length : (q : List ℕ) → length q ≡ 0 → q ≡ []
nil_of_length [] h = refl
nil_of_length (x ∷ q) h = absurd (omega arith)

buffer-restore :
    (o : Option (List ℕ)) (q : List ℕ) → length q ≡ length (buffer o) → buffer (restore o q) ≡ q
buffer-restore none q h = sym (nil_of_length q h)
buffer-restore (some b) q h = refl

module _ (n : Inode) (buf : List ℕ) (size offset : ℕ) (v : IsStored n)
    (room : offset + size ≤ n.capacity) (enough : size ≤ length buf) where
  rewritten : List ℕ → Inode
  rewritten q = record n {
    bytes = restore n.bytes q;
    size = if ltb n.size ((offset + size) % 2 ^ 32) then (offset + size) % 2 ^ 32 else n.size;
  }

  no_wrap : (offset + size) % 2 ^ 32 ≡ offset + size
  no_wrap = omega (arith, v.word)

  Rewritten-copied :
      (p q : List ℕ)
      → Patched n.size (offset - n.size) (λ _. 0) (buffer n.bytes) p
      → Patched offset size (λ i. get_or buf i 0) p q
      → Rewritten n (rewritten q) buf size offset
  unfolding rewritten
  Rewritten-copied p q first second = record {
    same = record { type = refl; used = refl; entries = refl };
    stored = record {
      capacity_in = omega (arith, v.capacity_in, length_q, ap length held);
      size_in = ground (arith, v.size_in, no_wrap);
      word = v.word;
    };
    size = rw no_wrap;
    byte = λ j. rw (no_wrap, held) (ground (arith, first.byte j, second.byte j));
  }
    where
      length_q : length q ≡ length (buffer n.bytes)
      length_q = second.same_length ∙ first.same_length

      held : buffer (restore n.bytes q) ≡ q
      held = buffer-restore n.bytes q length_q

  put_bytes-copied :
      (p q : List ℕ)
      → fill offset n (buffer n.bytes) ≡ some p
      → at_offset (λ r. memcpy r buf size) offset p ≡ some q
      → put_bytes buf size offset n ≡ some (rewritten q)
  unfolding put_bytes rewritten
  put_bytes-copied p q e e' = rw (
      with_buffer-restore n.bytes
        (λ p'. fill offset n p' >>= λ q'. at_offset (λ r. memcpy r buf size) offset q') q
        (rw (e, e')))

  -- A write within the capacity.
  pub put_bytes-Rewritten :
      (m : Inode) × (put_bytes buf size offset n ≡ some m) × Rewritten n m buf size offset
  put_bytes-Rewritten =
      filled (fill-Patches offset n (buffer n.bytes) (omega (arith, v.capacity_in)))
    where
      filled :
          Patches
            (fill offset n (buffer n.bytes))
            n.size
            (offset - n.size)
            (λ _. 0)
            (buffer n.bytes)
          → (m : Inode) × (put_bytes buf size offset n ≡ some m) × Rewritten n m buf size offset
      filled (p, e, first) =
          let (q, e', second) =
            copy_in-Patches offset size p buf (omega (arith, first.same_length, v.capacity_in))
              enough in
          (rewritten q, put_bytes-copied p q e e', Rewritten-copied p q first second)
