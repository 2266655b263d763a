-- ===== src/Ramfs/Access.antt =====
-- What `ramfs_read` and `ramfs_write` do to the content of a file, and a read after a write.
use mathlib.Core.Option.{some_inj}
use veni.Base.{
  zero, suc, sym, subst, [], ◌∷◌, ℕ, ◌+◌, ◌-◌, ◌%◌, ◌^◌, ◌≤◌, ◌<◌, ◌≡◌, ◌≢◌, ◌⊎◌, refl, ap, ap₂,
  ◌∙◌, false, not, ◌||◌, Option, none, some, List, ◌==◌, ltb, leb, if◌then◌else◌, get_or, take,
  drop, length, arith, inl, inr, Bool-cases, ltb→lt, leb→le, leb→lt, ltb→le, le→ltb,
  get_or-set_self, get_or-set_ne, min, length-set, get_or-take, get_or-drop, eq_of_get_or,
  length-take, length-drop,
}
use veni.Ramfs.{Inode, Inodes, inode, zero_inode}
use veni.Ramfs.File.{
  Allocator, ReadResult, WriteResult, buffer, not_file, nothing_written, written, write_grown,
  ramfs_read, ramfs_write, copy_out, nothing_read, bad_index,
}
use veni.Ramfs.Content.{IsStored, Grown, Rewritten, byte_at, grow-Grown, put_bytes-Rewritten}

-- The outcome of a write that was carried out: what it returns, the file, and the other files.
pub record Wrote (ns : Inodes) (fd : ℕ) (buf : List ℕ) (size at : ℕ) (r : WriteResult)
    : Type 0 where
  pub count : r.count ≡ size
  pub offset : r.offset ≡ at + size
  pub file : Rewritten (inode ns fd) (inode r.inodes fd) buf size at
  pub others : (i : ℕ) → fd ≢ i → inode r.inodes i ≡ inode ns i
  pub same_length : length r.inodes ≡ length ns

module _ (ns : Inodes) (fd : ℕ) (buf : List ℕ) (size offset : ℕ) where
  written-Wrote :
      (m : Inode)
      → fd < length ns
      → offset + size < 2 ^ 32
      → Rewritten (inode ns fd) m buf size offset
      → Wrote ns fd buf size offset (written ns fd size offset m)
  written-Wrote m in_table small done = record {
    count = refl;
    offset = omega arith;
    file = rw (get_or-set_self ns fd m zero_inode in_table) done;
    others = λ i ne. get_or-set_ne ns fd i m zero_inode ne;
    same_length = length-set ns fd m;
  }

Rewritten-Grown :
    (n m k : Inode) (buf : List ℕ) (size offset needed : ℕ)
    → Grown n m needed
    → Rewritten m k buf size offset
    → Rewritten n k buf size offset
Rewritten-Grown n m k buf size offset needed g done = record {
  same = record {
    type = done.same.type ∙ g.same.type;
    used = done.same.used ∙ g.same.used;
    entries = done.same.entries ∙ g.same.entries;
  };
  stored = done.stored;
  size = ground (arith, done.size, g.size);
  byte = λ j. ground (arith, done.byte j, g.byte j);
}

-- What can become of a write: it is carried out, or there was no memory for a larger buffer and
-- nothing changes.
abbrev pub WriteOutcome :
    Allocator → Inodes → (fd : ℕ) (buf : List ℕ) (size offset : ℕ) → WriteResult → Type 0
WriteOutcome a ns fd buf size offset r =
    Wrote ns fd buf size offset r
    ⊎ ((r ≡ nothing_written ns offset)
        × (a.malloc (offset + size) ≡ none)
        × ((inode ns fd).capacity < offset + size))

module _ (a : Allocator) (ns : Inodes) (fd : ℕ) (buf : List ℕ) (size offset : ℕ)
    (open_file : not_file ns fd ≡ false) (in_table : fd < length ns) (v : IsStored (inode ns fd))
    (enough : size ≤ length buf) (small : offset + size < 2 ^ 27) where
  no_wrap : (offset + size) % 2 ^ 32 ≡ offset + size
  no_wrap = omega arith

  in_place :
      offset + size ≤ (inode ns fd).capacity
      → (r : WriteResult) × (ramfs_write a ns fd buf size offset ≡ some r)
        × WriteOutcome a ns fd buf size offset r
  unfolding ramfs_write
  in_place room =
      let (m, e, done) = put_bytes-Rewritten (inode ns fd) buf size offset v room enough in
      (
        written ns fd size offset m,
        rw (open_file, no_wrap, le→ltb (inode ns fd).capacity (offset + size) room, e),
        inl (written-Wrote ns fd buf size offset m in_table (omega arith) done),
      )

  grown :
      (inode ns fd).capacity < offset + size
      → (o : Option (List ℕ)) → a.malloc (offset + size) ≡ o
      → (r : WriteResult) × (write_grown o ns fd buf size offset ≡ some r)
        × WriteOutcome a ns fd buf size offset r
  unfolding write_grown
  grown more none e = (nothing_written ns offset, refl, inr (refl, e, more))
  grown more (some newbuf) e =
      let (m, e', g) =
        grow-Grown (inode ns fd) (offset + size) newbuf v more (omega arith)
          (a.malloc_size _ newbuf small e) in
      let (k, e'', done) =
        put_bytes-Rewritten m buf size offset g.stored (omega (arith, g.capacity)) enough in
      (
        written ns fd size offset k,
        rw (no_wrap, e', e''),
        inl (
            written-Wrote ns fd buf size offset k in_table (omega arith)
              (Rewritten-Grown (inode ns fd) m k buf size offset (offset + size) g done)),
      )

  pub ramfs_write-WriteOutcome :
      (r : WriteResult) × (ramfs_write a ns fd buf size offset ≡ some r)
      × WriteOutcome a ns fd buf size offset r
  unfolding ramfs_write
  ramfs_write-WriteOutcome = elim (Bool-cases (ltb (inode ns fd).capacity (offset + size))) [
    | inl more ↦
        rw (open_file, no_wrap, more) (grown (ltb→lt _ _ more) (a.malloc (offset + size)) refl)
    | inr room ↦ in_place (ltb→le _ _ room)
  ]

-- The outcome of a read: the bytes of the content from `at` on, as many as are asked for and there.
pub record ReadOutcome (n : Inode) (size at : ℕ) (r : ReadResult) : Type 0 where
  pub count : r.count ≡ min size (n.size - at)
  pub offset : r.offset ≡ at + r.count
  pub copied_length : length r.copied ≡ r.count
  pub byte : (j : ℕ) → j < r.count → get_or r.copied j 0 ≡ byte_at n (at + j)

get_or-take-drop :
    (k n j : ℕ) (p : List ℕ) → j < n → get_or (take n (drop k p)) j 0 ≡ get_or p (k + j) 0
get_or-take-drop k n j p h = get_or-take n j (drop k p) 0 h ∙ get_or-drop k j p 0

module _ (n : Inode) (size at : ℕ) (v : IsStored n) where
  nothing-ReadOutcome : n.size ≤ at → ReadOutcome n size at (nothing_read at)
  nothing-ReadOutcome beyond = record {
    count = omega arith;
    offset = omega arith;
    copied_length = refl;
    byte = λ j h. absurd (omega arith);
  }

  copy_out-ReadOutcome :
      (k : ℕ)
      → k ≡ min size (n.size - at)
      → at < n.size
      → (o : Option (List ℕ)) → n.bytes ≡ o
      → ReadOutcome n size at (copy_out o k at)
  unfolding copy_out
  copy_out-ReadOutcome k e inside none null =
      absurd (omega (arith, v.capacity_in, v.size_in, ap (λ o. length (buffer o)) null))
  copy_out-ReadOutcome k e inside (some b) held = record {
    count = e;
    offset = omega (arith, v.word, v.size_in);
    copied_length =
        omega
          (arith, length-take k (drop at b), length-drop at b, v.capacity_in, v.size_in, size_b);
    byte = λ j h.
        get_or-take-drop at k j b h ∙ ground (arith, ap (λ o. get_or (buffer o) (at + j) 0) held);
  }
    where
      size_b : length (buffer n.bytes) ≡ length b
      size_b = ap (λ o. length (buffer o)) held

-- A read from an open file returns the bytes of its content from the offset on, as many as are
-- asked for and there, and moves the offset by their number.
pub ramfs_read-ReadOutcome :
    (ns : Inodes) (fd size offset : ℕ)
    → not_file ns fd ≡ false
    → IsStored (inode ns fd)
    → ReadOutcome (inode ns fd) size offset (ramfs_read ns fd size offset)
unfolding ramfs_read
ramfs_read-ReadOutcome ns fd size offset open_file v =
    elim (Bool-cases (leb (inode ns fd).size offset)) [
      | inl beyond ↦
          rw (open_file, beyond)
            (nothing-ReadOutcome (inode ns fd) size offset v (leb→le _ _ beyond))
      | inr inside ↦
          rw (open_file, inside)
            (copy_out-ReadOutcome (inode ns fd) size offset v
              (if ltb ((inode ns fd).size - offset) size then (inode ns fd).size - offset else size)
              (ground arith) (leb→lt _ _ inside) (inode ns fd).bytes refl)
    ]

-- What is read back after a write that was carried out is what was written.
pub ramfs_read-Wrote :
    (ns : Inodes) (fd : ℕ) (buf : List ℕ) (size offset : ℕ) (r : WriteResult)
    → not_file ns fd ≡ false
    → size ≤ length buf
    → Wrote ns fd buf size offset r
    → (ramfs_read r.inodes fd size offset).copied ≡ take size buf
ramfs_read-Wrote ns fd buf size offset r open_file enough done =
    eq_of_get_or copied (take size buf) 0
      (omega (arith, seen.copied_length, all, length-take size buf))
      (λ j h. same_byte j (omega (arith, seen.copied_length)))
  where
    m : Inode
    m = inode r.inodes fd

    still_open : not_file r.inodes fd ≡ false
    still_open =
        ap₂ (λ u t. bad_index fd || not u || not (t == 0)) done.file.same.used done.file.same.type
        ∙ open_file

    seen : ReadOutcome m size offset (ramfs_read r.inodes fd size offset)
    seen = ramfs_read-ReadOutcome r.inodes fd size offset still_open done.file.stored

    copied : List ℕ
    copied = (ramfs_read r.inodes fd size offset).copied

    all : (ramfs_read r.inodes fd size offset).count ≡ size
    all = ground (arith, seen.count, done.file.size)

    back : (j : ℕ) → offset + j - offset ≡ j
    back j = omega arith

    same_byte :
        (j : ℕ)
        → j < (ramfs_read r.inodes fd size offset).count
        → get_or copied j 0 ≡ get_or (take size buf) j 0
    same_byte j h =
        seen.byte j h
        ∙ ground (
          arith,
          done.file.byte (offset + j),
          all,
          get_or-take size j buf 0,
          ap (λ i. get_or buf i 0) (back j),
        )

-- A read at the offset and for the size of a write whose end is below 2 ^ 27, to an open file whose
-- content is in its buffer, gives what was written, if the write returned the size.
pub ramfs_read-ramfs_write :
    (a : Allocator) (ns : Inodes) (fd : ℕ) (buf : List ℕ) (size offset : ℕ) (r : WriteResult)
    → not_file ns fd ≡ false
    → fd < length ns
    → IsStored (inode ns fd)
    → size ≤ length buf
    → offset + size < 2 ^ 27
    → ramfs_write a ns fd buf size offset ≡ some r
    → r.count ≡ size
    → (ramfs_read r.inodes fd size offset).copied ≡ take size buf
ramfs_read-ramfs_write a ns fd buf size offset r open_file in_table v enough small e all =
    let (r', e', o) =
      ramfs_write-WriteOutcome a ns fd buf size offset open_file in_table v enough small in
    by_outcome (subst (WriteOutcome a ns fd buf size offset) (some_inj.0 (sym e' ∙ e)) o)
  where
    -- A write that returns its size without writing had no bytes to write.
    empty :
        (size : ℕ) → 0 ≡ size → (copied : List ℕ) → length copied ≤ size → copied ≡ take size buf
    empty zero z [] le = refl
    empty zero z (c ∷ copied) le = absurd (omega arith)
    empty (suc k) z copied le = absurd (omega arith)

    by_outcome :
        WriteOutcome a ns fd buf size offset r
        → (ramfs_read r.inodes fd size offset).copied ≡ take size buf
    by_outcome (inl done) = ramfs_read-Wrote ns fd buf size offset r open_file enough done
    by_outcome (inr (same, null, more)) = empty size (sym (ap (λ x. x.count) same) ∙ all) _ (
        subst (λ n. length (ramfs_read n fd size offset).copied ≤ size)
          (sym (ap (λ x. x.inodes) same)) (omega (arith, seen.copied_length, seen.count)))
      where
        seen : ReadOutcome (inode ns fd) size offset (ramfs_read ns fd size offset)
        seen = ramfs_read-ReadOutcome ns fd size offset open_file v
