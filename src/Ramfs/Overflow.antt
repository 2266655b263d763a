-- ===== src/Ramfs/Overflow.antt =====
-- A write of ramfs.c whose end does not fit in 32 bits.
use veni.Base.{
  ℕ, zero, suc, ◌+◌, ◌-◌, ◌%◌, ◌^◌, ◌≤◌, ◌<◌, ◌≡◌, refl, false, Option, none, some, List, [], ◌∷◌,
  length, ◌>>=◌, arith, le→ltb, lt→ltb,
}
use veni.CString.{memset, memcpy}
use veni.Ramfs.{Inode, Inodes, inode}
use veni.Ramfs.File.{
  Allocator, at_offset, buffer, with_buffer, not_file, fill, put_bytes, ramfs_write,
}
use veni.Ramfs.Content.{IsStored}

memset-none : (n : ℕ) (p : List ℕ) → length p < n → memset p 0 n ≡ none
unfolding memset
memset-none zero p h = absurd (omega arith)
memset-none (suc n) [] h = refl
memset-none (suc n) (x ∷ p) h = rw (memset-none n p (omega arith))

zero_fill-none :
    (off n : ℕ) (p : List ℕ) → length p < off + n → at_offset (λ q. memset q 0 n) off p ≡ none
unfolding at_offset
zero_fill-none zero n p h = memset-none n p (omega arith)
zero_fill-none (suc off) n [] h = refl
zero_fill-none (suc off) n (x ∷ p) h = rw (zero_fill-none off n p (omega arith))

fill-none :
    (offset : ℕ) (n : Inode) (p : List ℕ)
    → n.size < offset
    → length p < offset
    → fill offset n p ≡ none
unfolding fill
fill-none offset n p gap outside =
    rw (lt→ltb n.size offset gap, zero_fill-none n.size (offset - n.size) p (omega arith))

with_buffer-none :
    (o : Option (List ℕ)) (f : List ℕ → Option (List ℕ))
    → f (buffer o) ≡ none
    → with_buffer o f ≡ none
with_buffer-none none f e = rw e
with_buffer-none (some b) f e = rw e

put_bytes-none :
    (buf : List ℕ) (size offset : ℕ) (n : Inode)
    → n.size < offset
    → length (buffer n.bytes) < offset
    → put_bytes buf size offset n ≡ none
unfolding put_bytes
put_bytes-none buf size offset n gap outside = rw (
    with_buffer-none n.bytes
      (λ p. fill offset n p >>= λ q. at_offset (λ r. memcpy r buf size) offset q)
      (rw (fill-none offset n (buffer n.bytes) gap outside)))

-- A write to an open file from an offset behind its buffer, whose end wraps round 2 ^ 32 to a place
-- inside the capacity, is outside of the buffer: the buffer is not grown, and the zero fill runs
-- past its end.
pub ramfs_write_wraps :
    (a : Allocator) (ns : Inodes) (fd : ℕ) (buf : List ℕ) (size offset : ℕ)
    → not_file ns fd ≡ false
    → IsStored (inode ns fd)
    → length (buffer (inode ns fd).bytes) < offset
    → (offset + size) % 2 ^ 32 ≤ (inode ns fd).capacity
    → ramfs_write a ns fd buf size offset ≡ none
unfolding ramfs_write
ramfs_write_wraps a ns fd buf size offset open_file v outside wrapped = rw (
  open_file,
  le→ltb (inode ns fd).capacity ((offset + size) % 2 ^ 32) wrapped,
  put_bytes-none buf size offset (inode ns fd) (omega (arith, v.capacity_in, v.size_in)) outside,
)
