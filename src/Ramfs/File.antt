-- ===== src/Ramfs/File.antt =====
-- `ramfs_read`, `ramfs_write` and `ramfs_close` of kernel/kernel/filesystem/ramfs.c. Sizes and
-- offsets are 32 bits wide. The outer `none` is an access outside of a buffer.
use mathlib.Core.Option
use veni.Base.{
  ℕ, zero, suc, ◌+◌, ◌-◌, ◌%◌, ◌^◌, ◌≤◌, ◌<◌, ◌≡◌, Bool, not, ◌||◌, Option, none, some, List, [],
  ◌∷◌, ◌==◌, ltb, leb, if◌then◌else◌, set, take, drop, length, ◌>>=◌,
}
use veni.CString.{memcpy, memset}
use veni.Ramfs.{Inode, Inodes, inode, max_files}

-- `idx < 0 || idx >= RAMFS_MAX_FILES` for `int idx = (int)(uintptr_t)fd`.
abbrev pub bad_index : ℕ → Bool
bad_index fd = ltb (2 ^ 31 - 1) fd || leb max_files fd

-- Neither an open file nor any other: where `ramfs_read` and `ramfs_write` return 0 at once.
abbrev pub not_file : Inodes → ℕ → Bool
not_file ns fd = bad_index fd || not (inode ns fd).used || not ((inode ns fd).type == 0)

-- `f` at the address `p + n`.
unfoldable pub at_offset : (List ℕ → Option (List ℕ)) → ℕ → List ℕ → Option (List ℕ)
at_offset f zero p = f p
at_offset f (suc n) [] = none
at_offset f (suc n) (x ∷ p) = Option.map (λ q. x ∷ q) (at_offset f n p)

-- What `ramfs_read` leaves: the number it returns, the bytes written to `buf`, and `*offset`.
pub record ReadResult : Type 0 where
  pub count : ℕ
  pub copied : List ℕ
  pub offset : ℕ

abbrev pub nothing_read : ℕ → ReadResult
nothing_read offset = record { count = 0; copied = []; offset = offset }

-- `memcpy(buf, inode->data + *offset, size)`, with `buf` taken to have just the room for it.
unfoldable pub copy_out : Option (List ℕ) → (size offset : ℕ) → ReadResult
copy_out none size offset = nothing_read offset
copy_out (some bytes) size offset = record {
  count = size;
  copied = take size (drop offset bytes);
  offset = (offset + size) % 2 ^ 32;
}

unfoldable pub ramfs_read : Inodes → (fd size offset : ℕ) → ReadResult
unfolding copy_out
ramfs_read ns fd size offset =
    if not_file ns fd
    then nothing_read offset
    else if leb (inode ns fd).size offset
    then nothing_read offset
    else copy_out (inode ns fd).bytes
        (if ltb ((inode ns fd).size - offset) size then (inode ns fd).size - offset else size)
        offset

-- The allocator that `ramfs_write` calls: the contents of a new buffer, or `none` for `NULL`. Its law
-- is for the sizes for which Heap.Buffers shows it of `kmalloc`.
pub record Allocator : Type 0 where
  pub malloc : ℕ → Option (List ℕ)
  pub malloc_size : (n : ℕ) (b : List ℕ) → n < 2 ^ 27 → malloc n ≡ some b → n ≤ length b

-- The buffer as an array; no byte can be reached through `NULL`.
abbrev pub buffer : Option (List ℕ) → List ℕ
buffer none = []
buffer (some b) = b

-- Writes through `inode->data`.
abbrev pub with_buffer : Option (List ℕ) → (List ℕ → Option (List ℕ)) → Option (Option (List ℕ))
with_buffer none f = Option.map (λ _. none) (f [])
with_buffer (some b) f = Option.map some (f b)

-- The new buffer, with the bytes of the old one copied into it.
unfoldable pub refill : (size : ℕ) → List ℕ → Option (List ℕ) → Option (List ℕ)
refill size newbuf none = some newbuf
refill size newbuf (some old) = memcpy newbuf old size

unfoldable pub grow : Inode → ℕ → List ℕ → Option Inode
unfolding refill
grow n needed newbuf =
    Option.map (λ b. record n { bytes = some b; capacity = needed }) (refill n.size newbuf n.bytes)

-- The end of `ramfs_write`, from the zero fill on.
unfoldable pub fill : (offset : ℕ) → Inode → List ℕ → Option (List ℕ)
fill offset n p =
    if ltb n.size offset then at_offset (λ q. memset q 0 (offset - n.size)) n.size p else some p

unfoldable pub put_bytes : (buf : List ℕ) (size offset : ℕ) → Inode → Option Inode
unfolding fill
put_bytes buf size offset n =
    with_buffer n.bytes (λ p. fill offset n p >>= λ q. at_offset (λ r. memcpy r buf size) offset q)
    >>= λ stored.
        let end = (offset + size) % 2 ^ 32 in
        some (record n { bytes = stored; size = if ltb n.size end then end else n.size })

-- What `ramfs_write` leaves: the number it returns, `*offset`, and the table.
pub record WriteResult : Type 0 where
  pub count : ℕ
  pub offset : ℕ
  pub inodes : Inodes

abbrev pub nothing_written : Inodes → ℕ → WriteResult
nothing_written ns offset = record { count = 0; offset = offset; inodes = ns }

abbrev pub written : Inodes → (fd size offset : ℕ) → Inode → WriteResult
written ns fd size offset n = record {
  count = size;
  offset = (offset + size) % 2 ^ 32;
  inodes = set ns fd n;
}

-- `malloc`'s result decides.
unfoldable pub write_grown :
    Option (List ℕ) → Inodes → (fd : ℕ) (buf : List ℕ) (size offset : ℕ) → Option WriteResult
write_grown none ns fd buf size offset = some (nothing_written ns offset)
write_grown (some newbuf) ns fd buf size offset =
    grow (inode ns fd) ((offset + size) % 2 ^ 32) newbuf >>= put_bytes buf size offset >>= λ n.
    some (written ns fd size offset n)

unfoldable pub ramfs_write :
    Allocator → Inodes → (fd : ℕ) (buf : List ℕ) (size offset : ℕ) → Option WriteResult
ramfs_write a ns fd buf size offset =
    if not_file ns fd
    then some (nothing_written ns offset)
    else if ltb (inode ns fd).capacity ((offset + size) % 2 ^ 32)
    then write_grown (a.malloc ((offset + size) % 2 ^ 32)) ns fd buf size offset
    else put_bytes buf size offset (inode ns fd) >>= λ n. some (written ns fd size offset n)

-- 0 for a used inode, and otherwise -1.
unfoldable pub ramfs_close : Inodes → (fd : ℕ) → Option ℕ
ramfs_close ns fd = if bad_index fd || not (inode ns fd).used then none else some 0
