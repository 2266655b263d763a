-- ===== src/Heap.antt =====
-- kernel/kernel/memory/heap.c: the kernel heap, a list of blocks with a header in front of each.
pub mod Chain
pub mod Find
pub mod Take
pub mod Order
pub mod Merge
pub mod Free
pub mod Grow
pub mod Insert
pub mod Alloc
pub mod Buffers
pub mod Sample
pub mod Init
mod Tests
use mathlib.Core.Option
use veni.Base.{
  ℕ, zero, suc, ◌+◌, ◌-◌, ◌*◌, ◌/◌, ◌%◌, ◌^◌, Bool, true, false, not, ◌&&◌, ◌||◌, Option, none,
  some, ◌==◌, ltb, leb, if◌then◌else◌, update, ◌>>=◌,
}
use veni.Pmm.{page_size, null, pmm_alloc_page}
use veni.Vmm.{Vmm, page_of, map_page}

abbrev pub heap_begin : ℕ
heap_begin = 0xD0000000

abbrev pub heap_end : ℕ
heap_end = 0xE0000000

abbrev pub block_magic : ℕ
block_magic = 0x464E4942

-- `sizeof(block_header_t)`.
abbrev pub header_size : ℕ
header_size = 20

pub record Header : Type 0 where
  pub magic : ℕ
  pub size : ℕ
  pub is_free : Bool
  pub next : ℕ
  pub prev : ℕ

-- The static variables, the page tables below, and the headers by their address; the bytes behind a
-- header belong to the caller.
pub record Heap : Type 0 where
  pub vmm : Vmm
  pub headers : ℕ → Header
  pub heap_start : ℕ
  pub heap_current_break : ℕ

-- A header with a byte in the page of an address.
abbrev pub is_in_page : (addr header : ℕ) → Bool
is_in_page addr header =
    ltb header (page_of addr + page_size) && ltb (page_of addr) (header + header_size)

-- The end of `sbrk`.
abbrev pub broken : (old_break : ℕ) → Bool × Heap → ℕ × Heap
broken old_break r =
    if r.0 then (old_break, r.1) else (null, record r.1 { heap_current_break = old_break })

abbrev pub new_header : (size : ℕ) → Header
new_header size = record {
  magic = block_magic;
  size = size;
  is_free = true;
  next = null;
  prev = null;
}

-- `garbage` is what the bytes of a newly mapped page read as.
module _ (garbage : ℕ → Header) where
  abbrev pub remapped : (ℕ → Header) → (addr : ℕ) → ℕ → Header
  remapped headers addr x = if is_in_page addr x then garbage x else headers x

  -- The loop of `sbrk`, with `n` rounds left; `false` is out of physical memory.
  unfoldable pub map_range : (n addr : ℕ) → Heap → Bool × Heap
  map_range zero addr h = (true, h)
  map_range (suc n) addr h =
      let (pmm, page) = pmm_alloc_page h.vmm.pmm in
      let vmm = record h.vmm { pmm = pmm } in
      let rest =
        map_range n ((addr + page_size) % 2 ^ 32)
          (record h { vmm = map_page vmm addr page 3; headers = remapped h.headers addr }) in
      if page == null then (false, record h { vmm = vmm }) else rest

  unfoldable pub sbrk : Heap → (size : ℕ) → ℕ × Heap
  sbrk h size =
      let break = (h.heap_current_break + size) % 2 ^ 32 in
      if ltb heap_end break
      then (null, h)
      else broken h.heap_current_break (
          map_range ((break - h.heap_current_break + (page_size - 1)) / page_size)
            h.heap_current_break (record h { heap_current_break = break }))

  unfoldable pub kheap_init : Heap → Heap
  kheap_init h =
      let (block, h') = sbrk h page_size in
      if block == null then record h' { heap_start = null } else record h' {
        heap_start = block;
        headers = update h'.headers block (new_header page_size);
      }

-- `none` is a list that is longer than `n`.
unfoldable pub find_free_block : (n : ℕ) → (ℕ → Header) → (current size : ℕ) → Option ℕ
find_free_block zero headers current size = none
find_free_block (suc n) headers current size =
    let rest = find_free_block n headers (headers current).next size in
    if current == null || not ((headers current).magic == block_magic)
    then some null
    else if (headers current).is_free && leb size (headers current).size
    then some current
    else rest

-- `next->prev = prev`, unless `next` is `NULL`.
abbrev pub set_prev : (ℕ → Header) → (next prev : ℕ) → ℕ → Header
set_prev headers next prev =
    if next == null then headers else update headers next (record (headers next) { prev = prev })

unfoldable pub split_block : (ℕ → Header) → (block size : ℕ) → ℕ → Header
split_block headers block size =
    let b = headers block in
    if ltb ((size + header_size + 16) % 2 ^ 32) b.size
    then (let new_block = (block + size) % 2 ^ 32 in
        let with_new = update headers new_block (record {
          magic = block_magic;
          size = b.size - size;
          is_free = true;
          next = b.next;
          prev = block;
        }) in
        let linked = set_prev with_new b.next new_block in
        update linked block (record (linked block) { next = new_block; size = size }))
    else headers

-- The loop to the end of the list.
unfoldable pub last_block : (n : ℕ) → (ℕ → Header) → (current : ℕ) → Option ℕ
last_block zero headers current = none
last_block (suc n) headers current =
    let rest = last_block n headers (headers current).next in
    if (headers current).next == null then some current else rest

-- The new block goes to the end of the list.
unfoldable pub insert_block : (n : ℕ) → Heap → (block : ℕ) → Option Heap
insert_block n h block =
    if h.heap_start == null
    then some (record h { heap_start = block })
    else Option.map
        (λ current.
          let linked = update h.headers current (record (h.headers current) { next = block }) in
          record h { headers = update linked block (record (linked block) { prev = current }) })
        (last_block n h.headers h.heap_start)

unfoldable pub take_block : Heap → (block size : ℕ) → ℕ × Heap
take_block h block size =
    let headers = split_block h.headers block size in
    (
      (block + header_size) % 2 ^ 32,
      record h { headers = update headers block (record (headers block) { is_free = false }) },
    )

-- `((size + 7) & ~7) + sizeof(block_header_t)`.
abbrev pub block_size : (size : ℕ) → ℕ
block_size size = ((size + 7) % 2 ^ 32 - (size + 7) % 2 ^ 32 % 8 + header_size) % 2 ^ 32

-- The loop of `merge_free_blocks`.
unfoldable pub merge_next : (n : ℕ) → (ℕ → Header) → (block : ℕ) → Option (ℕ → Header)
merge_next zero headers block = none
merge_next (suc n) headers block =
    let b = headers block in
    let after = (headers b.next).next in
    let wider =
      update headers block
        (record b { size = (b.size + (headers b.next).size) % 2 ^ 32; next = after }) in
    let rest = merge_next n (set_prev wider after block) block in
    if not (b.next == null) && (headers b.next).is_free then rest else some headers

unfoldable pub merge_prev : (ℕ → Header) → (block : ℕ) → ℕ → Header
merge_prev headers block =
    let b = headers block in
    if not (b.prev == null) && (headers b.prev).is_free
    then (let wider = update headers b.prev (record (headers b.prev) {
      size = ((headers b.prev).size + b.size) % 2 ^ 32;
      next = b.next;
    }) in
        set_prev wider b.next b.prev)
    else headers

unfoldable pub merge_free_blocks : (n : ℕ) → (ℕ → Header) → (block : ℕ) → Option (ℕ → Header)
merge_free_blocks n headers block =
    Option.map (λ merged. merge_prev merged block) (merge_next n headers block)

unfoldable pub kfree : (n : ℕ) → Heap → (ptr : ℕ) → Option Heap
kfree n h ptr =
    let block = (ptr + 2 ^ 32 - header_size) % 2 ^ 32 in
    if ptr == null || not ((h.headers block).magic == block_magic)
    then some h
    else Option.map (λ headers. record h { headers = headers })
        (merge_free_blocks n (update h.headers block (record (h.headers block) { is_free = true }))
          block)

module _ (garbage : ℕ → Header) where
  unfoldable pub extend : (n : ℕ) → Heap → (size : ℕ) → Option (ℕ × Heap)
  extend n h size =
      let alloc_size = if ltb page_size size then size else page_size in
      let (block, h') = sbrk garbage h alloc_size in
      if block == null
      then some (null, h')
      else insert_block n (record h' { headers = update h'.headers block (new_header alloc_size) })
          block
        >>= λ h''. some (take_block h'' block size)

  unfoldable pub allocate : (n : ℕ) → Heap → (size block : ℕ) → Option (ℕ × Heap)
  allocate n h size block =
      if block == null then extend n h size else some (take_block h block size)

  -- What is returned, and the heap.
  unfoldable pub kmalloc : (n : ℕ) → Heap → (size : ℕ) → Option (ℕ × Heap)
  kmalloc n h size =
      if size == 0
      then some (null, h)
      else find_free_block n h.headers h.heap_start (block_size size) >>= λ block.
          allocate n h (block_size size) block

  -- libc/stdlib/malloc.c.
  abbrev pub malloc : (n : ℕ) → Heap → (size : ℕ) → Option (ℕ × Heap)
  malloc n h size = kmalloc n h size

-- libc/stdlib/free.c.
abbrev pub free : (n : ℕ) → Heap → (ptr : ℕ) → Option Heap
free n h ptr = kfree n h ptr
