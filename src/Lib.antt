-- ===== src/Lib.antt =====
-- Veni: a hobby kernel for the i386 (kernel/) and the part of a C library that it uses (libc/).
--
-- The physical memory manager hands out page frames, from which the virtual memory manager takes
-- its page tables and the heap its pages; the RAM file system keeps files and directories in a
-- table of inodes and calls the C string library for paths and buffers. The virtual file system
-- finds the mounted file system that a path leads to and numbers the open files. The keyboard
-- driver turns scan codes into key packets, which the console maps to characters, and the terminal
-- writes characters to the screen. `printf` turns a format and its arguments into such characters.
--
-- Which file models what, with paths from the root of the repository:
--   Pmm        kernel/kernel/memory/pmm.c. The static variables are the record `Pmm`; each operation
--              takes the state and returns the next one. The bitmap is a function from word numbers
--              to 32-bit words, since nothing in the code bounds the memory behind it.
--   Vmm        kernel/kernel/memory/vmm.c. The page directory and the page tables lie in one memory, a
--              function from the number of a 32-bit word to the word; the bitmap of Pmm is apart.
--   Printf     libc/stdio/printf.c and puts.c. The variables of the loop are a record, and a round goes
--              on, returns or faults; the room that is left of a buffer bounds the loops that write
--              digits. Printf.Format says what a format means.
--   Heap       kernel/kernel/memory/heap.c, with libc/stdlib/malloc.c and free.c. The headers of the
--              blocks are a store by address, with the pointers as addresses. Heap.Chain relates the
--              store to a list of blocks, one behind the other. Heap.Buffers reads what `malloc`
--              returns as arrays, for Ramfs.
--   CString    libc/string/*.c. An array is the list of bytes from a pointer to the end of its
--              object, and an access beyond it is `none`. `memmove`, whose ranges may overlap, acts
--              on a memory, a function from addresses to bytes.
--   Ramfs      kernel/kernel/filesystem/ramfs.c: inodes, paths, and what creates and removes entries.
--   Ramfs.File ramfs.c: `ramfs_read`, `ramfs_write` and `ramfs_close`.
--   Vfs        kernel/kernel/filesystem/vfs.c: the mount table and the table of open files. A pointer
--              to a mount, to an open file or to a node is its place in a list, and a file system
--              is a number. Vfs.Calls is the table of a file system's operations, and
--              the calls of them with a path; Vfs.Nodes the tree of nodes and the search in it;
--              Vfs.Create is `vfs_create`; Vfs.Io what works on an open file. Nodes are only added, at
--              the end, as the code does: `vfs_unlink` leaves the node in the tree. `strtok` has one
--              static variable, which a `mkdir` inside the loop of `vfs_create` leaves in an array that
--              is gone: the model faults where the loop then goes on with `strtok`.
--   Keyboard   kernel/arch/i386/drivers/keyboard/keyboard.c, and in Keyboard.Keys the key codes of
--              kernel/include/kernel/kb_keys.h and kernel/kernel/kb_keys.c. The bytes that the
--              controller has ready during one interrupt are a list.
--   Tty        kernel/arch/i386/tty.c and vga.h. The screen is a function from cell numbers to
--              16-bit entries, and the writes to the ports of the cursor are a trace.
--   Descriptors  kernel/arch/i386/gdt.c and interrupts/idt.c. The tables are functions from the number of
--              an entry to the entry.
--   Interrupts kernel/arch/i386/interrupts/pic.c and drivers/pit/pit.c, on a machine that is a record of
--              its ports and their laws; Interrupts.Dispatch is interrupts/isr.c, which calls the
--              keyboard, the timer, `printf` and the controllers.
--   Serial     kernel/arch/i386/serial.c. The bytes that the line status port gives are a list, and the
--              reads of it and the bytes that are sent are one trace.
--   Console    libc/stdio/putchar.c and libc/stdlib/abort.c, and `exception_handler` of interrupts/isr.c:
--              the texts of Printf on the terminal of Tty and the port of Serial.
--
-- A child module is named for what it shows: Pmm.Alloc and Pmm.Free for the two operations on the
-- set of used pages, CString.Tokens for `strtok`, Ramfs.Access for reads and writes, Ramfs.Tree
-- for the invariant of the table, Ramfs.Lookup for paths after a creation. Base holds what the
-- components share: Boolean tests, arrays over the native numbers, bits and signed integers.
--
-- In Ramfs a path is its text, the bytes before the end mark. Its copy in `temp[256]` is the text
-- cut at 255 bytes, the tokens of `strtok` are the components of the text, and `strcmp` is
-- `text_eq`: CString relates these to the code of libc/string. A file handle is the number of an
-- inode, and `none` stands for -1 and for `NULL`.
--
-- Machine integers: page counts, file sizes and offsets are 32 bits wide, with the wrap-around
-- written out; bytes are numbers below 256. Loops are structural recursion on the number of rounds
-- left or on the list that is walked. The fuel of `tokens` is the number of calls of `strtok`:
-- more than the bytes of the path is enough. That of `printf` is the number of rounds, one more
-- than the bytes of the format, of which each round takes at least one. In Heap the loops over the
-- list take a number of rounds: one more than there are blocks is enough.
--
-- Parameters: the ports of the machine, with the laws of the mask registers of its interrupt
-- controllers in a state in which both are initialised; the headers that the bytes of a newly
-- mapped page of the heap read as; the allocator of `ramfs_write`, an interface with the law that
-- a buffer of less than 2 ^ 27 bytes has the size that was asked for, which Heap.Buffers fills
-- with `malloc` of the heap; what the heap does for the nodes of Vfs, whether it has memory and
-- what a member that is not written holds; and the operations of the file systems that Vfs calls.
--
-- Not modelled: the boot code, which calls the initialisations one after the other; assembly and
-- single port instructions have no model of the machine to stand on.
pub mod Base
pub mod Pmm
pub mod CString
pub mod Ramfs
pub mod Keyboard
pub mod Tty
pub mod Vfs
pub mod Printf
pub mod Vmm
pub mod Heap
pub mod Descriptors
pub mod Interrupts
pub mod Serial
pub mod Console
