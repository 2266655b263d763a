-- ===== src/Vfs/Transfer.antt =====
-- `vfs_write`, `vfs_lseek` and `vfs_read` of vfs.c on a file of the RAM file system.
use veni.Base.{ℕ, ◌+◌, ◌≡◌, ◌⊎◌, none, List, take}
use veni.Ramfs.{Inodes}
use veni.Ramfs.File.{Allocator}
use veni.Vfs.{Vfs, File, file, vfs_lseek}
use veni.Vfs.Calls.{ramfs}
use veni.Vfs.Nodes.{World}
use veni.Vfs.Io.{node_of, vfs_read}

-- The state with a descriptor moved to an offset.
abbrev pub rewound : {S : Type 0} → World S → (fd offset : ℕ) → World S
rewound w fd offset = record w { vfs = (vfs_lseek w.vfs fd offset).1 }

-- What `vfs_write` can do to an open file: it writes all, and the descriptor, moved back, reads what
-- was written; or the buffer had to grow and there was no memory, and the file and the offset stay.
abbrev pub WriteSeen :
    Allocator → World Inodes → (fd : ℕ) (buf : List ℕ) (size k : ℕ) → World Inodes → Type 0
WriteSeen a w fd buf size k w' =
    let at = (file w.vfs fd).offset in
    ((k ≡ size)
      × ((file w'.vfs fd).offset ≡ at + size)
      × ((vfs_read (λ _. ramfs a) (rewound w' fd at) fd size).0.copied ≡ take size buf))
    ⊎ ((k ≡ 0)
        × (a.malloc (at + size) ≡ none)
        × ((file w'.vfs fd).offset ≡ at)
        × (w'.states (node_of w fd).fs ≡ w.states (node_of w fd).fs))

module _ (a : Allocator) (w : World Inodes) (fd : ℕ) (buf : List ℕ) (size : ℕ) where
  at : ℕ
  at = (file w.vfs fd).offset

  fs : ℕ
  fs = (node_of w fd).fs
