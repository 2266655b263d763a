-- ===== src/Vfs/Tests.antt =====
-- vfs.c on small mount tables, and the theorems at them.
use Prim.Native.Char.{code}
use Prim.Native.String.{String}
use mathlib.Core.Option.{some_inj}
use veni.Base.{
  ◌≤◌, ap, length-replicate, ℕ, zero, suc, ◌<◌, ◌≡◌, ◌≢◌, ◌⊎◌, refl, true, List, [], ◌∷◌, some,
  none, arith, get_or, length, replicate, update,
}
use veni.CString.Text.{Text, IsText, starts_with, text_eq, text_eq→ne}
use veni.Vfs.{
  Mount, Vfs, zero_mount, zero_file, is_better, find_from, find_mount, vfs_mount, vfs_unmount,
  unused_file, alloc_found, alloc_fd,
}
use veni.Vfs.Mounts.{Uncovered, IsLongest, find_mount-IsLongest}
use veni.Vfs.Unmount.{vfs_unmount-vfs_mount}
use veni.Ramfs.{Inodes, zero_inode, ramfs_init, ramfs_mkdir, ramfs_rmdir, ramfs_stat}
use veni.Ramfs.File.{Allocator}
use veni.Vfs.Calls.{ramfs, rel_path, target, vfs_mkdir, vfs_rmdir, vfs_stat}
use veni.Vfs.Dispatch.{Reaches, target-Reaches, rooted-ramfs}

abbrev text : String → Text
text String.[] = []
text (String.◌∷◌ c s) = code c ∷ text s

abbrev table : List Mount
table =
    record { mount_path = text "/"; node = 1; fs = 1 }
    ∷ record { mount_path = text "/mnt"; node = 2; fs = 2 }
    ∷ record { mount_path = text "/mnt/usb"; node = 3; fs = 3 }
    ∷ []

choices :
    (find_mount table (text "/mnt/usb/a") ≡ some 2)
    × (find_mount table (text "/mnt/us") ≡ some 1)
    × (find_mount table (text "/mntx") ≡ some 0)
    × (find_mount table (text "mnt") ≡ none)
unfolding find_mount find_from is_better starts_with text_eq
choices = (refl, refl, refl, refl)

abbrev system : Vfs
system = record { mounts = table; files = replicate 64 zero_file }

below-IsText : IsText (text "/mnt/usb/a")
below-IsText = omega arith

find_mount-IsLongest_example :
    ((find_mount table (text "/mnt/usb/a") ≡ none) × Uncovered table (text "/mnt/usb/a"))
    ⊎ ((i : ℕ) × (find_mount table (text "/mnt/usb/a") ≡ some i)
        × IsLongest table (text "/mnt/usb/a") i)
find_mount-IsLongest_example = find_mount-IsLongest table (text "/mnt/usb/a") below-IsText

fresh :
    (j : ℕ)
    → j < length system.mounts
    → (get_or system.mounts j zero_mount).mount_path ≢ text "/tmp"
unfolding text_eq
fresh zero lt = text_eq→ne (text "/") (text "/tmp") refl
fresh (suc zero) lt = text_eq→ne (text "/mnt") (text "/tmp") refl
fresh (suc (suc zero)) lt = text_eq→ne (text "/mnt/usb") (text "/tmp") refl
fresh (suc (suc (suc j))) lt = absurd (omega arith)

vfs_unmount-vfs_mount_example :
    ((vfs_mount system (some 4) 4 (text "/tmp")).0 ≡ true)
    × (vfs_unmount (vfs_mount system (some 4) 4 (text "/tmp")).1 (text "/tmp") ≡ (true, system))
vfs_unmount-vfs_mount_example =
    vfs_unmount-vfs_mount system 4 4 (text "/tmp") (omega arith) (omega arith) (omega arith) fresh

first_open : Vfs
unfolding alloc_fd alloc_found unused_file
first_open = (alloc_fd system).1

first_open_lem : alloc_fd system ≡ (some 0, first_open)
unfolding first_open
first_open_lem = refl

target-Reaches_example :
    ((target system (some (text "/mnt/usb/a")) ≡ none) × Uncovered table (text "/mnt/usb/a"))
    ⊎ ((i : ℕ) × (fs : ℕ) × (rel : Text) × (target system (some (text "/mnt/usb/a"))
          ≡ some (fs, rel))
        × Reaches system (text "/mnt/usb/a") i fs rel)
target-Reaches_example = target-Reaches system (text "/mnt/usb/a") below-IsText refl

reached :
    (target system (some (text "/mnt/usb/a")) ≡ some (3, text "a"))
    × (target system (some (text "/mntx")) ≡ some (1, text "mntx"))
    × (target system (some (text "mnt")) ≡ none)
unfolding target rel_path find_mount find_from is_better starts_with text_eq
reached = (refl, refl, refl)

abbrev only_root : Vfs
only_root = record {
  mounts = record { mount_path = text "/"; node = 1; fs = 0 } ∷ [];
  files = replicate 64 zero_file;
}

abbrev disks : ℕ → Inodes
disks fs = ramfs_init (replicate 64 zero_inode)

zeros_size : (n : ℕ) (b : List ℕ) → some (replicate n 0) ≡ some b → n ≤ length b
zeros_size n b e = omega (arith, length-replicate {A = ℕ} n 0, ap length (some_inj.0 e))

abbrev zeros : Allocator
zeros = record { malloc = λ n. some (replicate n 0); malloc_size = λ n b small e. zeros_size n b e }

rooted-ramfs_example :
    (vfs_mkdir (λ _. ramfs zeros) only_root disks (some (text "/home")) ≡ (
      (ramfs_mkdir (disks 0) (some (text "home"))).0,
      update disks 0 (ramfs_mkdir (disks 0) (some (text "home"))).1,
    ))
    × (vfs_rmdir (λ _. ramfs zeros) only_root disks (some (text "/home")) ≡ (
      (ramfs_rmdir (disks 0) (text "home")).0,
      update disks 0 (ramfs_rmdir (disks 0) (text "home")).1,
    ))
    × (vfs_stat (λ _. ramfs zeros) only_root disks (some (text "/home"))
        ≡ ramfs_stat (disks 0) (some (text "home")))
rooted-ramfs_example = rooted-ramfs only_root 1 0 (text "home") refl refl disks zeros
