-- ===== src/Fs/Dir.antt =====
-- xv6/fs.c: directories, `namecmp` and `dirlookup`. The memory `m` of a call has its `struct dirent` at
-- address 0, and the name that it is given behind it. `none` is a panic.
pub mod Names
pub mod Lookup
pub mod Loop
pub mod First
pub mod Tests
use laboratorio_ramiro.Prelude.{
  Bool, ◌==◌, false, Option, ◌+◌, none, some, zero, ltb, suc, not, true, ◌||◌, if◌then◌else◌, ℕ,
}
use laboratorio_ramiro.CString.{strncmp, Memory}
use laboratorio_ramiro.Fs.{Disk, Super}
use laboratorio_ramiro.Fs.Inode.{half_at, Inode}
use laboratorio_ramiro.Fs.Content.{readi, moved}
use laboratorio_ramiro.Fs.Icache.{Icache, iget}

abbrev pub dirsiz : ℕ
dirsiz = 14

-- `sizeof(struct dirent)`
abbrev pub dirent_size : ℕ
dirent_size = 16

abbrev pub t_dir : ℕ
t_dir = 1

unfoldable pub namecmp : Memory → ℕ → ℕ → Option (ℕ × ℕ)
namecmp m s t = strncmp m s t dirsiz

-- Whether the difference of two bytes, or no difference, is 0.
abbrev pub is_equal : Option (ℕ × ℕ) → Bool
is_equal none = true
is_equal (some (u, v)) = u == v

-- What the loop of `dirlookup` ends with: an entry's offset and its inode's number, or none.
pub data Looked : Type 0 where
  panics_there : Looked
  missing : Memory → Inode → Disk → Looked
  entry : ℕ → ℕ → Memory → Inode → Disk → Looked

-- The loop at offset `off`. A round steps by an entry, so as many rounds as the directory has bytes are enough.
unfoldable pub look_from : Super → (ℕ → Bool) → ℕ → ℕ → ℕ → Memory → Inode → Disk → Looked
unfolding namecmp
look_from sb has_read name zero off m dp d = missing m dp d
look_from sb has_read name (suc n) off m dp d = elim (ltb off dp.size) [
  | false ↦ missing m dp d
  | true ↦ elim (readi sb has_read dp m off dirent_size d) [
    | moved k (m1, dp1, d1) ↦ elim (k == dirent_size) [
      | false ↦ panics_there
      | true ↦ elim (half_at m1 0 == 0 || not (is_equal (namecmp m1 name 2))) [
        | true ↦ look_from sb has_read name n (off + dirent_size) m1 dp1 d1
        | false ↦ entry off (half_at m1 0) m1 dp1 d1
      ]
    ]
    | _ ↦ panics_there
  ]
]

-- `iget` of the entry's inode, with the offset for `poff`. The device of a directory does not change.
unfoldable pub get_entry :
    Inode → Icache → Looked → Option (Option (ℕ × ℕ × Icache) × Memory × Inode × Disk)
get_entry dp c panics_there = none
get_entry dp c (missing m1 dp1 d1) = some (none, m1, dp1, d1)
get_entry dp c (entry off inum m1 dp1 d1) = elim (iget dp.dev inum c) [
  | none ↦ none
  | some (i, c1) ↦ some (some (off, i, c1), m1, dp1, d1)
]

unfoldable pub dirlookup :
    Super
    → (ℕ → Bool)
    → Inode
    → ℕ
    → Memory
    → Icache
    → Disk
    → Option (Option (ℕ × ℕ × Icache) × Memory × Inode × Disk)
unfolding look_from get_entry
dirlookup sb has_read dp name m c d =
    if dp.type == t_dir then get_entry dp c (look_from sb has_read name dp.size 0 m dp d) else none
