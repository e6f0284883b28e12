-- ===== src/Fs/Namex.antt =====
-- xv6/fs.c: the walk along a path, `namex`. The sleep locks are left out. `none` is a panic; a result is the
-- place of the inode, or none, with the name, the cache and the disk.
pub mod Keeps
pub mod Balance
pub mod Fuel
mod Tests
use laboratorio_ramiro.CString.{Memory}
use laboratorio_ramiro.Fs.{Disk, Super}
use laboratorio_ramiro.Fs.Inode.{ilock, Inode}
use laboratorio_ramiro.Fs.Icache.{Icache, iget, idup, iput, put_inode}
use laboratorio_ramiro.Fs.Dir.{dirlookup, t_dir}
use laboratorio_ramiro.Fs.Path.{skipelem, slash}
use laboratorio_ramiro.Prelude.{
  ltb, zero, none, length, Option, if◌then◌else◌, [], ◌==◌, Bool, ◌-◌, true, ◌∷◌, suc, false, List,
  get_or, ◌&&◌, some, not, ℕ,
}

abbrev pub rootdev : ℕ
rootdev = 1

abbrev pub rootino : ℕ
rootino = 1

abbrev pub Walked : Type 0
Walked = Option (Option ℕ × Memory × Icache × Disk)

-- The memory of a call of `dirlookup`, with the name behind its `struct dirent`, which is read from the
-- disk before it is looked at.
abbrev pub with_name : Memory → Memory
with_name name = λ i. if ltb i 16 then 0 else name (i - 16)

-- Reading a directory can give it new blocks.
abbrev pub write_back : Icache → ℕ → Inode → Icache
write_back c i dp = put_inode c i (record (c i) { addrs = dp.addrs })

-- `iunlockput(ip); return 0`
unfoldable pub give_up : Super → ℕ → Memory → Icache → Disk → Walked
give_up sb i name c d = elim (iput sb i c d) [
  | none ↦ none
  | some (c1, d1) ↦ some (none, name, c1, d1)
]

-- `iunlockput(ip); ip = next`, and on along `rest` with `go`.
unfoldable pub go_on :
    Super
    → (List ℕ → ℕ → Memory → Icache → Disk → Walked)
    → List ℕ
    → ℕ
    → ℕ
    → Memory
    → Icache
    → Disk
    → Walked
go_on sb go rest i next name c d = elim (iput sb i c d) [
  | none ↦ none
  | some (c1, d1) ↦ go rest next name c1 d1
]

unfoldable pub go_down :
    Super
    → (ℕ → Bool)
    → (List ℕ → ℕ → Memory → Icache → Disk → Walked)
    → List ℕ
    → ℕ
    → Memory
    → Icache
    → Disk
    → Walked
unfolding go_on give_up
go_down sb has_read go rest i name c d =
    elim (dirlookup sb has_read (c i) 16 (with_name name) c d) [
      | none ↦ none
      | some (none, m, dp, d1) ↦ give_up sb i name (write_back c i dp) d1
      | some (some (off, next, c1), m, dp, d1) ↦
          go_on sb go rest i next name (write_back c1 i dp) d1
    ]

abbrev pub is_nil : List ℕ → Bool
is_nil [] = true
is_nil (x ∷ xs) = false

-- The body of the loop, once `ip` is locked, with the path behind the name.
unfoldable pub visit :
    Super
    → (ℕ → Bool)
    → Bool
    → (List ℕ → ℕ → Memory → Icache → Disk → Walked)
    → List ℕ
    → ℕ
    → Memory
    → Icache
    → Disk
    → Walked
unfolding go_down give_up
visit sb has_read parent go rest i name c d =
    if not ((c i).type == t_dir)
    then give_up sb i name c d
    else if parent && is_nil rest
    then some (some i, name, c, d)
    else go_down sb has_read go rest i name c d

-- Behind the loop.
unfoldable pub arrive : Super → Bool → ℕ → Memory → Icache → Disk → Walked
unfolding give_up
arrive sb parent i name c d = if parent then give_up sb i name c d else some (some i, name, c, d)

unfoldable pub round :
    Super
    → (ℕ → Bool)
    → Bool
    → (List ℕ → ℕ → Memory → Icache → Disk → Walked)
    → List ℕ
    → ℕ
    → Memory
    → Icache
    → Disk
    → Walked
unfolding visit arrive
round sb has_read parent go path i name c d = elim (skipelem path name) [
  | none ↦ arrive sb parent i name c d
  | some (rest, name1) ↦ elim (ilock sb d (c i)) [
    | none ↦ none
    | some ip ↦ visit sb has_read parent go rest i name1 (put_inode c i ip) d
  ]
]

-- The loop, with `n` rounds to go.
unfoldable pub walk : Super → (ℕ → Bool) → Bool → ℕ → List ℕ → ℕ → Memory → Icache → Disk → Walked
unfolding round
walk sb has_read parent zero path i name c d = none
walk sb has_read parent (suc n) path i name c d =
    round sb has_read parent (λ p j m b e. walk sb has_read parent n p j m b e) path i name c d

-- A round takes a byte of the path at least. `cwd` is the current directory's place.
unfoldable pub namex : Super → (ℕ → Bool) → Bool → ℕ → List ℕ → Memory → Icache → Disk → Walked
unfolding walk
namex sb has_read parent cwd path name c d =
    let rooted : Walked = elim (iget rootdev rootino c) [
      | none ↦ none
      | some (i, c1) ↦ walk sb has_read parent (suc (length path)) path i name c1 d
    ] in
    let relative : Walked =
      walk sb has_read parent (suc (length path)) path cwd name (idup cwd c) d in
    if get_or path 0 0 == slash then rooted else relative
