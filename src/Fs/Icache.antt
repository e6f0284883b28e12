-- ===== src/Fs/Icache.antt =====
-- xv6/fs.c: the cache of inodes and the allocation of inodes, `ialloc`, `iget`, `idup` and `iput`. A pointer
-- to an inode is its place in the cache. `none` is a panic. What runs under `icache.lock` is one step; the
-- sleep lock of an inode is left out.
pub mod Scan
pub mod Counts
pub mod Put
pub mod Fresh
mod Tests
use laboratorio_ramiro.Prelude.{
  Bool, ◌+◌, ◌-◌, none, some, zero, suc, ◌%◌, Option, if◌then◌else◌, ltb, ℕ, ◌==◌, ◌&&◌, ◌*◌, false,
}
use laboratorio_ramiro.CString.{memset, Memory}
use laboratorio_ramiro.Fs.{Disk, Super, put_block}
use laboratorio_ramiro.Fs.Content.{itrunc}
use laboratorio_ramiro.Fs.Inode.{half_at, iblock, iupdate, Inode, store_half}

abbrev pub ninode : ℕ
ninode = 50

-- `icache.inode`: the places below `ninode`.
abbrev pub Icache : Type 0
Icache = ℕ → Inode

abbrev pub put_inode : Icache → ℕ → Inode → Icache
put_inode c i ip = λ j. if j == i then ip else c j

abbrev pub is_cached : ℕ → ℕ → Inode → Bool
is_cached dev inum ip = ltb 0 ip.ref && (ip.dev == dev && ip.inum == inum)

-- What the loop of `iget` ends with: the place of the inode, or the first free place.
pub data Scanned : Type 0 where
  cached : ℕ → Scanned
  absent : Option ℕ → Scanned

abbrev pub remember : Icache → ℕ → Option ℕ → Option ℕ
remember c i none = if (c i).ref == 0 then some i else none
remember c i (some k) = some k

-- The loop at place `i`, with `n` rounds to go.
unfoldable pub iget_scan : Icache → ℕ → ℕ → ℕ → ℕ → Option ℕ → Scanned
iget_scan c dev inum zero i empty = absent empty
iget_scan c dev inum (suc n) i empty =
    let rest = iget_scan c dev inum n (i + 1) (remember c i empty) in
    if is_cached dev inum (c i) then cached i else rest

abbrev pub recycled : ℕ → ℕ → Inode → Inode
recycled dev inum ip = record ip { dev = dev; inum = inum; ref = 1; valid = false }

unfoldable pub idup : ℕ → Icache → Icache
idup i c = put_inode c i (record (c i) { ref = (c i).ref + 1 })

unfoldable pub iget_with : Scanned → ℕ → ℕ → Icache → Option (ℕ × Icache)
unfolding idup
iget_with (cached i) dev inum c = some (i, idup i c)
iget_with (absent none) dev inum c = none
iget_with (absent (some i)) dev inum c = some (i, put_inode c i (recycled dev inum (c i)))

unfoldable pub iget : ℕ → ℕ → Icache → Option (ℕ × Icache)
unfolding iget_with iget_scan
iget dev inum c = iget_with (iget_scan c dev inum ninode 0 none) dev inum c

-- `dip->type` of inode `inum` on the disk.
abbrev pub disk_type : Super → Disk → ℕ → ℕ
disk_type sb d inum = half_at (d (iblock sb inum)) (inum % 8 * 64)

unfoldable pub mark_inode : Super → ℕ → ℕ → Disk → Disk
mark_inode sb type inum d =
    let b = iblock sb inum in
    let a = inum % 8 * 64 in put_block d b (store_half (memset (d b) a 0 64) a type)

-- The loop of `ialloc` from number `inum` on; as many rounds as there are numbers are enough.
unfoldable pub ialloc_from : Super → ℕ → ℕ → ℕ → Disk → Option (ℕ × Disk)
ialloc_from sb type zero inum d = none
ialloc_from sb type (suc n) inum d =
    let rest = ialloc_from sb type n (inum + 1) d in
    let here : Option (ℕ × Disk) =
      if disk_type sb d inum == 0 then some (inum, mark_inode sb type inum d) else rest in
    if ltb inum sb.ninodes then here else none

unfoldable pub ialloc : Super → ℕ → ℕ → Icache → Disk → Option (ℕ × Icache × Disk)
unfolding ialloc_from iget
ialloc sb dev type c d = elim (ialloc_from sb type sb.ninodes 1 d) [
  | none ↦ none
  | some (inum, d1) ↦ elim (iget dev inum c) [ none ↦ none | some (i, c1) ↦ some (i, c1, d1) ]
]

-- The freeing of an inode on the disk, and of its content.
unfoldable pub ifree : Super → Inode → Disk → Option (Inode × Disk)
ifree sb ip d = elim (itrunc sb ip d) [
  | none ↦ none
  | some (ip1, d1) ↦
      some (record ip1 { type = 0; valid = false }, iupdate sb (record ip1 { type = 0 }) d1)
]

-- `iput` up to the sleep lock's release.
unfoldable pub iput_free : Super → ℕ → Icache → Disk → Option (Icache × Disk)
unfolding ifree
iput_free sb i c d =
    let freed : Option (Icache × Disk) = elim (ifree sb (c i) d) [
      | none ↦ none
      | some (ip, d1) ↦ some (put_inode c i ip, d1)
    ] in
    if (c i).valid && ((c i).nlink == 0 && (c i).ref == 1) then freed else some (c, d)

-- And the rest of it.
unfoldable pub iput_drop : ℕ → Icache → Icache
iput_drop i c = put_inode c i (record (c i) { ref = (c i).ref - 1 })

unfoldable pub iput : Super → ℕ → Icache → Disk → Option (Icache × Disk)
unfolding iput_free iput_drop
iput sb i c d = elim (iput_free sb i c d) [
  | none ↦ none
  | some (c1, d1) ↦ some (iput_drop i c1, d1)
]
