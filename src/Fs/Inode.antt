-- ===== src/Fs/Inode.antt =====
-- xv6/fs.c: inodes on the disk and in memory, and the blocks that hold their content. An `int` field or a
-- `short` one is its bits.
pub mod Slots
pub mod Map
pub mod Bmap
pub mod Table
pub mod Dinode
use laboratorio_ramiro.Args.{word_at}
use laboratorio_ramiro.Prelude.{
  true, leb, zero, suc, some, if◌then◌else◌, ◌+◌, Bool, Option, ◌*◌, ◌-◌, ◌==◌, ◌/◌, none, ℕ, ltb,
  ◌%◌,
}
use laboratorio_ramiro.CString.{store, Memory}
use laboratorio_ramiro.Fs.{put_block, balloc, Disk, Super}

-- `struct inode`, less its sleep lock.
pub record Inode : Type 0 where
  pub dev : ℕ
  pub inum : ℕ
  pub ref : ℕ
  pub valid : Bool
  pub type : ℕ
  pub major : ℕ
  pub minor : ℕ
  pub nlink : ℕ
  pub size : ℕ
  pub addrs : ℕ → ℕ

abbrev pub ndirect : ℕ
ndirect = 12

abbrev pub nindirect : ℕ
nindirect = 128

abbrev pub maxfile : ℕ
maxfile = 140

abbrev pub set_addr : Inode → ℕ → ℕ → Inode
set_addr ip i a = record ip { addrs = λ j. if j == i then a else ip.addrs j }

unfoldable pub store_word : Memory → ℕ → ℕ → Memory
store_word m a w =
    store (store (store (store m a (w % 256)) (a + 1) (w / 256 % 256)) (a + 2) (w / 65536 % 256))
      (a + 3) (w / 16777216 % 256)

-- `if((addr = a) == 0) … addr = balloc(dev)`
unfoldable pub or_balloc : Super → ℕ → Disk → Option (ℕ × Disk)
or_balloc sb a d = if a == 0 then balloc sb d else some (a, d)

-- The block `j` of the table in block `t`. The table is written only if the block is new.
unfoldable pub bmap_table : Super → ℕ → ℕ → Disk → Option (ℕ × Disk)
unfolding or_balloc store_word
bmap_table sb t j d = elim (or_balloc sb (word_at (d t) (4 * j)) d) [
  | none ↦ none
  | some (a, d1) ↦
      some
        (a, if word_at (d t) (4 * j) == 0 then put_block d1 t (store_word (d1 t) (4 * j) a) else d1)
]

-- A write to `addrs` of what it holds already stands for none.
unfoldable pub bmap : Super → Inode → ℕ → Disk → Option (ℕ × Inode × Disk)
unfolding or_balloc bmap_table
bmap sb ip bn d =
    if ltb bn ndirect
    then elim (or_balloc sb (ip.addrs bn) d) [
      | none ↦ none
      | some (a, d1) ↦ some (a, set_addr ip bn a, d1)
    ]
    else if ltb (bn - ndirect) nindirect
    then elim (or_balloc sb (ip.addrs ndirect) d) [
      | none ↦ none
      | some (t, d1) ↦ elim (bmap_table sb t (bn - ndirect) d1) [
        | none ↦ none
        | some (a, d2) ↦ some (a, set_addr ip ndirect t, d2)
      ]
    ]
    else none

-- Where the inode lies on the disk: eight to a block, of 64 bytes.
abbrev pub iblock : Super → ℕ → ℕ
iblock sb i = i / 8 + sb.inodestart

abbrev pub half_at : Memory → ℕ → ℕ
half_at m a = m a + m (a + 1) * 256

unfoldable pub store_half : Memory → ℕ → ℕ → Memory
store_half m a h = store (store m a (h % 256)) (a + 1) (h / 256 % 256)

-- `memmove` of the first `n` addresses.
unfoldable pub store_addrs : Memory → ℕ → (ℕ → ℕ) → ℕ → Memory
store_addrs m a f zero = m
store_addrs m a f (suc n) = store_word (store_addrs m a f n) (a + 4 * n) (f n)

unfoldable pub store_dinode : Memory → ℕ → Inode → Memory
store_dinode m a ip =
    let m1 = store_half (store_half m a ip.type) (a + 2) ip.major in
    let m2 = store_half (store_half m1 (a + 4) ip.minor) (a + 6) ip.nlink in
    store_addrs (store_word m2 (a + 8) ip.size) (a + 12) ip.addrs (ndirect + 1)

unfoldable pub iupdate : Super → Inode → Disk → Disk
iupdate sb ip d =
    let b = iblock sb ip.inum in put_block d b (store_dinode (d b) (ip.inum % 8 * 64) ip)

unfoldable pub load_dinode : Memory → ℕ → Inode → Inode
load_dinode m a ip = record ip {
  type = half_at m a;
  major = half_at m (a + 2);
  minor = half_at m (a + 4);
  nlink = half_at m (a + 6);
  size = word_at m (a + 8);
  addrs = λ k. if leb k ndirect then word_at m (a + 12 + 4 * k) else ip.addrs k;
}

-- What `ilock` does once it has the sleep lock.
unfoldable pub ilock : Super → Disk → Inode → Option Inode
unfolding load_dinode
ilock sb d ip =
    let loaded = load_dinode (d (iblock sb ip.inum)) (ip.inum % 8 * 64) ip in
    let locked : Option Inode =
      if loaded.type == 0 then none else some (record loaded { valid = true }) in
    if ltb ip.ref 1 then none else if ip.valid then some ip else locked
