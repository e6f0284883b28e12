-- ===== src/Fs.antt =====
-- xv6/fs.c: the blocks of files. `Disk` is the blocks as the code sees them through `bread`, within one
-- transaction: a block that is changed is handed to `log_write`, which keeps it. A block is its 512 bytes, a
-- function from their places; a word of it is four bytes, the lowest first. One device, with the super
-- block `sb`. `none` is a panic. An inode is taken as locked, and its fields as read from the disk.
pub mod Bits
pub mod Bitmap
pub mod Alloc
pub mod Inode
pub mod Content
pub mod Icache
pub mod Dir
pub mod Path
pub mod Namex
mod Tests
use Prim.Native.Nat.{bit_and, bit_or}
use laboratorio_ramiro.Prelude.{
  ◌/◌, suc, ◌-◌, ◌^◌, Bool, ◌+◌, Option, if◌then◌else◌, ltb, ℕ, ◌==◌, none, not, ◌%◌, some, zero,
}
use laboratorio_ramiro.CString.{store, Memory}

abbrev pub Disk : Type 0
Disk = ℕ → Memory

abbrev pub put_block : Disk → ℕ → Memory → Disk
put_block d b m = λ x. if x == b then m else d x

pub record Super : Type 0 where
  pub size : ℕ
  pub nblocks : ℕ
  pub ninodes : ℕ
  pub nlog : ℕ
  pub logstart : ℕ
  pub inodestart : ℕ
  pub bmapstart : ℕ

-- Bytes and map bits of a block.
abbrev pub block_size : ℕ
block_size = 512

abbrev pub bpb : ℕ
bpb = 4096

abbrev pub bblock : Super → ℕ → ℕ
bblock sb b = b / bpb + sb.bmapstart

-- The bits of the map: `data[bi/8] & m`, `data[bi/8] |= m` and `data[bi/8] &= ~m`, with `m = 1 << (bi % 8)`.
abbrev pub has_bit : ℕ → ℕ → Bool
has_bit x k = not (bit_and x (2 ^ k) == 0)

abbrev pub set_bit : ℕ → ℕ → ℕ
set_bit x k = bit_or x (2 ^ k)

abbrev pub clear_bit : ℕ → ℕ → ℕ
clear_bit x k = bit_and x (255 - 2 ^ k)

unfoldable pub is_set : Memory → ℕ → Bool
is_set m bi = has_bit (m (bi / 8)) (bi % 8)

unfoldable pub mark : Memory → ℕ → Memory
mark m bi = store m (bi / 8) (set_bit (m (bi / 8)) (bi % 8))

unfoldable pub unmark : Memory → ℕ → Memory
unmark m bi = store m (bi / 8) (clear_bit (m (bi / 8)) (bi % 8))

unfoldable pub bzero : ℕ → Disk → Disk
bzero b d = put_block d b (λ i. 0)

-- The inner loop of `balloc`, with `n` rounds to go.
unfoldable pub find_bit : Super → Memory → ℕ → ℕ → ℕ → Option ℕ
find_bit sb m b zero bi = none
find_bit sb m b (suc n) bi =
    let rest = find_bit sb m b n (bi + 1) in
    if ltb (b + bi) sb.size then if is_set m bi then rest else some bi else none

-- A round of the outer loop that has found bit `bi`.
unfoldable pub take_block : Super → ℕ → ℕ → Disk → Disk
unfolding bzero
take_block sb b bi d = bzero (b + bi) (put_block d (bblock sb b) (mark (d (bblock sb b)) bi))

-- The outer loop from block `b` on. A round steps by `bpb` blocks, so `size` rounds are enough.
unfoldable pub balloc_from : Super → ℕ → ℕ → Disk → Option (ℕ × Disk)
balloc_from sb zero b d = none
balloc_from sb (suc n) b d =
    let rest = balloc_from sb n (b + bpb) d in
    let found = find_bit sb (d (bblock sb b)) b bpb 0 in
    let here : Option (ℕ × Disk) = elim found [
      | none ↦ rest
      | some bi ↦ some (b + bi, take_block sb b bi d)
    ] in
    if ltb b sb.size then here else none

unfoldable pub balloc : Super → Disk → Option (ℕ × Disk)
unfolding balloc_from
balloc sb d = balloc_from sb sb.size 0 d

unfoldable pub bfree : Super → ℕ → Disk → Option Disk
bfree sb b d =
    let m = d (bblock sb b) in
    if is_set m (b % bpb) then some (put_block d (bblock sb b) (unmark m (b % bpb))) else none
