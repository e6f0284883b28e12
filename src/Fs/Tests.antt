-- ===== src/Fs/Tests.antt =====
-- Files at concrete inputs, and the theorems there.
use laboratorio_ramiro.CString.{Memory}
use laboratorio_ramiro.Prelude.{
  some, none, false, ◌==◌, refl, ◌≡◌, arith, ℕ, suc, true, ◌%◌, ◌<◌, zero, if◌then◌else◌, ◌+◌, ◌&&◌,
}
use laboratorio_ramiro.Fs.{
  mark, bzero, take_block, find_bit, balloc_from, balloc, is_set, Disk, Super,
}
use laboratorio_ramiro.Fs.Alloc.{is_used, IsDisk}
use laboratorio_ramiro.Fs.Inode.{
  iupdate, ilock, maxfile, store_word, iblock, bmap_table, or_balloc, bmap, Inode,
}
use laboratorio_ramiro.Fs.Inode.Slots.{IsFile, slot}
use laboratorio_ramiro.Fs.Bitmap.{AreBytes}
use laboratorio_ramiro.Fs.Content.{read_from, itrunc, readi, grow, moved, write_from, writei, Io}
use laboratorio_ramiro.Fs.Content.Whole.{writei-Writes, Writes}
use laboratorio_ramiro.Fs.Content.RoundTrip.{readi-writei}
use laboratorio_ramiro.Fs.Inode.Dinode.{ilock-iupdate, SameFile, FitsDisk}
use laboratorio_ramiro.Fs.Content.Itrunc.{itrunc-IsTruncated, IsTruncated}
use laboratorio_ramiro.Fs.Inode.Map.{IsMapped}
use laboratorio_ramiro.Fs.Inode.Table.{bmap-IsMapped}

-- A disk of 64 blocks: inodes in block 2, the map in block 3, and no data yet.
abbrev pub sb : Super
sb = record {
  size = 64;
  nblocks = 60;
  ninodes = 8;
  nlog = 0;
  logstart = 2;
  inodestart = 2;
  bmapstart = 3;
}

unfoldable pub bare : Disk
bare b i = if b == 3 && i == 0 then 15 else 0

reserved : (b : ℕ) → b < 4 → is_used sb bare b ≡ true
unfolding is_set bare
reserved zero l = refl
reserved (suc zero) l = refl
reserved (suc (suc zero)) l = refl
reserved (suc (suc (suc zero))) l = refl
reserved (suc (suc (suc (suc b)))) l = absurd (omega arith)

pub bare-IsDisk : IsDisk sb bare
unfolding bare
bare-IsDisk = record {
  bytes = λ b i. ground arith;
  reserved = λ b l. reserved b l;
  room = omega arith;
  small = omega arith;
}

abbrev pub node : Inode
node = record {
  dev = 1;
  inum = 1;
  ref = 1;
  valid = true;
  type = 2;
  major = 0;
  minor = 0;
  nlink = 1;
  size = 0;
  addrs = λ k. 0;
}

no_slot : (k : ℕ) → slot bare node k ≡ 0
unfolding slot
no_slot k = ground arith

pub node-IsFile : IsFile sb bare node
node-IsFile = record {
  mine = λ k l nz. absurd (nz (no_slot k));
  table = λ nz. absurd (nz refl);
  distinct = λ i j li lj nz e. absurd (nz (no_slot i));
  apart = λ k l nz e. absurd (nz (no_slot k));
}

-- "abc"
abbrev pub text : Memory
text i = 97 + i % 3

text-AreBytes : AreBytes text
text-AreBytes i = omega arith

abbrev result : Io (Inode × Disk) → Inode × Disk
result (moved k r) = r
result _ = (node, bare)

unfoldable pub written : Inode × Disk
unfolding writei
written = result (writei sb (λ m. true) node text 0 3 bare)

write_done : writei sb (λ m. true) node text 0 3 bare ≡ moved 3 (written.0, written.1)
unfolding written writei write_from bmap or_balloc bmap_table balloc balloc_from find_bit is_set
    bare take_block bzero mark grow
write_done = refl

inode_low : iblock sb node.inum < sb.bmapstart
inode_low = omega arith

writei-Writes_example : (◌≡◌ {A = ℕ} 3 3) × Writes sb text 0 3 node bare written.0 written.1
writei-Writes_example =
    writei-Writes sb (λ m. true) node text 0 3 bare bare-IsDisk node-IsFile text-AreBytes inode_low
      write_done

pub written_ok : Writes sb text 0 3 node bare written.0 written.1
written_ok =
    (writei-Writes sb (λ m. true) node text 0 3 bare bare-IsDisk node-IsFile text-AreBytes inode_low
      write_done).1

zeros : Memory
zeros i = 0

abbrev read_result : Io (Memory × Inode × Disk) → Memory × Inode × Disk
read_result (moved k r) = r
read_result _ = (zeros, node, bare)

was_read : Memory × Inode × Disk
unfolding readi
was_read = read_result (readi sb (λ m. true) written.0 zeros 0 3 written.1)

read_done :
    readi sb (λ m. true) written.0 zeros 0 3 written.1
    ≡ moved 3 (was_read.0, was_read.1, was_read.2)
unfolding was_read written readi read_from writei write_from bmap or_balloc bmap_table balloc
    balloc_from find_bit is_set bare take_block bzero mark grow
read_done = refl

readi-writei_example : (◌≡◌ {A = ℕ} 3 3) × ((i : ℕ) → i < 3 → was_read.0 i ≡ text i)
readi-writei_example =
    readi-writei sb (λ m. true) (λ m. true) node text zeros 0 3 bare bare-IsDisk node-IsFile
      text-AreBytes inode_low (omega arith) (omega arith) (omega arith) write_done read_done

written_node : (written.0.inum ≡ 1) × (written.0.size ≡ 3)
unfolding written writei write_from bmap or_balloc bmap_table balloc balloc_from find_bit is_set
    bare take_block bzero mark grow
written_node = (refl, refl)

itrunc-IsTruncated_example :
    (ip' : Inode) × (d' : Disk) × (itrunc sb written.0 written.1 ≡ some (ip', d'))
    × IsTruncated sb written.1 written.0 d' ip'
itrunc-IsTruncated_example =
    itrunc-IsTruncated sb written.0 written.1 written_ok.disk written_ok.file
      (omega (arith, written_node))

mapped : ℕ × Inode × Disk
unfolding bmap
mapped = elim (bmap sb node 20 bare) [ none ↦ (0, node, bare) | some r ↦ r ]

map_done : bmap sb node 20 bare ≡ some (mapped.0, mapped.1, mapped.2)
unfolding mapped bmap or_balloc bmap_table balloc balloc_from find_bit is_set bare take_block bzero
    mark store_word
map_done = refl

bmap-IsMapped_example : (20 < maxfile) × IsMapped sb bare node 20 mapped.0 mapped.2 mapped.1
bmap-IsMapped_example = bmap-IsMapped sb bare node 20 bare-IsDisk node-IsFile map_done

-- The table is block 4, and the block itself is block 5.
new_block : mapped.0 ≡ 5
unfolding mapped bmap or_balloc bmap_table balloc balloc_from find_bit is_set bare take_block bzero
    mark store_word
new_block = refl

unread : Inode
unread = record node { valid = false; size = 9; nlink = 7 }

fits : FitsDisk node
fits = record {
  type = omega arith;
  major = omega arith;
  minor = omega arith;
  nlink = omega arith;
  size = omega arith;
  addrs = λ k l. omega arith;
}

ilock-iupdate_example :
    (kp : Inode) × (ilock sb (iupdate sb node bare) unread ≡ some kp)
    × SameFile kp node
    × (kp.valid ≡ true)
unfolding unread
ilock-iupdate_example = ilock-iupdate sb bare node unread fits (omega arith) refl refl (omega arith)
