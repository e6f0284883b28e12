-- ===== src/Fs/Dir/Tests.antt =====
-- A directory at concrete inputs, and the theorem there.
use laboratorio_ramiro.CString.{Memory, strncmp}
use laboratorio_ramiro.Fs.Tests.{bare, bare-IsDisk, node, sb, node-IsFile}
use laboratorio_ramiro.Fs.Icache.{Icache, iget, iget_with, iget_scan}
use laboratorio_ramiro.Fs.Icache.Counts.{Reach, boots}
use laboratorio_ramiro.Fs.{mark, bzero, take_block, find_bit, balloc_from, balloc, is_set, Disk}
use laboratorio_ramiro.Fs.Inode.{iupdate, bmap, bmap_table, or_balloc, Inode}
use laboratorio_ramiro.Fs.Inode.Slots.{slot, IsFile}
use laboratorio_ramiro.Fs.Content.{write_from, writei, grow, moved, Io, readi, read_from}
use laboratorio_ramiro.Fs.Content.Whole.{writei-Writes, Writes}
use laboratorio_ramiro.Fs.Dir.{dirlookup, look_from, get_entry, namecmp}
use laboratorio_ramiro.Fs.Dir.Lookup.{IsDir, SameContent}
use laboratorio_ramiro.Fs.Dir.First.{Answers, dirlookup-Answers}
use laboratorio_ramiro.Prelude.{
  some, arith, none, true, [], ◌==◌, Option, if◌then◌else◌, ◌≡◌, false, refl, ℕ,
}

abbrev folder : Inode
folder = record node { type = 1 }

-- An entry that is free, and one for inode 5, "ab".
abbrev entries : Memory
entries i = if i == 16 then 5 else if i == 18 then 97 else if i == 19 then 98 else 0

abbrev result : Io (Inode × Disk) → Inode × Disk
result (moved k r) = r
result _ = (folder, bare)

unfoldable pub filled : Inode × Disk
unfolding writei
filled = result (writei sb (λ m. true) folder entries 0 32 bare)

fill_done : writei sb (λ m. true) folder entries 0 32 bare ≡ moved 32 (filled.0, filled.1)
unfolding filled writei write_from bmap or_balloc bmap_table balloc balloc_from find_bit is_set bare
    take_block bzero mark grow
fill_done = refl

folder-IsFile : IsFile sb bare folder
unfolding slot
folder-IsFile =
    let f = node-IsFile in
    record { mine = f.mine; table = f.table; distinct = f.distinct; apart = f.apart }

filled-Writes : Writes sb entries 0 32 folder bare filled.0 filled.1
filled-Writes =
    (writei-Writes sb (λ m. true) folder entries 0 32 bare bare-IsDisk folder-IsFile
      (λ i. ground arith) (omega arith) fill_done).1

filled-IsDir : IsDir sb filled.1 filled.0
filled-IsDir = record {
  disk = filled-Writes.disk;
  file = filled-Writes.file;
  bounded = omega (arith, filled-Writes.size);
}

-- "ab" at address 16.
abbrev asked : Memory
asked i = if i == 16 then 97 else if i == 17 then 98 else 0

unfoldable pub no_inodes : Icache
no_inodes i = record node { dev = 0; inum = 0; ref = 0; valid = false; type = 0; nlink = 0 }

pub boot_reached : Reach (no_inodes, [])
unfolding no_inodes
boot_reached = boots no_inodes (λ i. refl)

answer : Option (ℕ × ℕ × Icache) × Memory × Inode × Disk
unfolding dirlookup
answer = elim (dirlookup sb (λ m. true) filled.0 16 asked no_inodes filled.1) [
  | none ↦ (none, asked, filled.0, filled.1)
  | some r ↦ r
]

answers :
    dirlookup sb (λ m. true) filled.0 16 asked no_inodes filled.1
    ≡ some (answer.0, answer.1, answer.2, answer.3)
unfolding answer dirlookup look_from get_entry namecmp strncmp readi read_from iget iget_with
    iget_scan no_inodes filled writei write_from bmap or_balloc bmap_table balloc balloc_from
    find_bit is_set bare take_block bzero mark grow iupdate
answers = refl

dirlookup-Answers_example :
    Answers sb filled.1 filled.0 asked 16 [] answer.0
    × SameContent sb filled.1 filled.0 answer.3 answer.2
dirlookup-Answers_example =
    dirlookup-Answers sb (λ m. true) filled.0 16 asked no_inodes [] filled.1 filled-IsDir
      (omega arith) boot_reached answers

-- It is the second entry.
abbrev offset_of : Option (ℕ × ℕ × Icache) → ℕ
offset_of none = 0
offset_of (some (off, i, c)) = off

second_entry : offset_of answer.0 ≡ 16
unfolding answer dirlookup look_from get_entry namecmp strncmp readi read_from iget iget_with
    iget_scan no_inodes filled writei write_from bmap or_balloc bmap_table balloc balloc_from
    find_bit is_set bare take_block bzero mark grow iupdate
second_entry = refl
