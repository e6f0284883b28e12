-- ===== src/Fs/Icache/Tests.antt =====
-- The cache of inodes at concrete inputs, and its theorems there.
use laboratorio_ramiro.Kalloc.Owners.{count}
use laboratorio_ramiro.Fs.Tests.{bare, node, sb, written}
use laboratorio_ramiro.Fs.Icache.Counts.{Reach, Reach-IsIcache, boots, gets, next, IsIcache}
use laboratorio_ramiro.Fs.{Disk, mark, bzero, take_block, find_bit, balloc_from, balloc, is_set}
use laboratorio_ramiro.Fs.Inode.{bmap, bmap_table, or_balloc}
use laboratorio_ramiro.Fs.Content.{write_from, writei, grow}
use laboratorio_ramiro.Fs.Icache.{
  put_inode, Inode, Icache, iget, iget_scan, iget_with, ialloc_from, ialloc, mark_inode,
}
use laboratorio_ramiro.Fs.Icache.Put.{frees}
use laboratorio_ramiro.Fs.Icache.Fresh.{ialloc-IsFresh, IsFresh}
use laboratorio_ramiro.Prelude.{refl, suc, true, none, arith, false, ◌∷◌, some, ◌≡◌, [], ◌++◌, ℕ}

no_inodes : Icache
no_inodes i = record node { dev = 0; inum = 0; ref = 0; valid = false; type = 0; nlink = 0 }

boot_reached : Reach (no_inodes, [])
unfolding no_inodes
boot_reached = boots no_inodes (λ i. refl)

abbrev entered : ℕ × Icache
entered = elim (iget 1 1 no_inodes) [ none ↦ (0, no_inodes) | some r ↦ r ]

enters : iget 1 1 no_inodes ≡ some (entered.0, entered.1)
unfolding iget iget_scan iget_with no_inodes
enters = refl

entered_reached : Reach (entered.1, entered.0 ∷ [])
entered_reached = next boot_reached (gets 1 1 enters)

Reach-IsIcache_example : IsIcache (entered.1, entered.0 ∷ [])
Reach-IsIcache_example = Reach-IsIcache entered_reached

-- The file that was written, with no link left.
abbrev unlinked : Inode
unlinked = record written.0 { nlink = 0 }

abbrev opened : Icache
opened = put_inode entered.1 0 unlinked

-- The file is freed.
freed : frees (opened 0) (count 0 ([] ++ [])) ≡ true
unfolding frees written writei write_from bmap or_balloc bmap_table balloc balloc_from find_bit
    is_set bare take_block bzero mark grow
freed = refl

abbrev made : ℕ × Icache × Disk
made = elim (ialloc sb 1 2 entered.1 bare) [ none ↦ (0, no_inodes, bare) | some r ↦ r ]

makes : ialloc sb 1 2 entered.1 bare ≡ some (made.0, made.1, made.2)
unfolding ialloc ialloc_from mark_inode bare iget iget_scan iget_with no_inodes
makes = refl

ialloc-IsFresh_example :
    IsFresh sb bare 2 (made.1 made.0).inum made.2
    × ((made.1 made.0).dev ≡ 1)
    × ((made.1 made.0).ref ≡ suc (count made.0 (entered.0 ∷ [])))
ialloc-IsFresh_example =
    ialloc-IsFresh sb 1 2 entered.1 made.1 (entered.0 ∷ []) bare made.2 made.0 entered_reached
      (omega arith) makes
