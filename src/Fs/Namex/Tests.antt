-- ===== src/Fs/Namex/Tests.antt =====
-- A walk at concrete inputs, and the theorem there.
use laboratorio_ramiro.CString.{Memory, strncmp}
use laboratorio_ramiro.Fs.Dir.Tests.{filled, no_inodes, boot_reached}
use laboratorio_ramiro.Fs.Tests.{bare, sb}
use laboratorio_ramiro.Fs.Icache.{
  Icache, iget, iget_with, iget_scan, idup, iput, iput_free, iput_drop, put_inode,
}
use laboratorio_ramiro.Fs.Icache.Counts.{Reach, gets, next, works}
use laboratorio_ramiro.Fs.{mark, bzero, take_block, find_bit, balloc_from, balloc, is_set}
use laboratorio_ramiro.Fs.Inode.{iupdate, bmap, bmap_table, or_balloc, ilock}
use laboratorio_ramiro.Fs.Content.{write_from, writei, grow, readi, read_from}
use laboratorio_ramiro.Fs.Dir.{dirlookup, look_from, get_entry, namecmp}
use laboratorio_ramiro.Fs.Path.{skipelem, first_elem, skip_slashes, take_elem, set_name}
use laboratorio_ramiro.Fs.Namex.{arrive, give_up, go_down, go_on, namex, round, visit, walk, Walked}
use laboratorio_ramiro.Fs.Namex.Balance.{Ends, namex-Ends}
use laboratorio_ramiro.Prelude.{refl, ◌++◌, false, none, some, ◌≡◌, ◌∷◌, [], List, true, ℕ}

abbrev entered : ℕ × Icache
entered = elim (iget 1 1 no_inodes) [ none ↦ (0, no_inodes) | some r ↦ r ]

-- The directory is the current one, at place 0.
abbrev cache : Icache
cache = put_inode entered.1 0 filled.0

enters : iget 1 1 no_inodes ≡ some (0, entered.1)
unfolding iget iget_scan iget_with no_inodes
enters = refl

same_entry :
    (filled.0.dev ≡ (entered.1 0).dev)
    × (filled.0.inum ≡ (entered.1 0).inum)
    × (filled.0.ref ≡ (entered.1 0).ref)
unfolding iget iget_scan iget_with no_inodes filled writei write_from bmap or_balloc bmap_table
    balloc balloc_from find_bit is_set bare take_block bzero mark grow iupdate
same_entry = (refl, refl, refl)

cache_reached : Reach (cache, [] ++ 0 ∷ [])
cache_reached =
    let (dev, inum, ref) = same_entry in
    next (next boot_reached (gets 1 1 enters)) (works [] 0 [] filled.0 dev inum ref)

-- "ab"
abbrev path : List ℕ
path = 97 ∷ 98 ∷ []

abbrev name : Memory
name i = 255

namex-Ends_example : Ends ([] ++ 0 ∷ []) (namex sb (λ m. true) false 0 path name cache filled.1)
namex-Ends_example = namex-Ends sb (λ m. true) false path name cache filled.1 [] 0 [] cache_reached

abbrev place_of : Walked → ℕ
place_of (some (some i, _, _, _)) = i
place_of _ = 99

-- "ab" is found, and its inode is at place 1.
found : place_of (namex sb (λ m. true) false 0 path name cache filled.1) ≡ 1
unfolding namex walk round visit arrive go_down go_on give_up skipelem first_elem skip_slashes
    take_elem set_name ilock idup iput iput_free iput_drop dirlookup look_from get_entry namecmp
    strncmp readi read_from iget iget_with iget_scan no_inodes filled writei write_from bmap
    or_balloc bmap_table balloc balloc_from find_bit is_set bare take_block bzero mark grow iupdate
found = refl
