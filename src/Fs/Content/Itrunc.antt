-- ===== src/Fs/Content/Itrunc.antt =====
-- `itrunc` as a whole.
use laboratorio_ramiro.Prelude.{
  ap, refl, ◌%◌, some, inl, inr, Bool-cases, arith, ◌≢◌, ◌≤◌, ◌==◌, ◌∙◌, ◌*◌, true, ◌<◌, ℕ, false,
  ◌≡◌,
}
use laboratorio_ramiro.Fs.{Memory, put_block, Super, Disk}
use laboratorio_ramiro.Fs.Inode.Slots.{IsData, IsFile, slot}
use laboratorio_ramiro.Fs.Inode.{store_dinode, iblock, iupdate, maxfile, ndirect, Inode}
use laboratorio_ramiro.Fs.Alloc.{low-IsDisk, data_start, is_used, IsDisk}
use laboratorio_ramiro.Fs.Content.Round.{IsForeign}
use laboratorio_ramiro.Fs.Content.{iupdate, itrunc}
use laboratorio_ramiro.Fs.Content.Frees.{free_direct-AreFreed}
use laboratorio_ramiro.Fs.Inode.Dinode.{store_dinode-AreBytes}
use laboratorio_ramiro.Fs.Content.Emptied.{
  unplaced, slot-gone, indirect-IsEmptied, direct-AreBlocks,
}
use laboratorio_ramiro.Fs.Bitmap.{AreBytes}

-- After `itrunc` the file is empty, its blocks are free, and every other block of the data is as it was.
pub record IsTruncated (sb : Super) (d : Disk) (ip : Inode) (d' : Disk) (ip' : Inode) : Type 0 where
  pub disk : IsDisk sb d'
  pub size : ip'.size ≡ 0
  pub empty : (k : ℕ) → k ≤ ndirect → ip'.addrs k ≡ 0
  pub rest : ip' ≡ record ip { size = 0; addrs = ip'.addrs }
  pub freed : (k : ℕ) → k < maxfile → slot d ip k ≢ 0 → is_used sb d' (slot d ip k) ≡ false
  pub table_freed : ip.addrs ndirect ≢ 0 → is_used sb d' (ip.addrs ndirect) ≡ false
  pub others : (x : ℕ) → IsForeign sb d ip x → IsData sb d' x × (d' x ≡ d x)
  pub still_free :
      (x : ℕ) → data_start sb ≤ x → x < sb.size → is_used sb d x ≡ false → is_used sb d' x ≡ false

-- `itrunc` of a file does not panic: each of its blocks is in use when `bfree` comes to it. It frees them
-- all, those of the table and the table included, and leaves the file with no block and the size 0; the
-- data blocks that are not the file's keep their bytes, and are in use as they were.
pub itrunc-IsTruncated :
    (sb : Super) (ip : Inode) (d : Disk)
    → IsDisk sb d
    → IsFile sb d ip
    → iblock sb ip.inum < sb.bmapstart
    → (ip' : Inode) × (d' : Disk) × (itrunc sb ip d ≡ some (ip', d')) × IsTruncated sb d ip d' ip'
unfolding itrunc iupdate
itrunc-IsTruncated sb ip d v f low =
    let (ip1, d1, e1, h1, c) =
      free_direct-AreFreed sb ndirect 0 ip d ip.addrs v (λ k lo. refl)
        (direct-AreBlocks sb d ip f) in
    let (d2, ip2, e2, h2) = indirect-IsEmptied sb d d1 ip ip1 f h1 c in
    let ip3 = record ip2 { size = 0 } in
    let b = iblock sb ip2.inum in
    let below : b < sb.bmapstart = rw (ap (λ p. p.inum) h2.rest) low in
    let m = store_dinode (d2 b) (ip2.inum % 8 * 64) ip3 in
    let (disk, used, kept) =
      low-IsDisk sb d2 h2.disk b m below (store_dinode-AreBytes (d2 b) _ ip3 (h2.disk.bytes b)) in
    let after = λ (x : ℕ) (lo : data_start sb ≤ x) (l : x < sb.size). used x ∙ h2.used x lo l in
    (
      ip3,
      put_block d2 b m,
      ground (arith, e1, e2),
      record {
        disk = disk;
        size = refl;
        empty = h2.empty;
        rest = ap {A = Inode} (λ p. record p { size = 0 }) h2.rest;
        freed = λ k l nz.
            let g = f.mine k l nz in
            let hit = slot-gone d ip k l nz in
            after (slot d ip k) g.behind g.inside ∙ ground (arith, hit);
        table_freed = λ nt.
            let g = f.table nt in
            let here : (ip.addrs ndirect == ip.addrs ndirect) ≡ true = ground arith in
            ground (arith, after (ip.addrs ndirect) g.behind g.inside, here);
        others = λ x h.
            let g = h.data_block in
            let (a, e) = unplaced d ip x h.no_slot in
            let off : (ip.addrs ndirect == x) ≡ false = ground (arith, h.no_table) in
            (
              record {
                behind = g.behind;
                inside = g.inside;
                used = after x g.behind g.inside ∙ elim (Bool-cases (ip.addrs ndirect == 0)) [
                  | inl no_table ↦ ground (arith, g.used, a, no_table)
                  | inr there ↦ ground (arith, g.used, a, e (ground arith), off)
                ];
              },
              kept x g.behind ∙ h2.kept x g.behind,
            );
        still_free = λ x lo l free. after x lo l ∙ ground (arith, free);
      },
    )

-- A later write to a block before the map.
pub low-IsTruncated :
    (sb : Super) (d : Disk) (ip : Inode) (d' : Disk) (ip' : Inode) (b : ℕ) (m : Memory)
    → b < sb.bmapstart
    → AreBytes m
    → IsTruncated sb d ip d' ip'
    → IsTruncated sb d ip (put_block d' b m) ip'
low-IsTruncated sb d ip d' ip' b m low bytes h =
    let (disk, used, kept) = low-IsDisk sb d' h.disk b m low bytes in
    record {
      disk = disk;
      size = h.size;
      empty = h.empty;
      rest = h.rest;
      freed = λ k l nz. used (slot d ip k) ∙ h.freed k l nz;
      table_freed = λ nt. used (ip.addrs ndirect) ∙ h.table_freed nt;
      others = λ x f.
          let (g, e) = h.others x f in
          (
            record { behind = g.behind; inside = g.inside; used = used x ∙ g.used },
            kept x g.behind ∙ e,
          );
      still_free = λ x lo l free. used x ∙ h.still_free x lo l free;
    }
