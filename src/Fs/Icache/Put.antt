-- ===== src/Fs/Icache/Put.antt =====
-- `iput`: whether it frees the inode, and what it leaves.
use laboratorio_ramiro.Prelude.{Bool, ◌&&◌, false, ◌==◌, ◌≡◌, ℕ}
use laboratorio_ramiro.Fs.{Disk, Super}
use laboratorio_ramiro.Fs.Icache.{Icache, disk_type, Inode, iupdate}
use laboratorio_ramiro.Fs.Content.Itrunc.{IsTruncated}
use laboratorio_ramiro.Fs.Inode.{iupdate}

-- The inode is free on the disk and its content is gone. Its entry keeps its inode and its count, and is
-- to be read again.
pub record IsFreeInode (sb : Super) (d : Disk) (ip : Inode) (d' : Disk) (ip' : Inode) : Type 0 where
  pub cut : Inode
  pub content : IsTruncated sb d ip d' cut
  pub disk_free : disk_type sb d' ip.inum ≡ 0
  pub entry : ip' ≡ record cut { type = 0; valid = false }

-- With the references that are left after the one that is put.
unfoldable pub frees : Inode → ℕ → Bool
frees ip left = ip.valid && (ip.nlink == 0 && left == 0)
