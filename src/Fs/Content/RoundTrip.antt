-- ===== src/Fs/Content/RoundTrip.antt =====
use laboratorio_ramiro.Prelude.{◌-◌, arith, ◌∙◌, ◌≡◌, ◌^◌, Bool, true, ℕ, ◌%◌, ◌<◌, ◌+◌, ◌*◌, ◌≤◌}
use laboratorio_ramiro.Fs.Content.{within, readi, maxfile, moved, Inode, device_io, writei}
use laboratorio_ramiro.Fs.{block_size, Disk, Memory, Super}
use laboratorio_ramiro.Fs.Alloc.{IsDisk}
use laboratorio_ramiro.Fs.Inode.Slots.{IsFile}
use laboratorio_ramiro.Fs.Bitmap.{AreBytes}
use laboratorio_ramiro.Fs.Inode.{iblock}
use laboratorio_ramiro.Fs.Content.Whole.{readi-IsRead, writei-Writes}  -- What `writei` has written `readi` reads.

writei-bound :
    (sb : Super) (has_write : ℕ → Bool) (ip : Inode) (src : Memory) (off n : ℕ) (d : Disk) {k : ℕ}
    {r : Inode × Disk}
    → off < 2 ^ 32
    → n < 2 ^ 32
    → writei sb has_write ip src off n d ≡ moved k r
    → (off ≤ ip.size) × (off + n ≤ maxfile * block_size)
unfolding writei device_io
writei-bound sb has_write ip src off n d so sn e =
    let inside : off ≤ ip.size = ground arith in
    let no_wrap : off ≤ (off + n) % 2 ^ 32 = ground arith in
    let exact : (off + n) % 2 ^ 32 ≡ off + n = omega arith in
    let fits : (off + n) % 2 ^ 32 ≤ maxfile * block_size = ground arith in (inside, omega arith)

-- Where `writei` of `n` bytes at `off` succeeds on a file of at most `MAXFILE` blocks, and `readi` of as many
-- at the same place succeeds on what it leaves, `readi` moves `n` bytes, and they are those that were
-- written.
pub readi-writei :
    (sb : Super) (has_write has_read : ℕ → Bool) (ip : Inode) (src dst : Memory) (off n : ℕ)
    (d : Disk) {k j : ℕ} {ip1 ip2 : Inode} {d1 d2 : Disk} {dst' : Memory}
    → IsDisk sb d
    → IsFile sb d ip
    → AreBytes src
    → iblock sb ip.inum < sb.bmapstart
    → ip.size ≤ maxfile * block_size
    → off < 2 ^ 32
    → n < 2 ^ 32
    → writei sb has_write ip src off n d ≡ moved k (ip1, d1)
    → readi sb has_read ip1 dst off n d1 ≡ moved j (dst', ip2, d2)
    → (j ≡ n) × ((i : ℕ) → i < n → dst' i ≡ src i)
readi-writei sb has_write has_read ip src dst off n d {j = j} {ip1 = ip1} {d1 = d1} {dst' = dst'} v
      f hs low small so sn ew er =
    let (inside, fits) = writei-bound sb has_write ip src off n d so sn ew in
    let (count, w) = writei-Writes sb has_write ip src off n d v f hs low ew in
    let end : off + n ≤ ip1.size = ground (arith, w.size) in
    let bounded : ip1.size ≤ maxfile * block_size = ground (arith, w.size) in
    let (amount, r) = readi-IsRead sb has_read ip1 dst off n d1 w.disk w.file bounded so sn er in
    let all_read : j ≡ n = omega arith in
    (
      all_read,
      λ i l.
          let within_read : within 0 (j - 0) i ≡ true = ground arith in
          let within_write : within off n (off + (i - 0)) ≡ true = ground arith in
          let place : off + (i - 0) - off ≡ i = omega arith in
          r.copied i
          ∙ (rw (within_read) (w.bytes (off + (i - 0)) (omega arith) ∙ (rw (within_write, place)))),
    )
