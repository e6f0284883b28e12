-- ===== src/Fs/Content/Whole.antt =====
-- `readi` and `writei`.
use laboratorio_ramiro.CString.Copy.{within}
use laboratorio_ramiro.Prelude.{
  ap₂, Bool, ◌&&◌, min, ◌^◌, if◌then◌else◌, refl, ◌-◌, Option-cases, ◌+◌, ltb, sym, ◌%◌, ◌∙◌, ◌≡◌,
  Bool-cases, ◌≤◌, ap, ◌==◌, inl, ◌*◌, ◌/◌, ◌<◌, inr, arith, ℕ, false,
}
use laboratorio_ramiro.Fs.Inode.Slots.{IsData, IsFile, slot}
use laboratorio_ramiro.Fs.{bblock, block_size, put_block, Disk, Memory, Super}
use laboratorio_ramiro.Fs.Content.{
  ndirect, read_from, write_from, moved, maxfile, Inode, device_io, iupdate, readi, writei, grow,
}
use laboratorio_ramiro.Fs.Content.Bytes.{kept-IsFile, byte}
use laboratorio_ramiro.Fs.Alloc.{is_used, data_start, IsDisk}
use laboratorio_ramiro.Fs.Bitmap.{AreBytes}
use laboratorio_ramiro.Fs.Content.Round.{IsWritten, IsForeign}
use laboratorio_ramiro.Fs.Inode.{store_dinode, iupdate, iblock}
use laboratorio_ramiro.Fs.Content.Read.{read_from-IsRead, IsRead}
use laboratorio_ramiro.Fs.Content.Write.{write_from-IsWritten}
use laboratorio_ramiro.Fs.Inode.Dinode.{store_dinode-AreBytes}

-- A block before the map is written: no file's content is there.
low_write :
    (sb : Super) (d : Disk) (ip ip' : Inode) (b : ℕ) (m : Memory)
    → IsDisk sb d
    → IsFile sb d ip
    → b < sb.bmapstart
    → AreBytes m
    → ip'.addrs ≡ ip.addrs
    → IsDisk sb (put_block d b m)
      × IsFile sb (put_block d b m) ip'
      × ((k : ℕ) → slot (put_block d b m) ip' k ≡ slot d ip k)
      × ((o : ℕ) → o < maxfile * block_size → byte (put_block d b m) ip' o ≡ byte d ip o)
      × ((x : ℕ) → IsData sb d x → IsData sb (put_block d b m) x × (put_block d b m x ≡ d x))
unfolding slot byte
low_write sb d ip ip' b m v f low h same =
    let d' = put_block d b m in
    let below : (x : ℕ) → data_start sb ≤ x → d' x ≡ d x =
      λ x l. let ne : (x == b) ≡ false = ground arith in rw ne in
    let used : (x : ℕ) → is_used sb d' x ≡ is_used sb d x =
      λ x. let ne : (bblock sb x == b) ≡ false = ground arith in rw ne in
    let grows : (x : ℕ) → IsData sb d x → IsData sb d' x =
      λ x g. record { behind = g.behind; inside = g.inside; used = used x ∙ g.used } in
    let slots : (k : ℕ) → slot d' ip' k ≡ slot d ip k = λ k.
      rw same (elim (Bool-cases (ip.addrs ndirect == 0)) [
        | inl no_table ↦ rw no_table
        | inr there ↦
            let g = f.table (ground arith) in rw (there, below (ip.addrs ndirect) g.behind)
      ]) in
    (
      record {
        bytes = λ y. elim (Bool-cases (y == b)) [
          | inl here ↦ rw here h
          | inr other ↦ rw other (v.bytes y)
        ];
        reserved = λ x l. used x ∙ v.reserved x l;
        room = v.room;
        small = v.small;
      },
      kept-IsFile sb d ip d' ip' f (λ k l. slots k) (ap (λ g. g ndirect) same) grows,
      slots,
      (λ o l. elim (Bool-cases (slot d ip (o / block_size) == 0)) [
        | inl hole ↦ rw (slots (o / block_size), hole)
        | inr full ↦
            let g = f.mine (o / block_size) (omega arith) (ground arith) in
            rw (slots (o / block_size), full) (ap (λ c. c (o % block_size)) (below _ g.behind))
      ]),
      λ x g. (grows x g, below x g.behind),
    )

-- What `writei` of `n` bytes at `off` leaves.
pub record Writes (sb : Super) (src : Memory) (off n : ℕ) (ip : Inode) (d : Disk) (ip' : Inode)
    (d' : Disk) : Type 0 where
  pub disk : IsDisk sb d'
  pub file : IsFile sb d' ip'
  pub bytes :
      (o : ℕ)
      → o < maxfile * block_size
      → byte d' ip' o ≡ (if within off n o then src (o - off) else byte d ip o)
  pub size : ip'.size ≡ (if ltb ip.size (off + n) then off + n else ip.size)
  pub foreign : (x : ℕ) → IsForeign sb d ip x → IsForeign sb d' ip' x × (d' x ≡ d x)

at_start :
    (src : Memory) (off n o b : ℕ)
    → (if within off (n - 0) o then src (0 + (o - off)) else b)
      ≡ (if within off n o then src (o - off) else b)
at_start src off n o b =
    let a : n - 0 ≡ n = omega arith in
    let z : 0 + (o - off) ≡ o - off = omega arith in
    ap₂ (λ k j. if within off k o then src j else b) a z

grow-Writes :
    (sb : Super) (src : Memory) (off n off' : ℕ) (ip ip1 : Inode) (d d1 : Disk)
    → iblock sb ip.inum < sb.bmapstart
    → off ≤ ip.size
    → IsWritten sb src 0 n off ip d off' ip1 d1
    → Writes sb src off n ip d (grow sb n off' ip1 d1).0 (grow sb n off' ip1 d1).1
unfolding grow iupdate
grow-Writes sb src off n off' ip ip1 d d1 low inside w =
    elim (Bool-cases (ltb 0 n && ltb ip1.size off')) [
      | inr stays ↦ rw stays (record {
        disk = w.disk;
        file = w.file;
        bytes = λ o l. w.bytes o l ∙ at_start src off n o (byte d ip o);
        size = ground (arith, w.size, w.ending);
        foreign = w.foreign;
      })
      | inl grows ↦
          let ip2 = record ip1 { size = off' } in
          let b = iblock sb ip2.inum in
          let below : b < sb.bmapstart = rw w.inum low in
          let m = store_dinode (d1 b) (ip2.inum % 8 * 64) ip2 in
          let (disk, file, slots, same, kept) =
            low_write sb d1 ip1 ip2 b m w.disk w.file below
              (store_dinode-AreBytes (d1 b) _ ip2 (w.disk.bytes b)) refl in
          rw grows (record {
            disk = disk;
            file = file;
            bytes = λ o l. same o l ∙ w.bytes o l ∙ at_start src off n o (byte d ip o);
            size = ground (arith, w.size, w.ending);
            foreign = λ x h.
                let (h1, e1) = w.foreign x h in
                let (g, e2) = kept x h1.data_block in
                (
                  record {
                    data_block = g;
                    no_slot = λ k l e. h1.no_slot k l (sym (slots k) ∙ e);
                    no_table = h1.no_table;
                  },
                  e2 ∙ e1,
                );
          })
    ]

-- Where `writei` of `n` bytes at `off` succeeds on a file, the file has the new bytes from `off` on and its old
-- ones elsewhere, its size reaches the end of the write if it did not before, and no block in use that is
-- not the file's changes.
pub writei-Writes :
    (sb : Super) (has_write : ℕ → Bool) (ip : Inode) (src : Memory) (off n : ℕ) (d : Disk) {k : ℕ}
    {ip' : Inode} {d' : Disk}
    → IsDisk sb d
    → IsFile sb d ip
    → AreBytes src
    → iblock sb ip.inum < sb.bmapstart
    → writei sb has_write ip src off n d ≡ moved k (ip', d')
    → (k ≡ n) × Writes sb src off n ip d ip' d'
unfolding writei device_io
writei-Writes sb has_write ip src off n d {k} {ip'} {d'} v f hs low e =
    elim (Option-cases (write_from sb n src 0 n off ip d)) [
      | inl panic ↦ absurd (ground arith)
      | inr ((off', ip1, d1), went) ↦
          let count : k ≡ n = ground arith in
          let inside : off ≤ ip.size = ground arith in
          let node : ip' ≡ (grow sb n off' ip1 d1).0 = ground arith in
          let disk : d' ≡ (grow sb n off' ip1 d1).1 = ground arith in
          let w = write_from-IsWritten sb n src 0 n off ip d hs v f (omega arith) went in
          (count, rw (node, disk) (grow-Writes sb src off n off' ip ip1 d d1 low inside w))
    ]

-- Where `readi` of `n` bytes at `off` succeeds on a file of at most `MAXFILE` blocks, it moves those of the
-- file's bytes that it has from there on and leaves the rest of `dst`, and changes no byte of the file and
-- no block in use that is not the file's.
pub readi-IsRead :
    (sb : Super) (has_read : ℕ → Bool) (ip : Inode) (dst : Memory) (off n : ℕ) (d : Disk) {k : ℕ}
    {dst' : Memory} {ip' : Inode} {d' : Disk}
    → IsDisk sb d
    → IsFile sb d ip
    → ip.size ≤ maxfile * block_size
    → off < 2 ^ 32
    → n < 2 ^ 32
    → readi sb has_read ip dst off n d ≡ moved k (dst', ip', d')
    → (k ≡ min n (ip.size - off)) × IsRead sb dst 0 k off ip d dst' ip' d'
unfolding readi device_io
readi-IsRead sb has_read ip dst off n d {k} {dst'} {ip'} {d'} v f small so sn e =
    let count = if ltb ip.size ((off + n) % 2 ^ 32) then ip.size - off else n in
    elim (Option-cases (read_from sb count dst 0 count off ip d)) [
      | inl panic ↦ absurd (ground arith)
      | inr ((dst1, ip1, d1), went) ↦
          let moved_count : k ≡ count = ground arith in
          let a : dst' ≡ dst1 = ground arith in
          let b : ip' ≡ ip1 = ground arith in
          let c : d' ≡ d1 = ground arith in
          let inside : off ≤ ip.size = ground arith in
          let no_wrap : off ≤ (off + n) % 2 ^ 32 = ground arith in
          let exact : (off + n) % 2 ^ 32 ≡ off + n = omega arith in
          let amount : count ≡ min n (ip.size - off) = ground (arith, exact) in
          let r =
            read_from-IsRead sb count dst 0 count off ip d v f (omega arith) (omega arith) went in
          (moved_count ∙ amount, rw (moved_count, a, b, c) r)
    ]
