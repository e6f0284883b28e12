-- ===== src/Fs/Content/Read.antt =====
-- The loop of `readi`.
use laboratorio_ramiro.CString.Copy.{within}
use laboratorio_ramiro.Prelude.{
  ◌%◌, ◌*◌, ltb, arith, ℕ, sym, Bool-cases, ◌/◌, inl, true, inr, ◌+◌, ◌∙◌, ◌<◌, if◌then◌else◌, ◌≤◌,
  Option-cases, ◌≡◌, ◌-◌, some, zero, ap, false, refl, suc,
}
use laboratorio_ramiro.Fs.{block_size, Disk, Memory, Super}
use laboratorio_ramiro.Fs.Content.{chunk, copy_bytes, maxfile, bmap, Inode, read_from}
use laboratorio_ramiro.Fs.Alloc.{IsDisk}
use laboratorio_ramiro.Fs.Inode.Slots.{slot, IsFile}
use laboratorio_ramiro.Fs.Content.Bytes.{byte-block, mapped-byte, byte}
use laboratorio_ramiro.Fs.Content.Round.{mapped-IsForeign, IsForeign}
use laboratorio_ramiro.Fs.Inode.Map.{IsMapped}
use laboratorio_ramiro.Fs.Inode.Table.{bmap-IsMapped}

-- What the loop of `readi` has done at its end: the bytes of the file are in `dst'`, and the file is as it was.
pub record IsRead (sb : Super) (dst : Memory) (tot n off : ℕ) (ip : Inode) (d : Disk)
    (dst' : Memory) (ip' : Inode) (d' : Disk) : Type 0 where
  pub disk : IsDisk sb d'
  pub file : IsFile sb d' ip'
  pub copied :
      (i : ℕ) → dst' i ≡ (if within tot (n - tot) i then byte d ip (off + (i - tot)) else dst i)
  pub bytes : (o : ℕ) → o < maxfile * block_size → byte d' ip' o ≡ byte d ip o
  pub foreign : (x : ℕ) → IsForeign sb d ip x → IsForeign sb d' ip' x × (d' x ≡ d x)
  pub size : ip'.size ≡ ip.size

read_from-step :
    (sb : Super) (fuel : ℕ) (dst : Memory) (tot n off : ℕ) (ip : Inode) (d : Disk) {a : ℕ}
    {ip1 : Inode} {d1 : Disk}
    → ltb tot n ≡ true
    → bmap sb ip (off / block_size) d ≡ some (a, ip1, d1)
    → read_from sb (suc fuel) dst tot n off ip d
      ≡ read_from sb fuel
          (copy_bytes dst tot (d1 a) (off % block_size) (chunk tot n off))
          (tot + chunk tot n off)
          n
          (off + chunk tot n off)
          ip1
          d1
unfolding read_from
read_from-step sb fuel dst tot n off ip d more got = ground arith

stop-IsRead :
    (sb : Super) (dst : Memory) (tot n off : ℕ) (ip : Inode) (d : Disk)
    → IsDisk sb d
    → IsFile sb d ip
    → n ≤ tot
    → IsRead sb dst tot n off ip d dst ip d
stop-IsRead sb dst tot n off ip d v f done = record {
  disk = v;
  file = f;
  copied = λ i. let never : within tot (n - tot) i ≡ false = ground arith in rw never;
  bytes = λ o l. refl;
  foreign = λ x h. (h, refl);
  size = refl;
}

-- A round of `m` bytes in one block, and then the rest.
then-IsRead :
    (sb : Super) (dst : Memory) (tot m n off : ℕ) (ip : Inode) (d : Disk) (a : ℕ) (ip1 : Inode)
    (d1 : Disk) (dst2 : Memory) (ip2 : Inode) (d2 : Disk)
    → IsFile sb d ip
    → off / block_size < maxfile
    → off % block_size + m ≤ block_size
    → tot + m ≤ n
    → IsMapped sb d ip (off / block_size) a d1 ip1
    → IsRead sb
        (copy_bytes dst tot (d1 a) (off % block_size) m)
        (tot + m)
        n
        (off + m)
        ip1
        d1
        dst2
        ip2
        d2
    → (off + (n - tot) ≤ maxfile * block_size)
    → IsRead sb dst tot n off ip d dst2 ip2 d2
then-IsRead sb dst tot m n off ip d a ip1 d1 dst2 ip2 d2 f l fits hi mapped r last =
    let same = λ (o : ℕ) (lo : o / block_size < maxfile).
      mapped-byte sb d ip (off / block_size) a d1 ip1 o f mapped lo in
    record {
      disk = r.disk;
      file = r.file;
      copied = λ i. r.copied i ∙ elim (Bool-cases (within (tot + m) (n - (tot + m)) i)) [
        | inl late ↦
            let whole : within tot (n - tot) i ≡ true = ground arith in
            let place : off + m + (i - (tot + m)) ≡ off + (i - tot) = ground arith in
            let low : (off + (i - tot)) / block_size < maxfile = ground arith in
            rw (late, whole, place) (same (off + (i - tot)) low)
        | inr soon ↦ elim (Bool-cases (within tot m i)) [
          | inl now ↦
              let whole : within tot (n - tot) i ≡ true = ground arith in
              let o : ℕ = off + (i - tot) in
              let block : o / block_size ≡ off / block_size = ground arith in
              let place : off % block_size + (i - tot) ≡ o % block_size = ground arith in
              let at : slot d1 ip1 (o / block_size) ≡ a = ap (slot d1 ip1) block ∙ mapped.found in
              rw (soon, now, whole)
                (ap (d1 a) place
                  ∙ sym (byte-block d1 ip1 o a at mapped.positive)
                  ∙ same o (omega arith))
          | inr never ↦
              let whole : within tot (n - tot) i ≡ false = ground arith in rw (soon, never, whole)
        ]
      ];
      bytes = λ o lo. r.bytes o lo ∙ same o (omega arith);
      foreign = λ x h.
          let (h1, ne) = mapped-IsForeign sb d ip (off / block_size) a d1 ip1 x l mapped h in
          let (h2, e2) = r.foreign x h1 in
          (h2, e2 ∙ mapped.kept x h.data_block (λ e. h.no_table (sym e)));
      size = r.size ∙ mapped.size;
    }

pub read_from-IsRead :
    (sb : Super) (fuel : ℕ) (dst : Memory) (tot n off : ℕ) (ip : Inode) (d : Disk) {dst' : Memory}
    {ip' : Inode} {d' : Disk}
    → IsDisk sb d
    → IsFile sb d ip
    → n ≤ tot + fuel
    → off + (n - tot) ≤ maxfile * block_size
    → read_from sb fuel dst tot n off ip d ≡ some (dst', ip', d')
    → IsRead sb dst tot n off ip d dst' ip' d'
unfolding read_from
read_from-IsRead sb zero dst tot n off ip d {dst'} {ip'} {d'} v f enough last e =
    let eo : dst' ≡ dst = ground arith in
    let ei : ip' ≡ ip = ground arith in
    let ed : d' ≡ d = ground arith in
    rw (eo, ei, ed) (stop-IsRead sb dst tot n off ip d v f (omega arith))
read_from-IsRead sb (suc fuel) dst tot n off ip d {dst'} {ip'} {d'} v f enough last e =
    elim (Bool-cases (ltb tot n)) [
      | inr done ↦
          let eo : dst' ≡ dst = ground arith in
          let ei : ip' ≡ ip = ground arith in
          let ed : d' ≡ d = ground arith in
          rw (eo, ei, ed) (stop-IsRead sb dst tot n off ip d v f (ground arith))
      | inl more ↦ elim (Option-cases (bmap sb ip (off / block_size) d)) [
        | inl panic ↦ absurd (ground arith)
        | inr ((a, ip1, d1), got) ↦
            let (l, mapped) = bmap-IsMapped sb d ip (off / block_size) v f got in
            let m = chunk tot n off in
            let rest : read_from sb fuel (copy_bytes dst tot (d1 a) (off % block_size) m) (tot + m)
                  n (off + m) ip1 d1
                ≡ some (dst', ip', d') =
              sym (read_from-step sb fuel dst tot n off ip d more got) ∙ e in
            let left : tot < n = ground arith in
            then-IsRead sb dst tot m n off ip d a ip1 d1 dst' ip' d' f l (omega arith) (omega arith)
              mapped
              (read_from-IsRead sb fuel _ (tot + m) n (off + m) ip1 d1 mapped.disk mapped.file
                (omega arith) (omega arith) rest)
              last
      ]
    ]
