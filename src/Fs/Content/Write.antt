-- ===== src/Fs/Content/Write.antt =====
-- The loop of `writei`.
use laboratorio_ramiro.CString.Copy.{within}
use laboratorio_ramiro.Prelude.{
  ◌%◌, ltb, arith, ℕ, sym, Bool-cases, ◌/◌, inl, true, inr, ◌+◌, ◌∙◌, ◌<◌, ◌≤◌, Option-cases, ◌≡◌,
  ◌-◌, some, zero, ap, false, refl, suc,
}
use laboratorio_ramiro.Fs.{put_block, block_size, Disk, Memory, Super}
use laboratorio_ramiro.Fs.Content.{copy_bytes, chunk, bmap, Inode, write_from}
use laboratorio_ramiro.Fs.Content.Round.{round-IsWritten, IsWritten}
use laboratorio_ramiro.Fs.Alloc.{IsDisk}
use laboratorio_ramiro.Fs.Bitmap.{AreBytes}
use laboratorio_ramiro.Fs.Inode.Slots.{IsFile}
use laboratorio_ramiro.Fs.Inode.Table.{bmap-IsMapped}

-- A round and then the rest.
then-IsWritten :
    (sb : Super) (src : Memory) (tot mid n off : ℕ) (ip : Inode) (d : Disk) (off1 : ℕ) (ip1 : Inode)
    (d1 : Disk) (off2 : ℕ) (ip2 : Inode) (d2 : Disk)
    → tot ≤ mid
    → mid ≤ n
    → IsWritten sb src tot mid off ip d off1 ip1 d1
    → IsWritten sb src mid n off1 ip1 d1 off2 ip2 d2
    → IsWritten sb src tot n off ip d off2 ip2 d2
then-IsWritten sb src tot mid n off ip d off1 ip1 d1 off2 ip2 d2 lo hi w1 w2 = record {
  disk = w2.disk;
  file = w2.file;
  ending = omega (arith, w1.ending, w2.ending);
  bytes = λ o l. w2.bytes o l ∙ elim (Bool-cases (within off1 (n - mid) o)) [
    | inl late ↦
        let whole : within off (n - tot) o ≡ true = ground (arith, w1.ending) in
        let place : mid + (o - off1) ≡ tot + (o - off) = ground (arith, w1.ending) in
        rw (late, whole) (ap src place)
    | inr soon ↦ rw soon (
        w1.bytes o l ∙ elim (Bool-cases (within off (mid - tot) o)) [
          | inl first_part ↦
              let whole : within off (n - tot) o ≡ true = ground arith in rw (first_part, whole)
          | inr never ↦
              let whole : within off (n - tot) o ≡ false = ground (arith, w1.ending) in
              rw (never, whole)
        ])
  ];
  foreign = λ x h. let (h1, e1) = w1.foreign x h in let (h2, e2) = w2.foreign x h1 in (h2, e2 ∙ e1);
  before_map = λ x l. w2.before_map x l ∙ w1.before_map x l;
  size = w2.size ∙ w1.size;
  inum = w2.inum ∙ w1.inum;
}

stop-IsWritten :
    (sb : Super) (src : Memory) (tot n off : ℕ) (ip : Inode) (d : Disk)
    → IsDisk sb d
    → IsFile sb d ip
    → n ≤ tot
    → IsWritten sb src tot n off ip d off ip d
stop-IsWritten sb src tot n off ip d v f done = record {
  disk = v;
  file = f;
  ending = omega arith;
  bytes = λ o l. let never : within off (n - tot) o ≡ false = ground arith in rw never;
  foreign = λ x h. (h, refl);
  before_map = λ x l. refl;
  size = refl;
  inum = refl;
}

write_from-step :
    (sb : Super) (fuel : ℕ) (src : Memory) (tot n off : ℕ) (ip : Inode) (d : Disk) {a : ℕ}
    {ip1 : Inode} {d1 : Disk}
    → ltb tot n ≡ true
    → bmap sb ip (off / block_size) d ≡ some (a, ip1, d1)
    → write_from sb (suc fuel) src tot n off ip d
      ≡ write_from sb fuel src
          (tot + chunk tot n off)
          n
          (off + chunk tot n off)
          ip1
          (put_block d1 a (copy_bytes (d1 a) (off % block_size) src tot (chunk tot n off)))
unfolding write_from
write_from-step sb fuel src tot n off ip d more got = ground arith

pub write_from-IsWritten :
    (sb : Super) (fuel : ℕ) (src : Memory) (tot n off : ℕ) (ip : Inode) (d : Disk) {off' : ℕ}
    {ip' : Inode} {d' : Disk}
    → AreBytes src
    → IsDisk sb d
    → IsFile sb d ip
    → n ≤ tot + fuel
    → write_from sb fuel src tot n off ip d ≡ some (off', ip', d')
    → IsWritten sb src tot n off ip d off' ip' d'
unfolding write_from
write_from-IsWritten sb zero src tot n off ip d {off'} {ip'} {d'} hs v f enough e =
    let eo : off' ≡ off = ground arith in
    let ei : ip' ≡ ip = ground arith in
    let ed : d' ≡ d = ground arith in
    rw (eo, ei, ed) (stop-IsWritten sb src tot n off ip d v f (omega arith))
write_from-IsWritten sb (suc fuel) src tot n off ip d {off'} {ip'} {d'} hs v f enough e =
    elim (Bool-cases (ltb tot n)) [
      | inr done ↦
          let eo : off' ≡ off = ground arith in
          let ei : ip' ≡ ip = ground arith in
          let ed : d' ≡ d = ground arith in
          rw (eo, ei, ed) (stop-IsWritten sb src tot n off ip d v f (ground arith))
      | inl more ↦ elim (Option-cases (bmap sb ip (off / block_size) d)) [
        | inl panic ↦ absurd (ground arith)
        | inr ((a, ip1, d1), got) ↦
            let (l, mapped) = bmap-IsMapped sb d ip (off / block_size) v f got in
            let m = chunk tot n off in
            let d2 = put_block d1 a (copy_bytes (d1 a) (off % block_size) src tot m) in
            let w = round-IsWritten sb src tot m off ip d a ip1 d1 hs f l (omega arith) mapped in
            let rest : write_from sb fuel src (tot + m) n (off + m) ip1 d2 ≡ some (off', ip', d') =
              sym (write_from-step sb fuel src tot n off ip d more got) ∙ e in
            let left : tot < n = ground arith in
            then-IsWritten sb src tot (tot + m) n off ip d (off + m) ip1 d2 off' ip' d'
              (omega arith) (omega arith) w
              (write_from-IsWritten sb fuel src (tot + m) n (off + m) ip1 d2 hs w.disk w.file
                (omega arith) rest)
      ]
    ]
