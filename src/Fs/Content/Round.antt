-- ===== src/Fs/Content/Round.antt =====
-- One round of the loop of `writei`.
use laboratorio_ramiro.CString.Copy.{within}
use laboratorio_ramiro.Prelude.{
  ◌≤◌, Bool-cases, ◌-◌, sym, ◌≢◌, ◌%◌, ◌≡◌, ap, false, inl, true, ◌<◌, ◌+◌, ◌*◌, ◌/◌, if◌then◌else◌,
  ℕ, ◌==◌, arith, ◌∙◌, inr,
}
use laboratorio_ramiro.Fs.{put_block, block_size, Memory, Disk, Super}
use laboratorio_ramiro.Fs.Inode.{ndirect, maxfile, Inode}
use laboratorio_ramiro.Fs.Inode.Slots.{IsFile, slot, IsData}
use laboratorio_ramiro.Fs.Alloc.{written-used, data_start, is_used, IsDisk}
use laboratorio_ramiro.Fs.Bitmap.{AreBytes}
use laboratorio_ramiro.Fs.Inode.Map.{IsMapped}
use laboratorio_ramiro.Fs.Content.Bytes.{
  put_block-slot, byte-block, within_block, within_other, mapped-byte, put_block-byte,
  put_block-IsFile, byte,
}
use laboratorio_ramiro.Fs.Content.{copy_bytes}

-- A block of the data that is in use, and not by this file.
pub record IsForeign (sb : Super) (d : Disk) (ip : Inode) (x : ℕ) : Type 0 where
  pub data_block : IsData sb d x
  pub no_slot : (k : ℕ) → k < maxfile → slot d ip k ≢ x
  pub no_table : ip.addrs ndirect ≢ x

pub mapped-IsForeign :
    (sb : Super) (d : Disk) (ip : Inode) (bn a : ℕ) (d' : Disk) (ip' : Inode) (x : ℕ)
    → bn < maxfile
    → IsMapped sb d ip bn a d' ip'
    → IsForeign sb d ip x
    → IsForeign sb d' ip' x × (x ≢ a)
mapped-IsForeign sb d ip bn a d' ip' x l m h =
    let used = h.data_block.used in
    let new : x ≢ a = λ e. elim (Bool-cases (slot d ip bn == 0)) [
      | inl hole ↦
          let u : is_used sb d a ≡ true = rw (← e) used in
          absurd (cc (u, (m.fresh (ground arith)).0))
      | inr full ↦ absurd (h.no_slot bn l (sym (m.old (ground arith)) ∙ sym e))
    ] in
    (
      record {
        data_block = m.grows x h.data_block;
        no_slot = λ k lk e. elim (Bool-cases (k == bn)) [
          | inl here ↦ let at : k ≡ bn = ground arith in new (sym e ∙ ap (slot d' ip') at ∙ m.found)
          | inr off ↦ h.no_slot k lk (sym (m.same k lk (ground arith)) ∙ e)
        ];
        no_table = λ e. elim m.table [
          | inl same ↦ h.no_table (sym same ∙ e)
          | inr free ↦
              let u : is_used sb d (ip'.addrs ndirect) ≡ true = rw e used in absurd (cc (u, free))
        ];
      },
      new,
    )

-- What the loop of `writei` has done when it comes to `off'`.
pub record IsWritten (sb : Super) (src : Memory) (tot n off : ℕ) (ip : Inode) (d : Disk) (off' : ℕ)
    (ip' : Inode) (d' : Disk) : Type 0 where
  pub disk : IsDisk sb d'
  pub file : IsFile sb d' ip'
  pub ending : off' ≡ off + (n - tot)
  pub bytes :
      (o : ℕ)
      → o < maxfile * block_size
      → byte d' ip' o ≡ (if within off (n - tot) o then src (tot + (o - off)) else byte d ip o)
  pub foreign : (x : ℕ) → IsForeign sb d ip x → IsForeign sb d' ip' x × (d' x ≡ d x)
  pub before_map : (x : ℕ) → x < sb.bmapstart → d' x ≡ d x
  pub size : ip'.size ≡ ip.size
  pub inum : ip'.inum ≡ ip.inum

round-bytes :
    (sb : Super) (src : Memory) (tot m off : ℕ) (ip : Inode) (d : Disk) (a : ℕ) (ip1 : Inode)
    (d1 : Disk) (o : ℕ)
    → IsFile sb d ip
    → off % block_size + m ≤ block_size
    → IsMapped sb d ip (off / block_size) a d1 ip1
    → o / block_size < maxfile
    → (if o / block_size == off / block_size
        then copy_bytes (d1 a) (off % block_size) src tot m (o % block_size)
        else byte d1 ip1 o)
      ≡ (if within off m o then src (tot + (o - off)) else byte d ip o)
round-bytes sb src tot m off ip d a ip1 d1 o f fits mapped small =
    let same = mapped-byte sb d ip (off / block_size) a d1 ip1 o f mapped small in
    elim (Bool-cases (o / block_size == off / block_size)) [
      | inr other ↦ rw (other, within_other off m o (ground arith) fits) same
      | inl here ↦
          let e : o / block_size ≡ off / block_size = ground arith in
          let inside = within_block off m o e in
          elim (Bool-cases (within off m o)) [
            | inl copied ↦
                let place : o % block_size - off % block_size ≡ o - off = ground arith in
                rw (here, inside, copied) (ap (λ k. src (tot + k)) place)
            | inr left ↦
                let at = ap (slot d1 ip1) e ∙ mapped.found in
                rw (here, inside, left) (sym (byte-block d1 ip1 o a at mapped.positive) ∙ same)
          ]
    ]

-- One round, of `m` bytes within a block.
pub round-IsWritten :
    (sb : Super) (src : Memory) (tot m off : ℕ) (ip : Inode) (d : Disk) (a : ℕ) (ip1 : Inode)
    (d1 : Disk)
    → AreBytes src
    → IsFile sb d ip
    → off / block_size < maxfile
    → off % block_size + m ≤ block_size
    → IsMapped sb d ip (off / block_size) a d1 ip1
    → IsWritten sb src tot
        (tot + m)
        off
        ip
        d
        (off + m)
        ip1
        (put_block d1 a (copy_bytes (d1 a) (off % block_size) src tot m))
round-IsWritten sb src tot m off ip d a ip1 d1 hs f l fits mapped =
    let new = copy_bytes (d1 a) (off % block_size) src tot m in
    let new_bytes : AreBytes new =
      λ i. ground (arith, hs (tot + (i - off % block_size)), mapped.disk.bytes a i) in
    let (disk, file) =
      put_block-IsFile sb d1 ip1 mapped.disk mapped.file (off / block_size) a new l mapped.found
        mapped.positive new_bytes in
    let own = mapped.file.mine (off / block_size) l (λ z. mapped.positive (sym mapped.found ∙ z)) in
    let behind : data_start sb ≤ a = omega (arith, own.behind, mapped.found) in
    let apart : ip1.addrs ndirect ≢ 0 → a ≢ ip1.addrs ndirect = λ t e.
      mapped.file.apart (off / block_size) l (λ z. mapped.positive (sym mapped.found ∙ z))
        (mapped.found ∙ e) in
    let count : m ≡ tot + m - tot = omega arith in
    record {
      disk = disk;
      file = file;
      ending = omega arith;
      bytes = λ o lo.
          let small : o / block_size < maxfile = omega arith in
          put_block-byte sb d1 ip1 mapped.disk mapped.file (off / block_size) a new o l mapped.found
            mapped.positive small
          ∙ round-bytes sb src tot m off ip d a ip1 d1 o f fits mapped small
          ∙ ap (λ k. if within off k o then src (tot + (o - off)) else byte d ip o) count;
      foreign = λ x h.
          let (h1, ne) = mapped-IsForeign sb d ip (off / block_size) a d1 ip1 x l mapped h in
          let nx : (x == a) ≡ false = ground arith in
          (
            record {
              data_block = record {
                behind = h1.data_block.behind;
                inside = h1.data_block.inside;
                used =
                    written-used sb d1 mapped.disk a x new behind h1.data_block.inside
                    ∙ h1.data_block.used;
              };
              no_slot = λ k lk e.
                  h1.no_slot k lk
                    (sym (put_block-slot sb d1 ip1 mapped.disk mapped.file a new k apart) ∙ e);
              no_table = h1.no_table;
            },
            rw nx (mapped.kept x h.data_block (λ e. h.no_table (sym e))),
          );
      before_map =
          λ x lx. let nx : (x == a) ≡ false = ground arith in rw nx (mapped.before_map x lx);
      size = mapped.size;
      inum = mapped.inum;
    }
