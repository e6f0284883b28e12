-- ===== src/Fs/Content/Bytes.antt =====
-- The bytes of a file, and what a change of one of its blocks does to them.
use laboratorio_ramiro.Prelude.{
  ◌+◌, ◌≤◌, ◌≡◌, ◌≢◌, arith, sym, ◌<◌, ◌∙◌, Bool-cases, inr, ap, ◌%◌, inl, false, ℕ, true,
  if◌then◌else◌, ◌==◌, ◌/◌, refl,
}
use laboratorio_ramiro.Fs.{put_block, Memory, block_size, Super, Disk}
use laboratorio_ramiro.Fs.Inode.{ndirect, maxfile, Inode}
use laboratorio_ramiro.Fs.Inode.Slots.{IsData, IsFile, slot}
use laboratorio_ramiro.Fs.Alloc.{written-used, written-IsDisk, IsDisk}
use laboratorio_ramiro.Fs.Inode.Map.{IsMapped}
use laboratorio_ramiro.Fs.Bitmap.{AreBytes}
use laboratorio_ramiro.CString.Copy.{within}

-- The byte at offset `o`; where the file has no block there, 0.
unfoldable pub byte : Disk → Inode → ℕ → ℕ
byte d ip o = let a = slot d ip (o / block_size) in if a == 0 then 0 else d a (o % block_size)

-- `bmap` changes no byte of the file.
pub mapped-byte :
    (sb : Super) (d : Disk) (ip : Inode) (bn a : ℕ) (d' : Disk) (ip' : Inode) (o : ℕ)
    → IsFile sb d ip
    → IsMapped sb d ip bn a d' ip'
    → o / block_size < maxfile
    → byte d' ip' o ≡ byte d ip o
unfolding byte
mapped-byte sb d ip bn a d' ip' o f m l =
    let k = o / block_size in
    elim (Bool-cases (slot d ip k == 0)) [
      | inl hole ↦ elim (Bool-cases (k == bn)) [
        | inl here ↦
            let at : k ≡ bn = ground arith in
            let z : slot d ip bn ≡ 0 = ap (slot d ip) (sym at) ∙ ground arith in
            let now : slot d' ip' k ≡ a = ap (slot d' ip') at ∙ m.found in
            let nz : (a == 0) ≡ false = ground (arith, m.positive) in
            rw (now, nz, hole) ((m.fresh z).1 (o % block_size))
        | inr off ↦ let same = m.same k l (ground arith) in rw (same, hole)
      ]
      | inr full ↦
          let nz : slot d ip k ≢ 0 = ground arith in
          let h = f.mine k l nz in
          let block : d' (slot d ip k) ≡ d (slot d ip k) =
            m.kept (slot d ip k) h (f.apart k l nz) in
          let same : slot d' ip' k ≡ slot d ip k = elim (Bool-cases (k == bn)) [
            | inl here ↦
                let at : k ≡ bn = ground arith in
                let old : slot d ip bn ≢ 0 = λ z. nz (ap (slot d ip) at ∙ z) in
                ap (slot d' ip') at ∙ m.found ∙ m.old old ∙ ap (slot d ip) (sym at)
            | inr off ↦ m.same k l (ground arith)
          ] in
          rw (same, full) (ap (λ b. b (o % block_size)) block)
    ]

-- A file whose places and table stay, while blocks in use stay in use.
pub kept-IsFile :
    (sb : Super) (d : Disk) (ip : Inode) (d' : Disk) (ip' : Inode)
    → IsFile sb d ip
    → ((k : ℕ) → k < maxfile → slot d' ip' k ≡ slot d ip k)
    → ip'.addrs ndirect ≡ ip.addrs ndirect
    → ((x : ℕ) → IsData sb d x → IsData sb d' x)
    → IsFile sb d' ip'
kept-IsFile sb d ip d' ip' f same table grows = record {
  mine = λ k l nz. rw (same k l) (grows (slot d ip k) (f.mine k l (λ z. nz (same k l ∙ z))));
  table = λ nz. rw table (grows (ip.addrs ndirect) (f.table (λ z. nz (table ∙ z))));
  distinct = λ i j li lj nz e.
      f.distinct i j li lj (λ z. nz (same i li ∙ z)) (sym (same i li) ∙ e ∙ same j lj);
  apart = λ k l nz e. f.apart k l (λ z. nz (same k l ∙ z)) (sym (same k l) ∙ e ∙ table);
}

module _ (sb : Super) (d : Disk) (ip : Inode) (v : IsDisk sb d) (f : IsFile sb d ip) where
  -- A write to a block that is not the table.
  pub put_block-slot :
      (a : ℕ) (m : Memory) (k : ℕ)
      → (ip.addrs ndirect ≢ 0 → a ≢ ip.addrs ndirect)
      → slot (put_block d a m) ip k ≡ slot d ip k
  unfolding slot
  put_block-slot a m k off = elim (Bool-cases (ip.addrs ndirect == 0)) [
    | inl no_table ↦ rw no_table
    | inr there ↦
        let h = off (ground arith) in
        let ne : (ip.addrs ndirect == a) ≡ false = ground arith in rw (there, ne)
  ]

  -- A write to the block at place `bn`.
  pub put_block-IsFile :
      (bn a : ℕ) (m : Memory)
      → bn < maxfile
      → slot d ip bn ≡ a
      → a ≢ 0
      → AreBytes m
      → IsDisk sb (put_block d a m) × IsFile sb (put_block d a m) ip
  put_block-IsFile bn a m l at nz h =
      let g : IsData sb d a = rw (← at) (f.mine bn l (λ z. nz (sym at ∙ z))) in
      let off : ip.addrs ndirect ≢ 0 → a ≢ ip.addrs ndirect =
        λ t e. f.apart bn l (λ z. nz (sym at ∙ z)) (at ∙ e) in
      (
        written-IsDisk sb d v a m g.behind h,
        kept-IsFile sb d ip (put_block d a m) ip f (λ k lk. put_block-slot a m k off) refl
            (λ x hx. record {
              behind = hx.behind;
              inside = hx.inside;
              used = written-used sb d v a x m g.behind hx.inside ∙ hx.used;
            }),
      )

  pub put_block-byte :
      (bn a : ℕ) (m : Memory) (o : ℕ)
      → bn < maxfile
      → slot d ip bn ≡ a
      → a ≢ 0
      → o / block_size < maxfile
      → byte (put_block d a m) ip o
        ≡ (if o / block_size == bn then m (o % block_size) else byte d ip o)
  unfolding byte
  put_block-byte bn a m o l at nz lo =
      let k = o / block_size in
      let off : ip.addrs ndirect ≢ 0 → a ≢ ip.addrs ndirect =
        λ t e. f.apart bn l (λ z. nz (sym at ∙ z)) (at ∙ e) in
      let same = put_block-slot a m k off in
      elim (Bool-cases (k == bn)) [
        | inl here ↦
            let e : k ≡ bn = ground arith in
            let now : slot d ip k ≡ a = ap (slot d ip) e ∙ at in
            let n0 : (a == 0) ≡ false = ground arith in
            let self : (a == a) ≡ true = ground arith in rw (here, same, now, n0, self)
        | inr else_where ↦ elim (Bool-cases (slot d ip k == a)) [
          | inl clash ↦
              let both : slot d ip bn ≡ slot d ip k = at ∙ ground arith in
              let e = f.distinct bn k l lo (λ z. nz (sym at ∙ z)) both in absurd (ground arith)
          | inr other ↦ rw (else_where, same, other)
        ]
      ]

pub byte-block :
    (d : Disk) (ip : Inode) (o a : ℕ)
    → slot d ip (o / block_size) ≡ a
    → a ≢ 0
    → byte d ip o ≡ d a (o % block_size)
unfolding byte
byte-block d ip o a e nz = let n0 : (a == 0) ≡ false = ground arith in rw (e, n0)

-- Offset `o` among `m` bytes from `off` on that lie in one block.
pub within_block :
    (off m o : ℕ)
    → o / block_size ≡ off / block_size
    → within (off % block_size) m (o % block_size) ≡ within off m o
within_block off m o e = ground arith

pub within_other :
    (off m o : ℕ)
    → o / block_size ≢ off / block_size
    → off % block_size + m ≤ block_size
    → within off m o ≡ false
within_other off m o ne fits = ground arith
