-- ===== src/Fs/Icache/Fresh.antt =====
-- `ialloc`: the number that it gives out, and what it leaves on the disk.
use laboratorio_ramiro.Kalloc.Owners.{count}
use laboratorio_ramiro.Fs.Icache.Counts.{Reach, iget-keeps}
use laboratorio_ramiro.CString.Copy.{memset_lem, within}
use laboratorio_ramiro.CString.{Memory, memset}
use laboratorio_ramiro.Fs.Inode.{store_half}
use laboratorio_ramiro.Prelude.{
  if◌then◌else◌, ◌%◌, ap, Bool-cases, zero, ◌∙◌, false, inl, ◌≤◌, ◌≡◌, ◌-◌, List, ◌^◌, Option-cases,
  ◌==◌, ◌<◌, ◌≢◌, suc, inr, ◌/◌, ◌*◌, true, ◌+◌, arith, some, ℕ,
}
use laboratorio_ramiro.Fs.{Disk, Super}
use laboratorio_ramiro.Fs.Icache.{iget, disk_type, iblock, Icache, ialloc, ialloc_from, mark_inode}

-- Byte `o` of inode `j` on the disk.
abbrev pub dinode_byte : Super → Disk → ℕ → ℕ → ℕ
dinode_byte sb d j o = d (iblock sb j) (j % 8 * 64 + o)

-- A new inode has its type, and no links, size or blocks.
unfoldable pub new_byte : ℕ → ℕ → ℕ
new_byte type o = if o == 0 then type % 256 else if o == 1 then type / 256 % 256 else 0

cleared_byte :
    (m : Memory) (a type x : ℕ)
    → store_half (memset m a 0 64) a type x ≡ (if within a 64 x then new_byte type (x - a) else m x)
unfolding store_half new_byte
cleared_byte m a type x = ground (arith, memset_lem m a 0 64 x)

mark_inode_lem :
    (sb : Super) (type inum : ℕ) (d : Disk) (j o : ℕ)
    → o < 64
    → dinode_byte sb (mark_inode sb type inum d) j o
      ≡ (if j == inum then new_byte type o else dinode_byte sb d j o)
unfolding mark_inode
mark_inode_lem sb type inum d j o l = elim (Bool-cases (iblock sb j == iblock sb inum)) [
  | inr other ↦ let ne : (j == inum) ≡ false = ground arith in rw (other, ne)
  | inl here ↦
      let at : iblock sb j ≡ iblock sb inum = ground arith in
      let b = cleared_byte (d (iblock sb inum)) (inum % 8 * 64) type (j % 8 * 64 + o) in
      rw here (
        b ∙ elim (Bool-cases (j == inum)) [
          | inl same ↦
              let e : j ≡ inum = ground arith in
              let inside : within (inum % 8 * 64) 64 (j % 8 * 64 + o) ≡ true = ground arith in
              let place : j % 8 * 64 + o - inum % 8 * 64 ≡ o = omega (arith, ap (λ x. x % 8) e) in
              rw (inside, same, place)
          | inr ne ↦
              let apart : j % 8 ≢ inum % 8 = ground arith in
              let outside : within (inum % 8 * 64) 64 (j % 8 * 64 + o) ≡ false = ground arith in
              rw (outside, ne, ← at)
        ])
]

ialloc_from-first :
    (sb : Super) (type n k : ℕ) (d : Disk) {inum : ℕ} {d' : Disk}
    → ialloc_from sb type n k d ≡ some (inum, d')
    → (k ≤ inum)
      × (inum < sb.ninodes)
      × (disk_type sb d inum ≡ 0)
      × (d' ≡ mark_inode sb type inum d)
unfolding ialloc_from
ialloc_from-first sb type zero k d e = absurd (ground arith)
ialloc_from-first sb type (suc n) k d {inum} {d'} e = elim (Bool-cases (disk_type sb d k == 0)) [
  | inl free ↦
      let at : k ≡ inum = ground arith in
      let disk : mark_inode sb type k d ≡ d' = ground arith in
      (omega arith, ground arith, rw (← at) (ground arith), rw (← at, disk))
  | inr taken ↦
      let (a, b, c, z) =
        ialloc_from-first sb type n (k + 1) d {inum = inum} {d' = d'} (ground arith) in
      (omega arith, b, c, z)
]

-- What `ialloc` leaves when it gives out number `inum`.
pub record IsFresh (sb : Super) (d : Disk) (type inum : ℕ) (d' : Disk) : Type 0 where
  pub some_number : 0 < inum
  pub inside : inum < sb.ninodes
  pub was_free : disk_type sb d inum ≡ 0
  pub typed : disk_type sb d' inum ≡ type
  pub bytes :
      (j o : ℕ)
      → o < 64
      → dinode_byte sb d' j o ≡ (if j == inum then new_byte type o else dinode_byte sb d j o)

mark_inode-IsFresh :
    (sb : Super) (d : Disk) (type inum : ℕ)
    → type < 2 ^ 16
    → 0 < inum
    → inum < sb.ninodes
    → disk_type sb d inum ≡ 0
    → IsFresh sb d type inum (mark_inode sb type inum d)
unfolding new_byte
mark_inode-IsFresh sb d type inum small positive inside free = record {
  some_number = positive;
  inside = inside;
  was_free = free;
  typed = ground (
    arith,
    mark_inode_lem sb type inum d inum 0 (omega arith),
    mark_inode_lem sb type inum d inum 1 (omega arith),
  );
  bytes = λ j o l. mark_inode_lem sb type inum d j o l;
}

-- In a reachable state, where `ialloc` of a type of 16 bits does not panic, it gives out a number above 0 that
-- was free on the disk; on the disk that inode then has the type, and nothing else, and every other
-- inode is as it was. The entry answered is for that number on the device, and is counted.
pub ialloc-IsFresh :
    (sb : Super) (dev type : ℕ) (c c' : Icache) (held : List ℕ) (d d' : Disk) (i : ℕ)
    → Reach (c, held)
    → type < 2 ^ 16
    → ialloc sb dev type c d ≡ some (i, c', d')
    → IsFresh sb d type (c' i).inum d' × ((c' i).dev ≡ dev) × ((c' i).ref ≡ suc (count i held))
unfolding ialloc
ialloc-IsFresh sb dev type c c' held d d' i r small e =
    elim (Option-cases (ialloc_from sb type sb.ninodes 1 d)) [
      | inl full ↦ absurd (ground arith)
      | inr ((inum, d1), got) ↦ elim (Option-cases (iget dev inum c)) [
        | inl no_entry ↦ absurd (ground arith)
        | inr ((k, c1), entry) ↦
            let at : i ≡ k = ground arith in
            let same_cache : c' ≡ c1 = ground arith in
            let same_disk : d' ≡ d1 = ground arith in
            let (above, inside, free, marked) = ialloc_from-first sb type sb.ninodes 1 d got in
            let (same_dev, same_inum, ref, others, whole) =
              iget-keeps c c1 held dev inum k r entry in
            rw (at, same_cache, same_disk, same_inum, marked)
              (mark_inode-IsFresh sb d type inum small above inside free, same_dev, ref)
      ]
    ]
