-- ===== src/Fs/Namex/Keeps.antt =====
-- What reading and freeing an inode leave of its entry in the cache: its device, its number and its count.
use laboratorio_ramiro.Fs.{Disk, Super, bfree}
use laboratorio_ramiro.Fs.Inode.{nindirect, ndirect, ilock, Inode, load_dinode, set_addr}
use laboratorio_ramiro.Fs.Content.{free_direct, free_indirect, itrunc, free_table}
use laboratorio_ramiro.Fs.Icache.{Icache, iput, put_inode, iput_free, ifree, iput_drop}
use laboratorio_ramiro.Fs.Icache.Counts.{Reach, works, drops, next}
use laboratorio_ramiro.Prelude.{
  suc, arith, Bool-cases, zero, ◌&&◌, inr, some, List, ◌+◌, Option-cases, ◌≡◌, ◌++◌, [], ◌∷◌, inl,
  ◌==◌, ℕ,
}

pub record SameEntry (ip ip' : Inode) : Type 0 where
  pub dev : ip'.dev ≡ ip.dev
  pub inum : ip'.inum ≡ ip.inum
  pub ref : ip'.ref ≡ ip.ref

ilock-SameEntry :
    (sb : Super) (d : Disk) (ip : Inode) {ip' : Inode} → ilock sb d ip ≡ some ip' → SameEntry ip ip'
unfolding ilock load_dinode
ilock-SameEntry sb d ip {ip'} e = record {
  dev = ground (arith, e);
  inum = ground (arith, e);
  ref = ground (arith, e);
}

free_direct-SameEntry :
    (sb : Super) (n i : ℕ) (ip : Inode) (d : Disk) {ip' : Inode} {d' : Disk}
    → free_direct sb n i ip d ≡ some (ip', d')
    → SameEntry ip ip'
unfolding free_direct
free_direct-SameEntry sb zero i ip d {ip'} {d'} e = record {
  dev = ground arith;
  inum = ground arith;
  ref = ground arith;
}
free_direct-SameEntry sb (suc n) i ip d {ip'} {d'} e = elim (Bool-cases (ip.addrs i == 0)) [
  | inl hole ↦ free_direct-SameEntry sb n (i + 1) ip d {d' = d'} (ground arith)
  | inr full ↦ elim (Option-cases (bfree sb (ip.addrs i) d)) [
    | inl panic ↦ absurd (ground arith)
    | inr (d1, freed) ↦
        let h =
          free_direct-SameEntry sb n (i + 1) (set_addr ip i 0) d1 {ip' = ip'} {d' = d'}
            (ground arith) in
        record { dev = h.dev; inum = h.inum; ref = h.ref }
  ]
]

free_indirect-SameEntry :
    (sb : Super) (ip : Inode) (d : Disk) {ip' : Inode} {d' : Disk}
    → free_indirect sb ip d ≡ some (ip', d')
    → SameEntry ip ip'
unfolding free_indirect
free_indirect-SameEntry sb ip d {ip'} {d'} e = elim (Bool-cases (ip.addrs ndirect == 0)) [
  | inl hole ↦ record { dev = ground arith; inum = ground arith; ref = ground arith }
  | inr full ↦ elim (Option-cases (free_table sb nindirect 0 (ip.addrs ndirect) d)) [
    | inl panic ↦ absurd (ground arith)
    | inr (d1, freed) ↦ elim (Option-cases (bfree sb (ip.addrs ndirect) d1)) [
      | inl panic ↦ absurd (ground arith)
      | inr (d2, last) ↦ record { dev = ground arith; inum = ground arith; ref = ground arith }
    ]
  ]
]

itrunc-SameEntry :
    (sb : Super) (ip : Inode) (d : Disk) {ip' : Inode} {d' : Disk}
    → itrunc sb ip d ≡ some (ip', d')
    → SameEntry ip ip'
unfolding itrunc
itrunc-SameEntry sb ip d {ip'} {d'} e = elim (Option-cases (free_direct sb ndirect 0 ip d)) [
  | inl panic ↦ absurd (ground arith)
  | inr ((ip1, d1), direct) ↦ elim (Option-cases (free_indirect sb ip1 d1)) [
    | inl panic ↦ absurd (ground arith)
    | inr ((ip2, d2), indirect) ↦
        let a = free_direct-SameEntry sb ndirect 0 ip d direct in
        let b = free_indirect-SameEntry sb ip1 d1 indirect in
        record {
          dev = ground (arith, a.dev, b.dev);
          inum = ground (arith, a.inum, b.inum);
          ref = ground (arith, a.ref, b.ref);
        }
  ]
]

ifree-SameEntry :
    (sb : Super) (ip : Inode) (d : Disk) {ip' : Inode} {d' : Disk}
    → ifree sb ip d ≡ some (ip', d')
    → SameEntry ip ip'
unfolding ifree
ifree-SameEntry sb ip d {ip'} {d'} e = elim (Option-cases (itrunc sb ip d)) [
  | inl panic ↦ absurd (ground arith)
  | inr ((ip1, d1), cut) ↦
      let a = itrunc-SameEntry sb ip d cut in
      record {
        dev = ground (arith, a.dev);
        inum = ground (arith, a.inum);
        ref = ground (arith, a.ref);
      }
]

pub ilock-Reach :
    (sb : Super) (c : Icache) (d : Disk) (i : ℕ) (held : List ℕ) (ip : Inode)
    → Reach (c, i ∷ held)
    → ilock sb d (c i) ≡ some ip
    → Reach (put_inode c i ip, i ∷ held)
ilock-Reach sb c d i held ip r e =
    let h = ilock-SameEntry sb d (c i) e in next r (works [] i held ip h.dev h.inum h.ref)

-- `iput` gives up one reference.
pub iput-Reach :
    (sb : Super) (c : Icache) (d : Disk) (before : List ℕ) (i : ℕ) (after : List ℕ) {c' : Icache}
    {d' : Disk}
    → Reach (c, before ++ i ∷ after)
    → iput sb i c d ≡ some (c', d')
    → Reach (c', before ++ after)
unfolding iput iput_free
iput-Reach sb c d before i after {c'} {d'} r e =
    elim (Bool-cases ((c i).valid && ((c i).nlink == 0 && (c i).ref == 1))) [
      | inr stays ↦
          let same : iput_drop i c ≡ c' = ground arith in
          rw (← same) (next r (drops before i after))
      | inl last ↦ elim (Option-cases (ifree sb (c i) d)) [
        | inl panic ↦ absurd (ground arith)
        | inr ((ip, d1), freed) ↦
            let h = ifree-SameEntry sb (c i) d freed in
            let same : iput_drop i (put_inode c i ip) ≡ c' = ground arith in
            let worked = next r (works before i after ip h.dev h.inum h.ref) in
            rw (← same) (next worked (drops before i after))
      ]
    ]
