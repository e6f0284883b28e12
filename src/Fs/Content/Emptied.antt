-- ===== src/Fs/Content/Emptied.antt =====
-- `itrunc` up to the size: the direct blocks and then the table.
use laboratorio_ramiro.Args.{word_at}
use laboratorio_ramiro.Prelude.{
  ap, not, some, inl, inr, ◌&&◌, Bool-cases, arith, Bool, ◌≢◌, ◌≤◌, ltb, ◌==◌, ◌∙◌, ◌*◌, ◌-◌, ◌||◌,
  true, sym, ◌+◌, ◌<◌, ℕ, subst, false, ◌≡◌,
}
use laboratorio_ramiro.Fs.{bfree, Super, Disk}
use laboratorio_ramiro.Fs.Inode.Slots.{IsData, IsFile, slot}
use laboratorio_ramiro.Fs.Inode.{nindirect, maxfile, ndirect, Inode}
use laboratorio_ramiro.Fs.Content.Trunc.{hits-at, hits-none, AreFreed, AreBlocks, hits}
use laboratorio_ramiro.Fs.Alloc.{bfree-IsFreed, data_start, is_used, IsDisk}
use laboratorio_ramiro.Fs.Content.{free_table, set_addr, free_indirect}
use laboratorio_ramiro.Fs.Content.Frees.{free_table-AreFreed, IsCleared}

-- The entries of the table.
abbrev pub entry : Disk → Inode → ℕ → ℕ
entry d ip k = word_at (d (ip.addrs ndirect)) (4 * k)

pub direct-AreBlocks :
    (sb : Super) (d : Disk) (ip : Inode) → IsFile sb d ip → AreBlocks sb d ip.addrs 0 ndirect
unfolding slot
direct-AreBlocks sb d ip f =
    let at : (k : ℕ) → k < ndirect → slot d ip k ≡ ip.addrs k =
      λ k l. let near : ltb k ndirect ≡ true = ground arith in rw near in
    record {
      in_use = λ k lo hi nz.
          let e = at k (omega arith) in
          subst (IsData sb d) e (f.mine k (omega arith) (λ z. nz (sym e ∙ z)));
      distinct = λ i k li hi lk hk nz e.
          let ei = at i (omega arith) in
          let ek = at k (omega arith) in
          f.distinct i k (omega arith) (omega arith) (λ z. nz (sym ei ∙ z)) (ei ∙ e ∙ sym ek);
    }

-- The place of an entry of the table.
slot-entry :
    (d : Disk) (ip : Inode) (k : ℕ) → ip.addrs ndirect ≢ 0 → slot d ip (ndirect + k) ≡ entry d ip k
unfolding slot
slot-entry d ip k nz =
    let far : ltb (ndirect + k) ndirect ≡ false = ground arith in
    let there : (ip.addrs ndirect == 0) ≡ false = ground arith in
    let place : ndirect + k - ndirect ≡ k = omega arith in rw (far, there, place)

-- A block at no place of the file.
pub unplaced :
    (d : Disk) (ip : Inode) (x : ℕ)
    → ((k : ℕ) → k < maxfile → slot d ip k ≢ x)
    → (hits ip.addrs 0 ndirect x ≡ false)
      × (ip.addrs ndirect ≢ 0 → hits (entry d ip) 0 nindirect x ≡ false)
unfolding slot
unplaced d ip x h = (
  hits-none ip.addrs 0 ndirect x λ i lo hi e.
      let near : ltb i ndirect ≡ true = ground arith in
      let here : slot d ip i ≡ ip.addrs i = rw near in h i (omega arith) (here ∙ e),
  λ nt.
      hits-none (entry d ip) 0 nindirect x
        λ i lo hi e. h (ndirect + i) (omega arith) (slot-entry d ip i nt ∙ e),
)

-- Once the direct blocks are free, the entries of the table still are data in use.
entries-AreBlocks :
    (sb : Super) (d d1 : Disk) (ip : Inode)
    → IsFile sb d ip
    → ip.addrs ndirect ≢ 0
    → AreFreed sb d ip.addrs 0 ndirect d1
    → AreBlocks sb d1 (entry d ip) 0 nindirect
unfolding slot
entries-AreBlocks sb d d1 ip f nt h =
    let at = λ (k : ℕ). slot-entry d ip k nt in
    record {
      in_use = λ k lo hi nz.
          let g : IsData sb d (entry d ip k) =
            subst (IsData sb d) (at k)
              (f.mine (ndirect + k) (omega arith) (λ z. nz (sym (at k) ∙ z))) in
          let apart : hits ip.addrs 0 ndirect (entry d ip k) ≡ false =
            hits-none ip.addrs 0 ndirect (entry d ip k) λ i li hi' e.
              let near : ltb i ndirect ≡ true = ground arith in
              let here : slot d ip i ≡ ip.addrs i = rw near in
              let same =
                f.distinct (ndirect + k) i (omega arith) (omega arith) (λ z. nz (sym (at k) ∙ z))
                  (at k ∙ sym e ∙ sym here) in
              absurd (omega arith) in
          record {
            behind = g.behind;
            inside = g.inside;
            used = ground (arith, h.used (entry d ip k) g.behind g.inside, apart, g.used);
          };
      distinct = λ i k li hi lk hk nz e.
          let same =
            f.distinct (ndirect + i) (ndirect + k) (omega arith) (omega arith)
              (λ z. nz (sym (at i) ∙ z)) (at i ∙ e ∙ sym (at k)) in
          omega arith;
    }

-- The blocks that `itrunc` frees.
abbrev pub gone : Disk → Inode → ℕ → Bool
gone d ip x =
    hits ip.addrs 0 ndirect x
    || not (ip.addrs ndirect == 0) && (hits (entry d ip) 0 nindirect x || ip.addrs ndirect == x)

pub slot-gone :
    (d : Disk) (ip : Inode) (k : ℕ) → k < maxfile → slot d ip k ≢ 0 → gone d ip (slot d ip k) ≡ true
unfolding slot
slot-gone d ip k l nz = elim (Bool-cases (ltb k ndirect)) [
  | inl near ↦
      let here : slot d ip k ≡ ip.addrs k = rw near in
      let hit = hits-at ip.addrs 0 ndirect k (omega arith) (ground arith) in
      ap (gone d ip) here ∙ ground (arith, hit)
  | inr far ↦ elim (Bool-cases (ip.addrs ndirect == 0)) [
    | inl no_table ↦ absurd (nz (rw (far, no_table)))
    | inr there ↦
        let here : slot d ip k ≡ entry d ip (k - ndirect) = rw (far, there) in
        let hit = hits-at (entry d ip) 0 nindirect (k - ndirect) (omega arith) (ground arith) in
        ap (gone d ip) here ∙ ground (arith, hit, there)
  ]
]

-- The two loops have run.
pub record IsEmptied (sb : Super) (d : Disk) (ip : Inode) (d' : Disk) (ip' : Inode) : Type 0 where
  pub disk : IsDisk sb d'
  pub used :
      (x : ℕ)
      → data_start sb ≤ x
      → x < sb.size
      → is_used sb d' x ≡ (is_used sb d x && not (gone d ip x))
  pub kept : (x : ℕ) → data_start sb ≤ x → d' x ≡ d x
  pub empty : (k : ℕ) → k ≤ ndirect → ip'.addrs k ≡ 0
  pub rest : ip' ≡ record ip { addrs = ip'.addrs }

free_indirect-frees :
    (sb : Super) (ip : Inode) (d d1 d2 : Disk) (t : ℕ)
    → ip.addrs ndirect ≡ t
    → t ≢ 0
    → free_table sb nindirect 0 t d ≡ some d1
    → bfree sb t d1 ≡ some d2
    → free_indirect sb ip d ≡ some (set_addr ip ndirect 0, d2)
unfolding free_indirect
free_indirect-frees sb ip d d1 d2 t e nt e1 e2 =
    let there : (ip.addrs ndirect == 0) ≡ false = ground arith in
    let first_freed : free_table sb nindirect 0 (ip.addrs ndirect) d ≡ some d1 =
      ap (λ x. free_table sb nindirect 0 x d) e ∙ e1 in
    let then_freed : bfree sb (ip.addrs ndirect) d1 ≡ some d2 = ap (λ x. bfree sb x d1) e ∙ e2 in
    ground (arith, there, first_freed, then_freed)

-- The part of `itrunc` before the size is set.
pub indirect-IsEmptied :
    (sb : Super) (d d1 : Disk) (ip ip1 : Inode)
    → IsFile sb d ip
    → AreFreed sb d ip.addrs 0 ndirect d1
    → IsCleared 0 ndirect ip ip1
    → (d' : Disk) × (ip' : Inode) × (free_indirect sb ip1 d1 ≡ some (ip', d'))
      × IsEmptied sb d ip d' ip'
unfolding free_indirect
indirect-IsEmptied sb d d1 ip ip1 f h c =
    let table : ip1.addrs ndirect ≡ ip.addrs ndirect = c.stays ndirect (omega arith) in
    elim (Bool-cases (ip.addrs ndirect == 0)) [
      | inl no_table ↦ (
        d1,
        ip1,
        ground (arith, table),
        record {
          disk = h.disk;
          used = λ x lo l. h.used x lo l ∙ ground (arith, no_table);
          kept = h.kept;
          empty = λ k l. elim (Bool-cases (k == ndirect)) [
            | inl last ↦ let at : k ≡ ndirect = ground arith in rw at (table ∙ ground arith)
            | inr before ↦ c.cleared k (omega arith) (ground arith)
          ];
          rest = c.rest;
        },
      )
      | inr there ↦
          let t = ip.addrs ndirect in
          let nt : t ≢ 0 = ground arith in
          let g = f.table nt in
          let (d2, e2, h2) =
            free_table-AreFreed sb nindirect 0 t d1 (entry d ip) h.disk g.behind
              (λ k. ap (λ m. word_at m (4 * k)) (h.kept t g.behind))
              (entries-AreBlocks sb d d1 ip f nt h) in
          let (not_direct, no_entry) =
            unplaced d ip t (λ k l e. f.apart k l (λ z. nt (sym e ∙ z)) e) in
          let not_entry = no_entry nt in
          let used2 : is_used sb d2 t ≡ true = ground (
            arith,
            h2.used t g.behind g.inside,
            h.used t g.behind g.inside,
            not_direct,
            not_entry,
            g.used,
          ) in
          let (d3, e3, freed, v3) = bfree-IsFreed sb d2 h2.disk t g.behind g.inside used2 in
          (
            d3,
            set_addr ip1 ndirect 0,
            free_indirect-frees sb ip1 d1 d2 d3 t table nt e2 e3,
            record {
              disk = v3;
              used = λ x lo l. ground (arith, freed.used x l, h2.used x lo l, h.used x lo l, there);
              kept = λ x lo. freed.kept x (omega arith) ∙ h2.kept x lo ∙ h.kept x lo;
              empty = λ k l. elim (Bool-cases (k == ndirect)) [
                | inl last ↦ rw last
                | inr before ↦ rw before (c.cleared k (omega arith) (ground arith))
              ];
              rest = ap (λ p. set_addr p ndirect 0) c.rest;
            },
          )
    ]
