-- ===== src/Fs/Inode/Table.antt =====
-- The branches of `bmap` through the table, and the whole of it.
use laboratorio_ramiro.Args.{word_at}
use laboratorio_ramiro.Fs.Alloc.{written-IsDisk, is_used, written-used}
use laboratorio_ramiro.Prelude.{
  some, Option-cases, subst, Bool-cases, ◌≡◌, inl, ◌<◌, ltb, arith, false, ap, ◌∙◌, ◌*◌, refl, sym,
  ◌+◌, ◌-◌, ℕ, ◌==◌, true, inr, ◌≢◌,
}
use laboratorio_ramiro.Fs.Inode.Slots.{
  store_word-AreBytes, IsData, word_at-store_word, IsFile, slot,
}
use laboratorio_ramiro.Fs.{put_block, Disk, Super}
use laboratorio_ramiro.Fs.Inode.{
  or_balloc, bmap, bmap_table, store_word, set_addr, maxfile, nindirect, ndirect, Inode,
}
use laboratorio_ramiro.Fs.Alloc.{written-used, IsDisk, IsTaken}
use laboratorio_ramiro.Fs.Inode.Map.{
  or_balloc-cases, grown-IsFile, taken-IsData, taken-grows, taken-kept, IsMapped,
}
use laboratorio_ramiro.Fs.Inode.Bmap.{
  tabled-IsFile, direct-IsMapped, set_addr_self, stay-IsMapped, tabled-slot,
}

-- A table is there, and its place `j` gets a block.
entry-IsMapped :
    (sb : Super) (d : Disk) (ip : Inode) (j a : ℕ) (d1 : Disk)
    → IsFile sb d ip
    → j < nindirect
    → ip.addrs ndirect ≢ 0
    → word_at (d (ip.addrs ndirect)) (4 * j) ≡ 0
    → IsTaken sb d a d1
    → IsDisk sb d1
    → IsMapped sb d ip
        (ndirect + j)
        a
        (put_block d1 (ip.addrs ndirect) (store_word (d1 (ip.addrs ndirect)) (4 * j) a))
        ip
unfolding slot
entry-IsMapped sb d ip j a d1 f small there empty taken v1 =
    let t = ip.addrs ndirect in
    let m = store_word (d1 t) (4 * j) a in
    let d2 = put_block d1 t m in
    let ht = f.table there in
    let table_kept : d1 t ≡ d t = taken-kept sb d a d1 t taken ht in
    let nz : (t == 0) ≡ false = ground arith in
    let here : (t == t) ≡ true = ground arith in
    let word = λ (k : ℕ). word_at-store_word (d1 t) j k a (omega (arith, taken.inside, v1.small)) in
    let beyond : ltb (ndirect + j) ndirect ≡ false = ground arith in
    let place : ndirect + j - ndirect ≡ j = omega arith in
    let gone : slot d ip (ndirect + j) ≡ 0 = rw (beyond, nz, place) empty in
    let found : slot d2 ip (ndirect + j) ≡ a =
      let at : (j == j) ≡ true = ground arith in rw (beyond, nz, here, place) (word j ∙ (rw at)) in
    let same : (k : ℕ) → k < maxfile → k ≢ ndirect + j → slot d2 ip k ≡ slot d ip k = λ k l ne.
      elim (Bool-cases (ltb k ndirect)) [
        | inl near ↦ rw near
        | inr far ↦
            let off : (k - ndirect == j) ≡ false = ground arith in
            rw (far, nz, here)
              (word (k - ndirect) ∙ (rw off (ap (λ b. word_at b (4 * (k - ndirect))) table_kept)))
      ] in
    let used = λ (x : ℕ) (l : x < sb.size). written-used sb d1 v1 t x m ht.behind l in
    let grows : (x : ℕ) → IsData sb d x → IsData sb d2 x = λ x h.
      let g = taken-grows sb d a d1 x taken h in
      record { behind = g.behind; inside = g.inside; used = used x g.inside ∙ g.used } in
    let here_data : IsData sb d2 a =
      let g = taken-IsData sb d a d1 taken in
      record { behind = g.behind; inside = g.inside; used = used a g.inside ∙ g.used } in
    let other : a ≢ t =
      λ e. let u : is_used sb d a ≡ true = rw e ht.used in absurd (cc (u, taken.was_free)) in
    let ne : (a == t) ≡ false = ground arith in
    record {
      disk =
          written-IsDisk sb d1 v1 t m ht.behind (store_word-AreBytes (d1 t) (4 * j) a (v1.bytes t));
      file =
          grown-IsFile sb d ip (ndirect + j) a d2 ip f same found refl taken.was_free here_data
            grows;
      found = found;
      positive = omega (arith, here_data.behind);
      same = same;
      old = λ h. absurd (h gone);
      fresh = λ z. (taken.was_free, λ i. rw ne (taken.zero_bytes i));
      kept = λ x h off.
          let nx : (x == t) ≡ false = ground arith in rw nx (taken-kept sb d a d1 x taken h);
      before_map = λ x l.
          let nx : (x == t) ≡ false = ground (arith, ht.behind) in rw nx (taken.before_map x l);
      grows = grows;
      size = refl;
      inum = refl;
      table = inl refl;
    }

-- First a new table, then a place in it.
after_table-IsMapped :
    (sb : Super) (d : Disk) (ip : Inode) (t bn a : ℕ) (d1 d2 : Disk)
    → ip.addrs ndirect ≡ 0
    → bn < maxfile
    → IsTaken sb d t d1
    → IsMapped sb d1 (set_addr ip ndirect t) bn a d2 (set_addr ip ndirect t)
    → IsMapped sb d ip bn a d2 (set_addr ip ndirect t)
after_table-IsMapped sb d ip t bn a d1 d2 none_yet l taken m =
    let same = λ (k : ℕ). tabled-slot sb d ip t d1 k none_yet taken in
    let data_a : IsData sb d2 a =
      rw (← m.found) (m.file.mine bn l (λ z. m.positive (sym m.found ∙ z))) in
    record {
      disk = m.disk;
      file = m.file;
      found = m.found;
      positive = m.positive;
      same = λ k lk ne. m.same k lk ne ∙ same k;
      old = λ nz. m.old (λ z. nz (sym (same bn) ∙ z)) ∙ same bn;
      fresh = λ z.
          let (free, zeros) = m.fresh (same bn ∙ z) in
          let used = taken.used a data_a.inside in (ground (arith, used, free), zeros);
      kept = λ x h ne.
          let g = taken-grows sb d t d1 x taken h in
          let off : x ≢ t = λ e.
            let u : is_used sb d t ≡ true = rw (← e) h.used in absurd (cc (u, taken.was_free)) in
          m.kept x g off ∙ taken-kept sb d t d1 x taken h;
      before_map = λ x lx. m.before_map x lx ∙ taken.before_map x lx;
      grows = λ x h. m.grows x (taken-grows sb d t d1 x taken h);
      size = m.size;
      inum = m.inum;
      table = inr taken.was_free;
    }

table-IsMapped :
    (sb : Super) (d : Disk) (ip : Inode) (j : ℕ) {a : ℕ} {d' : Disk}
    → IsDisk sb d
    → IsFile sb d ip
    → j < nindirect
    → ip.addrs ndirect ≢ 0
    → bmap_table sb (ip.addrs ndirect) j d ≡ some (a, d')
    → IsMapped sb d ip (ndirect + j) a d' ip
unfolding bmap_table slot
table-IsMapped sb d ip j {a} {d'} v f small there e =
    let t = ip.addrs ndirect in
    let w = word_at (d t) (4 * j) in
    elim (Option-cases (or_balloc sb w d)) [
      | inl panic ↦ absurd (ground arith)
      | inr ((b, d1), got) ↦
          let at : a ≡ b = ground arith in
          elim (or_balloc-cases sb w d v got) [
            | inl (nz, same_word, same_disk) ↦
                let old : (w == 0) ≡ false = ground arith in
                let disk : d' ≡ d = ground (arith, old) in
                let beyond : ltb (ndirect + j) ndirect ≡ false = ground arith in
                let place : ndirect + j - ndirect ≡ j = omega arith in
                let nt : (t == 0) ≡ false = ground arith in
                let here : slot d ip (ndirect + j) ≡ w = rw (beyond, nt, place) in
                let both : a ≡ slot d ip (ndirect + j) = at ∙ same_word ∙ sym here in
                rw (both, disk) (stay-IsMapped sb d ip (ndirect + j) v f (λ z. nz (sym here ∙ z)))
            | inr (empty, taken, v1) ↦
                let new : (w == 0) ≡ true = ground arith in
                let disk : d' ≡ put_block d1 t (store_word (d1 t) (4 * j) b) =
                  ground (arith, new) in
                rw (at, disk) (entry-IsMapped sb d ip j b d1 f small there empty taken v1)
          ]
    ]

-- A direct place.
near-IsMapped :
    (sb : Super) (d : Disk) (ip : Inode) (bn : ℕ) {a : ℕ} {d' : Disk}
    → IsDisk sb d
    → IsFile sb d ip
    → bn < ndirect
    → or_balloc sb (ip.addrs bn) d ≡ some (a, d')
    → IsMapped sb d ip bn a d' (set_addr ip bn a)
unfolding slot
near-IsMapped sb d ip bn {a} {d'} v f direct got = elim (or_balloc-cases sb (ip.addrs bn) d v got) [
  | inl (nz, same, same_disk) ↦
      let near : ltb bn ndirect ≡ true = ground arith in
      let here : slot d ip bn ≡ ip.addrs bn = rw near in
      let same_node : set_addr ip bn a ≡ ip = ap (set_addr ip bn) same ∙ set_addr_self ip bn in
      let whole : a ≡ slot d ip bn = same ∙ sym here in
      rw (same_node, whole, same_disk) (stay-IsMapped sb d ip bn v f (λ z. nz (sym here ∙ z)))
  | inr (empty, taken, v1) ↦ direct-IsMapped sb d ip bn a d' f direct empty taken v1
]

-- A place in the table, which is old or new.
far-IsMapped :
    (sb : Super) (d : Disk) (ip : Inode) (j t a : ℕ) {d1 d2 : Disk}
    → IsDisk sb d
    → IsFile sb d ip
    → j < nindirect
    → or_balloc sb (ip.addrs ndirect) d ≡ some (t, d1)
    → bmap_table sb t j d1 ≡ some (a, d2)
    → IsMapped sb d ip (ndirect + j) a d2 (set_addr ip ndirect t)
far-IsMapped sb d ip j t a {d1} {d2} v f small got entry =
    elim (or_balloc-cases sb (ip.addrs ndirect) d v got) [
      | inl (nz, same, same_disk) ↦
          let same_node : set_addr ip ndirect t ≡ ip =
            ap (set_addr ip ndirect) same ∙ set_addr_self ip ndirect in
          let old : bmap_table sb (ip.addrs ndirect) j d ≡ some (a, d2) =
            rw (← same, ← same_disk) entry in
          rw same_node (table-IsMapped sb d ip j v f small nz old)
      | inr (empty, taken, v1) ↦
          let ip1 = set_addr ip ndirect t in
          let f1 = tabled-IsFile sb d ip t d1 f empty taken in
          let there : t ≢ 0 = omega (arith, taken.behind) in
          after_table-IsMapped sb d ip t (ndirect + j) a d1 d2 empty (omega arith) taken
            (table-IsMapped sb d1 ip1 j v1 f1 small there entry)
    ]

-- Whatever place below `MAXFILE` of a file `bmap` is asked for, if it does not panic it answers the number
-- of the block there; a block that is new was free, and is zero. The other places of the file, and the
-- blocks in use but for the file's own table, stay as they were.
pub bmap-IsMapped :
    (sb : Super) (d : Disk) (ip : Inode) (bn : ℕ) {a : ℕ} {d' : Disk} {ip' : Inode}
    → IsDisk sb d
    → IsFile sb d ip
    → bmap sb ip bn d ≡ some (a, ip', d')
    → (bn < maxfile) × IsMapped sb d ip bn a d' ip'
unfolding bmap
bmap-IsMapped sb d ip bn {a} {d'} {ip'} v f e = elim (Bool-cases (ltb bn ndirect)) [
  | inl direct ↦ elim (Option-cases (or_balloc sb (ip.addrs bn) d)) [
    | inl panic ↦ absurd (ground arith)
    | inr ((b, d1), got) ↦
        let at : a ≡ b = ground arith in
        let disk : d' ≡ d1 = ground arith in
        let node : ip' ≡ set_addr ip bn b = ground arith in
        (ground arith, rw (at, disk, node) (near-IsMapped sb d ip bn v f (ground arith) got))
  ]
  | inr far ↦ elim (Bool-cases (ltb (bn - ndirect) nindirect)) [
    | inr too_far ↦ absurd (ground arith)
    | inl indirect ↦ elim (Option-cases (or_balloc sb (ip.addrs ndirect) d)) [
      | inl panic ↦ absurd (ground arith)
      | inr ((t, d1), got) ↦ elim (Option-cases (bmap_table sb t (bn - ndirect) d1)) [
        | inl panic ↦ absurd (ground arith)
        | inr ((b, d2), entry) ↦
            let at : a ≡ b = ground arith in
            let disk : d' ≡ d2 = ground arith in
            let node : ip' ≡ set_addr ip ndirect t = ground arith in
            let place : ndirect + (bn - ndirect) ≡ bn = ground arith in
            let m = far-IsMapped sb d ip (bn - ndirect) t b v f (ground arith) got entry in
            (
              ground arith,
              rw (at, disk, node)
                  (subst (λ k. IsMapped sb d ip k b d2 (set_addr ip ndirect t)) place m),
            )
      ]
    ]
  ]
]
