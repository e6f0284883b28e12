-- ===== src/Fs/Inode/Bmap.antt =====
-- The branches of `bmap`.
use mathlib.Core.Path.{fun_ext}
use laboratorio_ramiro.Prelude.{
  ◌≢◌, ap, arith, ◌∙◌, if◌then◌else◌, ◌<◌, ◌≡◌, ◌*◌, inr, true, ltb, ◌==◌, false, sym, ℕ, inl, ◌-◌,
  refl, Bool-cases,
}
use laboratorio_ramiro.Fs.Inode.{word_at, maxfile, ndirect, set_addr, Inode}
use laboratorio_ramiro.Fs.{Disk, Super}
use laboratorio_ramiro.Fs.Inode.Slots.{word_at-zero, IsFile, slot}
use laboratorio_ramiro.Fs.Alloc.{is_used, IsTaken, IsDisk}
use laboratorio_ramiro.Fs.Inode.Map.{grown-IsFile, taken-kept, taken-IsData, taken-grows, IsMapped}

pub set_addr_self : (ip : Inode) (j : ℕ) → set_addr ip j (ip.addrs j) ≡ ip
set_addr_self ip j =
    let same : (λ (k : ℕ). if k == j then ip.addrs j else ip.addrs k) ≡ ip.addrs = fun_ext λ k.
      elim (Bool-cases (k == j)) [
        | inl at ↦ let e : k ≡ j = ground arith in rw at (ap ip.addrs (sym e))
        | inr off ↦ rw off
      ] in
    ap (λ f. record ip { addrs = f }) same

-- The block is there already.
pub stay-IsMapped :
    (sb : Super) (d : Disk) (ip : Inode) (bn : ℕ)
    → IsDisk sb d
    → IsFile sb d ip
    → slot d ip bn ≢ 0
    → IsMapped sb d ip bn (slot d ip bn) d ip
stay-IsMapped sb d ip bn v f nz = record {
  disk = v;
  file = f;
  found = refl;
  positive = nz;
  same = λ k l ne. refl;
  old = λ _. refl;
  fresh = λ z. absurd (nz z);
  kept = λ x h ne. refl;
  before_map = λ x l. refl;
  grows = λ x h. h;
  size = refl;
  inum = refl;
  table = inl refl;
}

-- A new table, empty, changes no place of the file.
pub tabled-slot :
    (sb : Super) (d : Disk) (ip : Inode) (t : ℕ) (d' : Disk) (k : ℕ)
    → ip.addrs ndirect ≡ 0
    → IsTaken sb d t d'
    → slot d' (set_addr ip ndirect t) k ≡ slot d ip k
unfolding slot
tabled-slot sb d ip t d' k none_yet taken = elim (Bool-cases (ltb k ndirect)) [
  | inl direct ↦ let off : (k == ndirect) ≡ false = ground arith in rw (direct, off)
  | inr far ↦
      let off : (t == 0) ≡ false = ground (arith, taken.behind) in
      rw (far, none_yet, off) (word_at-zero (d' t) (4 * (k - ndirect)) taken.zero_bytes)
]

pub tabled-IsFile :
    (sb : Super) (d : Disk) (ip : Inode) (t : ℕ) (d' : Disk)
    → IsFile sb d ip
    → ip.addrs ndirect ≡ 0
    → IsTaken sb d t d'
    → IsFile sb d' (set_addr ip ndirect t)
tabled-IsFile sb d ip t d' f none_yet taken =
    let same = λ (k : ℕ). tabled-slot sb d ip t d' k none_yet taken in
    record {
      mine =
          λ k l nz. rw (same k) (taken-grows sb d t d' _ taken (f.mine k l (λ z. nz (same k ∙ z))));
      table = λ nz. taken-IsData sb d t d' taken;
      distinct =
          λ i j li lj nz e. f.distinct i j li lj (λ z. nz (same i ∙ z)) (sym (same i) ∙ e ∙ same j);
      apart = λ k l nz e.
          let h = f.mine k l (λ z. nz (same k ∙ z)) in
          let u : is_used sb d t ≡ true = rw (← (sym (same k) ∙ e)) h.used in
          absurd (cc (u, taken.was_free));
    }

pub direct-IsMapped :
    (sb : Super) (d : Disk) (ip : Inode) (bn a : ℕ) (d' : Disk)
    → IsFile sb d ip
    → bn < ndirect
    → ip.addrs bn ≡ 0
    → IsTaken sb d a d'
    → IsDisk sb d'
    → IsMapped sb d ip bn a d' (set_addr ip bn a)
unfolding slot
direct-IsMapped sb d ip bn a d' f direct none_yet taken v' =
    let here = taken-IsData sb d a d' taken in
    let found : slot d' (set_addr ip bn a) bn ≡ a = ground arith in
    let table : (ndirect == bn) ≡ false = ground arith in
    let same : (k : ℕ) → k < maxfile → k ≢ bn → slot d' (set_addr ip bn a) k ≡ slot d ip k =
      λ k l ne.
        let off : (k == bn) ≡ false = ground arith in
        elim (Bool-cases (ltb k ndirect)) [
          | inl near ↦ rw (near, off)
          | inr far ↦ elim (Bool-cases (ip.addrs ndirect == 0)) [
            | inl no_table ↦ rw (far, table, no_table)
            | inr there ↦
                let h = f.table (ground arith) in
                rw (far, table, there)
                  (ap (λ m. word_at m (4 * (k - ndirect))) (taken-kept sb d a d' _ taken h))
          ]
        ] in
    record {
      disk = v';
      file =
          grown-IsFile sb d ip bn a d' (set_addr ip bn a) f same found (rw table) taken.was_free
            here (λ x h. taken-grows sb d a d' x taken h);
      found = found;
      positive = omega (arith, here.behind);
      same = same;
      old = λ nz. absurd (nz (ground (arith, none_yet)));
      fresh = λ z. (taken.was_free, taken.zero_bytes);
      kept = λ x h ne. taken-kept sb d a d' x taken h;
      before_map = taken.before_map;
      grows = λ x h. taken-grows sb d a d' x taken h;
      size = refl;
      inum = refl;
      table = inl (rw table);
    }
