-- ===== src/Fs/Inode/Map.antt =====
use laboratorio_ramiro.Prelude.{
  ap, ◌<◌, ◌==◌, inl, false, inr, Bool-cases, ℕ, ◌≢◌, ◌⊎◌, sym, ◌≡◌, true, ◌∙◌, arith, some,
}
use laboratorio_ramiro.Fs.Inode.{ndirect, maxfile, Inode, or_balloc}
use laboratorio_ramiro.Fs.{balloc, Disk, Super}
use laboratorio_ramiro.Fs.Alloc.{is_used, balloc-IsTaken, IsTaken, IsDisk}
use laboratorio_ramiro.Fs.Inode.Slots.{slot, IsData, IsFile}  -- What `bmap` answers, and what it does to a file.

pub or_balloc-cases :
    (sb : Super) (a0 : ℕ) (d : Disk) {a : ℕ} {d' : Disk}
    → IsDisk sb d
    → or_balloc sb a0 d ≡ some (a, d')
    → ((a0 ≢ 0) × (a ≡ a0) × (d' ≡ d)) ⊎ ((a0 ≡ 0) × IsTaken sb d a d' × IsDisk sb d')
unfolding or_balloc
or_balloc-cases sb a0 d {a} {d'} v e = elim (Bool-cases (a0 == 0)) [
  | inl missing ↦
      let fresh : balloc sb d ≡ some (a, d') = ground arith in
      let (taken, disk) = balloc-IsTaken sb d v fresh in inr (ground arith, taken, disk)
  | inr there ↦ inl (ground arith, ground arith, ground arith)
]

-- What `bmap` promises, for place `bn` of the file.
pub record IsMapped (sb : Super) (d : Disk) (ip : Inode) (bn a : ℕ) (d' : Disk) (ip' : Inode)
    : Type 0 where
  pub disk : IsDisk sb d'
  pub file : IsFile sb d' ip'
  pub found : slot d' ip' bn ≡ a
  pub positive : a ≢ 0
  pub same : (k : ℕ) → k < maxfile → k ≢ bn → slot d' ip' k ≡ slot d ip k
  pub old : slot d ip bn ≢ 0 → a ≡ slot d ip bn
  pub fresh : slot d ip bn ≡ 0 → (is_used sb d a ≡ false) × ((i : ℕ) → d' a i ≡ 0)
  pub kept : (x : ℕ) → IsData sb d x → x ≢ ip.addrs ndirect → d' x ≡ d x
  pub before_map : (x : ℕ) → x < sb.bmapstart → d' x ≡ d x
  pub grows : (x : ℕ) → IsData sb d x → IsData sb d' x
  pub size : ip'.size ≡ ip.size
  pub inum : ip'.inum ≡ ip.inum
  pub table : (ip'.addrs ndirect ≡ ip.addrs ndirect) ⊎ (is_used sb d (ip'.addrs ndirect) ≡ false)

pub taken-IsData : (sb : Super) (d : Disk) (a : ℕ) (d' : Disk) → IsTaken sb d a d' → IsData sb d' a
taken-IsData sb d a d' t = record {
  behind = t.behind;
  inside = t.inside;
  used = ground (arith, t.used a t.inside);
}

pub taken-grows :
    (sb : Super) (d : Disk) (a : ℕ) (d' : Disk) (x : ℕ)
    → IsTaken sb d a d'
    → IsData sb d x
    → IsData sb d' x
taken-grows sb d a d' x t h = record {
  behind = h.behind;
  inside = h.inside;
  used = ground (arith, t.used x h.inside, h.used);
}

pub taken-kept :
    (sb : Super) (d : Disk) (a : ℕ) (d' : Disk) (x : ℕ)
    → IsTaken sb d a d'
    → IsData sb d x
    → d' x ≡ d x
taken-kept sb d a d' x t h =
    t.kept x h.behind
      (λ e. let u : is_used sb d a ≡ true = rw (← e) h.used in absurd (cc (u, t.was_free)))

-- Place `bn`, empty so far, gets a block that was free.
pub grown-IsFile :
    (sb : Super) (d : Disk) (ip : Inode) (bn a : ℕ) (d' : Disk) (ip' : Inode)
    → IsFile sb d ip
    → ((k : ℕ) → k < maxfile → k ≢ bn → slot d' ip' k ≡ slot d ip k)
    → slot d' ip' bn ≡ a
    → ip'.addrs ndirect ≡ ip.addrs ndirect
    → is_used sb d a ≡ false
    → IsData sb d' a
    → ((x : ℕ) → IsData sb d x → IsData sb d' x)
    → IsFile sb d' ip'
grown-IsFile sb d ip bn a d' ip' f same found table free here grows =
    let strange : (x : ℕ) → IsData sb d x → x ≢ a =
      λ x h e. let u : is_used sb d a ≡ true = rw (← e) h.used in absurd (cc (u, free)) in
    let nonzero : a ≢ 0 = omega (arith, here.behind) in
    let at : (k : ℕ) → k ≡ bn → slot d' ip' k ≡ a = λ k e. ap (slot d' ip') e ∙ found in
    let clash : (k : ℕ) → k < maxfile → k ≢ bn → slot d' ip' k ≢ a = λ k l off e.
      let ek = same k l off in
      let nz : slot d ip k ≢ 0 = λ z. absurd (nonzero (sym e ∙ ek ∙ z)) in
      strange (slot d ip k) (f.mine k l nz) (sym ek ∙ e) in
    record {
      mine = λ k l nz. elim (Bool-cases (k == bn)) [
        | inl at ↦ let e : k ≡ bn = ground arith in rw (e, found) here
        | inr off ↦
            let e = same k l (ground arith) in
            rw e (grows (slot d ip k) (f.mine k l (λ z. nz (e ∙ z))))
      ];
      table = λ nz. rw table (grows (ip.addrs ndirect) (f.table (λ z. nz (table ∙ z))));
      distinct = λ i j li lj nz e. elim (Bool-cases (i == bn)) [
        | inl ai ↦ elim (Bool-cases (j == bn)) [
          | inl aj ↦ ground arith
          | inr oj ↦ absurd (clash j lj (ground arith) (sym e ∙ at i (ground arith)))
        ]
        | inr oi ↦ elim (Bool-cases (j == bn)) [
          | inl aj ↦ absurd (clash i li (ground arith) (e ∙ at j (ground arith)))
          | inr oj ↦
              let ei = same i li (ground arith) in
              let ej = same j lj (ground arith) in
              f.distinct i j li lj (λ z. nz (ei ∙ z)) (sym ei ∙ e ∙ ej)
        ]
      ];
      apart = λ k l nz e. elim (Bool-cases (k == bn)) [
        | inl ak ↦
            let is_table : a ≡ ip.addrs ndirect = sym (at k (ground arith)) ∙ e ∙ table in
            let t : ip.addrs ndirect ≢ 0 = λ z. absurd (nonzero (is_table ∙ z)) in
            strange (ip.addrs ndirect) (f.table t) (sym is_table)
        | inr ok ↦
            let ek = same k l (ground arith) in f.apart k l (λ z. nz (ek ∙ z)) (sym ek ∙ e ∙ table)
      ];
    }
