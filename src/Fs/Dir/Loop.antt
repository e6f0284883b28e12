-- ===== src/Fs/Dir/Loop.antt =====
-- The loop of `dirlookup`: the first entry that has the name.
use laboratorio_ramiro.CString.{Memory}
use laboratorio_ramiro.Fs.{Disk, Super}
use laboratorio_ramiro.Fs.Inode.{half_at, Inode}
use laboratorio_ramiro.Fs.Content.{Io, readi, panics, fails, device, moved}
use laboratorio_ramiro.Fs.Dir.{namecmp, is_equal, entry, look_from, missing, panics_there, Looked}
use laboratorio_ramiro.Prelude.{
  ap, not, ◌||◌, ◌<◌, suc, ◌≤◌, true, zero, ◌∙◌, refl, Bool, ltb, ◌+◌, false, Bool-cases, arith,
  inr, inl, ◌*◌, ◌≡◌, sym, ◌==◌, ℕ,
}
use laboratorio_ramiro.Fs.Dir.Lookup.{
  read-is_entry, entry-IsEntryRead, same-is_entry, IsEntryRead, IsDir, SameContent,
}
use laboratorio_ramiro.Fs.Dir.Names.{entry_inum, is_entry}

pub record IsMissing (sb : Super) (d : Disk) (dp : Inode) (m : Memory) (name j : ℕ) (d' : Disk)
    (dp' : Inode) : Type 0 where
  pub content : SameContent sb d dp d' dp'
  pub nowhere : (i : ℕ) → j ≤ i → 16 * i < dp.size → is_entry d dp m name i ≡ false

pub record IsFirstEntry (sb : Super) (d : Disk) (dp : Inode) (m : Memory) (name j off inum : ℕ)
    (d' : Disk) (dp' : Inode) : Type 0 where
  pub content : SameContent sb d dp d' dp'
  pub at : ℕ
  pub offset : off ≡ 16 * at
  pub from : j ≤ at
  pub inside : off < dp.size
  pub here : is_entry d dp m name at ≡ true
  pub number : inum ≡ entry_inum d dp at
  pub earlier : (i : ℕ) → j ≤ i → i < at → is_entry d dp m name i ≡ false

abbrev pub IsLooked : Super → Disk → Inode → Memory → ℕ → ℕ → Looked → Type 0
IsLooked sb d dp m name j panics_there = Unit
IsLooked sb d dp m name j (missing m' dp' d') = IsMissing sb d dp m name j d' dp'
IsLooked sb d dp m name j (entry off inum m' dp' d') = IsFirstEntry sb d dp m name j off inum d' dp'

SameContent-trans :
    (sb : Super) (d d1 d2 : Disk) (dp dp1 dp2 : Inode)
    → SameContent sb d dp d1 dp1
    → SameContent sb d1 dp1 d2 dp2
    → SameContent sb d dp d2 dp2
SameContent-trans sb d d1 d2 dp dp1 dp2 s t = record {
  dir = t.dir;
  size = t.size ∙ s.size;
  bytes = λ o l. t.bytes o l ∙ s.bytes o l;
}

-- Entry `j` is not the one, and the loop goes on from what reading it left.
onward-IsLooked :
    (sb : Super) (d d1 : Disk) (dp dp1 : Inode) (m m1 : Memory) (name j : ℕ) (r : Looked)
    → IsDir sb d dp
    → 16 ≤ name
    → is_entry d dp m name j ≡ false
    → IsEntryRead sb d dp m j m1 d1 dp1
    → IsLooked sb d1 dp1 m1 name (suc j) r
    → IsLooked sb d dp m name j r
onward-IsLooked sb d d1 dp dp1 m m1 name j panics_there v high other h k = k
onward-IsLooked sb d d1 dp dp1 m m1 name j (missing m2 dp2 d2) v high other h k = record {
  content = SameContent-trans sb d d1 d2 dp dp1 dp2 h.content k.content;
  nowhere = λ i lo l. elim (Bool-cases (i == j)) [
    | inl at ↦ let e : i ≡ j = ground arith in rw e other
    | inr past ↦
        let inside : 16 * i < dp1.size = rw h.content.size l in
        sym (same-is_entry sb d dp m name m1 d1 dp1 i high h.behind h.content v l).0
        ∙ k.nowhere i (ground arith) inside
  ];
}
onward-IsLooked sb d d1 dp dp1 m m1 name j (entry off inum m2 dp2 d2) v high other h k =
    let inside : off < dp.size = omega (arith, k.inside, h.content.size) in
    let same = λ (i : ℕ) (l : 16 * i < dp.size).
      same-is_entry sb d dp m name m1 d1 dp1 i high h.behind h.content v l in
    let (entry_same, inum_same) = same k.at (omega (arith, k.offset)) in
    record {
      content = SameContent-trans sb d d1 d2 dp dp1 dp2 h.content k.content;
      at = k.at;
      offset = k.offset;
      from = omega (arith, k.from);
      inside = inside;
      here = sym entry_same ∙ k.here;
      number = k.number ∙ inum_same;
      earlier = λ i lo l. elim (Bool-cases (i == j)) [
        | inl at ↦ let e : i ≡ j = ground arith in rw e other
        | inr past ↦ sym (same i (omega (arith, k.offset))).0 ∙ k.earlier i (ground arith) l
      ];
    }

SameContent-refl : (sb : Super) (d : Disk) (dp : Inode) → IsDir sb d dp → SameContent sb d dp d dp
SameContent-refl sb d dp v = record { dir = v; size = refl; bytes = λ o l. refl }

abbrev is_whole : Io (Memory × Inode × Disk) → Bool
is_whole (moved k x) = k == 16
is_whole _ = false

-- A round that ends the loop, that fails, that goes on, and that finds the entry.
look_from-ends :
    (sb : Super) (has_read : ℕ → Bool) (name n off : ℕ) (m : Memory) (dp : Inode) (d : Disk)
    → ltb off dp.size ≡ false
    → look_from sb has_read name (suc n) off m dp d ≡ missing m dp d
unfolding look_from
look_from-ends sb has_read name n off m dp d e = ground (arith, e)

look_from-fails :
    (sb : Super) (has_read : ℕ → Bool) (name n off : ℕ) (m : Memory) (dp : Inode) (d : Disk)
    (r : Io (Memory × Inode × Disk))
    → ltb off dp.size ≡ true
    → readi sb has_read dp m off 16 d ≡ r
    → is_whole r ≡ false
    → look_from sb has_read name (suc n) off m dp d ≡ panics_there
unfolding look_from
look_from-fails sb has_read name n off m dp d panics l e short = ground (arith, l, e)
look_from-fails sb has_read name n off m dp d fails l e short = ground (arith, l, e)
look_from-fails sb has_read name n off m dp d device l e short = ground (arith, l, e)
look_from-fails sb has_read name n off m dp d (moved k x) l e short = ground (arith, l, e, short)

look_from-goes :
    (sb : Super) (has_read : ℕ → Bool) (name n off : ℕ) (m m1 : Memory) (dp dp1 : Inode)
    (d d1 : Disk)
    → ltb off dp.size ≡ true
    → readi sb has_read dp m off 16 d ≡ moved 16 (m1, dp1, d1)
    → (half_at m1 0 == 0 || not (is_equal (namecmp m1 name 2))) ≡ true
    → look_from sb has_read name (suc n) off m dp d
      ≡ look_from sb has_read name n (off + 16) m1 dp1 d1
unfolding look_from
look_from-goes sb has_read name n off m m1 dp dp1 d d1 l e other = ground (arith, l, e, other)

look_from-finds :
    (sb : Super) (has_read : ℕ → Bool) (name n off : ℕ) (m m1 : Memory) (dp dp1 : Inode)
    (d d1 : Disk)
    → ltb off dp.size ≡ true
    → readi sb has_read dp m off 16 d ≡ moved 16 (m1, dp1, d1)
    → (half_at m1 0 == 0 || not (is_equal (namecmp m1 name 2))) ≡ false
    → look_from sb has_read name (suc n) off m dp d ≡ entry off (half_at m1 0) m1 dp1 d1
unfolding look_from
look_from-finds sb has_read name n off m m1 dp dp1 d d1 l e fits = ground (arith, l, e, fits)

whole-moved :
    (r : Io (Memory × Inode × Disk))
    → is_whole r ≡ true
    → (x : Memory × Inode × Disk) × (r ≡ moved 16 x)
whole-moved panics e = absurd (ground arith)
whole-moved fails e = absurd (ground arith)
whole-moved device e = absurd (ground arith)
whole-moved (moved k x) e = let at : k ≡ 16 = ground arith in (x, ap (λ n. moved n x) at)

-- A round that reads entry `j`, from what the loop does behind it.
round-IsLooked :
    (sb : Super) (has_read : ℕ → Bool) (name n j : ℕ) (m : Memory) (dp : Inode) (d : Disk)
    (r : Io (Memory × Inode × Disk))
    → IsDir sb d dp
    → 16 ≤ name
    → 16 * j < dp.size
    → readi sb has_read dp m (16 * j) 16 d ≡ r
    → ((m1 : Memory) (dp1 : Inode) (d1 : Disk)
        → IsDir sb d1 dp1
        → dp1.size ≡ dp.size
        → IsLooked sb d1 dp1 m1 name (suc j) (look_from sb has_read name n (16 * suc j) m1 dp1 d1))
    → IsLooked sb d dp m name j (look_from sb has_read name (suc n) (16 * j) m dp d)
round-IsLooked sb has_read name n j m dp d r v high l e rest = elim (Bool-cases (is_whole r)) [
  | inr short ↦ rw (look_from-fails sb has_read name n (16 * j) m dp d r (ground arith) e short) tt
  | inl whole ↦
      let ((m1, dp1, d1), all_read) = whole-moved r whole in
      let done = e ∙ all_read in
      let h = entry-IsEntryRead sb has_read d dp m j 16 v l done refl in
      let (number, test) = read-is_entry sb d dp m j name m1 d1 dp1 high h in
      let inside : ltb (16 * j) dp.size ≡ true = ground arith in
      elim (Bool-cases (is_entry d dp m name j)) [
        | inl found ↦
            rw
              (look_from-finds sb has_read name n (16 * j) m m1 dp dp1 d d1 inside done
                (test ∙ ap not found))
              (record {
                content = h.content;
                at = j;
                offset = refl;
                from = omega arith;
                inside = l;
                here = found;
                number = number;
                earlier = λ i lo li. absurd (omega arith);
              })
        | inr other ↦
            let next : 16 * j + 16 ≡ 16 * suc j = omega arith in
            rw
              (
                look_from-goes sb has_read name n (16 * j) m m1 dp dp1 d d1 inside done
                    (test ∙ ap not other),
                next,
              )
              (onward-IsLooked sb d d1 dp dp1 m m1 name j _ v high other h
                (rest m1 dp1 d1 h.content.dir h.content.size))
      ]
]

pub look_from-IsLooked :
    (sb : Super) (has_read : ℕ → Bool) (name n j : ℕ) (m : Memory) (dp : Inode) (d : Disk)
    → IsDir sb d dp
    → 16 ≤ name
    → dp.size ≤ 16 * (j + n)
    → IsLooked sb d dp m name j (look_from sb has_read name n (16 * j) m dp d)
unfolding look_from
look_from-IsLooked sb has_read name zero j m dp d v high fuel = record {
  content = SameContent-refl sb d dp v;
  nowhere = λ i lo l. absurd (omega arith);
}
look_from-IsLooked sb has_read name (suc n) j m dp d v high fuel =
    elim (Bool-cases (ltb (16 * j) dp.size)) [
      | inr ended ↦ rw (look_from-ends sb has_read name n (16 * j) m dp d ended) (record {
        content = SameContent-refl sb d dp v;
        nowhere = λ i lo l. absurd (ground arith);
      })
      | inl more ↦
          round-IsLooked sb has_read name n j m dp d _ v high (ground arith) refl λ m1 dp1 d1 v1 s.
            look_from-IsLooked sb has_read name n (suc j) m1 dp1 d1 v1 high (omega arith)
    ]
