-- ===== src/Fs/Icache/Counts.antt =====
-- The references to inodes in memory: each entry counts those that are held, and no inode has two entries.
use laboratorio_ramiro.Kalloc.Owners.{count-middle, count}
use laboratorio_ramiro.Prelude.{
  refl, ltb, if◌then◌else◌, some, Bool-cases, ◌≤◌, ◌++◌, [], ◌∙◌, suc, inr, ◌≢◌, false, arith, ◌∷◌,
  ◌+◌, inl, none, ◌==◌, ◌<◌, ◌≡◌, List, ℕ,
}
use laboratorio_ramiro.Fs.Icache.{
  Scanned, iget_with, recycled, put_inode, Inode, iput_drop, idup, absent, cached, is_cached, iget,
  iget_scan, ninode, Icache,
}
use laboratorio_ramiro.Fs.Icache.Scan.{takes, hits, iget_scan-absent, iget-IsGot}

-- The cache, and the places that are held: by open files, by current directories and by calls at work.
abbrev pub Holding : Type 0
Holding = Icache × List ℕ

pub data Step : Holding → Holding → Type 0 where
  gets :
      {c c' : Icache} {held : List ℕ} {i : ℕ} (dev inum : ℕ)
      → iget dev inum c ≡ some (i, c')
      → Step (c, held) (c', i ∷ held)
  dups :
      {c : Icache} (before : List ℕ) (i : ℕ) (after : List ℕ)
      → Step (c, before ++ i ∷ after) (idup i c, i ∷ before ++ i ∷ after)
  drops :
      {c : Icache} (before : List ℕ) (i : ℕ) (after : List ℕ)
      → Step (c, before ++ i ∷ after) (iput_drop i c, before ++ after)
  -- A holder reads the inode, changes it or frees it on the disk.
  works :
      {c : Icache} (before : List ℕ) (i : ℕ) (after : List ℕ) (ip : Inode)
      → ip.dev ≡ (c i).dev
      → ip.inum ≡ (c i).inum
      → ip.ref ≡ (c i).ref
      → Step (c, before ++ i ∷ after) (put_inode c i ip, before ++ i ∷ after)

-- The cache is zero at the start.
pub data Reach : Holding → Type 0 where
  boots : (c : Icache) → ((i : ℕ) → (c i).ref ≡ 0) → Reach (c, [])
  next : {s s' : Holding} → Reach s → Step s s' → Reach s'

pub record IsIcache (s : Holding) : Type 0 where
  pub counted : (i : ℕ) → (s.0 i).ref ≡ count i s.1
  pub unused : (i : ℕ) → ninode ≤ i → (s.0 i).ref ≡ 0
  pub one :
      (i j : ℕ)
      → (s.0 i).ref ≢ 0
      → (s.0 j).ref ≢ 0
      → (s.0 i).dev ≡ (s.0 j).dev
      → (s.0 i).inum ≡ (s.0 j).inum
      → i ≡ j

boots-IsIcache : (c : Icache) → ((i : ℕ) → (c i).ref ≡ 0) → IsIcache (c, [])
boots-IsIcache c clear = record {
  counted = clear;
  unused = λ i l. clear i;
  one = λ i j used _ _ _. absurd (used (clear i));
}

-- An entry that is held gets another count.
recount-IsIcache :
    (c : Icache) (held held' : List ℕ) (i : ℕ) (ip : Inode)
    → (c i).ref ≢ 0
    → ip.dev ≡ (c i).dev
    → ip.inum ≡ (c i).inum
    → ((j : ℕ) → (if j == i then ip.ref else (c j).ref) ≡ count j held')
    → IsIcache (c, held)
    → IsIcache (put_inode c i ip, held')
recount-IsIcache c held held' i ip used same_dev same_inum counted v = record {
  counted = λ j. ground (arith, counted j);
  unused = λ j l. ground (arith, v.unused j l);
  one = λ j k uj uk d n.
      v.one j k (ground (arith, used)) (ground (arith, used)) (ground (arith, same_dev, d))
        (ground (arith, same_inum, n));
}

-- No entry has the inode, and the free entry `i` takes it.
recycled-IsIcache :
    (c : Icache) (held : List ℕ) (dev inum i : ℕ)
    → i < ninode
    → (c i).ref ≡ 0
    → ((k : ℕ) → k < ninode → is_cached dev inum (c k) ≡ false)
    → IsIcache (c, held)
    → IsIcache (put_inode c i (recycled dev inum (c i)), i ∷ held)
recycled-IsIcache c held dev inum i inside free nowhere v =
    let other : (k : ℕ) → k ≢ i → (c k).ref ≢ 0 → (c k).dev ≡ dev → (c k).inum ≢ inum =
      λ k ne used d n. elim (Bool-cases (ltb k ninode)) [
        | inl below ↦ ground (arith, nowhere k (ground arith))
        | inr above ↦ used (v.unused k (ground arith))
      ] in
    record {
      counted = λ j. ground (arith, v.counted j, v.counted i);
      unused = λ j l. ground (arith, v.unused j l);
      one = λ j k uj uk d n. elim (Bool-cases (j == i)) [
        | inl ji ↦ elim (Bool-cases (k == i)) [
          | inl ki ↦ ground arith
          | inr k_other ↦
              absurd (other k (ground arith) (ground arith) (ground arith) (ground arith))
        ]
        | inr j_other ↦ elim (Bool-cases (k == i)) [
          | inl ki ↦ absurd (other j (ground arith) (ground arith) (ground arith) (ground arith))
          | inr k_other ↦ v.one j k (ground arith) (ground arith) (ground arith) (ground arith)
        ]
      ];
    }

Step-IsIcache : {s s' : Holding} → Step s s' → IsIcache s → IsIcache s'
unfolding idup iput_drop
Step-IsIcache (gets {c} {c'} {held} {i} dev inum e) v = elim (iget-IsGot c dev inum e) [
  | hits l h same ↦ rw same (
      recount-IsIcache c held (i ∷ held) i _ (ground arith) refl refl
        (λ j. ground (arith, v.counted j, v.counted i)) v)
  | takes l free nowhere same ↦ rw same (recycled-IsIcache c held dev inum i l free nowhere v)
]
Step-IsIcache (dups {c} before i after) v =
    let held_here = count-middle i before i after in
    recount-IsIcache c (before ++ i ∷ after) (i ∷ before ++ i ∷ after) i _
      (ground (arith, v.counted i, held_here)) refl refl
      (λ j. ground (arith, v.counted j, v.counted i)) v
Step-IsIcache (drops {c} before i after) v =
    let held_here = count-middle i before i after in
    recount-IsIcache c (before ++ i ∷ after) (before ++ after) i _
      (ground (arith, v.counted i, held_here)) refl refl
      (λ j. ground (arith, v.counted j, v.counted i, count-middle j before i after, held_here)) v
Step-IsIcache (works {c} before i after ip same_dev same_inum same_ref) v =
    let held_here = count-middle i before i after in
    recount-IsIcache c (before ++ i ∷ after) (before ++ i ∷ after) i ip
      (ground (arith, v.counted i, held_here)) same_dev same_inum
      (λ j. ground (arith, v.counted j, v.counted i, same_ref)) v

-- In every reachable state each entry of the cache of inodes counts the references to it that are held, and
-- no two entries that are in use are for the same inode.
pub Reach-IsIcache : {s : Holding} → Reach s → IsIcache s
Reach-IsIcache (boots c clear) = boots-IsIcache c clear
Reach-IsIcache (next r st) = Step-IsIcache st (Reach-IsIcache r)

-- In a reachable state the entry that `iget` answers is for the inode that was asked for, and its reference is
-- counted; every other entry stays as it was. An entry that was held is the same but for its count; one
-- that was not is to be read from the disk.
pub iget-keeps :
    (c c' : Icache) (held : List ℕ) (dev inum i : ℕ)
    → Reach (c, held)
    → iget dev inum c ≡ some (i, c')
    → ((c' i).dev ≡ dev)
      × ((c' i).inum ≡ inum)
      × ((c' i).ref ≡ suc (count i held))
      × ((k : ℕ) → k ≢ i → c' k ≡ c k)
      × (c' i ≡ (
          if count i held == 0
          then recycled dev inum (c i)
          else record (c i) { ref = (c i).ref + 1 }))
unfolding idup
iget-keeps c c' held dev inum i r e =
    let v = Reach-IsIcache r in
    elim (iget-IsGot c dev inum e) [
      | hits l h same ↦ rw same (
        ground arith,
        ground arith,
        ground (arith, v.counted i),
        (λ k ne. ground arith),
        ground (arith, v.counted i),
      )
      | takes l free nowhere same ↦ rw same (
        ground arith,
        ground arith,
        ground (arith, v.counted i),
        (λ k ne. ground arith),
        ground (arith, v.counted i),
      )
    ]

iget_with-full :
    (c : Icache) (held : List ℕ) (dev inum : ℕ) (s : Scanned)
    → Reach (c, held)
    → iget_scan c dev inum ninode 0 none ≡ s
    → iget_with s dev inum c ≡ none
    → (k : ℕ) → k < ninode
    → count k held ≢ 0
unfolding iget_with
iget_with-full c held dev inum (cached i) r scan e = absurd (ground arith)
iget_with-full c held dev inum (absent (some i)) r scan e = absurd (ground arith)
iget_with-full c held dev inum (absent none) r scan e = λ k l free.
    let used = (iget_scan-absent c dev inum ninode 0 none scan).all_used refl k (omega arith) l in
    used ((Reach-IsIcache r).counted k ∙ free)

-- `iget` panics only if all entries are held.
pub iget-full :
    (c : Icache) (held : List ℕ) (dev inum : ℕ)
    → Reach (c, held)
    → iget dev inum c ≡ none
    → (k : ℕ) → k < ninode
    → count k held ≢ 0
unfolding iget
iget-full c held dev inum r e =
    iget_with-full c held dev inum (iget_scan c dev inum ninode 0 none) r refl e
