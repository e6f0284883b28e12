-- ===== src/Fs/Namex/Balance.antt =====
-- `namex` gives back the references that it takes, but for that of its result.
use laboratorio_ramiro.CString.{Memory}
use laboratorio_ramiro.Fs.{Disk, Super}
use laboratorio_ramiro.Fs.Inode.{ilock, Inode}
use laboratorio_ramiro.Fs.Icache.{idup, Icache, iget, iput, put_inode}
use laboratorio_ramiro.Fs.Icache.Counts.{dups, Reach, gets, works, next}
use laboratorio_ramiro.Fs.Dir.{
  dirlookup, entry, get_entry, look_from, missing, panics_there, Looked, t_dir,
}
use laboratorio_ramiro.Fs.Namex.{
  rootino, rootdev, slash, namex, arrive, give_up, go_down, go_on, is_nil, round, visit, walk,
  Walked, with_name, write_back,
}
use laboratorio_ramiro.Fs.Namex.Keeps.{ilock-Reach, iput-Reach}
use laboratorio_ramiro.Fs.Path.{skipelem}
use laboratorio_ramiro.Prelude.{
  get_or, length, some, refl, inr, Option-cases, List, Bool, ◌++◌, zero, Bool-cases, arith, false,
  true, ◌==◌, Option, none, [], suc, ◌≡◌, ◌∷◌, ◌&&◌, inl, ℕ,
}

-- The references that are held once the walk has ended.
abbrev pub holding : Option ℕ → List ℕ → List ℕ
holding none held = held
holding (some i) held = i ∷ held

-- A panic, or an end with the references as they are to be.
abbrev pub Ends : List ℕ → Walked → Type 0
Ends held none = Unit
Ends held (some (o, name, c, d)) = Reach (c, holding o held)

abbrev IsBalanced : List ℕ → (List ℕ → ℕ → Memory → Icache → Disk → Walked) → Type 0
IsBalanced held go =
    (path : List ℕ) (i : ℕ) (name : Memory) (c : Icache) (d : Disk) (w : Walked)
    → Reach (c, i ∷ held)
    → go path i name c d ≡ w
    → Ends held w

module _ (sb : Super) (held : List ℕ) where
  give_up-Reach :
      (i : ℕ) (name : Memory) (c : Icache) (d : Disk) (w : Walked)
      → Reach (c, i ∷ held)
      → give_up sb i name c d ≡ w
      → Ends held w
  unfolding give_up
  give_up-Reach i name c d w r e = elim (Option-cases (iput sb i c d)) [
    | inl panic ↦ let val : none ≡ w = ground arith in rw (← val) tt
    | inr ((c1, d1), put) ↦
        let val : some (none, name, c1, d1) ≡ w = ground arith in
        rw (← val) (iput-Reach sb c d [] i held r put)
  ]

  arrive-Reach :
      (parent : Bool) (i : ℕ) (name : Memory) (c : Icache) (d : Disk) (w : Walked)
      → Reach (c, i ∷ held)
      → arrive sb parent i name c d ≡ w
      → Ends held w
  unfolding arrive
  arrive-Reach true i name c d w r e = give_up-Reach i name c d w r e
  arrive-Reach false i name c d w r e =
      let val : some (some i, name, c, d) ≡ w = ground arith in rw (← val) r

  go_on-Reach :
      (go : List ℕ → ℕ → Memory → Icache → Disk → Walked) (rest : List ℕ) (i next_i : ℕ)
      (name : Memory) (c : Icache) (d : Disk) (w : Walked)
      → IsBalanced held go
      → Reach (c, next_i ∷ i ∷ held)
      → go_on sb go rest i next_i name c d ≡ w
      → Ends held w
  unfolding go_on
  go_on-Reach go rest i next_i name c d w h r e = elim (Option-cases (iput sb i c d)) [
    | inl panic ↦ let val : none ≡ w = ground arith in rw (← val) tt
    | inr ((c1, d1), put) ↦
        h rest next_i name c1 d1 w (iput-Reach sb c d (next_i ∷ []) i held r put) (ground arith)
  ]

  write_back-Reach :
      (c : Icache) (before : List ℕ) (i : ℕ) (dp : Inode)
      → Reach (c, before ++ i ∷ held)
      → Reach (write_back c i dp, before ++ i ∷ held)
  write_back-Reach c before i dp r =
      next r (works before i held (record (c i) { addrs = dp.addrs }) refl refl refl)

  -- The entry that `dirlookup` answers is one more reference.
  get_entry-Reach :
      (dp : Inode) (c : Icache) (before : List ℕ) (l : Looked) {off i : ℕ} {c' : Icache}
      {m : Memory} {dp' : Inode} {d' : Disk}
      → Reach (c, before)
      → get_entry dp c l ≡ some (some (off, i, c'), m, dp', d')
      → Reach (c', i ∷ before)
  unfolding get_entry
  get_entry-Reach dp c before panics_there r e = absurd (ground arith)
  get_entry-Reach dp c before (missing m1 dp1 d1) r e = absurd (ground arith)
  get_entry-Reach dp c before (entry off1 inum m1 dp1 d1) {i = i} {c' = c'} r e =
      elim (Option-cases (iget dp.dev inum c)) [
        | inl full ↦ absurd (ground arith)
        | inr ((j, c1), got) ↦
            let place : j ≡ i = ground arith in
            let same : c1 ≡ c' = ground arith in
            rw (← place, ← same) (next r (gets dp.dev inum got))
      ]

  dirlookup-Reach :
      (has_read : ℕ → Bool) (dp : Inode) (m : Memory) (c : Icache) (before : List ℕ) (d : Disk)
      {off i : ℕ} {c' : Icache} {m' : Memory} {dp' : Inode} {d' : Disk}
      → Reach (c, before)
      → dirlookup sb has_read dp 16 m c d ≡ some (some (off, i, c'), m', dp', d')
      → Reach (c', i ∷ before)
  unfolding dirlookup
  dirlookup-Reach has_read dp m c before d {off = off} {m' = m'} {dp' = dp'} {d' = d'} r e =
      get_entry-Reach dp c before (look_from sb has_read 16 dp.size 0 m dp d) {off = off} {m = m'}
        {dp' = dp'} {d' = d'} r (ground arith)

  go_down-Reach :
      (has_read : ℕ → Bool) (go : List ℕ → ℕ → Memory → Icache → Disk → Walked) (rest : List ℕ)
      (i : ℕ) (name : Memory) (c : Icache) (d : Disk) (w : Walked)
      → IsBalanced held go
      → Reach (c, i ∷ held)
      → go_down sb has_read go rest i name c d ≡ w
      → Ends held w
  unfolding go_down
  go_down-Reach has_read go rest i name c d w h r e =
      elim (Option-cases (dirlookup sb has_read (c i) 16 (with_name name) c d)) [
        | inl panic ↦ let val : none ≡ w = ground arith in rw (← val) tt
        | inr ((none, m, dp, d1), looked) ↦
            give_up-Reach i name (write_back c i dp) d1 w (write_back-Reach c [] i dp r)
              (ground arith)
        | inr ((some (off, next_i, c1), m, dp, d1), looked) ↦
            let one_more =
              dirlookup-Reach has_read (c i) (with_name name) c (i ∷ held) d r looked in
            go_on-Reach go rest i next_i name (write_back c1 i dp) d1 w h
              (write_back-Reach c1 (next_i ∷ []) i dp one_more) (ground arith)
      ]

  visit-Reach :
      (has_read : ℕ → Bool) (parent : Bool) (go : List ℕ → ℕ → Memory → Icache → Disk → Walked)
      (rest : List ℕ) (i : ℕ) (name : Memory) (c : Icache) (d : Disk) (w : Walked)
      → IsBalanced held go
      → Reach (c, i ∷ held)
      → visit sb has_read parent go rest i name c d ≡ w
      → Ends held w
  unfolding visit
  visit-Reach has_read parent go rest i name c d w h r e = elim (Bool-cases ((c i).type == t_dir)) [
    | inr no_dir ↦ give_up-Reach i name c d w r (ground arith)
    | inl dir ↦ elim (Bool-cases (parent && is_nil rest)) [
      | inl early ↦ let val : some (some i, name, c, d) ≡ w = ground arith in rw (← val) r
      | inr deeper ↦ go_down-Reach has_read go rest i name c d w h r (ground arith)
    ]
  ]

  round-IsBalanced :
      (has_read : ℕ → Bool) (parent : Bool) (go : List ℕ → ℕ → Memory → Icache → Disk → Walked)
      → IsBalanced held go
      → IsBalanced held (round sb has_read parent go)
  unfolding round
  round-IsBalanced has_read parent go h path i name c d w r e =
      elim (Option-cases (skipelem path name)) [
        | inl no_more ↦ arrive-Reach parent i name c d w r (ground arith)
        | inr ((rest, name1), element) ↦ elim (Option-cases (ilock sb d (c i))) [
          | inl panic ↦ let val : none ≡ w = ground arith in rw (← val) tt
          | inr (ip, locked) ↦
              visit-Reach has_read parent go rest i name1 (put_inode c i ip) d w h
                (ilock-Reach sb c d i held ip r locked) (ground arith)
        ]
      ]

  walk-IsBalanced :
      (has_read : ℕ → Bool) (parent : Bool) (n : ℕ)
      → IsBalanced held (λ p j m b e. walk sb has_read parent n p j m b e)
  unfolding walk
  walk-IsBalanced has_read parent zero path i name c d w r e =
      let val : none ≡ w = ground arith in rw (← val) tt
  walk-IsBalanced has_read parent (suc n) path i name c d w r e =
      round-IsBalanced has_read parent _ (walk-IsBalanced has_read parent n) path i name c d w r e

namex-from :
    (sb : Super) (has_read : ℕ → Bool) (parent : Bool) (path : List ℕ) (name : Memory) (c : Icache)
    (d : Disk) (before : List ℕ) (cwd : ℕ) (after : List ℕ) (w : Walked)
    → Reach (c, before ++ cwd ∷ after)
    → namex sb has_read parent cwd path name c d ≡ w
    → Ends (before ++ cwd ∷ after) w
unfolding namex
namex-from sb has_read parent path name c d before cwd after w r e =
    let held = before ++ cwd ∷ after in
    let n = suc (length path) in
    elim (Bool-cases (get_or path 0 0 == slash)) [
      | inl rooted ↦ elim (Option-cases (iget rootdev rootino c)) [
        | inl full ↦ let val : none ≡ w = ground arith in rw (← val) tt
        | inr ((i, c1), got) ↦
            walk-IsBalanced sb held has_read parent n path i name c1 d w
              (next r (gets rootdev rootino got)) (ground arith)
      ]
      | inr relative ↦
          walk-IsBalanced sb held has_read parent n path cwd name (idup cwd c) d w
            (next r (dups before cwd after)) (ground arith)
    ]

-- `namex` from a reachable state in which the current directory is held, for the inode of the path or for that
-- of its parent: where it does not panic, the cache it leaves is reachable with one more reference
-- held, that to the inode it answers, or with just those of before if it answers none. So no
-- reference leaks, and none is given back twice.
pub namex-Ends :
    (sb : Super) (has_read : ℕ → Bool) (parent : Bool) (path : List ℕ) (name : Memory) (c : Icache)
    (d : Disk) (before : List ℕ) (cwd : ℕ) (after : List ℕ)
    → Reach (c, before ++ cwd ∷ after)
    → Ends (before ++ cwd ∷ after) (namex sb has_read parent cwd path name c d)
namex-Ends sb has_read parent path name c d before cwd after r =
    namex-from sb has_read parent path name c d before cwd after _ r refl
