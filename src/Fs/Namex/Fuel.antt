-- ===== src/Fs/Namex/Fuel.antt =====
-- The rounds that `namex` has are enough: the path gets shorter in each.
use laboratorio_ramiro.CString.{Memory}
use laboratorio_ramiro.Fs.{Disk, Super}
use laboratorio_ramiro.Fs.Inode.{ilock}
use laboratorio_ramiro.Fs.Icache.{Icache, iput, put_inode}
use laboratorio_ramiro.Fs.Dir.{dirlookup}
use laboratorio_ramiro.Fs.Namex.{go_down, go_on, round, visit, walk, Walked, with_name, write_back}
use laboratorio_ramiro.Fs.Path.{skipelem}
use laboratorio_ramiro.Fs.Path.Elements.{Skips, first_name, no_name, skipelem-Skips}
use laboratorio_ramiro.Prelude.{
  inl, zero, length, ◌≡◌, Option-cases, inr, Option, Bool, arith, List, none, some, suc, ◌<◌, ℕ,
}

-- Two ways to go on that agree on a path.
abbrev AgreeAt :
    (List ℕ → ℕ → Memory → Icache → Disk → Walked)
    → (List ℕ → ℕ → Memory → Icache → Disk → Walked)
    → List ℕ
    → Type 0
AgreeAt go go' rest =
    (i : ℕ) (name : Memory) (c : Icache) (d : Disk) → go rest i name c d ≡ go' rest i name c d

module _ (sb : Super) (has_read : ℕ → Bool) (parent : Bool)
    (go go' : List ℕ → ℕ → Memory → Icache → Disk → Walked) (rest : List ℕ)
    (h : AgreeAt go go' rest) where
  go_on-same :
      (i k : ℕ) (name : Memory) (c : Icache) (d : Disk)
      → go_on sb go rest i k name c d ≡ go_on sb go' rest i k name c d
  unfolding go_on
  go_on-same i k name c d = elim (Option-cases (iput sb i c d)) [
    | inl panic ↦ ground (arith, panic)
    | inr ((c1, d1), put) ↦ ground (arith, put, h k name c1 d1)
  ]

  go_down-same :
      (i : ℕ) (name : Memory) (c : Icache) (d : Disk)
      → go_down sb has_read go rest i name c d ≡ go_down sb has_read go' rest i name c d
  unfolding go_down
  go_down-same i name c d =
      elim (Option-cases (dirlookup sb has_read (c i) 16 (with_name name) c d)) [
        | inl panic ↦ ground (arith, panic)
        | inr ((none, m, dp, d1), looked) ↦ ground (arith, looked)
        | inr ((some (off, k, c1), m, dp, d1), looked) ↦
            ground (arith, looked, go_on-same i k name (write_back c1 i dp) d1)
      ]

  visit-same :
      (i : ℕ) (name : Memory) (c : Icache) (d : Disk)
      → visit sb has_read parent go rest i name c d ≡ visit sb has_read parent go' rest i name c d
  unfolding visit
  visit-same i name c d = ground (arith, go_down-same i name c d)

Skips-shorter :
    {path : List ℕ} {name : Memory} {o : Option (List ℕ × Memory)} {rest : List ℕ} {name' : Memory}
    → Skips path name o
    → o ≡ some (rest, name')
    → length rest < length path
Skips-shorter (no_name e) same = absurd (ground arith)
Skips-shorter {rest = rest} (first_name {rest = rest1} e a b c s l) same =
    let at : rest1 ≡ rest = ground arith in rw (← at) l

round-same :
    (sb : Super) (has_read : ℕ → Bool) (parent : Bool)
    (go go' : List ℕ → ℕ → Memory → Icache → Disk → Walked) (path : List ℕ)
    → ((rest : List ℕ) → length rest < length path → AgreeAt go go' rest)
    → AgreeAt (round sb has_read parent go) (round sb has_read parent go') path
unfolding round
round-same sb has_read parent go go' path h i name c d = elim (Option-cases (skipelem path name)) [
  | inl no_more ↦ ground (arith, no_more)
  | inr ((rest, name1), element) ↦
      let shorter = Skips-shorter (skipelem-Skips path name) element in
      elim (Option-cases (ilock sb d (c i))) [
        | inl panic ↦ ground (arith, element, panic)
        | inr (ip, locked) ↦
            let same =
              visit-same sb has_read parent go go' rest (h rest shorter) i name1 (put_inode c i ip)
                d in
            ground (arith, element, locked, same)
      ]
]

-- More rounds than the path has bytes make no difference.
pub walk-fuel :
    (sb : Super) (has_read : ℕ → Bool) (parent : Bool) (n k : ℕ) (path : List ℕ) (i : ℕ)
    (name : Memory) (c : Icache) (d : Disk)
    → length path < n
    → length path < k
    → walk sb has_read parent n path i name c d ≡ walk sb has_read parent k path i name c d
unfolding walk
walk-fuel sb has_read parent zero k path i name c d ln lk = absurd (omega arith)
walk-fuel sb has_read parent (suc n) zero path i name c d ln lk = absurd (omega arith)
walk-fuel sb has_read parent (suc n) (suc k) path i name c d ln lk =
    round-same sb has_read parent _ _ path
      (λ rest l j m b e. walk-fuel sb has_read parent n k rest j m b e (omega arith) (omega arith))
      i name c d
