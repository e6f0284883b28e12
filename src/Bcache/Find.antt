-- ===== src/Bcache/Find.antt =====
-- The searches of the list of buffers.
use laboratorio_ramiro.Kalloc.Owners.{count}
use laboratorio_ramiro.Prelude.{
  if◌then◌else◌, Option-cases, suc, none, ◌≡◌, Bool, mem, [], inr, some, true, List, ◌==◌, ◌∷◌,
  Bool-cases, false, inl, ltb, ℕ, arith, zero,
}
use laboratorio_ramiro.Bcache.{remove, find_last, find_first, binit_list}

pub mem-binit_list : (n i : ℕ) → mem i (binit_list n) ≡ ltb i n
unfolding binit_list
mem-binit_list zero i = ground arith
mem-binit_list (suc n) i = ground (arith, mem-binit_list n i)

pub find_first-some :
    (test : ℕ → Bool) (is : List ℕ) {i : ℕ}
    → find_first test is ≡ some i
    → (test i ≡ true) × (mem i is ≡ true)
unfolding find_first
find_first-some test [] e = absurd (cc)
find_first-some test (k ∷ is) {i} e = elim (Bool-cases (test k)) [
  | inl here ↦ let same : i ≡ k = ground arith in rw same (here, ground arith)
  | inr there ↦
      let rest : find_first test is ≡ some i = ground arith in
      let (passes, inside) = find_first-some test is rest in (passes, ground arith)
]

pub find_first-none :
    (test : ℕ → Bool) (is : List ℕ) (j : ℕ)
    → find_first test is ≡ none
    → mem j is ≡ true
    → test j ≡ false
unfolding find_first
find_first-none test [] j e h = absurd (cc)
find_first-none test (k ∷ is) j e h = elim (Bool-cases (test k)) [
  | inl here ↦ absurd (ground arith)
  | inr there ↦ elim (Bool-cases (j == k)) [
    | inl same ↦ let at : j ≡ k = ground arith in rw at there
    | inr other ↦ find_first-none test is j (ground arith) (ground arith)
  ]
]

pub find_last-some :
    (test : ℕ → Bool) (is : List ℕ) {i : ℕ}
    → find_last test is ≡ some i
    → (test i ≡ true) × (mem i is ≡ true)
unfolding find_last
find_last-some test [] e = absurd (cc)
find_last-some test (k ∷ is) {i} e = elim (Option-cases (find_last test is)) [
  | inr (l, later) ↦
      let same : i ≡ l = ground arith in
      let (passes, inside) = find_last-some test is later in
      rw same (passes, ground (arith, inside))
  | inl no_later ↦
      let here : test k ≡ true = ground arith in
      let same : i ≡ k = ground arith in rw same (here, ground arith)
]

pub mem-remove : (i j : ℕ) (is : List ℕ) → mem i is ≡ true → mem j (i ∷ remove i is) ≡ mem j is
unfolding remove
mem-remove i j [] h = absurd (cc)
mem-remove i j (k ∷ is) h = elim (Bool-cases (k == i)) [
  | inl here ↦ ground arith
  | inr there ↦ ground (arith, mem-remove i j is)
]

-- How often each buffer is in the list.
pub count-binit_list : (n i : ℕ) → count i (binit_list n) ≡ (if ltb i n then 1 else 0)
unfolding binit_list
count-binit_list zero i = ground arith
count-binit_list (suc n) i = ground (arith, count-binit_list n i)

pub count-remove :
    (i j : ℕ) (is : List ℕ) → mem i is ≡ true → count j (i ∷ remove i is) ≡ count j is
unfolding remove
count-remove i j [] h = absurd (cc)
count-remove i j (k ∷ is) h = elim (Bool-cases (k == i)) [
  | inl here ↦ ground arith
  | inr there ↦ ground (arith, count-remove i j is)
]
