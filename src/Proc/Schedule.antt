-- ===== src/Proc/Schedule.antt =====
-- The scheduler starves no process.
use laboratorio_ramiro.Proc.{is_runnable, Table, nproc, next_runnable}
use laboratorio_ramiro.Prelude.{
  ap, ◌∙◌, inr, arith, inl, Option-cases, leb, mem, [], some, ℕ, ◌-◌, true, ◌<◌, List, ◌≡◌, none,
  ◌⊎◌, ◌+◌, ◌∷◌, length, if◌then◌else◌, ◌≤◌, All,
}
use laboratorio_ramiro.Proc.Scan.{first-none, first-IsFirst}

-- The slots that one scheduler picks in a row of scans, from slot `at` on, whatever the table is at
-- each of them.
unfoldable pub picked : ℕ → List Table → List ℕ
picked at [] = []
picked at (t ∷ ts) = elim (next_runnable at t) [
  | none ↦ picked 0 ts
  | some k ↦ k ∷ picked (k + 1) ts
]

abbrev pub WaitsItsTurn : ℕ → Table → Type 0
WaitsItsTurn i t = is_runnable (t.proc i).state ≡ true

-- How many more scans may go by before slot `i` is picked.
abbrev scans_left : ℕ → ℕ → ℕ
scans_left i at = if leb at i then i - at else (nproc - at) + 1 + i

-- One scan from `at` that picks `k` picks slot `i`, or comes nearer to it.
scan-nearer :
    (i at k : ℕ) (t : Table)
    → next_runnable at t ≡ some k
    → WaitsItsTurn i t
    → at ≤ nproc
    → (k < nproc) × ((i ≡ k) ⊎ (scans_left i (k + 1) < scans_left i at))
unfolding next_runnable
scan-nearer i at k t e turn range =
    let found = first-IsFirst (λ j. is_runnable (t.proc j).state) at (nproc - at) e in
    (omega (arith, found.below), ground (arith, found.from, found.below, found.before i))

scan-wraps :
    (i at : ℕ) (t : Table)
    → next_runnable at t ≡ none
    → WaitsItsTurn i t
    → i < nproc
    → scans_left i 0 < scans_left i at
unfolding next_runnable
scan-wraps i at t e turn below =
    ground (arith, first-none (λ j. is_runnable (t.proc j).state) at (nproc - at) i e)

picked-none :
    (at : ℕ) (t : Table) (ts : List Table)
    → next_runnable at t ≡ none
    → picked at (t ∷ ts) ≡ picked 0 ts
unfolding picked
picked-none at t ts e = ground arith

picked-some :
    (at k : ℕ) (t : Table) (ts : List Table)
    → next_runnable at t ≡ some k
    → picked at (t ∷ ts) ≡ k ∷ picked (k + 1) ts
unfolding picked
picked-some at k t ts e = ground arith

picked_soon :
    (i at : ℕ) (ts : List Table)
    → i < nproc
    → at ≤ nproc
    → All (WaitsItsTurn i) ts
    → scans_left i at < length ts
    → mem i (picked at ts) ≡ true
picked_soon i at [] below range turns enough = absurd (omega arith)
picked_soon i at (t ∷ ts) below range turns enough = elim (Option-cases (next_runnable at t)) [
  | inl end ↦
      ap (mem i) (picked-none at t ts end)
      ∙ picked_soon i 0 ts below (omega arith) turns.1
          (omega (arith, scan-wraps i at t end turns.0 below))
  | inr (k, e) ↦
      let near = scan-nearer i at k t e turns.0 range in
      ap (mem i) (picked-some at k t ts e) ∙ elim near.1 [
        | inl same ↦ ground arith
        | inr closer ↦
            let later =
              picked_soon i (k + 1) ts below (omega (arith, near.0)) turns.1 (omega arith) in
            ground (arith, later)
      ]
]

-- Slot `i` holds a runnable process at each of `nproc + 2` scans in a row of one scheduler, whatever
-- else is in the table at each: one of these scans picks it.
pub picked-mem :
    (i at : ℕ) (ts : List Table)
    → i < nproc
    → at ≤ nproc
    → All (WaitsItsTurn i) ts
    → nproc + 2 ≤ length ts
    → mem i (picked at ts) ≡ true
picked-mem i at ts below range turns enough = picked_soon i at ts below range turns (ground arith)
