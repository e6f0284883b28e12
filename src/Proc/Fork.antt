-- ===== src/Proc/Fork.antt =====
-- `fork` and the claim of a slot, by the slot that the scan finds.
use laboratorio_ramiro.Prelude.{true, arith, refl, ◌≡◌, subst, List, ◌<◌, sym, some, Option, ℕ}
use laboratorio_ramiro.Proc.{
  claim, claim_at, nproc, is_unused, first, Call, fork, prepare, publish, Table,
}
use laboratorio_ramiro.Proc.Scan.{first-IsFirst}

-- `fork` with the slot that the scan found.
abbrev pub fork_from : ℕ → ℕ → ℕ → Option ℕ → Table → Option ℕ × Table × List Call
fork_from cur stack dir o t =
    let (np, t1) = claim_at o t in
    let (made, t2, calls) = prepare cur stack dir np t1 in
    let (pid, t3) = publish made t2 in (pid, t3, calls)

pub fork-eq :
    (cur stack dir : ℕ) (t : Table)
    → fork cur stack dir t
      ≡ fork_from cur stack dir (first (λ i. is_unused (t.proc i).state) 0 nproc) t
unfolding fork claim
fork-eq cur stack dir t = refl

claim-eq : (t : Table) → claim t ≡ claim_at (first (λ i. is_unused (t.proc i).state) 0 nproc) t
unfolding claim
claim-eq t = refl

abbrev pub IsFree : Option ℕ → Table → Type 0
IsFree o t = (i : ℕ) → o ≡ some i → (is_unused (t.proc i).state ≡ true) × (i < nproc)

-- What holds of the claim of any free slot holds of `claim`.
pub claim-holds {ℓ} :
    (P : Option ℕ × Table → Type ℓ) (t : Table)
    → ((o : Option ℕ) → IsFree o t → P (claim_at o t))
    → P (claim t)
claim-holds P t h = subst P (sym (claim-eq t)) (
    h _ (λ i e.
      let found = first-IsFirst (λ k. is_unused (t.proc k).state) 0 nproc e in
      (found.passes, omega (arith, found.below))))
