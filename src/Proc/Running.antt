-- ===== src/Proc/Running.antt =====
-- A process runs on one processor at a time.
use laboratorio_ramiro.Proc.System.{alters, is_embryo, claims}
use laboratorio_ramiro.Proc.{claim, claim_at, prepare, set_stack, publish}
use laboratorio_ramiro.Proc.{
  is_runnable, userinit, next_runnable, dispatch, sleep, wakeup1, reaped, yield, tidy_up, kill,
  wait, Call, nproc, Table, is_running, is_unused, first,
}
use laboratorio_ramiro.Proc.Scan.{wait_lem, zombie_child, first-IsFirst}
use laboratorio_ramiro.Proc.System.{
  userinit-first_table, blank_table, prepares, reaps, kills, tidies, yields, sleeps, waits, exits,
  stays, leaves, picks, wraps, wakes, boots, next, System, Stays, Leaves, Step, Reach,
}
use laboratorio_ramiro.Prelude.{
  ◌-◌, Bool-cases, sym, Option-cases, if◌then◌else◌, false, inl, ◌∙◌, ap, ◌==◌, inr, refl, none,
  arith, true, some, List, Bool, ◌≡◌, Option, ℕ,
}
use laboratorio_ramiro.Proc.Exit.{exited-IsLeft, exited-state, exit-exited, exited}
use laboratorio_ramiro.Proc.Fork.{claim-holds}
use laboratorio_ramiro.Proc.{fork_copy}
use laboratorio_ramiro.Proc.System.{publishes}

-- Whether slot `j` of the table runs.
abbrev pub runs : Table → ℕ → Bool
runs t j = is_running (t.proc j).state

claim_at-runs :
    (o : Option ℕ) (t : Table) (j : ℕ)
    → ((i : ℕ) → o ≡ some i → is_unused (t.proc i).state ≡ true)
    → runs (claim_at o t).1 j ≡ runs t j
unfolding claim_at
claim_at-runs none t j free = refl
claim_at-runs (some i) t j free = ground (arith, free i refl)

claim-runs : (t : Table) (j : ℕ) → runs (claim t).1 j ≡ runs t j
claim-runs t j =
    claim-holds (λ r. runs r.1 j ≡ runs t j) t (λ o free. claim_at-runs o t j (λ i e. (free i e).0))

prepare-runs :
    (cur stack dir i : ℕ) (t : Table) (j : ℕ)
    → is_embryo (t.proc i).state ≡ true
    → runs (prepare cur stack dir (some i) t).1 j ≡ runs t j
unfolding prepare set_stack fork_copy
prepare-runs cur stack dir i t j new = ground (arith, new)

publish-runs :
    (i : ℕ) (t : Table) (j : ℕ)
    → is_embryo (t.proc i).state ≡ true
    → runs (publish (some i) t).1 j ≡ runs t j
unfolding publish
publish-runs i t j new = ground (arith, new)

wait-runs :
    (cur : ℕ) {pid : ℕ} (t : Table) {t' : Table} {calls : List Call} (j : ℕ)
    → wait cur t ≡ reaped pid t' calls
    → runs t' j ≡ runs t j
wait-runs cur t j e = elim (Option-cases (first (zombie_child cur t.proc) 0 nproc)) [
  | inl absent ↦ ground (arith, wait_lem cur t)
  | inr (z, found) ↦
      let dead = (first-IsFirst (zombie_child cur t.proc) 0 nproc found).passes in
      ground (arith, wait_lem cur t, dead)
]

kill-runs : (pid : ℕ) (t : Table) (j : ℕ) → runs (kill pid t).1 j ≡ runs t j
unfolding kill
kill-runs pid t j = ground arith

Stays-runs : {cur : ℕ} {t t' : Table} → Stays cur t t' → (j : ℕ) → runs t' j ≡ runs t j
unfolding tidy_up
Stays-runs {cur} {t} (claims e) j = ap (λ r. runs r j) e ∙ claim-runs t j
Stays-runs {cur} {t} (prepares i stack dir new empty e) j =
    ap (λ r. runs r j) e ∙ prepare-runs cur stack dir i t j new
Stays-runs {cur} {t} (publishes i q new made e) j = ap (λ r. runs r j) e ∙ publish-runs i t j new
Stays-runs {cur} {t} (reaps e) j = wait-runs cur t j e
Stays-runs {cur} {t} (kills pid e) j = ap (λ r. runs r j) e ∙ kill-runs pid t j
Stays-runs {cur} {t} (tidies e) j = ground arith
Stays-runs {cur} {t} (alters ofile cwd e) j = ground arith

-- A process that leaves its processor no longer runs, and no other starts or stops.
abbrev Stopped : ℕ → Table → Table → ℕ → Type 0
Stopped cur t t' j = runs t' j ≡ (if j == cur then false else runs t j)

exited-Stopped : (cur : ℕ) (t : Table) (j : ℕ) → Stopped cur t (exited cur t) j
exited-Stopped cur t j = elim (Bool-cases (j == cur)) [
  | inl same ↦ ground (arith, exited-state cur t)
  | inr other ↦ ground (arith, (exited-IsLeft cur t j (ground arith)).state)
]

Leaves-runs : {cur : ℕ} {t t' : Table} → Leaves cur t t' → (j : ℕ) → Stopped cur t t' j
unfolding yield sleep
Leaves-runs {cur} {t} (yields e) j = ground arith
Leaves-runs {cur} {t} (sleeps a e) j = ground arith
Leaves-runs {cur} {t} (waits e) j = ground (arith, wait_lem cur t)
Leaves-runs {cur} {t} (exits e) j = rw (exit-exited cur t e).1 (exited-Stopped cur t j)

pub next_runnable-passes :
    (at : ℕ) (t : Table) {i : ℕ} → next_runnable at t ≡ some i → is_runnable (t.proc i).state ≡ true
unfolding next_runnable
next_runnable-passes at t e =
    (first-IsFirst (λ i. is_runnable (t.proc i).state) at (nproc - at) e).passes

-- The processors agree with the table on who runs.
pub record IsExclusive (s : System) : Type 0 where
  -- A processor's process runs, and no other processor has it.
  pub listed : (c i : ℕ) → (s.cpus c).current ≡ some i → runs s.table i ≡ true
  pub single : (c d i : ℕ) → (s.cpus c).current ≡ some i → (s.cpus d).current ≡ some i → c ≡ d
  -- A process that runs has a processor.
  pub placed : (i : ℕ) → runs s.table i ≡ true → (c : ℕ) × ((s.cpus c).current ≡ some i)

Step-IsExclusive : {s u : System} → Step s u → IsExclusive s → IsExclusive u
unfolding dispatch wakeup1
Step-IsExclusive {s} (stays {t'} c cur on st) v = record {
  listed = λ d i e. Stays-runs st i ∙ v.listed d i e;
  single = v.single;
  placed = λ i r. v.placed i (sym (Stays-runs st i) ∙ r);
}
Step-IsExclusive {s} (leaves {t'} c cur on lv) v = record {
  listed = λ d i e. ground (arith, Leaves-runs lv i, v.listed d i, v.single c d i);
  single = λ d f i e g. ground (arith, v.single d f i);
  placed = λ i r.
      let (d, at) = v.placed i (ground (arith, Leaves-runs lv i)) in
      (d, ground (arith, Leaves-runs lv i));
}
Step-IsExclusive {s} (picks c i idle found) v =
    let was_runnable = next_runnable-passes (s.cpus c).at s.table found in
    record {
      listed = λ d k e. ground (arith, v.listed d k);
      single =
          λ d f k e g. ground (arith, was_runnable, v.single d f k, v.listed d i, v.listed f i);
      placed = λ k r. elim (Bool-cases (k == i)) [
        | inl same ↦ (c, ground arith)
        | inr other ↦ let (d, at) = v.placed k (ground arith) in (d, ground arith)
      ];
    }
Step-IsExclusive {s} (wraps c idle end) v = record {
  listed = λ d k e. ground (arith, v.listed d k);
  single = λ d f k e g. ground (arith, v.single d f k);
  placed = λ k r. let (d, at) = v.placed k r in (d, ground arith);
}
Step-IsExclusive {s} (wakes a) v = record {
  listed = λ d k e. ground (arith, v.listed d k);
  single = v.single;
  placed = λ k r. v.placed k (ground arith);
}

userinit-runs :
    (stack dir root : ℕ) (frame : List ℕ) {t : Table} (j : ℕ)
    → userinit stack dir root frame blank_table ≡ some t
    → runs t j ≡ false
userinit-runs stack dir root frame j e =
    ground (arith, (userinit-first_table stack dir root frame e).0 j)

-- In every reachable state each processor runs a process that is RUNNING, no process is on two
-- processors, and every RUNNING process is on one.
pub Reach-IsExclusive : {s : System} → Reach s → IsExclusive s
Reach-IsExclusive (boots {t} stack dir root frame e) = record {
  listed = λ c i e. absurd (cc);
  single = λ c d i e f. absurd (cc);
  placed = λ i r. absurd (ground (arith, userinit-runs stack dir root frame i e));
}
Reach-IsExclusive (next r st) = Step-IsExclusive st (Reach-IsExclusive r)
