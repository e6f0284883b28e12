-- ===== src/Proc/Pids.antt =====
-- Process ids are unique, as long as `nextpid` has not passed the largest `int`.
use laboratorio_ramiro.Proc.{
  of_proc, nproc, address, first, reaped, next_runnable, wait, Chan, put, dispatch, yield, sleep,
  tidy_up, Call, wakeup1, kill, claim_at, is_unused, Proc, Table,
}
use laboratorio_ramiro.Proc.Family.{state_of, exited-unused}
use laboratorio_ramiro.Proc.Family.Steps.{wait-asleep}
use laboratorio_ramiro.Proc.System.{
  alters, exits, wakes, tidies, wraps, waits, kills, picks, reaps, next, leaves, sleeps, stays,
  yields, userinit-first_table, boots, first_table, System, Step, Stays, Leaves, Reach,
}
use laboratorio_ramiro.Prelude.{
  ◌≤◌, ◌^◌, ◌+◌, ◌-◌, ◌==◌, ◌<◌, inl, some, List, true, inr, ◌≡◌, Option, Option-cases, ap, refl,
  none, arith, false, Bool-cases, ℕ,
}
use laboratorio_ramiro.Proc.Scan.{wait_lem, zombie_child, freed}
use laboratorio_ramiro.Proc.Running.{Reach-IsExclusive, next_runnable-passes, IsExclusive, runs}
use laboratorio_ramiro.Proc.Exit.{exit-exited, exited-IsLeft, exited-pid, exited-nextpid, exited}
use laboratorio_ramiro.Proc.Fork.{IsFree, claim-holds}
use laboratorio_ramiro.Proc.{fork_copy, prepare, publish, set_stack}
use laboratorio_ramiro.Proc.System.{
  claims, count_claims, count_stays, count_step, is_embryo, prepares, publishes,
}

abbrev pub pid_of : Table → ℕ → ℕ
pid_of t j = (t.proc j).pid

pub record IsNumbered (t : Table) : Type 0 where
  pub below : (j : ℕ) → pid_of t j < t.nextpid
  pub positive : (j : ℕ) → is_unused (state_of t j) ≡ false → 0 < pid_of t j
  -- Also of the ids that failed calls of `fork` leave in free slots.
  pub distinct : (i j : ℕ) → pid_of t i ≡ pid_of t j → 0 < pid_of t i → i ≡ j

-- No id changes, and no slot comes into use.
record IsKept (t u : Table) : Type 0 where
  same_next : u.nextpid ≡ t.nextpid
  same_pid : (j : ℕ) → pid_of u j ≡ pid_of t j
  in_use : (j : ℕ) → is_unused (state_of u j) ≡ is_unused (state_of t j)

IsKept-IsNumbered : {t u : Table} → IsKept t u → IsNumbered t → IsNumbered u
IsKept-IsNumbered {t} {u} k v = record {
  below = λ j. omega (arith, k.same_next, k.same_pid j, v.below j);
  positive = λ j e. ground (arith, k.same_pid j, k.in_use j, v.positive j);
  distinct = λ i j e l.
      v.distinct i j (omega (arith, k.same_pid i, k.same_pid j)) (omega (arith, k.same_pid i));
}

claim_at-IsNumbered :
    (o : Option ℕ) (t : Table)
    → t.nextpid < 2 ^ 31
    → IsNumbered t
    → IsFree o t
    → IsNumbered (claim_at o t).1
unfolding claim_at
claim_at-IsNumbered none t small v free = v
claim_at-IsNumbered (some n) t small v free = record {
  below = λ j. ground (arith, v.below j);
  positive = λ j e. ground (arith, v.positive j, v.below n);
  distinct = λ i j e l. ground (arith, v.distinct i j, v.below i, v.below j);
}

prepare-IsNumbered :
    (cur stack dir i : ℕ) (t : Table)
    → is_embryo (state_of t i) ≡ true
    → IsNumbered t
    → IsNumbered (prepare cur stack dir (some i) t).1
unfolding prepare set_stack fork_copy
prepare-IsNumbered cur stack dir i t new v = record {
  below = λ j. ground (arith, v.below j);
  positive = λ j e. ground (arith, v.positive j);
  distinct = λ k j e l. ground (arith, v.distinct k j);
}

freed-IsNumbered : (t : Table) (z : ℕ) → IsNumbered t → IsNumbered (freed t z)
freed-IsNumbered t z v = record {
  below = λ j. ground (arith, v.below j, v.below z);
  positive = λ j e. ground (arith, v.positive j);
  distinct = λ i j e l. ground (arith, v.distinct i j);
}

put-IsKept :
    (t : Table) (i : ℕ) (p : Proc)
    → p.pid ≡ pid_of t i
    → is_unused p.state ≡ is_unused (state_of t i)
    → IsKept t (put t i p)
put-IsKept t i p same used = record {
  same_next = refl;
  same_pid = λ j. ground arith;
  in_use = λ j. ground arith;
}

kill-IsKept : (pid : ℕ) (t : Table) → IsKept t (kill pid t).1
unfolding kill
kill-IsKept pid t = record {
  same_next = ground arith;
  same_pid = λ j. ground arith;
  in_use = λ j. ground arith;
}

wakeup1-IsKept : (c : Option Chan) (t : Table) → IsKept t (wakeup1 c t)
unfolding wakeup1
wakeup1-IsKept c t = record {
  same_next = refl;
  same_pid = λ j. ground arith;
  in_use = λ j. ground arith;
}

exited-IsKept : (cur : ℕ) (t : Table) → runs t cur ≡ true → IsKept t (exited cur t)
exited-IsKept cur t r = record {
  same_next = exited-nextpid cur t;
  same_pid = λ j. elim (Bool-cases (j == cur)) [
    | inl same ↦ ground (arith, exited-pid cur t)
    | inr other ↦ ground (arith, (exited-IsLeft cur t j (ground arith)).pid)
  ];
  in_use = λ j. exited-unused cur t j r;
}

wait-IsNumbered :
    (cur : ℕ) {pid : ℕ} {t t' : Table} {calls : List Call}
    → wait cur t ≡ reaped pid t' calls
    → IsNumbered t
    → IsNumbered t'
wait-IsNumbered cur {pid} {t} {t'} e v =
    elim (Option-cases (first (zombie_child cur t.proc) 0 nproc)) [
      | inl absent ↦ absurd (ground (arith, wait_lem cur t))
      | inr (z, found) ↦
          let became : t' ≡ freed t z = ground (arith, wait_lem cur t) in
          rw became (freed-IsNumbered t z v)
    ]

publish-IsKept :
    (i : ℕ) (t : Table) → is_embryo (state_of t i) ≡ true → IsKept t (publish (some i) t).1
unfolding publish
publish-IsKept i t new = put-IsKept t i _ refl (ground arith)

Stays-IsNumbered :
    {cur : ℕ} {t t' : Table} → Stays cur t t' → t.nextpid < 2 ^ 31 → IsNumbered t → IsNumbered t'
unfolding tidy_up
Stays-IsNumbered {cur} {t} (claims e) small v =
    rw e (claim-holds (λ out. IsNumbered out.1) t (λ o free. claim_at-IsNumbered o t small v free))
Stays-IsNumbered {cur} {t} (prepares i stack dir new empty e) small v =
    rw e (prepare-IsNumbered cur stack dir i t new v)
Stays-IsNumbered {cur} {t} (publishes i q new made e) small v =
    rw e (IsKept-IsNumbered (publish-IsKept i t new) v)
Stays-IsNumbered {cur} (reaps e) small v = wait-IsNumbered cur e v
Stays-IsNumbered {cur} {t} (kills pid e) small v = rw e (IsKept-IsNumbered (kill-IsKept pid t) v)
Stays-IsNumbered {cur} {t} (tidies e) small v =
    rw e (IsKept-IsNumbered (put-IsKept t cur _ refl refl) v)
Stays-IsNumbered {cur} {t} (alters ofile cwd e) small v =
    rw e (IsKept-IsNumbered (put-IsKept t cur _ refl refl) v)

sleep-IsKept :
    (c : Option Chan) (cur : ℕ) (t : Table) → runs t cur ≡ true → IsKept t (sleep c cur t)
unfolding sleep
sleep-IsKept c cur t r = put-IsKept t cur _ refl (ground arith)

Leaves-IsKept : {cur : ℕ} {t t' : Table} → Leaves cur t t' → runs t cur ≡ true → IsKept t t'
unfolding yield
Leaves-IsKept {cur} {t} (yields e) r = rw e (put-IsKept t cur _ refl (ground arith))
Leaves-IsKept {cur} {t} (sleeps a e) r = rw e (sleep-IsKept (some (address a)) cur t r)
Leaves-IsKept {cur} {t} (waits e) r =
    rw (wait-asleep cur t e).1 (sleep-IsKept (some (of_proc cur)) cur t r)
Leaves-IsKept {cur} {t} (exits e) r = rw (exit-exited cur t e).1 (exited-IsKept cur t r)

dispatch-IsKept : (at i : ℕ) (t : Table) → next_runnable at t ≡ some i → IsKept t (dispatch i t)
unfolding dispatch
dispatch-IsKept at i t e =
    let was = next_runnable-passes at t e in put-IsKept t i _ refl (ground arith)

Step-IsNumbered :
    {s u : System}
    → Step s u
    → IsExclusive s
    → s.table.nextpid < 2 ^ 31
    → IsNumbered s.table
    → IsNumbered u.table
Step-IsNumbered (stays c cur on st) x small v = Stays-IsNumbered st small v
Step-IsNumbered (leaves c cur on lv) x small v =
    IsKept-IsNumbered (Leaves-IsKept lv (x.listed c cur on)) v
Step-IsNumbered {s} (picks c i idle found) x small v =
    IsKept-IsNumbered (dispatch-IsKept (s.cpus c).at i s.table found) v
Step-IsNumbered (wraps c idle end) x small v = v
Step-IsNumbered {s} (wakes a) x small v =
    IsKept-IsNumbered (wakeup1-IsKept (some (address a)) s.table) v

-- A step steps `nextpid` by one at most, and only if it claims a slot.
claim_at-nextpid : (o : Option ℕ) (t : Table) → (claim_at o t).1.nextpid ≤ t.nextpid + 1
unfolding claim_at
claim_at-nextpid none t = omega arith
claim_at-nextpid (some i) t = ground arith

prepare-nextpid :
    (cur stack dir i : ℕ) (t : Table) → (prepare cur stack dir (some i) t).1.nextpid ≡ t.nextpid
unfolding prepare set_stack fork_copy
prepare-nextpid cur stack dir i t = ground arith

wait-nextpid :
    (cur : ℕ) (t : Table) {pid : ℕ} {t' : Table} {calls : List Call}
    → wait cur t ≡ reaped pid t' calls
    → t'.nextpid ≡ t.nextpid
wait-nextpid cur t {pid} {t'} e = elim (Option-cases (first (zombie_child cur t.proc) 0 nproc)) [
  | inl absent ↦ absurd (ground (arith, wait_lem cur t))
  | inr (z, found) ↦ let became : t' ≡ freed t z = ground (arith, wait_lem cur t) in rw became
]

Stays-nextpid :
    {cur : ℕ} {t t' : Table} (st : Stays cur t t') → t'.nextpid ≤ t.nextpid + count_stays st
unfolding count_stays tidy_up
Stays-nextpid {cur} {t} (claims e) =
    rw e (claim-holds (λ out. out.1.nextpid ≤ t.nextpid + 1) t (λ o free. claim_at-nextpid o t))
Stays-nextpid {cur} {t} (prepares i stack dir new empty e) =
    rw e (omega (arith, prepare-nextpid cur stack dir i t))
Stays-nextpid {cur} {t} (publishes i q new made e) =
    rw e (omega (arith, (publish-IsKept i t new).same_next))
Stays-nextpid {cur} {t} (reaps e) = omega (arith, wait-nextpid cur t e)
Stays-nextpid {cur} {t} (kills pid e) = rw e (omega (arith, (kill-IsKept pid t).same_next))
Stays-nextpid {cur} {t} (tidies e) = rw e (omega arith)
Stays-nextpid {cur} {t} (alters ofile cwd e) = rw e (omega arith)

Step-nextpid :
    {s u : System} (st : Step s u)
    → IsExclusive s
    → u.table.nextpid ≤ s.table.nextpid + count_step st
unfolding count_step
Step-nextpid (stays c cur on st) x = Stays-nextpid st
Step-nextpid (leaves c cur on lv) x =
    omega (arith, (Leaves-IsKept lv (x.listed c cur on)).same_next)
Step-nextpid {s} (picks c i idle found) x =
    omega (arith, (dispatch-IsKept (s.cpus c).at i s.table found).same_next)
Step-nextpid (wraps c idle end) x = omega arith
Step-nextpid {s} (wakes a) x = omega (arith, (wakeup1-IsKept (some (address a)) s.table).same_next)

Reach-nextpid : {s : System} (r : Reach s) → s.table.nextpid ≤ 2 + count_claims r
unfolding count_claims
Reach-nextpid (boots {t} stack dir root frame e) =
    omega (arith, (userinit-first_table stack dir root frame e).1)
Reach-nextpid (next r st) = omega (arith, Reach-nextpid r, Step-nextpid st (Reach-IsExclusive r))

first_table-IsNumbered :
    (stack dir root : ℕ) (frame : List ℕ) → IsNumbered (first_table stack dir root frame)
first_table-IsNumbered stack dir root frame = record {
  below = λ j. ground arith;
  positive = λ j e. ground arith;
  distinct = λ i j e l. ground arith;
}

-- In every state that is reached with fewer than 2 ^ 31 - 2 claims of a slot by `fork`, `nextpid` has not
-- passed the largest `int`; every process, also one under construction, has a positive id, below the next
-- one that `fork` gives out; and no two slots have the same positive id.
pub Reach-IsNumbered :
    {s : System} (r : Reach s)
    → count_claims r < 2 ^ 31 - 2
    → IsNumbered s.table × (s.table.nextpid < 2 ^ 31)
unfolding count_claims
Reach-IsNumbered (boots {t} stack dir root frame e) few =
    let (procs, pids, init) = userinit-first_table stack dir root frame e in
    (
      IsKept-IsNumbered
          (record {
            same_next = pids;
            same_pid = λ j. ap (λ p. p.pid) (procs j);
            in_use = λ j. ap (λ p. is_unused p.state) (procs j);
          })
          (first_table-IsNumbered stack dir root frame),
      omega (arith, pids),
    )
Reach-IsNumbered (next r st) few =
    let (v, small) = Reach-IsNumbered r (omega arith) in
    (Step-IsNumbered st (Reach-IsExclusive r) small v, omega (arith, Reach-nextpid (next r st)))
