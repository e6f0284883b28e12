-- ===== src/Proc/Family/Steps.antt =====
-- Every step keeps the parents alive.
use laboratorio_ramiro.Proc.System.{alters, claims}
use laboratorio_ramiro.Proc.{
  address, of_proc, first, next_runnable, asleep, reaped, dispatch, yield, sleep, wait, tidy_up,
  Call, Chan, nproc, is_unused, Table,
}
use laboratorio_ramiro.Prelude.{
  ap, Option-cases, inr, List, inl, arith, true, ◌≡◌, some, refl, ℕ, Option, none,
}
use laboratorio_ramiro.Proc.Running.{Reach-IsExclusive, IsExclusive, next_runnable-passes, runs}
use laboratorio_ramiro.Proc.Fork.{claim-holds}
use laboratorio_ramiro.Proc.Exit.{exit-exited}
use laboratorio_ramiro.Proc.Scan.{first-IsFirst, wait_lem, zombie_child, freed}
use laboratorio_ramiro.Proc.System.{
  tidies, wakes, exits, kills, wraps, waits, reaps, next, picks, leaves, sleeps,
  userinit-first_table, boots, stays, yields, prepares, Reach, Step, System, Leaves, Stays,
  first_table,
}
use laboratorio_ramiro.Proc.Family.{
  publish-IsFamily, prepare-IsFamily, is_new, claim_at-IsFamily, exited-IsFamily, wakeup1-IsSteady,
  kill-IsSteady, put-IsSteady, IsSteady-IsFamily, freed-IsFamily, IsFamily, IsSteady, is_alive,
}
use laboratorio_ramiro.Proc.System.{publishes}

wait-IsFamily :
    (cur : ℕ) {pid : ℕ} {t t' : Table} {calls : List Call}
    → wait cur t ≡ reaped pid t' calls
    → IsFamily t
    → IsFamily t'
wait-IsFamily cur {pid} {t} {t'} e v =
    elim (Option-cases (first (zombie_child cur t.proc) 0 nproc)) [
      | inl absent ↦ absurd (ground (arith, wait_lem cur t))
      | inr (z, found) ↦
          let dead = (first-IsFirst (zombie_child cur t.proc) 0 nproc found).passes in
          let became : t' ≡ freed t z = ground (arith, wait_lem cur t) in
          rw became (freed-IsFamily t z (ground arith) v)
    ]

Stays-IsFamily :
    {cur : ℕ} {t t' : Table} → Stays cur t t' → runs t cur ≡ true → IsFamily t → IsFamily t'
unfolding tidy_up
Stays-IsFamily {cur} {t} (claims e) r v =
    rw e (claim-holds (λ out. IsFamily out.1) t (λ o free. claim_at-IsFamily o t v free))
Stays-IsFamily {cur} {t} (prepares i stack dir new empty e) r v =
    rw e (prepare-IsFamily cur stack dir i t r new empty v)
Stays-IsFamily {cur} {t} (publishes i q new made e) r v = rw e (publish-IsFamily i q t new made v)
Stays-IsFamily {cur} (reaps e) r v = wait-IsFamily cur e v
Stays-IsFamily {cur} {t} (kills pid e) r v = rw e (IsSteady-IsFamily (kill-IsSteady pid t) v)
Stays-IsFamily {cur} {t} (tidies e) r v =
    rw e (IsSteady-IsFamily (put-IsSteady t cur _ (ground arith) (ground arith) refl) v)
Stays-IsFamily {cur} {t} (alters ofile cwd e) r v =
    rw e (IsSteady-IsFamily (put-IsSteady t cur _ (ground arith) (ground arith) refl) v)

-- `wait` sleeps only if no child is a zombie.
pub wait-asleep :
    (cur : ℕ) (t : Table) {t' : Table}
    → wait cur t ≡ asleep t'
    → (first (zombie_child cur t.proc) 0 nproc ≡ none) × (t' ≡ sleep (some (of_proc cur)) cur t)
wait-asleep cur t e = ground (arith, wait_lem cur t)

sleep-IsFamily :
    (c : Option Chan) (cur : ℕ) (t : Table)
    → runs t cur ≡ true
    → IsFamily t
    → IsFamily (sleep c cur t)
unfolding sleep
sleep-IsFamily c cur t r v = IsSteady-IsFamily (put-IsSteady t cur _ (ground arith) refl refl) v

Leaves-IsFamily :
    {cur : ℕ} {t t' : Table} → Leaves cur t t' → runs t cur ≡ true → IsFamily t → IsFamily t'
unfolding yield
Leaves-IsFamily {cur} {t} (yields e) r v =
    rw e (IsSteady-IsFamily (put-IsSteady t cur _ (ground arith) refl refl) v)
Leaves-IsFamily {cur} {t} (sleeps a e) r v = rw e (sleep-IsFamily (some (address a)) cur t r v)
Leaves-IsFamily {cur} {t} (waits e) r v =
    rw (wait-asleep cur t e).1 (sleep-IsFamily (some (of_proc cur)) cur t r v)
Leaves-IsFamily {cur} {t} (exits e) r v =
    let left = exit-exited cur t e in rw left.1 (exited-IsFamily cur t r left.0 v)

dispatch-IsSteady : (at i : ℕ) (t : Table) → next_runnable at t ≡ some i → IsSteady t (dispatch i t)
unfolding dispatch
dispatch-IsSteady at i t e =
    let was = next_runnable-passes at t e in put-IsSteady t i _ (ground arith) refl refl

Step-IsFamily : {s u : System} → Step s u → IsExclusive s → IsFamily s.table → IsFamily u.table
Step-IsFamily (stays c cur on st) x v = Stays-IsFamily st (x.listed c cur on) v
Step-IsFamily (leaves c cur on lv) x v = Leaves-IsFamily lv (x.listed c cur on) v
Step-IsFamily {s} (picks c i idle found) x v =
    IsSteady-IsFamily (dispatch-IsSteady (s.cpus c).at i s.table found) v
Step-IsFamily (wraps c idle end) x v = v
Step-IsFamily {s} (wakes a) x v = IsSteady-IsFamily (wakeup1-IsSteady (some (address a)) s.table) v

first_table-IsFamily :
    (stack dir root : ℕ) (frame : List ℕ) → IsFamily (first_table stack dir root frame)
first_table-IsFamily stack dir root frame = record {
  root = refl;
  init_alive = refl;
  parents = λ j q e. ground arith;
  rooted = λ j n o. ground arith;
  free = λ j e. ground arith;
  bounded = λ j e. ground arith;
}

-- In every reachable state init is alive and has no parent. Every other slot that is neither free nor under
-- construction by `fork` has a parent. Any parent, also of a slot under construction, is another process
-- and alive, neither free nor under construction nor a zombie, so that it can still call `wait`; and
-- a free slot has none.
pub Reach-IsFamily : {s : System} → Reach s → IsFamily s.table
Reach-IsFamily (boots {t} stack dir root frame e) =
    let (procs, pids, init) = userinit-first_table stack dir root frame e in
    IsSteady-IsFamily
      (record {
        same_init = init;
        same_parent = λ j. ap (λ p. p.parent) (procs j);
        same_alive = λ j. ap (λ p. is_alive p.state) (procs j);
        same_unused = λ j. ap (λ p. is_unused p.state) (procs j);
        same_new = λ j. ap (λ p. is_new p.state) (procs j);
      })
      (first_table-IsFamily stack dir root frame)
Reach-IsFamily (next r st) = Step-IsFamily st (Reach-IsExclusive r) (Reach-IsFamily r)
