-- ===== src/Proc/Waiting.antt =====
-- No process sleeps in `wait` while it has a zombie child: no wakeup is lost.
use laboratorio_ramiro.Proc.System.{alters, is_embryo, claims}
use laboratorio_ramiro.Proc.{claim_at, prepare, set_stack, publish}
use laboratorio_ramiro.Proc.{
  address, dispatch, yield, put, nproc, reaped, is_zombie, first, wait, Chan, same_chan, of_proc,
  sleep, tidy_up, Call, wakeup1, kill, is_sleeping, Proc, Table,
}
use laboratorio_ramiro.Proc.Family.{not_own_child, IsFamily, state_of, exited-parents}
use laboratorio_ramiro.Proc.Family.Steps.{Reach-IsFamily, wait-asleep}
use laboratorio_ramiro.Proc.System.{
  wakes, wraps, exits, picks, waits, next, leaves, sleeps, stays, yields, userinit-first_table,
  boots, first_table, tidies, kills, reaps, prepares, System, Step, Stays, Leaves, Reach,
}
use laboratorio_ramiro.Prelude.{
  ◌==◌, if◌then◌else◌, ◌≢◌, Bool-cases, Option, inl, false, ◌≡◌, ℕ, true, ◌&&◌, some, arith, inr,
  Option-cases, none, refl, List,
}
use laboratorio_ramiro.Proc.Scan.{any-false, freed, first-none, wait_lem, zombie_child}
use laboratorio_ramiro.Proc.Running.{Reach-IsExclusive, IsExclusive, runs}
use laboratorio_ramiro.Proc.Exit.{exit-exited, exited-IsLeft, exited-state, is_roused, exited}
use laboratorio_ramiro.Proc.Fork.{claim-holds, IsFree}
use laboratorio_ramiro.Proc.{fork_copy}
use laboratorio_ramiro.Proc.System.{publishes}

-- Slot `i` sleeps on process `k`.
abbrev pub SleepsOn : Table → ℕ → ℕ → Type 0
SleepsOn t i k = (is_sleeping (state_of t i) ≡ true) × ((t.proc i).chan ≡ some (of_proc k))

pub record IsHeard (t : Table) : Type 0 where
  -- Only `wait` sleeps on a process, and on its own.
  pub own : (i k : ℕ) → SleepsOn t i k → k ≡ i
  pub heard : (i j : ℕ) → SleepsOn t i i → zombie_child i t.proc j ≡ false

-- No process falls asleep on a process, and none becomes a zombie or changes its parent as one.
record IsQuiet (t u : Table) : Type 0 where
  sleepers : (i k : ℕ) → SleepsOn u i k → SleepsOn t i k
  zombies : (i j : ℕ) → zombie_child i t.proc j ≡ false → zombie_child i u.proc j ≡ false

IsQuiet-IsHeard : {t u : Table} → IsQuiet t u → IsHeard t → IsHeard u
IsQuiet-IsHeard {t} {u} q v = record {
  own = λ i k h. v.own i k (q.sleepers i k h);
  heard = λ i j h. q.zombies i j (v.heard i j (q.sleepers i i h));
}

claim_at-IsQuiet : (o : Option ℕ) (t : Table) → IsFree o t → IsQuiet t (claim_at o t).1
unfolding claim_at
claim_at-IsQuiet none t free = record { sleepers = λ i k h. h; zombies = λ i j h. h }
claim_at-IsQuiet (some n) t free = record {
  sleepers = λ i k h. ground arith;
  zombies = λ i j h. ground arith;
}

prepare-IsQuiet :
    (cur stack dir n : ℕ) (t : Table)
    → is_embryo (state_of t n) ≡ true
    → IsQuiet t (prepare cur stack dir (some n) t).1
unfolding prepare set_stack fork_copy
prepare-IsQuiet cur stack dir n t new = record {
  sleepers = λ i k h. ground (arith, new);
  zombies = λ i j h. ground (arith, new);
}

-- The slot `n` changes to one that neither sleeps on a process nor is a zombie.
put-IsQuiet :
    (t : Table) (n : ℕ) (p : Proc)
    → ((k : ℕ) → is_sleeping p.state && same_chan p.chan (some (of_proc k)) ≡ false)
    → is_zombie p.state ≡ false
    → IsQuiet t (put t n p)
put-IsQuiet t n p awake live = record {
  sleepers = λ i k h. ground (arith, awake k);
  zombies = λ i j h. ground arith;
}

publish-IsQuiet : (i : ℕ) (t : Table) → IsQuiet t (publish (some i) t).1
unfolding publish
publish-IsQuiet i t = put-IsQuiet t i _ (λ k. refl) refl

kill-IsQuiet : (pid : ℕ) (t : Table) → IsQuiet t (kill pid t).1
unfolding kill
kill-IsQuiet pid t = record { sleepers = λ i k h. ground arith; zombies = λ i j h. ground arith }

wakeup1-IsQuiet : (c : Option Chan) (t : Table) → IsQuiet t (wakeup1 c t)
unfolding wakeup1
wakeup1-IsQuiet c t = record { sleepers = λ i k h. ground arith; zombies = λ i j h. ground arith }

wait-IsQuiet :
    (cur : ℕ) {pid : ℕ} (t : Table) {t' : Table} {calls : List Call}
    → wait cur t ≡ reaped pid t' calls
    → IsQuiet t t'
wait-IsQuiet cur t {t'} e = elim (Option-cases (first (zombie_child cur t.proc) 0 nproc)) [
  | inl absent ↦ absurd (ground (arith, wait_lem cur t))
  | inr (z, found) ↦
      let became : t' ≡ freed t z = ground (arith, wait_lem cur t) in
      rw became (put-IsQuiet t z _ (λ k. refl) refl)
]

Stays-IsQuiet : {cur : ℕ} {t t' : Table} → Stays cur t t' → runs t cur ≡ true → IsQuiet t t'
unfolding tidy_up
Stays-IsQuiet {cur} {t} (claims e) r =
    rw e (claim-holds (λ out. IsQuiet t out.1) t (λ o free. claim_at-IsQuiet o t free))
Stays-IsQuiet {cur} {t} (prepares i stack dir new empty e) r =
    rw e (prepare-IsQuiet cur stack dir i t new)
Stays-IsQuiet {cur} {t} (publishes i q new made e) r = rw e (publish-IsQuiet i t)
Stays-IsQuiet {cur} {t} (reaps e) r = wait-IsQuiet cur t e
Stays-IsQuiet {cur} {t} (kills pid e) r = rw e (kill-IsQuiet pid t)
Stays-IsQuiet {cur} {t} (tidies e) r = rw e (put-IsQuiet t cur _ (λ k. ground arith) (ground arith))
Stays-IsQuiet {cur} {t} (alters ofile cwd e) r =
    rw e (put-IsQuiet t cur _ (λ k. ground arith) (ground arith))

-- `wait` goes to sleep when no child is a zombie.
waits-IsHeard :
    (cur : ℕ) (t : Table)
    → first (zombie_child cur t.proc) 0 nproc ≡ none
    → runs t cur ≡ true
    → IsFamily t
    → IsHeard t
    → IsHeard (sleep (some (of_proc cur)) cur t)
unfolding sleep
waits-IsHeard cur t none_dead r f v =
    let childless = λ (j : ℕ). first-none (zombie_child cur t.proc) 0 nproc j in
    record {
      own = λ i k h. ground (arith, v.own i k);
      heard = λ i j h. ground (arith, v.heard i j, childless j none_dead, f.bounded j);
    }

-- Who sleeps on a process after `exit` slept on it before, and was not woken.
exited-sleeper :
    (cur : ℕ) (t : Table) (i k : ℕ)
    → SleepsOn (exited cur t) i k
    → (i ≢ cur) × SleepsOn t i k × (is_roused cur t i ≡ false)
exited-sleeper cur t i k h = elim (Bool-cases (i == cur)) [
  | inl same ↦ absurd (ground (arith, exited-state cur t))
  | inr other ↦
      let apart : i ≢ cur = ground arith in
      let left = exited-IsLeft cur t i apart in
      (apart, (ground (arith, left.state), ground (arith, left.chan)), ground (arith, left.state))
]

exited-zombie :
    (cur : ℕ) (t : Table) (j : ℕ)
    → is_zombie (state_of (exited cur t) j) ≡ (if j == cur then true else is_zombie (state_of t j))
exited-zombie cur t j = elim (Bool-cases (j == cur)) [
  | inl same ↦ ground (arith, exited-state cur t)
  | inr other ↦ ground (arith, (exited-IsLeft cur t j (ground arith)).state)
]

exited-IsHeard : (cur : ℕ) (t : Table) → IsFamily t → IsHeard t → IsHeard (exited cur t)
exited-IsHeard cur t f v = record {
  own = λ i k h. v.own i k (exited-sleeper cur t i k h).1;
  heard = λ i j h.
      let (apart, before, unroused) = exited-sleeper cur t i i h in
      ground (
        arith,
        apart,
        before,
        unroused,
        v.heard i j before,
        any-false (zombie_child cur t.proc) 0 nproc j,
        exited-zombie cur t j,
        exited-parents cur t j f,
        f.bounded j,
        not_own_child t cur f,
      );
}

Leaves-IsHeard :
    {cur : ℕ} {t t' : Table}
    → Leaves cur t t'
    → runs t cur ≡ true
    → IsFamily t
    → IsHeard t
    → IsHeard t'
unfolding yield sleep
Leaves-IsHeard {cur} {t} (yields e) r f v =
    rw e (IsQuiet-IsHeard (put-IsQuiet t cur _ (λ k. refl) refl) v)
Leaves-IsHeard {cur} {t} (sleeps a e) r f v =
    rw e (IsQuiet-IsHeard (put-IsQuiet t cur _ (λ k. refl) refl) v)
Leaves-IsHeard {cur} {t} (waits e) r f v =
    let (none_dead, slept) = wait-asleep cur t e in rw slept (waits-IsHeard cur t none_dead r f v)
Leaves-IsHeard {cur} {t} (exits e) r f v = rw (exit-exited cur t e).1 (exited-IsHeard cur t f v)

dispatch-IsQuiet : (i : ℕ) (t : Table) → IsQuiet t (dispatch i t)
unfolding dispatch
dispatch-IsQuiet i t = put-IsQuiet t i _ (λ k. refl) refl

Step-IsHeard :
    {s u : System} → Step s u → IsExclusive s → IsFamily s.table → IsHeard s.table → IsHeard u.table
Step-IsHeard (stays c cur on st) x f v = IsQuiet-IsHeard (Stays-IsQuiet st (x.listed c cur on)) v
Step-IsHeard (leaves c cur on lv) x f v = Leaves-IsHeard lv (x.listed c cur on) f v
Step-IsHeard {s} (picks c i idle found) x f v = IsQuiet-IsHeard (dispatch-IsQuiet i s.table) v
Step-IsHeard (wraps c idle end) x f v = v
Step-IsHeard {s} (wakes a) x f v = IsQuiet-IsHeard (wakeup1-IsQuiet (some (address a)) s.table) v

first_table-IsHeard :
    (stack dir root : ℕ) (frame : List ℕ) → IsHeard (first_table stack dir root frame)
first_table-IsHeard stack dir root frame = record {
  own = λ i k h. ground arith;
  heard = λ i j h. ground arith;
}

-- In every reachable state only `wait` sleeps on a process, and on the caller's own; and no process
-- sleeps in `wait` while one of its children is a zombie.
pub Reach-IsHeard : {s : System} → Reach s → IsHeard s.table
Reach-IsHeard (boots {t} stack dir root frame e) =
    let (procs, pids, init) = userinit-first_table stack dir root frame e in
    IsQuiet-IsHeard
      (record {
        sleepers = λ i k h. ground (arith, procs i);
        zombies = λ i j h. ground (arith, procs j);
      })
      (first_table-IsHeard stack dir root frame)
Reach-IsHeard (next r st) =
    Step-IsHeard st (Reach-IsExclusive r) (Reach-IsFamily r) (Reach-IsHeard r)
