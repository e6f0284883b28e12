-- ===== src/Proc/Kill.antt =====
-- `kill` in a reachable state.
use laboratorio_ramiro.Proc.{runnable, is_sleeping, fork, put, nproc, is_unused, first, Table, kill}
use laboratorio_ramiro.Proc.Family.{state_of}
use laboratorio_ramiro.Proc.System.{System, Reach, count_claims}
use laboratorio_ramiro.Prelude.{
  ◌^◌, ◌-◌, ℕ, if◌then◌else◌, ◌==◌, ◌≢◌, ◌<◌, ◌≡◌, arith, false, inl, inr, true, some, Bool, ◌∙◌,
  Option-cases,
}
use laboratorio_ramiro.Proc.Scan.{first-IsFirst, first-none}
use laboratorio_ramiro.Proc.Pids.{Reach-IsNumbered, pid_of}
use laboratorio_ramiro.Proc.Family.Steps.{Reach-IsFamily}
use laboratorio_ramiro.Proc.Fork.{fork_from, fork-eq}
use laboratorio_ramiro.Proc.{claim_at, fork_copy, prepare, publish, set_stack}

first_only :
    (test : ℕ → Bool) (n k : ℕ)
    → k < n
    → test k ≡ true
    → ((j : ℕ) → j < n → j < k → test j ≡ false)
    → first test 0 n ≡ some k
first_only test n k below passes before = elim (Option-cases (first test 0 n)) [
  | inl absent ↦ absurd (ground (arith, first-none test 0 n k absent))
  | inr (j, e) ↦
      let found = first-IsFirst test 0 n e in
      e ∙ ground (arith, before j, found.before k, found.passes, found.below)
]

-- `kill` of the id of a process, in a state reached with fewer than 2 ^ 31 - 2 claims, succeeds, marks that process as killed and wakes
-- it if it sleeps, whatever it sleeps on; it changes no other slot.
pub kill-reached :
    {s : System} (j : ℕ) (r : Reach s)
    → count_claims r < 2 ^ 31 - 2
    → is_unused (state_of s.table j) ≡ false
    → kill (pid_of s.table j) s.table ≡ (
      true,
      put s.table j (record (s.table.proc j) {
        killed = true;
        state = if is_sleeping (state_of s.table j) then runnable else state_of s.table j;
      }),
    )
unfolding kill
kill-reached {s} j r few in_use =
    let v = (Reach-IsNumbered r few).0 in
    let f = Reach-IsFamily r in
    let pid = v.positive j in_use in
    rw (
      first_only (λ i. pid_of s.table i == pid_of s.table j) nproc j (f.bounded j in_use)
        (ground arith) (λ i below before. ground (arith, v.distinct j i)))

-- The table with slot `i` marked as killed.
abbrev poisoned : Table → ℕ → Table
poisoned t i = put t i (record (t.proc i) { killed = true })

kill_zero :
    {s : System} {i : ℕ} (r : Reach s)
    → count_claims r < 2 ^ 31 - 2
    → first (λ j. is_unused (state_of s.table j)) 0 nproc ≡ some i
    → pid_of s.table i ≡ 0
    → kill 0 s.table ≡ (true, poisoned s.table i)
unfolding kill
kill_zero {s} {i} r few free fresh =
    let v = (Reach-IsNumbered r few).0 in
    let found = first-IsFirst (λ j. is_unused (state_of s.table j)) 0 nproc free in
    let hit : first (λ j. pid_of s.table j == 0) 0 nproc ≡ some i =
      first_only _ nproc i found.below (ground arith)
        (λ j below before. ground (arith, v.positive j, found.before j)) in
    rw hit (ground (arith, found.passes))

fork_from-poisoned :
    (cur stack dir i : ℕ) (t : Table)
    → stack ≢ 0
    → dir ≢ 0
    → let (pid, t', calls) = fork_from cur stack dir (some i) (poisoned t i) in
      (true ≡ true)
      × (pid ≡ some t.nextpid)
      × ((t'.proc i).state ≡ runnable)
      × ((t'.proc i).killed ≡ true)
unfolding claim_at prepare set_stack fork_copy publish
fork_from-poisoned cur stack dir i t has_stack has_dir = ground arith

kill_zero-child :
    {s : System} (i cur stack dir : ℕ) (r : Reach s)
    → count_claims r < 2 ^ 31 - 2
    → first (λ j. is_unused (state_of s.table j)) 0 nproc ≡ some i
    → pid_of s.table i ≡ 0
    → stack ≢ 0
    → dir ≢ 0
    → let (done, t) = kill 0 s.table in
      let (pid, t', calls) = fork cur stack dir t in
      (done ≡ true)
      × (pid ≡ some s.table.nextpid)
      × ((t'.proc i).state ≡ runnable)
      × ((t'.proc i).killed ≡ true)
kill_zero-child {s} i cur stack dir r few free fresh has_stack has_dir =
    let found = first-IsFirst (λ j. is_unused (state_of s.table j)) 0 nproc free in
    let struck = kill_zero r few free fresh in
    let still : first (λ j. is_unused (state_of (poisoned s.table i) j)) 0 nproc ≡ some i =
      first_only _ nproc i found.below (ground (arith, found.passes))
        (λ j below before. ground (arith, found.before j)) in
    rw struck (
      rw (fork-eq cur stack dir (poisoned s.table i))
        (rw still (fork_from-poisoned cur stack dir i s.table has_stack has_dir)))

-- In a state that is reached with fewer than 2 ^ 31 - 2 claims of a slot by `fork`, and whose first free slot has
-- never held a process: no process has the id 0, and yet `kill` of id 0 succeeds; and then the child of
-- the next successful `fork` is marked as killed.
pub kill_zero-fork :
    {s : System} (i cur stack dir : ℕ) (r : Reach s)
    → count_claims r < 2 ^ 31 - 2
    → first (λ j. is_unused (state_of s.table j)) 0 nproc ≡ some i
    → pid_of s.table i ≡ 0
    → stack ≢ 0
    → dir ≢ 0
    → let (done, t) = kill 0 s.table in
      let (pid, t', calls) = fork cur stack dir t in
      ((j : ℕ) → is_unused (state_of s.table j) ≡ false → pid_of s.table j ≢ 0)
      × (done ≡ true)
      × (pid ≡ some s.table.nextpid)
      × ((t'.proc i).state ≡ runnable)
      × ((t'.proc i).killed ≡ true)
kill_zero-fork {s} i cur stack dir r few free fresh has_stack has_dir =
    let v = (Reach-IsNumbered r few).0 in
    let (done, pid, state, killed) =
      kill_zero-child i cur stack dir r few free fresh has_stack has_dir in
    ((λ j in_use. omega (arith, v.positive j in_use)), done, pid, state, killed)
