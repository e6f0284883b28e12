-- ===== src/Proc/Tests.antt =====
-- A run of two processors, and the theorems of the process table there.
use laboratorio_ramiro.Proc.{
  of_proc, sleep, is_child, freevm, kfree, pass_one, no_children, asleep, reaped, wakeup1,
  scan_children, nproc, pass_children, is_unused, runnable, next_runnable, dispatch, userinit,
  Table, kill, first, fork, wait, exit,
}
use laboratorio_ramiro.Proc.Family.{IsFamily, state_of}
use laboratorio_ramiro.Proc.System.{on_cpu, picks, stays, System, Reach, next, boots, blank_table}
use laboratorio_ramiro.Prelude.{
  ◌≢◌, ◌<◌, ◌-◌, ◌^◌, ◌∷◌, not, ◌&&◌, true, ℕ, suc, refl, All, [], if◌then◌else◌, arith, false, mem,
  some, none, zero, List, ◌≡◌, replicate, Option,
}
use laboratorio_ramiro.Proc.Running.{Reach-IsExclusive, IsExclusive}
use laboratorio_ramiro.Proc.Family.Steps.{Reach-IsFamily}
use laboratorio_ramiro.Proc.Waiting.{Reach-IsHeard, IsHeard}
use laboratorio_ramiro.Proc.Pids.{Reach-IsNumbered, pid_of, IsNumbered}
use laboratorio_ramiro.Proc.Schedule.{picked-mem, picked, WaitsItsTurn}
use laboratorio_ramiro.Proc.Kill.{kill_zero-fork}
use laboratorio_ramiro.Proc.Scan.{wait_lem, any, freed, zombie_child}
use laboratorio_ramiro.Proc.{claim, prepare, publish}
use laboratorio_ramiro.Proc.System.{claims, count_claims, prepares, publishes}

or_blank : Option Table → Table
or_blank none = blank_table
or_blank (some t) = t

booted : Table
unfolding or_blank userinit first
booted = or_blank (userinit 1 1 1 [] blank_table)

abbrev start : System
start = record { table = booted; cpus = λ c. record { current = none; at = 0 } }

start_reached : Reach start
unfolding booted
start_reached = boots 1 1 1 [] refl

-- Processor 0 runs init, which forks.
abbrev at_init : System
at_init = record {
  table = dispatch 0 booted;
  cpus = on_cpu start.cpus 0 (record { current = some 0; at = 1 });
}

at_init_reached : Reach at_init
unfolding booted next_runnable
at_init_reached = next start_reached (picks 0 0 refl refl)

-- The three steps of `fork`.
abbrev claimed : System
claimed = record at_init { table = (claim at_init.table).1 }

claimed_reached : Reach claimed
claimed_reached = next at_init_reached (stays 0 0 refl (claims refl))

abbrev prepared : System
prepared = record claimed { table = (prepare 0 1 1 (some 1) claimed.table).1 }

prepared_reached : Reach prepared
unfolding booted claim dispatch
prepared_reached = next claimed_reached (stays 0 0 refl (prepares 1 1 1 refl refl refl))

abbrev forked : System
forked = record prepared { table = (publish (some 1) prepared.table).1 }

forked_reached : Reach forked
unfolding booted claim prepare publish dispatch
forked_reached = next prepared_reached (stays 0 0 refl (publishes 1 0 refl refl refl))

-- Processor 1 runs the child.
abbrev both : System
both = record {
  table = dispatch 1 forked.table;
  cpus = on_cpu forked.cpus 1 (record { current = some 1; at = 2 });
}

both_reached : Reach both
unfolding booted next_runnable dispatch claim prepare publish
both_reached = next forked_reached (picks 1 1 refl refl)

few_claims : count_claims both_reached < 2 ^ 31 - 2
unfolding count_claims both_reached forked_reached prepared_reached claimed_reached at_init_reached
    start_reached
few_claims = omega arith

Reach-IsExclusive_example : IsExclusive both
Reach-IsExclusive_example = Reach-IsExclusive both_reached

Reach-IsFamily_example : IsFamily both.table
Reach-IsFamily_example = Reach-IsFamily both_reached

Reach-IsHeard_example : IsHeard both.table
Reach-IsHeard_example = Reach-IsHeard both_reached

Reach-IsNumbered_example : IsNumbered both.table × (both.table.nextpid < 2 ^ 31)
Reach-IsNumbered_example = Reach-IsNumbered both_reached few_claims

child_in_use : is_unused (state_of both.table 1) ≡ false
unfolding dispatch
child_in_use = refl

third_free : first (λ j. is_unused (state_of both.table j)) 0 nproc ≡ some 2
unfolding booted first dispatch claim prepare publish
third_free = refl

third_fresh : pid_of both.table 2 ≡ 0
unfolding booted first dispatch claim prepare publish
third_fresh = refl

kill_zero-fork_example :
    let (done, t) = kill 0 both.table in
    let (pid, t', calls) = fork 0 1 1 t in
    ((j : ℕ) → is_unused (state_of both.table j) ≡ false → pid_of both.table j ≢ 0)
    × (done ≡ true)
    × (pid ≡ some both.table.nextpid)
    × ((t'.proc 2).state ≡ runnable)
    × ((t'.proc 2).killed ≡ true)
kill_zero-fork_example =
    kill_zero-fork 2 0 1 1 both_reached few_claims third_free third_fresh (omega arith)
      (omega arith)

abbrev row : List Table
row = replicate 66 booted

row_turns : All (WaitsItsTurn 0) row
unfolding booted
row_turns = turns 66
  where
    turns : (n : ℕ) → All (WaitsItsTurn 0) (replicate n booted)
    turns zero = tt
    turns (suc n) = (refl, turns n)

picked-mem_example : mem 0 (picked 1 row) ≡ true
picked-mem_example = picked-mem 0 1 row (omega arith) (omega arith) row_turns (omega arith)

wait_lem_example : wait 0 both.table ≡ elim (first (zombie_child 0 both.table.proc) 0 nproc) [
  | some z ↦
      reaped
        (both.table.proc z).pid
        (freed both.table z)
        (kfree (both.table.proc z).kstack ∷ freevm (both.table.proc z).pgdir ∷ [])
  | none ↦
      if any (λ j. is_child 0 (both.table.proc j)) 0 nproc && not (both.table.proc 0).killed
      then asleep (sleep (some (of_proc 0)) 0 both.table)
      else no_children
]
wait_lem_example = wait_lem 0 both.table

-- The child exits, and init finds it.
reaped_child :
    elim (exit 1 both.table) [
      | none ↦ none
      | some (t, calls) ↦ elim (wait 0 t) [
        | reaped pid u cs ↦ some pid
        | no_children ↦ none
        | asleep u ↦ none
      ]
    ]
    ≡ some 2
unfolding booted first dispatch claim prepare publish exit wait pass_children scan_children wakeup1
    pass_one
reaped_child = refl
