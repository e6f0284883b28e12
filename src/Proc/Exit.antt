-- ===== src/Proc/Exit.antt =====
-- What `exit` does to each slot of the process table.
use laboratorio_ramiro.Proc.{
  of_proc, same_chan, runnable, is_sleeping, Call, Proc, Table, chan_of, exit, is_child,
  pass_children, put, wakeup1, woken, zombie, nproc,
}
use laboratorio_ramiro.Proc.Scan.{
  nextpid-pass_children, init-pass_children, alerted, any, any-congr, moved, proc-pass_children,
  zombie_child,
}
use laboratorio_ramiro.Prelude.{
  sym, ◌||◌, subst, Bool, ◌&&◌, refl, ◌≢◌, ltb, ℕ, ◌≡◌, map, ◌∙◌, none, some, arith, List,
  if◌then◌else◌,
}

-- The table once the files are closed and the parent is woken.
pub orphaning : ℕ → Table → Table
orphaning cur t =
    let p = t.proc cur in
    wakeup1 (chan_of p.parent)
      (put t cur (record p { ofile = map (λ f. none) p.ofile; cwd = none }))

zombie_child-orphaning :
    (cur : ℕ) (t : Table) (j : ℕ)
    → zombie_child cur (orphaning cur t).proc j ≡ zombie_child cur t.proc j
unfolding orphaning wakeup1
zombie_child-orphaning cur t j = ground arith

-- A slot other than that of the process: its parent becomes init if it was a child, and it wakes if it
-- sleeps on the parent of the process, or on init while a zombie child goes to init.
abbrev pub left_behind : ℕ → Table → ℕ → Proc
left_behind cur t j =
    let q = woken (chan_of (t.proc cur).parent) (t.proc j) in
    alerted (any (zombie_child cur t.proc) 0 nproc) t.initproc
      (if ltb j nproc then moved cur t.initproc q else q)

-- The table that `exit` leaves.
pub exited : ℕ → Table → Table
exited cur t =
    let t2 = pass_children cur 0 nproc (orphaning cur t) in
    put t2 cur (record (t2.proc cur) { state = zombie })

pub exit-exited :
    (cur : ℕ) (t : Table) {t' : Table} {calls : List Call}
    → exit cur t ≡ some (t', calls)
    → (cur ≢ t.initproc) × (t' ≡ exited cur t)
unfolding exited exit orphaning
exit-exited cur t e = ground arith

orphaning-proc :
    (cur : ℕ) (t : Table) (j : ℕ)
    → j ≢ cur
    → (orphaning cur t).proc j ≡ woken (chan_of (t.proc cur).parent) (t.proc j)
unfolding orphaning wakeup1
orphaning-proc cur t j apart = ground arith

orphaning-init : (cur : ℕ) (t : Table) → (orphaning cur t).initproc ≡ t.initproc
unfolding orphaning wakeup1
orphaning-init cur t = refl

orphaning-nextpid : (cur : ℕ) (t : Table) → (orphaning cur t).nextpid ≡ t.nextpid
unfolding orphaning wakeup1
orphaning-nextpid cur t = refl

passed-proc :
    (cur : ℕ) (t : Table) (j : ℕ)
    → j ≢ cur
    → (pass_children cur 0 nproc (orphaning cur t)).proc j ≡ left_behind cur t j
passed-proc cur t j apart =
    proc-pass_children cur 0 nproc (orphaning cur t) j
    ∙ rw
        (
          any-congr 0 nproc (λ k l. zombie_child-orphaning cur t k),
          orphaning-proc cur t j apart,
          orphaning-init cur t,
        )
        (ground arith)

pub exited-proc :
    (cur : ℕ) (t : Table) (j : ℕ) → j ≢ cur → (exited cur t).proc j ≡ left_behind cur t j
unfolding exited
exited-proc cur t j apart = ground (arith, passed-proc cur t j)

pub exited-state : (cur : ℕ) (t : Table) → ((exited cur t).proc cur).state ≡ zombie
unfolding exited
exited-state cur t = ground arith

-- A process that exits is not its own child, unless it is its own parent.
pub exited-parent :
    (cur : ℕ) (t : Table)
    → ((exited cur t).proc cur).parent ≡ (
        if ltb cur nproc && is_child cur (t.proc cur) then some t.initproc else (t.proc cur).parent)
unfolding exited orphaning wakeup1
exited-parent cur t = ground (arith, proc-pass_children cur 0 nproc (orphaning cur t) cur)

pub exited-pid : (cur : ℕ) (t : Table) → ((exited cur t).proc cur).pid ≡ (t.proc cur).pid
unfolding exited orphaning wakeup1
exited-pid cur t = ground (arith, proc-pass_children cur 0 nproc (orphaning cur t) cur)

pub exited-init : (cur : ℕ) (t : Table) → (exited cur t).initproc ≡ t.initproc
unfolding exited
exited-init cur t = init-pass_children cur 0 nproc (orphaning cur t) ∙ orphaning-init cur t

pub exited-nextpid : (cur : ℕ) (t : Table) → (exited cur t).nextpid ≡ t.nextpid
unfolding exited
exited-nextpid cur t = nextpid-pass_children cur 0 nproc (orphaning cur t) ∙ orphaning-nextpid cur t

-- Whether `exit` wakes a slot other than that of the process.
abbrev pub is_roused : ℕ → Table → ℕ → Bool
is_roused cur t j =
    is_sleeping (t.proc j).state
    && (same_chan (t.proc j).chan (chan_of (t.proc cur).parent)
        || any (zombie_child cur t.proc) 0 nproc
          && same_chan (t.proc j).chan (some (of_proc t.initproc)))

-- The fields of a slot other than that of the process.
pub record IsLeft (cur : ℕ) (t : Table) (j : ℕ) (p : Proc) : Type 0 where
  pub state : p.state ≡ (if is_roused cur t j then runnable else (t.proc j).state)
  pub parent :
      p.parent
      ≡ (if ltb j nproc && is_child cur (t.proc j) then some t.initproc else (t.proc j).parent)
  pub chan : p.chan ≡ (t.proc j).chan
  pub pid : p.pid ≡ (t.proc j).pid
  pub ofile : p.ofile ≡ (t.proc j).ofile

left_behind-IsLeft : (cur : ℕ) (t : Table) (j : ℕ) → IsLeft cur t j (left_behind cur t j)
left_behind-IsLeft cur t j = record {
  state = ground arith;
  parent = ground arith;
  chan = ground arith;
  pid = ground arith;
  ofile = ground arith;
}

pub exited-IsLeft : (cur : ℕ) (t : Table) (j : ℕ) → j ≢ cur → IsLeft cur t j ((exited cur t).proc j)
exited-IsLeft cur t j apart =
    subst (IsLeft cur t j) (sym (exited-proc cur t j apart)) (left_behind-IsLeft cur t j)
