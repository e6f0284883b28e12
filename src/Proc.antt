-- ===== src/Proc.antt =====
-- xv6/proc.c: the process table. A pointer to a `struct proc` is the number of its slot, and null is
-- `none`; slots from `nproc` on do not exist. An operation is what runs under `ptable.lock`, up to
-- its return or to the switch to the scheduler. What `kalloc` and `copyuvm` return (0 for no
-- memory) is an argument; the calls that an operation makes of other parts of the kernel are listed in
-- their order. A process id is its 32 bits, and the saved context is left out.
pub mod Scan
pub mod Exit
pub mod System
pub mod Fork
pub mod Running
pub mod Family
pub mod Waiting
pub mod Pids
pub mod Kill
pub mod Schedule
mod Tests
use laboratorio_ramiro.Prelude.{
  ◌^◌, ◌%◌, Bool, List, Option, [], false, if◌then◌else◌, map, none, some, suc, true, zero, ℕ, ◌&&◌,
  ◌++◌, ◌+◌, ◌-◌, ◌==◌, ◌∷◌,
}

abbrev pub nproc : ℕ
nproc = 64

-- `enum procstate`
pub data State : Type 0 where
  unused embryo sleeping runnable running zombie : State

abbrev pub is_unused : State → Bool
is_unused unused = true
is_unused _ = false

abbrev pub is_sleeping : State → Bool
is_sleeping sleeping = true
is_sleeping _ = false

abbrev pub is_runnable : State → Bool
is_runnable runnable = true
is_runnable _ = false

abbrev pub is_running : State → Bool
is_running running = true
is_running _ = false

abbrev pub is_zombie : State → Bool
is_zombie zombie = true
is_zombie _ = false

-- What a process sleeps on: a process, as `wait` does, or any other address.
pub data Chan : Type 0 where
  of_proc : ℕ → Chan
  address : ℕ → Chan

abbrev pub same_chan : Option Chan → Option Chan → Bool
same_chan none none = true
same_chan (some (of_proc i)) (some (of_proc j)) = i == j
same_chan (some (address a)) (some (address b)) = a == b
same_chan _ _ = false

-- The saved user registers: `eax` and the others.
pub record Trapframe : Type 0 where
  pub eax : ℕ
  pub others : List ℕ

pub record Proc : Type 0 where
  pub sz : ℕ
  pub pgdir : ℕ
  pub kstack : ℕ
  pub state : State
  pub pid : ℕ
  pub parent : Option ℕ
  pub tf : Trapframe
  pub chan : Option Chan
  pub killed : Bool
  pub ofile : List (Option ℕ)
  pub cwd : Option ℕ
  pub name : List ℕ

pub record Table : Type 0 where
  pub proc : ℕ → Proc
  pub nextpid : ℕ
  pub initproc : ℕ

abbrev pub put : Table → ℕ → Proc → Table
put t i p = record t { proc = λ j. if j == i then p else t.proc j }

-- `for(p = &ptable.proc[i]; …; p++) if(test(p)) goto found;` with `n` slots to go.
unfoldable pub first : (ℕ → Bool) → ℕ → ℕ → Option ℕ
first test i zero = none
first test i (suc n) = if test i then some i else first test (i + 1) n

-- The calls of other parts of the kernel.
pub data Call : Type 0 where
  filedup fileclose idup iput kfree freevm : ℕ → Call
  begin_op end_op : Call

-- `allocproc` up to its release of `ptable.lock`: the first free slot is taken.
unfoldable pub claim_at : Option ℕ → Table → Option ℕ × Table
claim_at none t = (none, t)
claim_at (some i) t =
    let t1 = record t { nextpid = (t.nextpid + 1) % 2 ^ 32 } in
    (some i, put t1 i (record (t.proc i) { state = embryo; pid = t.nextpid }))

unfoldable pub claim : Table → Option ℕ × Table
unfolding claim_at
claim t = claim_at (first (λ i. is_unused (t.proc i).state) 0 nproc) t

-- The rest of it, without the lock. `stack` is what `kalloc` returns.
unfoldable pub set_stack : ℕ → Option ℕ → Table → Option ℕ × Table
set_stack stack none t = (none, t)
set_stack stack (some i) t =
    if stack == 0
    then (none, put t i (record (t.proc i) { kstack = stack; state = unused }))
    else (some i, put t i (record (t.proc i) { kstack = stack }))

unfoldable pub allocproc : ℕ → Table → Option ℕ × Table
unfolding claim set_stack
allocproc stack t = let (p, t1) = claim t in set_stack stack p t1

-- `userinit`; `dir` is what `setupkvm` returns and `root` what `namei("/")` does, `frame` is the
-- registers that it sets. `none` is a panic, or the fault at the null pointer of a failed `allocproc`.
unfoldable pub userinit_at : ℕ → ℕ → List ℕ → Option ℕ → Table → Option Table
userinit_at dir root frame none t = none
userinit_at dir root frame (some i) t =
    if dir == 0
    then none
    else some
        (record (put t i (record (t.proc i) {
          pgdir = dir;
          sz = 4096;
          tf = record { eax = 0; others = frame };
          name = b'i' ∷ b'n' ∷ b'i' ∷ b't' ∷ b'c' ∷ b'o' ∷ b'd' ∷ b'e' ∷ [];
          cwd = some root;
          state = runnable;
        })) { initproc = i })

unfoldable pub userinit : ℕ → ℕ → ℕ → List ℕ → Table → Option Table
unfolding userinit_at allocproc
userinit stack dir root frame t = let (p, t1) = allocproc stack t in userinit_at dir root frame p t1

-- The files of `from` over those of `to`: the loop leaves an entry that `from` has not open.
unfoldable pub copy_files : List (Option ℕ) → List (Option ℕ) → List (Option ℕ)
copy_files (some f ∷ from) (g ∷ to) = some f ∷ copy_files from to
copy_files (none ∷ from) (g ∷ to) = g ∷ copy_files from to
copy_files from to = to

unfoldable pub each_file : (ℕ → Call) → List (Option ℕ) → List Call
each_file call [] = []
each_file call (none ∷ fs) = each_file call fs
each_file call (some f ∷ fs) = call f ∷ each_file call fs

abbrev pub on_cwd : (ℕ → Call) → Option ℕ → List Call
on_cwd call none = []
on_cwd call (some i) = call i ∷ []

-- `fork` after `allocproc`, up to the last lock; `dir` is what `copyuvm` returns. The result is the slot.
unfoldable pub fork_copy : ℕ → ℕ → Option ℕ → Table → Option ℕ × Table × List Call
fork_copy cur dir none t = (none, t, [])
fork_copy cur dir (some i) t =
    let np = t.proc i in
    let p = t.proc cur in
    if dir == 0
    then (none, put t i (record np { pgdir = 0; kstack = 0; state = unused }), kfree np.kstack ∷ [])
    else (
      some i,
      put t i (record np {
        pgdir = dir;
        sz = p.sz;
        parent = some cur;
        tf = record p.tf { eax = 0 };
        ofile = copy_files p.ofile np.ofile;
        cwd = p.cwd;
        name = p.name;
      }),
      each_file filedup p.ofile ++ on_cwd idup p.cwd,
    )

-- `fork` from the release of the lock in `allocproc` on, up to the last lock.
unfoldable pub prepare : ℕ → ℕ → ℕ → Option ℕ → Table → Option ℕ × Table × List Call
unfolding fork_copy set_stack
prepare cur stack dir o t = let (np, t1) = set_stack stack o t in fork_copy cur dir np t1

-- The end of `fork`, under the lock, and its result: `none` is -1.
unfoldable pub publish : Option ℕ → Table → Option ℕ × Table
publish none t = (none, t)
publish (some i) t = (some (t.proc i).pid, put t i (record (t.proc i) { state = runnable }))

unfoldable pub fork : ℕ → ℕ → ℕ → Table → Option ℕ × Table × List Call
unfolding prepare claim publish
fork cur stack dir t =
    let (np, t1) = claim t in
    let (made, t2, calls) = prepare cur stack dir np t1 in
    let (pid, t3) = publish made t2 in (pid, t3, calls)

abbrev pub woken : Option Chan → Proc → Proc
woken c p = if is_sleeping p.state && same_chan p.chan c then record p { state = runnable } else p

unfoldable pub wakeup1 : Option Chan → Table → Table
wakeup1 c t = record t { proc = λ i. woken c (t.proc i) }

abbrev pub chan_of : Option ℕ → Option Chan
chan_of none = none
chan_of (some i) = some (of_proc i)

abbrev pub is_child : ℕ → Proc → Bool
is_child cur p = elim p.parent [ none ↦ false | some q ↦ q == cur ]

-- One round of the loop of `exit` that passes the children of `cur` to init.
unfoldable pub pass_one : ℕ → ℕ → Table → Table
unfolding wakeup1
pass_one cur i t =
    let t1 = put t i (record (t.proc i) { parent = some t.initproc }) in
    let t2 = if is_zombie (t.proc i).state then wakeup1 (some (of_proc t.initproc)) t1 else t1 in
    if is_child cur (t.proc i) then t2 else t

-- The loop, with `n` slots to go.
unfoldable pub pass_children : ℕ → ℕ → ℕ → Table → Table
pass_children cur i zero t = t
pass_children cur i (suc n) t = pass_children cur (i + 1) n (pass_one cur i t)

-- `exit` up to its switch to the scheduler, or `none` for the panic "init exiting".
unfoldable pub exit : ℕ → Table → Option (Table × List Call)
exit cur t =
    let p = t.proc cur in
    let t1 = put t cur (record p { ofile = map (λ f. none) p.ofile; cwd = none }) in
    let t2 = pass_children cur 0 nproc (wakeup1 (chan_of p.parent) t1) in
    if cur == t.initproc
    then none
    else some (
      put t2 cur (record (t2.proc cur) { state = zombie }),
      each_file fileclose p.ofile ++ (begin_op ∷ on_cwd iput p.cwd) ++ end_op ∷ [],
    )

-- How one round of `wait` stops: with the id of the child it freed, with -1, or in its sleep.
pub data Waited : Type 0 where
  reaped : ℕ → Table → List Call → Waited
  no_children : Waited
  asleep : Table → Waited

-- The scan of `wait`: the first zombie child, and `havekids`.
unfoldable pub scan_children : (ℕ → Proc) → ℕ → ℕ → ℕ → Bool → Option ℕ × Bool
scan_children proc cur i zero havekids = (none, havekids)
scan_children proc cur i (suc n) havekids =
    let child = is_child cur (proc i) in
    let rest = scan_children proc cur (i + 1) n (if child then true else havekids) in
    if child && is_zombie (proc i).state then (some i, true) else rest

unfoldable pub sleep : Option Chan → ℕ → Table → Table
sleep c cur t = put t cur (record (t.proc cur) { chan = c; state = sleeping })

unfoldable pub wait_at : ℕ → Option ℕ × Bool → Table → Waited
unfolding sleep
wait_at cur (some i, havekids) t =
    let p = t.proc i in
    reaped p.pid
      (put t i (record p {
        kstack = 0;
        pid = 0;
        parent = none;
        name = [];
        killed = false;
        state = unused;
      }))
      (kfree p.kstack ∷ freevm p.pgdir ∷ [])
wait_at cur (none, havekids) t =
    if havekids
    then if (t.proc cur).killed then no_children else asleep (sleep (some (of_proc cur)) cur t)
    else no_children

unfoldable pub wait : ℕ → Table → Waited
unfolding wait_at
wait cur t = wait_at cur (scan_children t.proc cur 0 nproc false) t

-- The rest of `sleep`, once the process runs again.
unfoldable pub tidy_up : ℕ → Table → Table
tidy_up cur t = put t cur (record (t.proc cur) { chan = none })

unfoldable pub yield : ℕ → Table → Table
yield cur t = put t cur (record (t.proc cur) { state = runnable })

unfoldable pub kill_at : Option ℕ → Table → Bool × Table
kill_at none t = (false, t)
kill_at (some i) t =
    let p = t.proc i in
    (
      true,
      put t i
          (record p { killed = true; state = if is_sleeping p.state then runnable else p.state }),
    )

-- Whether `kill` returns 0, and the table.
unfoldable pub kill : ℕ → Table → Bool × Table
unfolding kill_at
kill pid t = kill_at (first (λ i. (t.proc i).pid == pid) 0 nproc) t

-- The scan of the scheduler from slot `at` on: the next process that it runs.
unfoldable pub next_runnable : ℕ → Table → Option ℕ
next_runnable at t = first (λ i. is_runnable (t.proc i).state) at (nproc - at)

unfoldable pub dispatch : ℕ → Table → Table
dispatch i t = put t i (record (t.proc i) { state = running })

-- The loop of `sys_pscnt`, with `n` slots to go.
unfoldable pub pscnt_from : ℕ → ℕ → Table → ℕ
pscnt_from i zero t = 0
pscnt_from i (suc n) t = (if is_unused (t.proc i).state then 0 else 1) + pscnt_from (i + 1) n t
