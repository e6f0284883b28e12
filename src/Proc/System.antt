-- ===== src/Proc/System.antt =====
-- The processors at work on the process table: any of them moves next. A processor that runs no process
-- is in the loop of `scheduler`, at some slot; one that runs a process does what the process calls.
use laboratorio_ramiro.Proc.{claim, claim_at, prepare, set_stack, embryo, State}
use laboratorio_ramiro.Proc.{
  nproc, is_unused, runnable, first, put, Call, Proc, Table, address, asleep, dispatch, exit, kill,
  next_runnable, reaped, sleep, tidy_up, userinit, wait, wakeup1, yield, unused,
}
use laboratorio_ramiro.Prelude.{
  true, Bool, ◌∷◌, arith, refl, ◌==◌, ◌+◌, if◌then◌else◌, replicate, false, some, List, [], ◌≡◌,
  none, ℕ, Option,
}
use laboratorio_ramiro.Proc.{publish}

-- `struct cpu`: `proc`, and the slot `p` at which its scheduler is.
pub record Cpu : Type 0 where
  pub current : Option ℕ
  pub at : ℕ

pub record System : Type 0 where
  pub table : Table
  pub cpus : ℕ → Cpu

abbrev pub on_cpu : (ℕ → Cpu) → ℕ → Cpu → ℕ → Cpu
on_cpu cpus c u d = if d == c then u else cpus d

abbrev pub is_embryo : State → Bool
is_embryo embryo = true
is_embryo _ = false

-- What process `cur` does to the table and goes on. `fork` has three steps: the claim of a slot; the writes to the
-- slot without the lock, or its giving up; and the last step, which makes it RUNNABLE. All other steps
-- can come between them. That a process may go on with any slot under construction, also one that
-- another has claimed, gives more runs than those of the code.
pub data Stays (cur : ℕ) (t : Table) : Table → Type 0 where
  claims : {t' : Table} → t' ≡ (claim t).1 → Stays cur t t'
  prepares :
      {t' : Table} (i stack dir : ℕ)
      → is_embryo (t.proc i).state ≡ true
      → (t.proc i).parent ≡ none
      → t' ≡ (prepare cur stack dir (some i) t).1
      → Stays cur t t'
  publishes :
      {t' : Table} (i q : ℕ)
      → is_embryo (t.proc i).state ≡ true
      → (t.proc i).parent ≡ some q
      → t' ≡ (publish (some i) t).1
      → Stays cur t t'
  reaps :
      {t' : Table} {pid : ℕ} {calls : List Call} → wait cur t ≡ reaped pid t' calls → Stays cur t t'
  kills : {t' : Table} (pid : ℕ) → t' ≡ (kill pid t).1 → Stays cur t t'
  tidies : {t' : Table} → t' ≡ tidy_up cur t → Stays cur t t'
  -- Its files and its directory, which `exit` gives up one by one before its last step, and which
  -- other calls open and close.
  alters :
      {t' : Table} (ofile : List (Option ℕ)) (cwd : Option ℕ)
      → t' ≡ put t cur (record (t.proc cur) { ofile = ofile; cwd = cwd })
      → Stays cur t t'

-- What process `cur` does to the table before it gives its processor up. The calls that `exit`
-- makes first, with their sleeps, are steps of their own, before its last.
pub data Leaves (cur : ℕ) (t : Table) : Table → Type 0 where
  yields : {t' : Table} → t' ≡ yield cur t → Leaves cur t t'
  sleeps : {t' : Table} (a : ℕ) → t' ≡ sleep (some (address a)) cur t → Leaves cur t t'
  waits : {t' : Table} → wait cur t ≡ asleep t' → Leaves cur t t'
  exits : {t' : Table} {calls : List Call} → exit cur t ≡ some (t', calls) → Leaves cur t t'

pub data Step (s : System) : System → Type 0 where
  stays :
      {t' : Table} (c cur : ℕ)
      → (s.cpus c).current ≡ some cur
      → Stays cur s.table t'
      → Step s (record s { table = t' })
  leaves :
      {t' : Table} (c cur : ℕ)
      → (s.cpus c).current ≡ some cur
      → Leaves cur s.table t'
      → Step s
          (record { table = t'; cpus = on_cpu s.cpus c (record (s.cpus c) { current = none }) })
  -- The scheduler of a processor finds a process, or comes to the end of the table.
  picks :
      (c i : ℕ)
      → (s.cpus c).current ≡ none
      → next_runnable (s.cpus c).at s.table ≡ some i
      → Step s (record {
        table = dispatch i s.table;
        cpus = on_cpu s.cpus c (record { current = some i; at = i + 1 });
      })
  wraps :
      (c : ℕ)
      → (s.cpus c).current ≡ none
      → next_runnable (s.cpus c).at s.table ≡ none
      → Step s (record s { cpus = on_cpu s.cpus c (record { current = none; at = 0 }) })
  -- `wakeup`, of any address, by a process or by an interrupt.
  wakes : (a : ℕ) → Step s (record s { table = wakeup1 (some (address a)) s.table })

-- The zeroed table of the kernel's data segment.
abbrev pub blank : Proc
blank = record {
  sz = 0;
  pgdir = 0;
  kstack = 0;
  state = unused;
  pid = 0;
  parent = none;
  tf = record { eax = 0; others = [] };
  chan = none;
  killed = false;
  ofile = replicate 16 none;
  cwd = none;
  name = [];
}

abbrev pub blank_table : Table
blank_table = record { proc = λ i. blank; nextpid = 1; initproc = 0 }

-- The states that the processors reach once `userinit` has made the first process.
pub data Reach : System → Type 0 where
  boots :
      {t : Table} (stack dir root : ℕ) (frame : List ℕ)
      → userinit stack dir root frame blank_table ≡ some t
      → Reach (record { table = t; cpus = λ c. record { current = none; at = 0 } })
  next : {s u : System} → Reach s → Step s u → Reach u

-- How many slots have been claimed since.
unfoldable pub count_stays : {cur : ℕ} {t t' : Table} → Stays cur t t' → ℕ
count_stays (claims e) = 1
count_stays _ = 0

unfoldable pub count_step : {s u : System} → Step s u → ℕ
unfolding count_stays
count_step (stays c cur on st) = count_stays st
count_step _ = 0

unfoldable pub count_claims : {s : System} → Reach s → ℕ
unfolding count_step
count_claims (boots stack dir root frame e) = 0
count_claims (next r st) = count_step st + count_claims r

-- The table that `userinit` leaves.
abbrev pub first_table : ℕ → ℕ → ℕ → List ℕ → Table
first_table stack dir root frame =
    put (record blank_table { nextpid = 2 }) 0
      (record blank {
        pgdir = dir;
        kstack = stack;
        pid = 1;
        sz = 4096;
        tf = record { eax = 0; others = frame };
        name = b'i' ∷ b'n' ∷ b'i' ∷ b't' ∷ b'c' ∷ b'o' ∷ b'd' ∷ b'e' ∷ [];
        cwd = some root;
        state = runnable;
      })

first_free : first (λ i. is_unused (blank_table.proc i).state) 0 nproc ≡ some 0
unfolding first
first_free = refl

pub userinit-first_table :
    (stack dir root : ℕ) (frame : List ℕ) {t : Table}
    → userinit stack dir root frame blank_table ≡ some t
    → ((j : ℕ) → t.proc j ≡ (first_table stack dir root frame).proc j)
      × (t.nextpid ≡ 2)
      × (t.initproc ≡ 0)
unfolding userinit claim_at set_stack
userinit-first_table stack dir root frame e =
    (λ j. ground (arith, first_free), ground (arith, first_free), ground (arith, first_free))
