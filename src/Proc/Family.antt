-- ===== src/Proc/Family.antt =====
-- Every process but init has a parent that is alive, so every zombie can be reaped.
pub mod Steps
use laboratorio_ramiro.Proc.System.{is_embryo, claims}
use laboratorio_ramiro.Proc.{unused, claim, claim_at, prepare, set_stack, embryo, publish, State}
use laboratorio_ramiro.Proc.{
  of_proc, first, next_runnable, asleep, reaped, dispatch, yield, sleep, wait, tidy_up, Call,
  is_child, Chan, put, is_zombie, wakeup1, Proc, kill, nproc, is_unused, Table, sleeping, runnable,
  running,
}
use laboratorio_ramiro.Prelude.{
  ◌==◌, ap, Option-cases, inr, List, if◌then◌else◌, Bool-cases, inl, ◌∙◌, arith, true, ◌≡◌, ◌≢◌,
  false, some, refl, ℕ, Option, none, Bool, ◌<◌,
}
use laboratorio_ramiro.Proc.Running.{IsExclusive, next_runnable-passes, runs}
use laboratorio_ramiro.Proc.Fork.{fork_from, IsFree}
use laboratorio_ramiro.Proc.Exit.{exited-IsLeft, exited-parent, exited-init, exited-state, exited}
use laboratorio_ramiro.Proc.Scan.{first-IsFirst, wait_lem, zombie_child, freed}
use laboratorio_ramiro.Proc.System.{Reach, Step, System, Leaves, Stays, first_table}
use laboratorio_ramiro.Proc.{fork_copy}
use laboratorio_ramiro.Proc.System.{prepares, publishes}

abbrev pub is_alive : State → Bool
is_alive sleeping = true
is_alive runnable = true
is_alive running = true
is_alive _ = false

-- A slot with no process in it yet.
abbrev pub is_new : State → Bool
is_new unused = true
is_new embryo = true
is_new _ = false

abbrev pub state_of : Table → ℕ → State
state_of t j = (t.proc j).state

pub record IsFamily (t : Table) : Type 0 where
  pub root : (t.proc t.initproc).parent ≡ none
  pub init_alive : is_alive (state_of t t.initproc) ≡ true
  -- A parent is alive, and another process.
  pub parents : (j q : ℕ) → (t.proc j).parent ≡ some q → (is_alive (state_of t q) ≡ true) × (q ≢ j)
  -- Every process but init has one.
  pub rooted : (j : ℕ) → is_new (state_of t j) ≡ false → j ≢ t.initproc → (t.proc j).parent ≢ none
  pub free : (j : ℕ) → is_unused (state_of t j) ≡ true → (t.proc j).parent ≡ none
  pub bounded : (j : ℕ) → is_unused (state_of t j) ≡ false → j < nproc

pub claim_at-IsFamily :
    (o : Option ℕ) (t : Table) → IsFamily t → IsFree o t → IsFamily (claim_at o t).1
unfolding claim_at
claim_at-IsFamily none t v free = v
claim_at-IsFamily (some i) t v free =
    let (slot, below) = free i refl in
    record {
      root = ground (arith, v.root, v.init_alive);
      init_alive = ground (arith, v.init_alive);
      parents = λ j q e. ground (arith, v.parents j q, v.free i);
      rooted = λ j u n. ground (arith, v.rooted j);
      free = λ j u. ground (arith, v.free j, v.free i);
      bounded = λ j u. ground (arith, v.bounded j);
    }

pub prepare-IsFamily :
    (cur stack dir i : ℕ) (t : Table)
    → runs t cur ≡ true
    → is_embryo (state_of t i) ≡ true
    → (t.proc i).parent ≡ none
    → IsFamily t
    → IsFamily (prepare cur stack dir (some i) t).1
unfolding prepare set_stack fork_copy
prepare-IsFamily cur stack dir i t r new empty v = record {
  root = ground (arith, v.root, v.init_alive);
  init_alive = ground (arith, v.init_alive);
  parents = λ j q e. ground (arith, v.parents j q, empty);
  rooted = λ j u n. ground (arith, v.rooted j);
  free = λ j u. ground (arith, v.free j, empty);
  bounded = λ j u. ground (arith, v.bounded j, v.bounded i);
}

pub publish-IsFamily :
    (i q : ℕ) (t : Table)
    → is_embryo (state_of t i) ≡ true
    → (t.proc i).parent ≡ some q
    → IsFamily t
    → IsFamily (publish (some i) t).1
unfolding publish
publish-IsFamily i q t new made v = record {
  root = ground (arith, v.root, v.init_alive);
  init_alive = ground (arith, v.init_alive);
  parents = λ j k e. ground (arith, v.parents j k);
  rooted = λ j u n. ground (arith, v.rooted j, made);
  free = λ j u. ground (arith, v.free j);
  bounded = λ j u. ground (arith, v.bounded j, v.bounded i);
}

-- Slot by slot the same parents, and the same slots alive and unused.
pub record IsSteady (t u : Table) : Type 0 where
  pub same_init : u.initproc ≡ t.initproc
  pub same_parent : (j : ℕ) → (u.proc j).parent ≡ (t.proc j).parent
  pub same_alive : (j : ℕ) → is_alive (state_of u j) ≡ is_alive (state_of t j)
  pub same_unused : (j : ℕ) → is_unused (state_of u j) ≡ is_unused (state_of t j)
  pub same_new : (j : ℕ) → is_new (state_of u j) ≡ is_new (state_of t j)

pub IsSteady-IsFamily : {t u : Table} → IsSteady t u → IsFamily t → IsFamily u
IsSteady-IsFamily {t} {u} s v = record {
  root = rw s.same_init (s.same_parent t.initproc ∙ v.root);
  init_alive = rw s.same_init (s.same_alive t.initproc ∙ v.init_alive);
  parents = λ j q e. ground (arith, s.same_parent j, s.same_alive q, v.parents j q);
  rooted = λ j n o. ground (arith, s.same_parent j, s.same_new j, s.same_init, v.rooted j);
  free = λ j e. ground (arith, s.same_parent j, s.same_unused j, v.free j);
  bounded = λ j e. ground (arith, s.same_unused j, v.bounded j);
}

pub kill-IsSteady : (pid : ℕ) (t : Table) → IsSteady t (kill pid t).1
unfolding kill
kill-IsSteady pid t = record {
  same_init = ground arith;
  same_parent = λ j. ground arith;
  same_alive = λ j. ground arith;
  same_unused = λ j. ground arith;
  same_new = λ j. ground arith;
}

-- The slot of a process that is alive changes, and stays alive with its parent.
pub put-IsSteady :
    (t : Table) (i : ℕ) (p : Proc)
    → is_alive (state_of t i) ≡ true
    → is_alive p.state ≡ true
    → p.parent ≡ (t.proc i).parent
    → IsSteady t (put t i p)
put-IsSteady t i p was is same = record {
  same_init = refl;
  same_parent = λ j. ground arith;
  same_alive = λ j. ground arith;
  same_unused = λ j. ground arith;
  same_new = λ j. ground arith;
}

pub wakeup1-IsSteady : (c : Option Chan) (t : Table) → IsSteady t (wakeup1 c t)
unfolding wakeup1
wakeup1-IsSteady c t = record {
  same_init = refl;
  same_parent = λ j. ground arith;
  same_alive = λ j. ground arith;
  same_unused = λ j. ground arith;
  same_new = λ j. ground arith;
}

pub freed-IsFamily :
    (t : Table) (z : ℕ) → is_zombie (state_of t z) ≡ true → IsFamily t → IsFamily (freed t z)
freed-IsFamily t z dead v = record {
  root = ground (arith, v.root);
  init_alive = ground (arith, v.init_alive);
  parents = λ j q e. ground (arith, v.parents j q);
  rooted = λ j n o. ground (arith, v.rooted j);
  free = λ j e. ground (arith, v.free j);
  bounded = λ j e. ground (arith, v.bounded j);
}

-- No process is its own child.
pub not_own_child : (t : Table) (j : ℕ) → IsFamily t → is_child j (t.proc j) ≡ false
not_own_child t j v = ground (arith, v.parents j j)

-- Parents and states after `exit`, in every slot.
pub exited-parents :
    (cur : ℕ) (t : Table) (j : ℕ)
    → IsFamily t
    → ((exited cur t).proc j).parent
      ≡ (if is_child cur (t.proc j) then some t.initproc else (t.proc j).parent)
exited-parents cur t j v = elim (Bool-cases (j == cur)) [
  | inl same ↦ ground (arith, exited-parent cur t, not_own_child t cur v)
  | inr other ↦
      let left = exited-IsLeft cur t j (ground arith) in
      ground (arith, left.parent, v.bounded j, v.free j)
]

exited-alive :
    (cur : ℕ) (t : Table) (j : ℕ)
    → is_alive (state_of (exited cur t) j) ≡ (if j == cur then false else is_alive (state_of t j))
exited-alive cur t j = elim (Bool-cases (j == cur)) [
  | inl same ↦ ground (arith, exited-state cur t)
  | inr other ↦ ground (arith, (exited-IsLeft cur t j (ground arith)).state)
]

pub exited-unused :
    (cur : ℕ) (t : Table) (j : ℕ)
    → runs t cur ≡ true
    → is_unused (state_of (exited cur t) j) ≡ is_unused (state_of t j)
exited-unused cur t j r = elim (Bool-cases (j == cur)) [
  | inl same ↦ ground (arith, exited-state cur t)
  | inr other ↦ ground (arith, (exited-IsLeft cur t j (ground arith)).state)
]

exited-new :
    (cur : ℕ) (t : Table) (j : ℕ)
    → runs t cur ≡ true
    → is_new (state_of (exited cur t) j) ≡ is_new (state_of t j)
exited-new cur t j r = elim (Bool-cases (j == cur)) [
  | inl same ↦ ground (arith, exited-state cur t)
  | inr other ↦ ground (arith, (exited-IsLeft cur t j (ground arith)).state)
]

pub exited-IsFamily :
    (cur : ℕ) (t : Table)
    → runs t cur ≡ true
    → cur ≢ t.initproc
    → IsFamily t
    → IsFamily (exited cur t)
exited-IsFamily cur t r apart v = record {
  root = rw (exited-init cur t) (exited-parents cur t t.initproc v ∙ ground (arith, v.root));
  init_alive =
      rw (exited-init cur t) (exited-alive cur t t.initproc ∙ ground (arith, v.init_alive));
  parents = λ j q e.
      ground (
        arith,
        exited-parents cur t j v,
        exited-alive cur t q,
        v.parents j q,
        v.init_alive,
        v.root,
      );
  rooted = λ j n o.
      ground (arith, exited-parents cur t j v, exited-new cur t j r, exited-init cur t, v.rooted j);
  free = λ j e. ground (arith, exited-parents cur t j v, exited-unused cur t j r, v.free j);
  bounded = λ j e. ground (arith, exited-unused cur t j r, v.bounded j);
}
