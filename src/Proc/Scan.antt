-- ===== src/Proc/Scan.antt =====
-- What the scans of the process table find.
use laboratorio_ramiro.Prelude.{
  not, ◌∷◌, [], Option-cases, Bool, Bool-cases, ap, ap₂, arith, false, if◌then◌else◌, inl, inr, leb,
  ltb, none, refl, some, suc, true, zero, ℕ, ◌&&◌, ◌+◌, ◌<◌, ◌==◌, ◌||◌, ◌∙◌, ◌≡◌, ◌≤◌,
}
use laboratorio_ramiro.Proc.{
  no_children, sleep, asleep, freevm, kfree, reaped, nproc, unused, wait, put, scan_children,
  pass_one, Proc, Table, of_proc, first, is_child, is_zombie, pass_children, woken,
}

-- `k` is the first slot from `i` on, below `i + n`, that passes the test.
pub record IsFirst (test : ℕ → Bool) (i n k : ℕ) : Type 0 where
  pub from : i ≤ k
  pub below : k < i + n
  pub passes : test k ≡ true
  pub before : (j : ℕ) → i ≤ j → j < k → test j ≡ false

pub first-IsFirst :
    (test : ℕ → Bool) (i n : ℕ) {k : ℕ} → first test i n ≡ some k → IsFirst test i n k
unfolding first
first-IsFirst test i zero e = absurd (cc)
first-IsFirst test i (suc n) {k} e = elim (Bool-cases (test i)) [
  | inl here ↦
      let same : k ≡ i = ground arith in
      record {
        from = omega arith;
        below = omega arith;
        passes = rw same here;
        before = λ j lo hi. absurd (omega arith);
      }
  | inr there ↦
      let rest : first test (i + 1) n ≡ some k = ground arith in
      let found = first-IsFirst test (i + 1) n rest in
      record {
        from = omega (arith, found.from);
        below = omega (arith, found.below);
        passes = found.passes;
        before = λ j lo hi. elim (Bool-cases (j == i)) [
          | inl same ↦ ground arith
          | inr other ↦ found.before j (ground arith) hi
        ];
      }
]

pub first-none :
    (test : ℕ → Bool) (i n j : ℕ) → first test i n ≡ none → i ≤ j → j < i + n → test j ≡ false
unfolding first
first-none test i zero j e lo hi = absurd (omega arith)
first-none test i (suc n) j e lo hi = ground (arith, first-none test (i + 1) n j)

-- Whether a child of `cur` among `n` slots from `i` on is a zombie.
abbrev pub zombie_child : ℕ → (ℕ → Proc) → ℕ → Bool
zombie_child cur proc i = is_child cur (proc i) && is_zombie (proc i).state

unfoldable pub any : (ℕ → Bool) → ℕ → ℕ → Bool
any test i zero = false
any test i (suc n) = test i || any test (i + 1) n

pub any-false :
    (test : ℕ → Bool) (i n j : ℕ) → any test i n ≡ false → i ≤ j → j < i + n → test j ≡ false
unfolding any
any-false test i zero j e lo hi = absurd (omega arith)
any-false test i (suc n) j e lo hi = ground (arith, any-false test (i + 1) n j)

abbrev pub moved : ℕ → ℕ → Proc → Proc
moved cur init p = if is_child cur p then record p { parent = some init } else p

abbrev pub alerted : Bool → ℕ → Proc → Proc
alerted z init p = if z then woken (some (of_proc init)) p else p

pub any-congr : {f g : ℕ → Bool} (i n : ℕ) → ((j : ℕ) → i ≤ j → f j ≡ g j) → any f i n ≡ any g i n
unfolding any
any-congr i zero h = refl
any-congr {f} {g} i (suc n) h =
    ap₂ ◌||◌ (h i (omega arith)) (any-congr (i + 1) n (λ j l. h j (omega arith)))

proc-pass_one :
    (cur i : ℕ) (t : Table) (j : ℕ)
    → (pass_one cur i t).proc j
      ≡ alerted
          (zombie_child cur t.proc i)
          t.initproc
          (if j == i then moved cur t.initproc (t.proc j) else t.proc j)
unfolding pass_one
proc-pass_one cur i t j = ground arith

init-pass_one : (cur i : ℕ) (t : Table) → (pass_one cur i t).initproc ≡ t.initproc
unfolding pass_one
init-pass_one cur i t = ground arith

later-pass_one :
    (cur i : ℕ) (t : Table) (j : ℕ)
    → i + 1 ≤ j
    → zombie_child cur (pass_one cur i t).proc j ≡ zombie_child cur t.proc j
later-pass_one cur i t j l = ground (arith, proc-pass_one cur i t j)

-- Two rounds of alerts and of moves make one.
alerted-alerted :
    (cur init : ℕ) (z1 z2 r1 r2 : Bool) (p q : Proc)
    → q ≡ alerted z1 init (if r1 then moved cur init p else p)
    → alerted z2 init (if r2 then moved cur init q else q)
      ≡ alerted (z1 || z2) init (if r1 || r2 then moved cur init p else p)
alerted-alerted cur init z1 z2 r1 r2 p q e = rw e (ground arith)

-- The loop of `exit` over the slots from `i` to `i + n` gives the children of `cur` among them to init,
-- and if one of them is a zombie wakes what sleeps on init; it changes nothing else of a slot.
pub proc-pass_children :
    (cur i n : ℕ) (t : Table) (j : ℕ)
    → (pass_children cur i n t).proc j
      ≡ alerted
          (any (zombie_child cur t.proc) i n)
          t.initproc
          (if leb i j && ltb j (i + n) then moved cur t.initproc (t.proc j) else t.proc j)
unfolding pass_children any
proc-pass_children cur i zero t j = ground arith
proc-pass_children cur i (suc n) t j =
    let range : (j == i || leb (i + 1) j && ltb j (i + 1 + n)) ≡ (leb i j && ltb j (i + suc n)) =
      ground arith in
    let zombies = any-congr (i + 1) n (later-pass_one cur i t) in
    proc-pass_children cur (i + 1) n (pass_one cur i t) j
    ∙ rw (zombies, init-pass_one cur i t)
        (alerted-alerted cur t.initproc _ _ (j == i) (leb (i + 1) j && ltb j (i + 1 + n)) (t.proc j)
          _ (proc-pass_one cur i t j))
    ∙ ap
        (λ r.
          alerted (any (zombie_child cur t.proc) i (suc n)) t.initproc
            (if r then moved cur t.initproc (t.proc j) else t.proc j))
        range

pub init-pass_children : (cur i n : ℕ) (t : Table) → (pass_children cur i n t).initproc ≡ t.initproc
unfolding pass_children
init-pass_children cur i zero t = refl
init-pass_children cur i (suc n) t =
    init-pass_children cur (i + 1) n (pass_one cur i t) ∙ init-pass_one cur i t

nextpid-pass_one : (cur i : ℕ) (t : Table) → (pass_one cur i t).nextpid ≡ t.nextpid
unfolding pass_one
nextpid-pass_one cur i t = ground arith

pub nextpid-pass_children :
    (cur i n : ℕ) (t : Table) → (pass_children cur i n t).nextpid ≡ t.nextpid
unfolding pass_children
nextpid-pass_children cur i zero t = refl
nextpid-pass_children cur i (suc n) t =
    nextpid-pass_children cur (i + 1) n (pass_one cur i t) ∙ nextpid-pass_one cur i t

-- The scan of `wait` finds the first zombie child, and knows whether there is any child.
pub scan_children-first :
    (proc : ℕ → Proc) (cur i n : ℕ) (kids : Bool)
    → (scan_children proc cur i n kids).0 ≡ first (zombie_child cur proc) i n
unfolding scan_children first
scan_children-first proc cur i zero kids = refl
scan_children-first proc cur i (suc n) kids = ground (
  arith,
  scan_children-first proc cur (i + 1) n kids,
  scan_children-first proc cur (i + 1) n true,
)

pub scan_children-any :
    (proc : ℕ → Proc) (cur i n : ℕ) (kids : Bool)
    → (scan_children proc cur i n kids).0 ≡ none
    → (scan_children proc cur i n kids).1 ≡ (kids || any (λ j. is_child cur (proc j)) i n)
unfolding scan_children any
scan_children-any proc cur i zero kids e = ground arith
scan_children-any proc cur i (suc n) kids e =
    ground
      (arith, scan_children-any proc cur (i + 1) n kids, scan_children-any proc cur (i + 1) n true)

-- The table once slot `z` is free.
abbrev pub freed : Table → ℕ → Table
freed t z = put t z (record (t.proc z) {
  kstack = 0;
  pid = 0;
  parent = none;
  name = [];
  killed = false;
  state = unused;
})

-- `wait` frees the first zombie child; without one it fails if there is no child or the process is
-- killed, and else sleeps on the process itself.
pub wait_lem :
    (cur : ℕ) (t : Table)
    → wait cur t ≡ elim (first (zombie_child cur t.proc) 0 nproc) [
      | some z ↦
          reaped (t.proc z).pid (freed t z) (kfree (t.proc z).kstack ∷ freevm (t.proc z).pgdir ∷ [])
      | none ↦
          if any (λ j. is_child cur (t.proc j)) 0 nproc && not (t.proc cur).killed
          then asleep (sleep (some (of_proc cur)) cur t)
          else no_children
    ]
unfolding wait
wait_lem cur t =
    let found = scan_children-first t.proc cur 0 nproc false in
    elim (Option-cases (first (zombie_child cur t.proc) 0 nproc)) [
      | inl e ↦
          let kids = scan_children-any t.proc cur 0 nproc false (found ∙ e) in
          ground (arith, found, e, kids)
      | inr (z, e) ↦ ground (arith, found, e)
    ]
