-- ===== src/Buf/Ending.antt =====
-- Every run of the two threads ends, with all numbers read.
use laboratorio_ramiro.Prelude.{
  ℕ, ◌*◌, suc, arith, inr, Option-cases, ◌≡◌, List, ◌+◌, ◌<◌, refl, length, ◌⊎◌, some, inl, ◌≤◌,
  ◌≢◌,
}
use laboratorio_ramiro.Buf.{
  destroys, starts, posting, consumes, destroyed, unlocking, produces, unlocked, inside, sem_wait,
  next, locking, consumer, locked, start, Reach, producer, waiting, consume, produce, Buffer, Mutex,
  Pc,
}
use laboratorio_ramiro.Buf.Progress.{consume-moves, produce-moves, Moves}
use laboratorio_ramiro.Buf.Threads.{IsBuffer, taken, critical, IsMutex}
use laboratorio_ramiro.Buf.Consumer.{Reach-IsBuffer}

-- A thread is at the head of its loop, or inside, or elsewhere.
Pc-cases :
    (pc : Pc)
    → (pc ≡ waiting)
      ⊎ (((critical pc ≡ 1) × (pc ≢ waiting) × (pc ≢ locking))
          ⊎ ((critical pc ≡ 0) × (pc ≢ waiting)))
Pc-cases waiting = inl refl
Pc-cases locking = inr (inr (refl, λ e. absurd (cc)))
Pc-cases inside = inr (inl (refl, (λ e. absurd (cc)), λ e. absurd (cc)))
Pc-cases unlocking = inr (inl (refl, (λ e. absurd (cc)), λ e. absurd (cc)))
Pc-cases posting = inr (inr (refl, λ e. absurd (cc)))

not_locked : (m : Mutex) (n : ℕ) → IsMutex m n → n ≡ 0 → m ≢ locked
not_locked unlocked n x e same = absurd (cc)
not_locked locked n x e same = absurd (omega arith)
not_locked destroyed n x e same = absurd (cc)

waiting-Moves :
    (size items : ℕ) (s : Buffer)
    → 0 < size
    → IsBuffer size items s
    → s.prod.pc ≡ waiting
    → s.cons.pc ≡ waiting
    → s.cons.i < items
    → Moves size items s
unfolding producer consumer produce consume sem_wait
waiting-Moves size items s positive v ep ec less = elim (Option-cases (sem_wait s.lleno)) [
  | inr (n, went) ↦
      inr (record s { lleno = n; cons = record s.cons { pc = locking } }, rw ec (ground arith))
  | inl none_full ↦
      let no_full : s.lleno ≡ 0 = ground arith in
      let drained : s.prod.i ≡ s.cons.i = ground (arith, v.full_slots) in
      let empty : s.vacio ≡ size = ground (arith, v.empty_slots) in
      elim (Option-cases (sem_wait s.vacio)) [
        | inl none_empty ↦ absurd (ground arith)
        | inr (n, went) ↦
            inl
              (record s { vacio = n; prod = record s.prod { pc = locking } }, rw ep (ground arith))
      ]
]

IsBuffer-Moves :
    (size items : ℕ) (s : Buffer)
    → 0 < size
    → IsBuffer size items s
    → s.cons.i < items
    → Moves size items s
unfolding producer consumer
IsBuffer-Moves size items s positive v less =
    let moves_prod = produce-moves size items s.prod.pc s in
    let moves_cons = consume-moves size items s.cons.pc s in
    elim (Pc-cases s.prod.pc) [
      | inr (inl (_, on, past)) ↦ inl (moves_prod on (λ e. absurd (past e)))
      | inr (inr (out, on)) ↦ elim (Pc-cases s.cons.pc) [
        | inr (inl (_, on', past)) ↦ inr (moves_cons on' (λ e. absurd (past e)))
        | inr (inr (out', on')) ↦
            inl (moves_prod on (λ e. not_locked s.mutex _ v.exclusive (omega (arith, out, out'))))
        | inl head ↦ inl (moves_prod on (λ e. not_locked s.mutex _ v.exclusive (ground arith)))
      ]
      | inl head ↦ elim (Pc-cases s.cons.pc) [
        | inr (inl (_, on', past)) ↦ inr (moves_cons on' (λ e. absurd (past e)))
        | inr (inr (out', on')) ↦
            inr (moves_cons on' (λ e. not_locked s.mutex _ v.exclusive (ground arith)))
        | inl head' ↦ waiting-Moves size items s positive v head head' less
      ]
    ]

-- With a buffer of some size, in every reachable state where the consumer has not finished its last
-- round one of the two threads can move: they never wait for each other, whether or not `main` has
-- destroyed the mutex.
pub Reach-Moves :
    (size items : ℕ) (buf results : List ℕ) {s : Buffer}
    → 0 < size
    → length buf ≡ size
    → length results ≡ items
    → Reach size items buf results s
    → s.cons.i < items
    → Moves size items s
Reach-Moves size items buf results {s} positive eb er r less =
    IsBuffer-Moves size items s positive (Reach-IsBuffer size items buf results eb er r) less

-- How many steps of its loop a thread has behind it.
abbrev pub steps_at : Pc → ℕ
steps_at waiting = 0
steps_at locking = 1
steps_at inside = 2
steps_at unlocking = 3
steps_at posting = 4

abbrev pub work : Buffer → ℕ
work s = s.prod.i * 5 + steps_at s.prod.pc + s.cons.i * 5 + steps_at s.cons.pc

produce-work :
    (size items : ℕ) (pc : Pc) (s : Buffer) {s' : Buffer}
    → s.prod.pc ≡ pc
    → produce size items pc s ≡ some s'
    → work s' ≡ suc (work s)
unfolding produce
produce-work size items waiting s at e = ground arith
produce-work size items locking s at e = ground arith
produce-work size items inside s at e = ground arith
produce-work size items unlocking s at e = ground arith
produce-work size items posting s at e = ground arith

consume-work :
    (size items : ℕ) (pc : Pc) (s : Buffer) {s' : Buffer}
    → s.cons.pc ≡ pc
    → consume size items pc s ≡ some s'
    → work s' ≡ suc (work s)
unfolding consume
consume-work size items waiting s at e = ground arith
consume-work size items locking s at e = ground arith
consume-work size items inside s at e = ground arith
consume-work size items unlocking s at e = ground arith
consume-work size items posting s at e = ground arith

-- The steps of the two threads in a run.
pub count_steps :
    {size items : ℕ} {buf results : List ℕ} {s : Buffer} → Reach size items buf results s → ℕ
count_steps starts = 0
count_steps (next r (produces e)) = suc (count_steps r)
count_steps (next r (consumes e)) = suc (count_steps r)
count_steps (next r destroys) = count_steps r

count_steps-work :
    {size items : ℕ} {buf results : List ℕ} {s : Buffer} (r : Reach size items buf results s)
    → count_steps r ≡ work s
unfolding count_steps start producer consumer
count_steps-work starts = refl
count_steps-work (next {s} r (produces e)) =
    omega (arith, count_steps-work r, produce-work _ _ s.prod.pc s refl e)
count_steps-work (next {s} r (consumes e)) =
    omega (arith, count_steps-work r, consume-work _ _ s.cons.pc s refl e)
count_steps-work (next r destroys) = count_steps-work r

steps_at-taken : (pc : Pc) → steps_at pc ≤ taken pc * 4
steps_at-taken waiting = omega arith
steps_at-taken locking = omega arith
steps_at-taken inside = omega arith
steps_at-taken unlocking = omega arith
steps_at-taken posting = omega arith

-- The two threads make at most ten steps for each item in any run, of which main's destroying of the
-- mutex is no part.
pub count_steps-bound :
    (size items : ℕ) (buf results : List ℕ) {s : Buffer} (r : Reach size items buf results s)
    → length buf ≡ size
    → length results ≡ items
    → count_steps r ≤ items * 10
count_steps-bound size items buf results {s} r eb er =
    let v = Reach-IsBuffer size items buf results eb er r in
    omega (
      arith,
      count_steps-work r,
      v.made,
      v.full_slots,
      steps_at-taken s.prod.pc,
      steps_at-taken s.cons.pc,
    )
