-- ===== src/Buf/Progress.antt =====
-- What a run of the two threads has done, and that no run of them gets stuck.
use laboratorio_ramiro.Prelude.{
  ◌+◌, ◌⊎◌, ◌<◌, length, ◌≢◌, arith, Option-cases, refl, some, ◌≤◌, ℕ, inl, inr, ◌≡◌, get_or, List,
}
use laboratorio_ramiro.Buf.{
  posting, unlocking, unlocked, inside, locked, locking, Mutex, waiting, Pc, consumer, destroyed,
  lock, producer, Reach, consume, produce, Buffer,
}
use laboratorio_ramiro.Buf.Threads.{IsMutex, critical}
use laboratorio_ramiro.Buf.Consumer.{Reach-IsBuffer}

-- In every reachable state the consumer has read 0, 1, 2 and so on, in order, one number each round; the
-- producer is ahead of it by at most the size of the buffer; and as long as `main` has not destroyed the
-- mutex, the two are not at the buffer at once.
pub Reach-reads :
    (size items : ℕ) (buf results : List ℕ) {s : Buffer}
    → length buf ≡ size
    → length results ≡ items
    → Reach size items buf results s
    → ((k : ℕ) → k < s.cons.i → get_or s.reader_results k 0 ≡ k)
      × (s.cons.i ≤ s.prod.i)
      × (s.prod.i ≤ s.cons.i + size)
      × ((s.mutex ≡ destroyed) ⊎ (critical s.prod.pc + critical s.cons.pc ≤ 1))
Reach-reads size items buf results {s} eb er r =
    let v = Reach-IsBuffer size items buf results eb er r in
    (
      (λ k l. v.read k (omega arith)),
      omega (arith, v.full_slots),
      omega (arith, v.empty_slots),
      IsMutex-critical s.mutex _ v.exclusive,
    )
  where
    IsMutex-critical : (m : Mutex) (n : ℕ) → IsMutex m n → (m ≡ destroyed) ⊎ (n ≤ 1)
    IsMutex-critical unlocked n x = inr (omega arith)
    IsMutex-critical locked n x = inr (omega arith)
    IsMutex-critical destroyed n x = inl refl

-- A thread of the two can move.
abbrev pub Moves : ℕ → ℕ → Buffer → Type 0
Moves size items s =
    ((s' : Buffer) × (producer size items s ≡ some s'))
    ⊎ ((s' : Buffer) × (consumer size items s ≡ some s'))

-- A thread past the head of its loop moves, if the mutex lets it.
pub produce-moves :
    (size items : ℕ) (pc : Pc) (s : Buffer)
    → pc ≢ waiting
    → (pc ≡ locking → s.mutex ≢ locked)
    → (s' : Buffer) × (produce size items pc s ≡ some s')
unfolding produce lock
produce-moves size items waiting s on free = absurd (on refl)
produce-moves size items locking s on free = elim (Option-cases (lock s.mutex)) [
  | inl waits ↦ absurd (free refl (ground arith))
  | inr (m, went) ↦ (record s { mutex = m; prod = record s.prod { pc = inside } }, ground arith)
]
produce-moves size items inside s on free = (_, refl)
produce-moves size items unlocking s on free = (_, refl)
produce-moves size items posting s on free = (_, refl)

pub consume-moves :
    (size items : ℕ) (pc : Pc) (s : Buffer)
    → pc ≢ waiting
    → (pc ≡ locking → s.mutex ≢ locked)
    → (s' : Buffer) × (consume size items pc s ≡ some s')
unfolding consume lock
consume-moves size items waiting s on free = absurd (on refl)
consume-moves size items locking s on free = elim (Option-cases (lock s.mutex)) [
  | inl waits ↦ absurd (free refl (ground arith))
  | inr (m, went) ↦ (record s { mutex = m; cons = record s.cons { pc = inside } }, ground arith)
]
consume-moves size items inside s on free = (_, refl)
consume-moves size items unlocking s on free = (_, refl)
consume-moves size items posting s on free = (_, refl)
