-- ===== src/Buf/Tests.antt =====
-- A run over a buffer of one slot, with its theorems.
use laboratorio_ramiro.Prelude.{
  ◌≤◌, ◌≡◌, ◌∷◌, ◌+◌, some, [], get_or, refl, Option, none, ◌<◌, arith, ◌⊎◌, List, ℕ,
}
use laboratorio_ramiro.Buf.{
  consumes, produces, destroys, starts, next, Reach, sem_wait, unlock, lock, consume, produce,
  destroy, start, destroyed, consumer, producer, Buffer,
}
use laboratorio_ramiro.Buf.Progress.{Reach-reads, Moves}
use laboratorio_ramiro.Buf.Ending.{Reach-Moves}
use laboratorio_ramiro.Buf.Threads.{critical}

abbrev junk : List ℕ
junk = 9 ∷ []

abbrev results : List ℕ
results = 7 ∷ 7 ∷ []

initial : Buffer
unfolding start
initial = start 1 junk results

-- The producer writes 0 and waits for a slot; `main` destroys the mutex; the consumer reads 0.
or_same : Buffer → Option Buffer → Buffer
or_same s none = s
or_same s (some s') = s'

abbrev p : Buffer → Buffer
p s = or_same s (producer 1 2 s)

abbrev c : Buffer → Buffer
c s = or_same s (consumer 1 2 s)

produced : Buffer
produced = p (p (p (p (p initial))))

consumed : Buffer
consumed = c (c (c (c (c (record produced { mutex = destroy produced.mutex })))))

produced_reached : Reach 1 2 junk results produced
unfolding produced producer produce lock unlock sem_wait start initial or_same
produced_reached =
    next
      (next (next (next (next starts (produces refl)) (produces refl)) (produces refl))
        (produces refl))
      (produces refl)

producer_waits : producer 1 2 produced ≡ none
unfolding produced producer produce lock unlock sem_wait start initial or_same
producer_waits = refl

consumed_reached : Reach 1 2 junk results consumed
unfolding consumed produced consumer consume producer produce lock unlock destroy sem_wait start
    initial or_same
consumed_reached =
    next
      (next
        (next (next (next (next produced_reached destroys) (consumes refl)) (consumes refl))
          (consumes refl))
        (consumes refl))
      (consumes refl)

one_read : consumed.cons.i ≡ 1
unfolding consumed produced consumer consume producer produce lock unlock destroy sem_wait start
    initial or_same
one_read = refl

Reach-reads_example :
    ((k : ℕ) → k < consumed.cons.i → get_or consumed.reader_results k 0 ≡ k)
    × (consumed.cons.i ≤ consumed.prod.i)
    × (consumed.prod.i ≤ consumed.cons.i + 1)
    × ((consumed.mutex ≡ destroyed) ⊎ (critical consumed.prod.pc + critical consumed.cons.pc ≤ 1))
Reach-reads_example = Reach-reads 1 2 junk results refl refl consumed_reached

Reach-Moves_example : Moves 1 2 consumed
Reach-Moves_example =
    Reach-Moves 1 2 junk results (omega arith) refl refl consumed_reached (omega (arith, one_read))
