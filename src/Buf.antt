-- ===== src/Buf.antt =====
-- lab-05/buf.c: a producer and a consumer with a bounded buffer, two semaphores and a mutex. The steps of
-- the two threads and of `main` interleave; a step is a call on a semaphore or the mutex, or the access to
-- the buffer. A thread at the head of its loop has its next step there if `i < items`. The waits of a random
-- time are steps of the other thread. `pthread_mutex_destroy` fails on a held mutex, and a destroyed one
-- cannot be locked: the calls on it fail, and the threads, which do not look at their answer, go on.
-- `sem_destroy` leaves the counters as they are, as on Linux.
pub mod Slots
pub mod Threads
pub mod Consumer
pub mod Progress
pub mod Ending
mod Tests
use laboratorio_ramiro.Prelude.{
  Option, get_or, some, List, ℕ, if◌then◌else◌, ◌≡◌, none, ◌+◌, zero, set, ltb, ◌%◌, suc,
}

pub data Mutex : Type 0 where
  unlocked locked destroyed : Mutex

-- Where a thread is in its loop: before each of its five calls and statements.
pub data Pc : Type 0 where
  waiting locking inside unlocking posting : Pc

pub record Thread : Type 0 where
  pub pc : Pc
  pub i : ℕ

-- `items` and `buf->size` do not change: they are arguments.
pub record Buffer : Type 0 where
  pub vacio : ℕ
  pub lleno : ℕ
  pub mutex : Mutex
  pub buf : List ℕ
  pub prod : Thread
  pub cons : Thread
  pub reader_results : List ℕ

-- `sem_wait` and the mutex's calls; `none` means that the caller waits.
unfoldable pub sem_wait : ℕ → Option ℕ
sem_wait zero = none
sem_wait (suc n) = some n

unfoldable pub lock : Mutex → Option Mutex
lock unlocked = some locked
lock locked = none
lock destroyed = some destroyed

unfoldable pub unlock : Mutex → Mutex
unlock unlocked = unlocked
unlock locked = unlocked
unlock destroyed = destroyed

unfoldable pub destroy : Mutex → Mutex
destroy unlocked = destroyed
destroy locked = locked
destroy destroyed = destroyed

unfoldable pub produce : ℕ → ℕ → Pc → Buffer → Option Buffer
unfolding sem_wait lock unlock
produce size items waiting s =
    if ltb s.prod.i items
    then elim (sem_wait s.vacio) [
      | none ↦ none
      | some v ↦ some (record s { vacio = v; prod = record s.prod { pc = locking } })
    ]
    else none
produce size items locking s = elim (lock s.mutex) [
  | none ↦ none
  | some m ↦ some (record s { mutex = m; prod = record s.prod { pc = inside } })
]
produce size items inside s = some (record s {
  buf = set s.buf (s.prod.i % size) s.prod.i;
  prod = record s.prod { pc = unlocking };
})
produce size items unlocking s =
    some (record s { mutex = unlock s.mutex; prod = record s.prod { pc = posting } })
produce size items posting s =
    some (record s { lleno = s.lleno + 1; prod = record { pc = waiting; i = s.prod.i + 1 } })

unfoldable pub consume : ℕ → ℕ → Pc → Buffer → Option Buffer
unfolding sem_wait lock unlock
consume size items waiting s =
    if ltb s.cons.i items
    then elim (sem_wait s.lleno) [
      | none ↦ none
      | some v ↦ some (record s { lleno = v; cons = record s.cons { pc = locking } })
    ]
    else none
consume size items locking s = elim (lock s.mutex) [
  | none ↦ none
  | some m ↦ some (record s { mutex = m; cons = record s.cons { pc = inside } })
]
consume size items inside s = some (record s {
  reader_results = set s.reader_results s.cons.i (get_or s.buf (s.cons.i % size) 0);
  cons = record s.cons { pc = unlocking };
})
consume size items unlocking s =
    some (record s { mutex = unlock s.mutex; cons = record s.cons { pc = posting } })
consume size items posting s =
    some (record s { vacio = s.vacio + 1; cons = record { pc = waiting; i = s.cons.i + 1 } })

unfoldable pub producer : ℕ → ℕ → Buffer → Option Buffer
unfolding produce
producer size items s = produce size items s.prod.pc s

unfoldable pub consumer : ℕ → ℕ → Buffer → Option Buffer
unfolding consume
consumer size items s = consume size items s.cons.pc s

-- What `main` starts the threads with, over memory that `malloc` has not cleared.
unfoldable pub start : ℕ → List ℕ → List ℕ → Buffer
start size buf results = record {
  vacio = size;
  lleno = 0;
  mutex = unlocked;
  buf = buf;
  prod = record { pc = waiting; i = 0 };
  cons = record { pc = waiting; i = 0 };
  reader_results = results;
}

-- The steps after `main` has created the threads.
pub data Step (size items : ℕ) (s : Buffer) : Buffer → Type 0 where
  produces : {s' : Buffer} → producer size items s ≡ some s' → Step size items s s'
  consumes : {s' : Buffer} → consumer size items s ≡ some s' → Step size items s s'
  destroys : Step size items s (record s { mutex = destroy s.mutex })

pub data Reach (size items : ℕ) (buf results : List ℕ) : Buffer → Type 0 where
  starts : Reach size items buf results (start size buf results)
  next :
      {s s' : Buffer}
      → Reach size items buf results s
      → Step size items s s'
      → Reach size items buf results s'
