-- ===== src/Buf/Threads.antt =====
-- What the two threads keep, in every interleaving of their steps.
use native.Mathlib.Nat.{mod-lt}
use laboratorio_ramiro.Prelude.{
  ◌==◌, get_or, refl, some, ◌+◌, arith, length, length-set, ◌∙◌, Option-cases, ◌≡◌, ◌%◌,
  get_or-set_self, suc, ◌<◌, set, ℕ, inr, inl, List, get_or-set_ne, subst, ◌≤◌, Bool-cases,
}
use laboratorio_ramiro.Buf.{
  posting, destroyed, unlocking, unlocked, waiting, sem_wait, locking, inside, locked, start,
  produce, destroy, unlock, lock, Buffer, Mutex, Pc,
}
use laboratorio_ramiro.Buf.Slots.{distinct-mod}

-- The thread has passed its first semaphore; it has done its access to the buffer; it is between the calls
-- on the mutex.
abbrev pub taken : Pc → ℕ
taken waiting = 0
taken locking = 1
taken inside = 1
taken unlocking = 1
taken posting = 1

abbrev pub moved : Pc → ℕ
moved waiting = 0
moved locking = 0
moved inside = 0
moved unlocking = 1
moved posting = 1

abbrev pub critical : Pc → ℕ
critical waiting = 0
critical locking = 0
critical inside = 1
critical unlocking = 1
critical posting = 0

-- The mutex with `n` threads between its calls.
abbrev pub IsMutex : Mutex → ℕ → Type 0
IsMutex unlocked n = n ≡ 0
IsMutex locked n = n ≡ 1
IsMutex destroyed n = Unit

pub record IsBuffer (size items : ℕ) (s : Buffer) : Type 0 where
  pub room : length s.buf ≡ size
  pub results_room : length s.reader_results ≡ items
  pub empty_slots : s.vacio + taken s.prod.pc + s.prod.i ≡ size + s.cons.i
  pub full_slots : s.lleno + taken s.cons.pc + s.cons.i ≡ s.prod.i
  pub made : s.prod.i + taken s.prod.pc ≤ items
  pub held :
      (k : ℕ)
      → s.cons.i + moved s.cons.pc ≤ k
      → k < s.prod.i + moved s.prod.pc
      → get_or s.buf (k % size) 0 ≡ k
  pub read : (k : ℕ) → k < s.cons.i + moved s.cons.pc → get_or s.reader_results k 0 ≡ k
  pub exclusive : IsMutex s.mutex (critical s.prod.pc + critical s.cons.pc)

pub start-IsBuffer :
    (size items : ℕ) (buf results : List ℕ)
    → length buf ≡ size
    → length results ≡ items
    → IsBuffer size items (start size buf results)
unfolding start
start-IsBuffer size items buf results eb er = record {
  room = eb;
  results_room = er;
  empty_slots = omega arith;
  full_slots = refl;
  made = omega arith;
  held = λ k lo hi. absurd (omega arith);
  read = λ k hi. absurd (omega arith);
  exclusive = omega arith;
}

pub lock-IsMutex :
    (m : Mutex) (n : ℕ) {m' : Mutex} → lock m ≡ some m' → IsMutex m n → IsMutex m' (suc n)
unfolding lock
lock-IsMutex unlocked n {m'} e x = let same : m' ≡ locked = cc in rw same (omega arith)
lock-IsMutex locked n e x = absurd (cc)
lock-IsMutex destroyed n {m'} e x = let same : m' ≡ destroyed = cc in rw same tt

pub unlock-IsMutex : (m : Mutex) (n : ℕ) → IsMutex m (suc n) → IsMutex (unlock m) n
unfolding unlock
unlock-IsMutex unlocked n x = absurd (omega arith)
unlock-IsMutex locked n x = omega arith
unlock-IsMutex destroyed n x = tt

pub destroy-IsMutex : (m : Mutex) (n : ℕ) → IsMutex m n → IsMutex (destroy m) n
unfolding destroy
destroy-IsMutex unlocked n x = tt
destroy-IsMutex locked n x = x
destroy-IsMutex destroyed n x = tt

-- The producer writes into a slot that holds nothing unread.
written-held :
    (size items : ℕ) (s : Buffer)
    → s.prod.pc ≡ inside
    → IsBuffer size items s
    → (k : ℕ) → s.cons.i + moved s.cons.pc ≤ k
    → k < s.prod.i + 1
    → get_or (set s.buf (s.prod.i % size) s.prod.i) (k % size) 0 ≡ k
written-held size items s at v k lo hi =
    let n = s.prod.i in
    let some_room : n < s.cons.i + size = ground (arith, v.empty_slots) in
    let slot : n % size < length s.buf = rw v.room (mod-lt n (omega arith)) in
    elim (Bool-cases (k == n)) [
      | inl now ↦
          let same : k ≡ n = ground arith in rw same (get_or-set_self s.buf (n % size) n 0 slot)
      | inr before ↦
          let apart = distinct-mod k n size (ground arith) (omega arith) in
          get_or-set_ne s.buf n 0 apart ∙ v.held k lo (ground (arith, at))
    ]

pub recount : (m : Mutex) {a b : ℕ} → a ≡ b → IsMutex m a → IsMutex m b
recount m e x = subst (IsMutex m) e x

pub produce-IsBuffer :
    (size items : ℕ) (pc : Pc) (s : Buffer) {s' : Buffer}
    → s.prod.pc ≡ pc
    → produce size items pc s ≡ some s'
    → IsBuffer size items s
    → IsBuffer size items s'
unfolding produce sem_wait
produce-IsBuffer size items waiting s {s'} at e v = elim (Option-cases (sem_wait s.vacio)) [
  | inl none_left ↦ absurd (ground arith)
  | inr (n, went) ↦
      let more : s.prod.i < items = ground arith in
      let counted : s.vacio ≡ suc n = ground arith in
      let same : s' ≡ record s { vacio = n; prod = record s.prod { pc = locking } } =
        ground arith in
      rw same (record {
        room = v.room;
        results_room = v.results_room;
        empty_slots = ground (arith, v.empty_slots);
        full_slots = v.full_slots;
        made = omega arith;
        held = λ k lo hi. v.held k lo (ground arith);
        read = v.read;
        exclusive = recount s.mutex (ground arith) v.exclusive;
      })
]
produce-IsBuffer size items locking s {s'} at e v = elim (Option-cases (lock s.mutex)) [
  | inl taken_by ↦ absurd (ground arith)
  | inr (m, went) ↦
      let same : s' ≡ record s { mutex = m; prod = record s.prod { pc = inside } } = ground arith in
      rw same (record {
        room = v.room;
        results_room = v.results_room;
        empty_slots = ground (arith, v.empty_slots);
        full_slots = v.full_slots;
        made = ground (arith, v.made);
        held = λ k lo hi. v.held k lo (ground arith);
        read = v.read;
        exclusive = recount m (omega arith) (
            lock-IsMutex s.mutex (critical s.cons.pc) went
              (recount s.mutex (ground arith) v.exclusive));
      })
]
produce-IsBuffer size items inside s {s'} at e v =
    let same : s' ≡ record s {
      buf = set s.buf (s.prod.i % size) s.prod.i;
      prod = record s.prod { pc = unlocking };
    } =
      ground arith in
    rw same (record {
      room = length-set s.buf (s.prod.i % size) s.prod.i ∙ v.room;
      results_room = v.results_room;
      empty_slots = ground (arith, v.empty_slots);
      full_slots = v.full_slots;
      made = ground (arith, v.made);
      held = written-held size items s at v;
      read = v.read;
      exclusive = recount s.mutex (ground arith) v.exclusive;
    })
produce-IsBuffer size items unlocking s {s'} at e v =
    let same : s' ≡ record s { mutex = unlock s.mutex; prod = record s.prod { pc = posting } } =
      ground arith in
    rw same (record {
      room = v.room;
      results_room = v.results_room;
      empty_slots = ground (arith, v.empty_slots);
      full_slots = v.full_slots;
      made = ground (arith, v.made);
      held = λ k lo hi. v.held k lo (ground arith);
      read = v.read;
      exclusive = recount (unlock s.mutex) (omega arith) (
          unlock-IsMutex s.mutex (critical s.cons.pc) (recount s.mutex (ground arith) v.exclusive));
    })
produce-IsBuffer size items posting s {s'} at e v =
    let same : s'
        ≡ record s { lleno = s.lleno + 1; prod = record { pc = waiting; i = s.prod.i + 1 } } =
      ground arith in
    rw same (record {
      room = v.room;
      results_room = v.results_room;
      empty_slots = ground (arith, v.empty_slots);
      full_slots = ground (arith, v.full_slots);
      made = ground (arith, v.made);
      held = λ k lo hi. v.held k lo (ground arith);
      read = v.read;
      exclusive = recount s.mutex (ground arith) v.exclusive;
    })
