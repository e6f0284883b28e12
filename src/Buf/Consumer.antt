-- ===== src/Buf/Consumer.antt =====
-- The steps of the consumer, and every interleaving.
use laboratorio_ramiro.Prelude.{
  ℕ, arith, refl, some, List, suc, length-set, Option-cases, ◌∙◌, ◌%◌, get_or-set_self, Bool-cases,
  ◌≡◌, set, length, ◌+◌, ◌==◌, inl, get_or, inr, get_or-set_ne, ◌<◌,
}
use laboratorio_ramiro.Buf.{
  waiting, posting, destroys, unlock, starts, unlocking, consumes, produces, lock, next, locking,
  Reach, destroy, Pc, consumer, sem_wait, inside, producer, consume, Buffer,
}
use laboratorio_ramiro.Buf.Threads.{
  unlock-IsMutex, critical, produce-IsBuffer, lock-IsMutex, recount, start-IsBuffer,
  destroy-IsMutex, IsBuffer,
}

-- The consumer reads the next number.
read-next :
    (size items : ℕ) (s : Buffer)
    → s.cons.pc ≡ inside
    → IsBuffer size items s
    → (k : ℕ) → k < s.cons.i + 1
    → get_or (set s.reader_results s.cons.i (get_or s.buf (s.cons.i % size) 0)) k 0 ≡ k
read-next size items s at v k hi =
    let n = s.cons.i in
    let some_full : n < s.prod.i = ground (arith, v.full_slots) in
    let room : n < length s.reader_results = ground (arith, v.made, v.results_room) in
    elim (Bool-cases (k == n)) [
      | inl now ↦
          let same : k ≡ n = ground arith in
          rw same (
            get_or-set_self s.reader_results n (get_or s.buf (n % size) 0) 0 room
            ∙ v.held n (ground (arith, at)) (omega arith))
      | inr before ↦
          get_or-set_ne s.reader_results (get_or s.buf (n % size) 0) 0 (ground arith)
          ∙ v.read k (ground (arith, at))
    ]

consume-IsBuffer :
    (size items : ℕ) (pc : Pc) (s : Buffer) {s' : Buffer}
    → s.cons.pc ≡ pc
    → consume size items pc s ≡ some s'
    → IsBuffer size items s
    → IsBuffer size items s'
unfolding consume sem_wait
consume-IsBuffer size items waiting s {s'} at e v = elim (Option-cases (sem_wait s.lleno)) [
  | inl none_left ↦ absurd (ground arith)
  | inr (n, went) ↦
      let counted : s.lleno ≡ suc n = ground arith in
      let same : s' ≡ record s { lleno = n; cons = record s.cons { pc = locking } } =
        ground arith in
      rw same (record {
        room = v.room;
        results_room = v.results_room;
        empty_slots = v.empty_slots;
        full_slots = ground (arith, v.full_slots);
        made = v.made;
        held = λ k lo hi. v.held k (ground arith) hi;
        read = λ k hi. v.read k (ground arith);
        exclusive = recount s.mutex (ground arith) v.exclusive;
      })
]
consume-IsBuffer size items locking s {s'} at e v = elim (Option-cases (lock s.mutex)) [
  | inl taken_by ↦ absurd (ground arith)
  | inr (m, went) ↦
      let same : s' ≡ record s { mutex = m; cons = record s.cons { pc = inside } } = ground arith in
      rw same (record {
        room = v.room;
        results_room = v.results_room;
        empty_slots = v.empty_slots;
        full_slots = ground (arith, v.full_slots);
        made = v.made;
        held = λ k lo hi. v.held k (ground arith) hi;
        read = λ k hi. v.read k (ground arith);
        exclusive = recount m (omega arith) (
            lock-IsMutex s.mutex (critical s.prod.pc) went
              (recount s.mutex (ground arith) v.exclusive));
      })
]
consume-IsBuffer size items inside s {s'} at e v =
    let same : s' ≡ record s {
      reader_results = set s.reader_results s.cons.i (get_or s.buf (s.cons.i % size) 0);
      cons = record s.cons { pc = unlocking };
    } =
      ground arith in
    rw same (record {
      room = v.room;
      results_room = length-set s.reader_results s.cons.i _ ∙ v.results_room;
      empty_slots = v.empty_slots;
      full_slots = ground (arith, v.full_slots);
      made = v.made;
      held = λ k lo hi. v.held k (ground arith) hi;
      read = read-next size items s at v;
      exclusive = recount s.mutex (ground arith) v.exclusive;
    })
consume-IsBuffer size items unlocking s {s'} at e v =
    let same : s' ≡ record s { mutex = unlock s.mutex; cons = record s.cons { pc = posting } } =
      ground arith in
    rw same (record {
      room = v.room;
      results_room = v.results_room;
      empty_slots = v.empty_slots;
      full_slots = ground (arith, v.full_slots);
      made = v.made;
      held = λ k lo hi. v.held k (ground arith) hi;
      read = λ k hi. v.read k (ground arith);
      exclusive = recount (unlock s.mutex) (omega arith) (
          unlock-IsMutex s.mutex (critical s.prod.pc) (recount s.mutex (ground arith) v.exclusive));
    })
consume-IsBuffer size items posting s {s'} at e v =
    let same : s'
        ≡ record s { vacio = s.vacio + 1; cons = record { pc = waiting; i = s.cons.i + 1 } } =
      ground arith in
    rw same (record {
      room = v.room;
      results_room = v.results_room;
      empty_slots = ground (arith, v.empty_slots);
      full_slots = ground (arith, v.full_slots);
      made = v.made;
      held = λ k lo hi. v.held k (ground arith) hi;
      read = λ k hi. v.read k (ground arith);
      exclusive = recount s.mutex (ground arith) v.exclusive;
    })

destroyed-IsBuffer :
    (size items : ℕ) (s : Buffer)
    → IsBuffer size items s
    → IsBuffer size items (record s { mutex = destroy s.mutex })
destroyed-IsBuffer size items s v = record {
  room = v.room;
  results_room = v.results_room;
  empty_slots = v.empty_slots;
  full_slots = v.full_slots;
  made = v.made;
  held = v.held;
  read = v.read;
  exclusive = destroy-IsMutex s.mutex _ v.exclusive;
}

pub Reach-IsBuffer :
    (size items : ℕ) (buf results : List ℕ) {s : Buffer}
    → length buf ≡ size
    → length results ≡ items
    → Reach size items buf results s
    → IsBuffer size items s
unfolding producer consumer
Reach-IsBuffer size items buf results eb er starts = start-IsBuffer size items buf results eb er
Reach-IsBuffer size items buf results eb er (next {s} r (produces e)) =
    produce-IsBuffer size items s.prod.pc s refl e (Reach-IsBuffer size items buf results eb er r)
Reach-IsBuffer size items buf results eb er (next {s} r (consumes e)) =
    consume-IsBuffer size items s.cons.pc s refl e (Reach-IsBuffer size items buf results eb er r)
Reach-IsBuffer size items buf results eb er (next {s} r destroys) =
    destroyed-IsBuffer size items s (Reach-IsBuffer size items buf results eb er r)
