-- ===== src/Pipe/Stream.antt =====
-- Every history of a pipe: the runs of its writers and readers, in any order, and the closing of its
-- ends.
use laboratorio_ramiro.Prelude.{
  Bool, Bool-cases, List, [], append-nil, append_assoc, arith, inl, inr, length, sym, take,
  take-append-drop, ℕ, ◌&&◌, ◌++◌, ◌==◌, ◌∙◌, ◌∷◌, ◌≡◌, ◌≤◌,
}
use laboratorio_ramiro.Pipe.{
  Pipe, Got, bytes, read_failed, read_asleep, pipewrite, piperead, pipeclose, pipesize, pipealloc,
}
use laboratorio_ramiro.Pipe.Ring.{IsValid, count, length-contents, contents, pipealloc-IsValid}
use laboratorio_ramiro.Pipe.Runs.{room, pipewrite_lem, piperead_lem}

pub data Act : Type 0 where
  -- A run of `pipewrite`, first or woken, in a process that may be killed.
  write : Bool → List ℕ → Act
  read : Bool → ℕ → Act
  close : Bool → Act

-- What a reader has got from a run.
abbrev pub got : Got → List ℕ
got (bytes bs) = bs
got read_failed = []
got read_asleep = []

abbrev pub after : Pipe → Act → Pipe
after p (write killed bs) = (pipewrite p killed bs).pipe
after p (read killed n) = (piperead p killed n).pipe
after p (close writable) = (pipeclose p writable).0

-- The bytes of an act that go into the pipe, and those that come out.
abbrev pub sent : Pipe → Act → List ℕ
sent p (write killed bs) = take (room p) bs
sent p (read killed n) = []
sent p (close writable) = []

abbrev pub received : Pipe → Act → List ℕ
received p (write killed bs) = []
received p (read killed n) = got (piperead p killed n).stop
received p (close writable) = []

unfoldable pub run : Pipe → List Act → Pipe
run p [] = p
run p (a ∷ as') = run (after p a) as'

unfoldable pub all_sent : Pipe → List Act → List ℕ
all_sent p [] = []
all_sent p (a ∷ as') = sent p a ++ all_sent (after p a) as'

unfoldable pub all_received : Pipe → List Act → List ℕ
all_received p [] = []
all_received p (a ∷ as') = received p a ++ all_received (after p a) as'

close-keeps :
    (p : Pipe) (w : Bool)
    → IsValid p
    → IsValid (pipeclose p w).0 × (contents (pipeclose p w).0 ≡ contents p)
unfolding pipeclose
close-keeps p w v = ground arith

read-keeps :
    (p : Pipe) (killed : Bool) (n : ℕ)
    → IsValid p
    → got (piperead p killed n).stop ++ contents (piperead p killed n).pipe ≡ contents p
read-keeps p killed n v =
    let ok = piperead_lem p killed n v in
    elim (Bool-cases (count p == 0 && p.writeopen)) [
      | inl idle ↦
          let (same, _, stop) = ok.blocked (ground arith) (ground arith) in
          rw (same, stop) (ground arith)
      | inr busy ↦
          let (stop, rest, _) = ok.served (ground arith) in
          rw (stop, rest) (take-append-drop n (contents p))
    ]

after-IsValid : (p : Pipe) (a : Act) → IsValid p → IsValid (after p a)
after-IsValid p (write killed bs) v = (pipewrite_lem p killed bs v).valid
after-IsValid p (read killed n) v = (piperead_lem p killed n v).valid
after-IsValid p (close w) v = (close-keeps p w v).0

after-contents :
    (p : Pipe) (a : Act) → IsValid p → received p a ++ contents (after p a) ≡ contents p ++ sent p a
after-contents p (write killed bs) v = (pipewrite_lem p killed bs v).appended
after-contents p (read killed n) v = read-keeps p killed n v ∙ sym (append-nil (contents p))
after-contents p (close w) v = (close-keeps p w v).1 ∙ sym (append-nil (contents p))

stream_from :
    (p : Pipe) (acts : List Act)
    → IsValid p
    → (all_received p acts ++ contents (run p acts) ≡ contents p ++ all_sent p acts)
      × IsValid (run p acts)
unfolding run all_sent all_received
stream_from p [] v = (sym (append-nil (contents p)), v)
stream_from p (a ∷ acts) v =
    let ih = stream_from (after p a) acts (after-IsValid p a v) in
    (
      rw
          (
            append_assoc (received p a) (all_received (after p a) acts) _,
            ih.0,
            ← append_assoc (received p a) (contents (after p a)) _,
            after-contents p a v,
          )
          (append_assoc (contents p) (sent p a) _),
      ih.1,
    )

-- Whatever runs of writers and readers and closings follow the creation of a pipe, in whatever
-- order, the bytes received and then those still in the pipe are exactly the bytes that went in,
-- in order; and the pipe holds at most 512 of them.
pub pipe_is_fifo :
    (junk : List ℕ) (acts : List Act)
    → length junk ≡ pipesize
    → let p = pipealloc junk in
      (all_received p acts ++ contents (run p acts) ≡ all_sent p acts)
      × (length (contents (run p acts)) ≤ pipesize)
unfolding pipealloc
pipe_is_fifo junk acts h =
    let (fifo, v) = stream_from (pipealloc junk) acts (pipealloc-IsValid junk h) in
    (fifo, rw length-contents v.room)
