-- ===== src/Pipe/Runs.antt =====
-- What one run of `pipewrite`, `piperead` and `pipeclose` does to the queue of bytes in the pipe.
use laboratorio_ramiro.Prelude.{
  Bool, Bool-cases, List, [], append-nil, append_assoc, arith, drop, drop-nil, false, if◌then◌else◌,
  inl, inr, leb, length, not, refl, suc, take, take-nil, true, zero, ℕ, ◌++◌, ◌-◌, ◌<◌, ◌||◌, ◌∙◌,
  ◌∷◌, ◌≡◌, ◌⊎◌,
}
use laboratorio_ramiro.Pipe.{
  Pipe, readers, writers, pipesize, full, empty, put, front, advance, all_written, write_failed,
  write_asleep, WriteRun, pipewrite, bytes, read_failed, read_asleep, ReadRun, copy_out, piperead,
}
use laboratorio_ramiro.Pipe.Ring.{
  IsValid, count, contents, put-IsValid, contents-put, advance-IsValid, contents-advance,
}

abbrev pub room : Pipe → ℕ
room p = pipesize - count p

-- What a run of `pipewrite` that began at `p` must leave.
pub record WriteRunOk (p : Pipe) (killed : Bool) (bs : List ℕ) (r : WriteRun) : Type 0 where
  pub valid : IsValid r.pipe
  pub appended : contents r.pipe ≡ contents p ++ take (room p) bs
  pub ends : (r.pipe.readopen ≡ p.readopen) × (r.pipe.writeopen ≡ p.writeopen)
  pub stopped : r.stop ≡ (
      if leb (length bs) (room p)
      then all_written
      else if not p.readopen || killed
      then write_failed
      else write_asleep (drop (room p) bs))
  pub woke : r.wakes ≡ (
      if leb (length bs) (room p)
      then readers ∷ []
      else if not p.readopen || killed
      then []
      else readers ∷ [])

count-put : (p : Pipe) (b : ℕ) → IsValid p → full p ≡ false → room p ≡ suc (room (put p b))
unfolding put
count-put p b v f = ground arith

-- One round of `pipewrite` at a full pipe.
pipewrite-full :
    (p : Pipe) (killed : Bool) (b : ℕ) (bs : List ℕ)
    → IsValid p
    → full p ≡ true
    → WriteRunOk p killed (b ∷ bs) (pipewrite p killed (b ∷ bs))
unfolding pipewrite
pipewrite-full p killed b bs v f =
    let none_left : room p ≡ 0 = ground arith in ground (arith, append-nil (contents p))

-- One round that puts a byte, before the runs that follow it.
pipewrite_put :
    (p : Pipe) (killed : Bool) (b : ℕ) (bs : List ℕ) {r : WriteRun}
    → IsValid p
    → full p ≡ false
    → WriteRunOk (put p b) killed bs r
    → WriteRunOk p killed (b ∷ bs) r
unfolding put
pipewrite_put p killed b bs v f ok =
    let one_more = count-put p b v f in
    record {
      valid = ok.valid;
      appended =
          ok.appended ∙ rw (contents-put p b v f, one_more) (append_assoc (contents p) (b ∷ []) _);
      ends = ok.ends;
      stopped = ok.stopped ∙ ground arith;
      woke = ok.woke ∙ ground arith;
    }

-- A run of `pipewrite` appends to the queue as many of its bytes as there is room for, and nothing
-- else; it returns success exactly if they all fit, and otherwise fails if the read end is closed
-- or the process killed, or else sleeps with the bytes that did not fit. It wakes the readers
-- unless it fails.
pub pipewrite_lem :
    (p : Pipe) (killed : Bool) (bs : List ℕ)
    → IsValid p
    → WriteRunOk p killed bs (pipewrite p killed bs)
unfolding pipewrite
pipewrite_lem p killed [] v = record {
  valid = v;
  appended = rw (take-nil, append-nil);
  ends = (refl, refl);
  stopped = ground arith;
  woke = ground arith;
}
pipewrite_lem p killed (b ∷ bs) v = elim (Bool-cases (full p)) [
  | inl f ↦ pipewrite-full p killed b bs v f
  | inr f ↦
      rw f
        (pipewrite_put p killed b bs v f (pipewrite_lem (put p b) killed bs (put-IsValid p b v f)))
]

count-advance : (p : Pipe) → IsValid p → empty p ≡ false → count p ≡ suc (count (advance p))
unfolding advance
count-advance p v f = ground arith

-- What the copying loop must leave.
pub record CopyOk (p : Pipe) (n : ℕ) (out : List ℕ × Pipe) : Type 0 where
  pub valid : IsValid out.1
  pub taken : out.0 ≡ take n (contents p)
  pub rest : contents out.1 ≡ drop n (contents p)
  pub ends : (out.1.readopen ≡ p.readopen) × (out.1.writeopen ≡ p.writeopen)

copy_out_empty : (p : Pipe) (n : ℕ) → IsValid p → empty p ≡ true → CopyOk p n ([], p)
copy_out_empty p n v f =
    let nothing : count p ≡ 0 = ground arith in
    record {
      valid = v;
      taken = rw (nothing, take-nil);
      rest = rw (nothing, drop-nil);
      ends = (refl, refl);
    }

copy_out_cons :
    (p : Pipe) (n : ℕ) {out : List ℕ × Pipe}
    → IsValid p
    → empty p ≡ false
    → CopyOk (advance p) n out
    → CopyOk p (suc n) (front p ∷ out.0, out.1)
unfolding advance
copy_out_cons p n v f ok =
    let unrolled = contents-advance p v f in
    record {
      valid = ok.valid;
      taken = rw (unrolled, ok.taken);
      rest = rw (unrolled, ok.rest);
      ends = ok.ends;
    }

copy_out_lem : (p : Pipe) (n : ℕ) → IsValid p → CopyOk p n (copy_out n p)
unfolding copy_out
copy_out_lem p zero v = record { valid = v; taken = refl; rest = refl; ends = (refl, refl) }
copy_out_lem p (suc n) v = elim (Bool-cases (empty p)) [
  | inl f ↦ rw f (copy_out_empty p (suc n) v f)
  | inr f ↦
      let ih = copy_out_lem (advance p) n (advance-IsValid p v f) in rw f (copy_out_cons p n v f ih)
]

-- What a run of `piperead` that began at `p` must leave.
pub record ReadRunOk (p : Pipe) (killed : Bool) (n : ℕ) (r : ReadRun) : Type 0 where
  pub valid : IsValid r.pipe
  pub ends : (r.pipe.readopen ≡ p.readopen) × (r.pipe.writeopen ≡ p.writeopen)
  pub blocked :
      count p ≡ 0
      → p.writeopen ≡ true
      → (r.pipe ≡ p) × (r.wakes ≡ []) × (r.stop ≡ (if killed then read_failed else read_asleep))
  pub served :
      (0 < count p) ⊎ (p.writeopen ≡ false)
      → (r.stop ≡ bytes (take n (contents p)))
        × (contents r.pipe ≡ drop n (contents p))
        × (r.wakes ≡ writers ∷ [])

-- A run of `piperead` at an empty pipe whose write end is open takes nothing, and fails if the
-- process is killed or else sleeps; at any other pipe it returns the oldest bytes of the queue, as
-- many as asked for and there, leaves the others in order, and wakes the writers.
pub piperead_lem :
    (p : Pipe) (killed : Bool) (n : ℕ) → IsValid p → ReadRunOk p killed n (piperead p killed n)
unfolding piperead
piperead_lem p killed n v =
    let ok = copy_out_lem p n v in
    record {
      valid = ground (arith, ok.valid);
      ends = ground (arith, ok.ends);
      blocked = ground arith;
      served = ground (arith, ok.taken, ok.rest);
    }
