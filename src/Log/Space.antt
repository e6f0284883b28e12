-- ===== src/Log/Space.antt =====
-- The space of the log: `begin_op` admits a call only if each call at work can still write its
-- `MAXOPBLOCKS` blocks, so `log_write` finds room. A call that writes a block again takes no more of
-- the log. The area that xv6/mkfs.c makes is one block less than is asked for here: for it see
-- Log/Overrun.
use laboratorio_ramiro.Prelude.{
  ◌-◌, ◌≢◌, mem, All, List, [], arith, false, if◌then◌else◌, length, refl, some, suc, true, ℕ, ◌*◌,
  ◌++◌, ◌+◌, ◌<◌, ◌==◌, ◌||◌, ◌∷◌, ◌≡◌, ◌≤◌,
}
use laboratorio_ramiro.Log.{
  Log, absorb, begin_op, commits, end_op, finish, log_write, logsize, maxopblocks, wakes,
}

-- A log and, for each call at work, the blocks that it has written.
abbrev pub System : Type 0
System = Log × List (List ℕ)

-- One move of a call, or of the commit: admitted, a `log_write` of a block while there are fewer than
-- `MAXOPBLOCKS` or of one that the call has written before, an `end_op`, the end of a commit.
pub data Step : System → System → Type 0 where
  begins : {l l' : Log} {ops : List (List ℕ)} → begin_op l ≡ some l' → Step (l, ops) (l', [] ∷ ops)
  writes :
      {l l' : Log} (before after : List (List ℕ)) (bs : List ℕ) (b : ℕ)
      → length bs < maxopblocks
      → log_write b l ≡ some l'
      → Step (l, before ++ bs ∷ after) (l', before ++ (b ∷ bs) ∷ after)
  rewrites :
      {l l' : Log} (before after : List (List ℕ)) (bs : List ℕ) (b : ℕ)
      → mem b bs ≡ true
      → log_write b l ≡ some l'
      → Step (l, before ++ bs ∷ after) (l', before ++ bs ∷ after)
  leaves :
      {l l' : Log} (before after : List (List ℕ)) (bs : List ℕ)
      → end_op l ≡ wakes l'
      → Step (l, before ++ bs ∷ after) (l', before ++ after)
  ends :
      {l l' : Log} (before after : List (List ℕ)) (bs : List ℕ)
      → end_op l ≡ commits l'
      → Step (l, before ++ bs ∷ after) (l', before ++ after)
  finishes : {l : Log} {ops : List (List ℕ)} → l.committing ≡ true → Step (l, ops) (finish l, ops)

pub data Reach (s : System) : System → Type 0 where
  here : Reach s s
  next : {t u : System} → Reach s t → Step t u → Reach s u

-- After `initlog`.
unfoldable pub initial : ℕ → ℕ → System
initial start size =
    (record { start = start; size = size; outstanding = 0; committing = false; lh = [] }, [])

-- The blocks that the calls at work may still write.
abbrev pub left : List (List ℕ) → ℕ
left [] = 0
left (bs ∷ ops) = (maxopblocks - length bs) + left ops

-- The log lists what a call has written.
abbrev pub AreListed : List ℕ → List ℕ → Type 0
AreListed lh bs = (x : ℕ) → mem x bs ≡ true → mem x lh ≡ true

pub record IsRoomy (size : ℕ) (s : System) : Type 0 where
  pub counted : length s.1 ≡ s.0.outstanding
  pub written : All (AreListed s.0.lh) s.1
  -- What is written and what may yet be written fit.
  pub room : length s.0.lh + left s.1 ≤ logsize
  pub idle : s.0.committing ≡ true → s.0.outstanding ≡ 0
  pub same_size : s.0.size ≡ size
  -- Only a call at work, or a commit, has blocks in the log.
  pub flushed : s.0.outstanding ≡ 0 → s.0.committing ≡ false → s.0.lh ≡ []

left_bound : (ops : List (List ℕ)) → left ops ≤ length ops * maxopblocks
left_bound [] = omega arith
left_bound (bs ∷ ops) = omega (arith, left_bound ops)

-- One call of the list has its blocks changed, or goes.
left-middle :
    (before after : List (List ℕ)) (bs : List ℕ)
    → left (before ++ bs ∷ after) ≡ (maxopblocks - length bs) + left (before ++ after)
left-middle [] after bs = refl
left-middle (x ∷ before) after bs = omega (arith, left-middle before after bs)

length-middle {ℓ} :
    {A : Type ℓ} (before after : List A) (n : A)
    → length (before ++ n ∷ after) ≡ suc (length (before ++ after))
length-middle [] after n = refl
length-middle (x ∷ before) after n = omega (arith, length-middle before after n)

All-middle {ℓ κ} :
    {A : Type ℓ} (P : A → Type κ) (before after : List A) (n : A)
    → All P (before ++ n ∷ after)
    → P n × All P (before ++ after)
All-middle P [] after n h = h
All-middle P (x ∷ before) after n h =
    let rest = All-middle P before after n h.1 in (rest.0, (h.0, rest.1))

All-insert {ℓ κ} :
    {A : Type ℓ} (P : A → Type κ) (before after : List A) (n : A)
    → P n
    → All P (before ++ after)
    → All P (before ++ n ∷ after)
All-insert P [] after n p h = (p, h)
All-insert P (x ∷ before) after n p h = (h.0, All-insert P before after n p h.1)

All_map {ℓ κ} :
    {A : Type ℓ} (P Q : A → Type κ) (xs : List A) → ((x : A) → P x → Q x) → All P xs → All Q xs
All_map P Q [] f h = h
All_map P Q (x ∷ xs) f h = (f x h.0, All_map P Q xs f h.1)

length-absorb : (b : ℕ) (xs : List ℕ) → length (absorb b xs) ≤ length xs + 1
unfolding absorb
length-absorb b [] = omega arith
length-absorb b (x ∷ xs) = ground (arith, length-absorb b xs)

mem-absorb : (x b : ℕ) (xs : List ℕ) → mem x (absorb b xs) ≡ (x == b || mem x xs)
unfolding absorb
mem-absorb x b [] = refl
mem-absorb x b (y ∷ ys) = ground (arith, mem-absorb x b ys)

-- A block that the log lists takes no more room.
length-absorb-mem : (b : ℕ) (xs : List ℕ) → mem b xs ≡ true → length (absorb b xs) ≡ length xs
unfolding absorb
length-absorb-mem b [] h = absurd (cc)
length-absorb-mem b (x ∷ xs) h = ground (arith, length-absorb-mem b xs)

absorb-AreListed :
    (b : ℕ) (lh : List ℕ) (ops : List (List ℕ))
    → All (AreListed lh) ops
    → All (AreListed (absorb b lh)) ops
absorb-AreListed b lh ops h =
    All_map (AreListed lh) (AreListed (absorb b lh)) ops
      (λ bs k x l. ground (arith, mem-absorb x b lh, k x)) h

written-IsRoomy :
    (size : ℕ) (l : Log) (before after : List (List ℕ)) (bs bs' : List ℕ) (b : ℕ)
    → IsRoomy size (l, before ++ bs ∷ after)
    → AreListed (absorb b l.lh) bs'
    → length (absorb b l.lh) + (maxopblocks - length bs') ≤ length l.lh + (maxopblocks - length bs)
    → IsRoomy size (record l { lh = absorb b l.lh }, before ++ bs' ∷ after)
written-IsRoomy size l before after bs bs' b v listed fits =
    let (mine, others) = All-middle (AreListed l.lh) before after bs v.written in
    let at_work : l.outstanding ≢ 0 = omega (arith, v.counted, length-middle before after bs) in
    record {
      counted =
          omega (arith, v.counted, length-middle before after bs, length-middle before after bs');
      written =
          All-insert (AreListed (absorb b l.lh)) before after bs' listed
            (absorb-AreListed b l.lh (before ++ after) others);
      room = omega (arith, v.room, fits, left-middle before after bs, left-middle before after bs');
      idle = v.idle;
      same_size = v.same_size;
      flushed = λ zero_left quiet. absurd (at_work zero_left);
    }

log_write-absorb :
    (b : ℕ) (l : Log) {l' : Log} → log_write b l ≡ some l' → record l { lh = absorb b l.lh } ≡ l'
unfolding log_write
log_write-absorb b l e = ground (arith, e)

Step-IsRoomy : (size : ℕ) {s t : System} → Step s t → IsRoomy size s → IsRoomy size t
unfolding begin_op end_op finish
Step-IsRoomy size (begins {l} {l'} {ops} e) v = ground (arith, left_bound ops, v.written)
Step-IsRoomy size (writes {l} {l'} before after bs b small e) v =
    let (mine, others) = All-middle (AreListed l.lh) before after bs v.written in
    rw (← log_write-absorb b l e) (
      written-IsRoomy size l before after bs (b ∷ bs) b v
        (λ x h. ground (arith, mem-absorb x b l.lh, mine x)) (omega (arith, length-absorb b l.lh)))
Step-IsRoomy size (rewrites {l} {l'} before after bs b again e) v =
    let (mine, others) = All-middle (AreListed l.lh) before after bs v.written in
    rw (← log_write-absorb b l e) (
      written-IsRoomy size l before after bs bs b v
        (λ x h. ground (arith, mem-absorb x b l.lh, mine x))
        (omega (arith, length-absorb-mem b l.lh (mine b again))))
Step-IsRoomy size (leaves {l} {l'} before after bs e) v =
    let (mine, others) = All-middle (AreListed l.lh) before after bs v.written in
    ground (arith, others, length-middle before after bs, left-middle before after bs)
Step-IsRoomy size (ends {l} {l'} before after bs e) v =
    let (mine, others) = All-middle (AreListed l.lh) before after bs v.written in
    ground (arith, others, length-middle before after bs, left-middle before after bs)
Step-IsRoomy size (finishes {l} {ops} e) v =
    let no_ops : ops ≡ [] = ground (arith, v.counted, v.idle) in ground (arith, v, no_ops)

pub Reach-IsRoomy : (start size : ℕ) {t : System} → Reach (initial start size) t → IsRoomy size t
unfolding initial
Reach-IsRoomy start size here = ground arith
Reach-IsRoomy start size (next r st) = Step-IsRoomy size st (Reach-IsRoomy start size r)

-- Over a log area of more than `LOGSIZE` blocks, in every state that calls reach which write at most
-- `MAXOPBLOCKS` different blocks each, any of them as often as they like: where a call has written fewer than
-- `MAXOPBLOCKS` blocks, `log_write` does not panic, whatever block it gives it; the log then holds that
-- block and lists no other that it did not.
pub log_write-room :
    (start size : ℕ) {l : Log} (before after : List (List ℕ)) (bs : List ℕ) (b : ℕ)
    → logsize < size
    → length bs < maxopblocks
    → Reach (initial start size) (l, before ++ bs ∷ after)
    → (l' : Log) × (log_write b l ≡ some l') × ((x : ℕ) → mem x l'.lh ≡ (x == b || mem x l.lh))
unfolding log_write
log_write-room start size {l} before after bs b large small r =
    let v = Reach-IsRoomy start size r in
    let room : length l.lh < logsize = omega (arith, v.room, left-middle before after bs) in
    let at_work : 0 < l.outstanding = omega (arith, v.counted, length-middle before after bs) in
    (
      record l { lh = absorb b l.lh },
      ground (arith, v.same_size, room, at_work),
      λ x. mem-absorb x b l.lh,
    )

-- In every reachable state with a call at work, `end_op` neither panics nor finds no call at work;
-- the last call commits, and any other wakes those that wait.
pub end_op-reached :
    (start size : ℕ) {l : Log} (before after : List (List ℕ)) (n : List ℕ)
    → Reach (initial start size) (l, before ++ n ∷ after)
    → end_op l ≡ (
        if length (before ++ after) == 0
        then commits (record l { outstanding = 0; committing = true })
        else wakes (record l { outstanding = length (before ++ after) }))
unfolding end_op
end_op-reached start size {l} before after n r =
    let v = Reach-IsRoomy start size r in ground (arith, v, length-middle before after n)

-- In every reachable state with no call at work and no commit under way, `begin_op` lets a call in:
-- no call waits for ever on an idle log.
pub begin_op-idle :
    (start size : ℕ) {l : Log}
    → Reach (initial start size) (l, [])
    → l.committing ≡ false
    → begin_op l ≡ some (record l { outstanding = 1 })
unfolding begin_op
begin_op-idle start size {l} r quiet =
    let v = Reach-IsRoomy start size r in
    let none_at_work : l.outstanding ≡ 0 = omega (arith, v.counted) in
    let none_logged : l.lh ≡ [] = v.flushed none_at_work quiet in ground (arith, v)
