-- ===== src/Log/Overrun.antt =====
-- The log area that xv6/mkfs.c makes has `LOGSIZE` blocks with its header, and `begin_op` admits calls
-- up to `LOGSIZE` blocks: one more than there is room for.
use laboratorio_ramiro.Prelude.{
  mem, Bool, List, [], append-nil, append_assoc, arith, false, length, length-append, none, refl,
  some, ℕ, ◌++◌, ◌+◌, ◌-◌, ◌==◌, ◌||◌, ◌&&◌, ◌∷◌, ◌≡◌, ◌≤◌, not, true,
}
use laboratorio_ramiro.Log.{Log, absorb, begin_op, log_write, logsize, maxopblocks}
use laboratorio_ramiro.Log.Space.{System, begins, writes, Reach, here, next, initial}

abbrev pub nodup : List ℕ → Bool
nodup [] = true
nodup (x ∷ xs) = not (mem x xs) && nodup xs

absorb-new : (b : ℕ) (xs : List ℕ) → mem b xs ≡ false → absorb b xs ≡ xs ++ (b ∷ [])
unfolding absorb
absorb-new b [] h = refl
absorb-new b (x ∷ xs) h = ground (arith, absorb-new b xs)

mem-append : (y : ℕ) (xs ys : List ℕ) → mem y (xs ++ ys) ≡ (mem y xs || mem y ys)
mem-append y [] ys = refl
mem-append y (x ∷ xs) ys = ground (arith, mem-append y xs ys)

mem-middle :
    (y : ℕ) (xs : List ℕ) (b : ℕ) (ys : List ℕ)
    → mem y (xs ++ b ∷ ys) ≡ (y == b || mem y (xs ++ ys))
mem-middle y [] b ys = refl
mem-middle y (x ∷ xs) b ys = ground (arith, mem-middle y xs b ys)

nodup-middle : (xs : List ℕ) (b : ℕ) (ys : List ℕ) → nodup (xs ++ b ∷ ys) ≡ true → mem b xs ≡ false
nodup-middle [] b ys h = refl
nodup-middle (x ∷ xs) b ys h = ground (arith, mem-middle x xs b ys, nodup-middle xs b ys)

nodup-append : (xs ys : List ℕ) → nodup (xs ++ ys) ≡ true → nodup xs ≡ true
nodup-append [] ys h = refl
nodup-append (x ∷ xs) ys h = ground (arith, nodup-append xs ys, mem-append x xs ys)

-- Three calls are at work, over the log area of `nlog = LOGSIZE` blocks that mkfs makes.
abbrev pub three_at_work : ℕ → List ℕ → Log
three_at_work start lh = record {
  start = start;
  size = logsize;
  outstanding = 3;
  committing = false;
  lh = lh;
}

-- The blocks of a call, the last written first.
abbrev pub written : List ℕ → List ℕ → List ℕ
written [] bs = bs
written (x ∷ xs) bs = written xs (x ∷ bs)

-- One call writes the blocks `xs`, each new to the log.
fill :
    (start : ℕ) {s : System} (before after : List (List ℕ)) (bs lh xs : List ℕ)
    → nodup (lh ++ xs) ≡ true
    → length (lh ++ xs) ≤ 29
    → length bs + length xs ≤ maxopblocks
    → Reach s (three_at_work start lh, before ++ bs ∷ after)
    → Reach s (three_at_work start (lh ++ xs), before ++ written xs bs ∷ after)
unfolding log_write
fill start before after bs lh [] new small fits r = rw (append-nil lh) r
fill start {s} before after bs lh (x ∷ xs) new small fits r =
    let done : log_write x (three_at_work start lh) ≡ some (three_at_work start (lh ++ x ∷ [])) =
      ground (arith, absorb-new x lh (nodup-middle lh x xs new), length-append lh (x ∷ xs)) in
    let regroup : (lh ++ x ∷ []) ++ xs ≡ lh ++ x ∷ xs = append_assoc lh (x ∷ []) xs in
    rw (← regroup) (
      fill start before after (x ∷ bs) (lh ++ x ∷ []) xs (rw regroup new) (rw regroup small)
        (omega arith) (next r (writes before after bs x (omega arith) done)))

-- Over the log area that mkfs makes, three calls that write 10, 10 and 9 blocks, all different, are
-- admitted and leave the third call one of its `MAXOPBLOCKS` writes; and then `log_write` panics
-- ("too big a transaction") whatever block it writes.
pub log_write-panics :
    (start : ℕ) (xs ys zs : List ℕ)
    → length xs ≡ maxopblocks
    → length ys ≡ maxopblocks
    → length zs ≡ maxopblocks - 1
    → nodup ((xs ++ ys) ++ zs) ≡ true
    → (l : Log) × Reach
        (initial start logsize)
        (l, written xs [] ∷ written ys [] ∷ written zs [] ∷ [])
      × ((b : ℕ) → log_write b l ≡ none)
unfolding log_write begin_op initial
log_write-panics start xs ys zs hx hy hz new =
    let began : Reach (initial start logsize) (three_at_work start [], [] ∷ [] ∷ [] ∷ []) =
      next (next (next here (begins refl)) (begins refl)) (begins refl) in
    let one =
      fill start [] ([] ∷ [] ∷ []) [] [] xs (nodup-append xs ys (nodup-append (xs ++ ys) zs new))
        (omega arith) (omega arith) began in
    let two =
      fill start (written xs [] ∷ []) ([] ∷ []) [] xs ys (nodup-append (xs ++ ys) zs new)
        (omega (arith, length-append xs ys)) (omega arith) one in
    let all : length ((xs ++ ys) ++ zs) ≡ 29 =
      omega (arith, length-append xs ys, length-append (xs ++ ys) zs) in
    let three =
      fill start (written xs [] ∷ written ys [] ∷ []) [] [] (xs ++ ys) zs new (omega arith)
        (omega arith) two in
    (three_at_work start ((xs ++ ys) ++ zs), three, λ b. ground arith)
