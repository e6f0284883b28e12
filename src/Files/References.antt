-- ===== src/Files/References.antt =====
-- The count of a file is the number of the references to it, over any calls of those that hold them: the
-- descriptors of processes, and system calls at work on them.
use laboratorio_ramiro.Kalloc.Owners.{count, count-middle}
use laboratorio_ramiro.Proc.Scan.{first-IsFirst}
use laboratorio_ramiro.Proc.{first}
use laboratorio_ramiro.Prelude.{
  subst, ltb, ◌-◌, if◌then◌else◌, ◌<◌, inr, Option-cases, suc, inl, Bool-cases, ◌+◌, ◌∷◌, [], none,
  List, some, Option, ◌≡◌, refl, arith, ◌++◌, ◌==◌, ℕ,
}
use laboratorio_ramiro.Files.{
  end_op, iput, begin_op, fd_inode, pipeclose, FdType, fd_pipe, filedup, close_calls, fd_none, File,
  put_file, fileclose, nfile, FileCall, Ftable, filealloc, filealloc_at,
}

-- The table, and the references that are held.
abbrev pub Holding : Type 0
Holding = Ftable × List ℕ

pub data Step : Holding → Holding → Type 0 where
  allocs :
      {t t' : Ftable} {held : List ℕ} {i : ℕ}
      → filealloc t ≡ (some i, t')
      → Step (t, held) (t', i ∷ held)
  -- A file that is held is duplicated, or one reference to it closed.
  dups :
      {t t' : Ftable} (before : List ℕ) (i : ℕ) (after : List ℕ)
      → filedup i t ≡ some t'
      → Step (t, before ++ i ∷ after) (t', i ∷ before ++ i ∷ after)
  closes :
      {t t' : Ftable} {calls : List FileCall} (before : List ℕ) (i : ℕ) (after : List ℕ)
      → fileclose i t ≡ some (t', calls)
      → Step (t, before ++ i ∷ after) (t', before ++ after)
  -- A holder fills in the file, or moves its offset.
  sets :
      {t : Ftable} (before : List ℕ) (i : ℕ) (after : List ℕ) (f : File)
      → f.ref ≡ (t i).ref
      → Step (t, before ++ i ∷ after) (put_file t i f, before ++ i ∷ after)

-- The table is zero at the start.
pub data Reach : Holding → Type 0 where
  boots : (t : Ftable) → ((i : ℕ) → (t i).ref ≡ 0) → Reach (t, [])
  next : {s s' : Holding} → Reach s → Step s s' → Reach s'

pub IsCounted : Holding → Type 0
IsCounted s = (j : ℕ) → (s.0 j).ref ≡ count j s.1

alloc-IsCounted :
    (t : Ftable) (held : List ℕ) (o : Option ℕ) {i : ℕ} {t' : Ftable}
    → first (λ k. (t k).ref == 0) 0 nfile ≡ o
    → filealloc_at o t ≡ (some i, t')
    → IsCounted (t, held)
    → IsCounted (t', i ∷ held)
unfolding IsCounted filealloc_at
alloc-IsCounted t held none found e v = absurd (ground arith)
alloc-IsCounted t held (some k) {i} {t'} found e v =
    let free = (first-IsFirst (λ k. (t k).ref == 0) 0 nfile found).passes in
    let at : i ≡ k = ground arith in
    let same : t' ≡ put_file t k (record (t k) { ref = 1 }) = ground arith in
    λ j. rw (at, same) (ground (arith, v j, v k))

Step-IsCounted : {s s' : Holding} → Step s s' → IsCounted s → IsCounted s'
unfolding IsCounted filealloc filedup fileclose
Step-IsCounted (allocs {t} {t'} {held} e) v = alloc-IsCounted t held _ refl e v
Step-IsCounted (dups {t} {t'} before i after e) v =
    let same : t' ≡ put_file t i (record (t i) { ref = (t i).ref + 1 }) = ground arith in
    λ j. rw same (ground (arith, v j, v i))
Step-IsCounted (closes {t} {t'} before i after e) v =
    λ j. ground (arith, v j, v i, count-middle j before i after, count-middle i before i after)
Step-IsCounted (sets {t} before i after f e) v = λ j. ground (arith, v j, v i, e)

-- In every reachable state the count of each file is the number of the references to it that are held.
pub Reach-IsCounted : {s : Holding} → Reach s → IsCounted s
unfolding IsCounted
Reach-IsCounted (boots t h) = h
Reach-IsCounted (next r st) = Step-IsCounted st (Reach-IsCounted r)

-- The calls that end a file: those for its pipe, or for its inode, or none.
pub data Ending (f : File) : List FileCall → Type 0 where
  ends_none : f.type ≡ fd_none → Ending f []
  ends_pipe : f.type ≡ fd_pipe → Ending f (pipeclose f.pipe f.writable ∷ [])
  ends_inode : f.type ≡ fd_inode → Ending f (begin_op ∷ iput f.ip ∷ end_op ∷ [])

-- After a reference to file `f` is given up, with `left` of them left.
pub data Closing (f : File) : ℕ → List FileCall → Type 0 where
  shared : {left : ℕ} → 0 < left → Closing f left []
  last : {calls : List FileCall} → Ending f calls → Closing f 0 calls

type-Ending : (f : File) (k : FdType) → f.type ≡ k → Ending f (close_calls f k)
unfolding close_calls
type-Ending f fd_none e = ends_none e
type-Ending f fd_pipe e = ends_pipe e
type-Ending f fd_inode e = ends_inode e

-- `fileclose` of a file with references gives one up.
pub fileclose-Closing :
    (i : ℕ) (t : Ftable)
    → 0 < (t i).ref
    → (t' : Ftable) × (calls : List FileCall) × (fileclose i t ≡ some (t', calls))
      × ((j : ℕ) → (t' j).ref + (if i == j then 1 else 0) ≡ (t j).ref)
      × Closing (t i) ((t i).ref - 1) calls
unfolding fileclose
fileclose-Closing i t l = elim (Bool-cases (ltb 0 ((t i).ref - 1))) [
  | inl more ↦ (
    put_file t i (record (t i) { ref = (t i).ref - 1 }),
    [],
    ground arith,
    (λ j. ground arith),
    shared (ground arith),
  )
  | inr none_left ↦
      let zero_left : (t i).ref - 1 ≡ 0 = ground arith in
      (
        put_file t i (record (t i) { ref = 0; type = fd_none }),
        close_calls (t i) (t i).type,
        ground arith,
        (λ j. ground arith),
        rw zero_left (last (type-Ending (t i) (t i).type refl)),
      )
]

-- In a reachable state neither `filedup` nor `fileclose` of a file that is held panics. `fileclose` takes
-- one from the file's count and nothing from the others'; and it closes the file's pipe, at the end that the file
-- writes or reads, or puts its inode within a transaction, if no other reference to the file is held,
-- and does neither if one is.
pub fileclose-last :
    (t : Ftable) (before : List ℕ) (i : ℕ) (after : List ℕ)
    → Reach (t, before ++ i ∷ after)
    → ((t' : Ftable) × (filedup i t ≡ some t'))
      × ((t' : Ftable) × (calls : List FileCall) × (fileclose i t ≡ some (t', calls))
          × ((j : ℕ) → (t' j).ref ≡ count j (before ++ after))
          × Closing (t i) (count i (before ++ after)) calls)
unfolding IsCounted filedup
fileclose-last t before i after r =
    let counted : (t i).ref ≡ suc (count i (before ++ after)) =
      ground (arith, Reach-IsCounted r i, count-middle i before i after) in
    let left : (t i).ref - 1 ≡ count i (before ++ after) = omega (arith, counted) in
    let (t1, calls, done, refs, closing) = fileclose-Closing i t (omega (arith, counted)) in
    (
      (put_file t i (record (t i) { ref = (t i).ref + 1 }), ground (arith, counted)),
      (
        t1,
        calls,
        done,
        (λ j. ground (arith, refs j, Reach-IsCounted r j, count-middle j before i after)),
        subst (λ k. Closing (t i) k calls) left closing,
      ),
    )

-- In a reachable state the file that `filealloc` gives out is one that no one holds.
pub filealloc-unheld :
    (t t' : Ftable) (held : List ℕ) (i : ℕ)
    → Reach (t, held)
    → filealloc t ≡ (some i, t')
    → (i < nfile) × (count i held ≡ 0) × ((t' i).ref ≡ 1)
unfolding IsCounted filealloc
filealloc-unheld t t' held i r e = elim (Option-cases (first (λ k. (t k).ref == 0) 0 nfile)) [
  | inl full ↦ absurd (ground arith)
  | inr (k, found) ↦
      let ok = first-IsFirst (λ k. (t k).ref == 0) 0 nfile found in
      let at : i ≡ k = ground arith in
      let same : t' ≡ put_file t k (record (t k) { ref = 1 }) = ground arith in
      rw (at, same)
        (ground (arith, ok.below), ground (arith, ok.passes, Reach-IsCounted r k), ground arith)
]
