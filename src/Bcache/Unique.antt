-- ===== src/Bcache/Unique.antt =====
-- Each block is in at most one buffer, and no buffer is recycled that is in use.
use laboratorio_ramiro.Kalloc.Owners.{count-middle, count}
use laboratorio_ramiro.Prelude.{
  refl, if◌then◌else◌, ◌+◌, ap, ◌∙◌, ◌<◌, ◌≢◌, ◌≤◌, ◌++◌, List, some, ltb, Bool-cases, none, arith,
  inl, suc, ℕ, Option-cases, [], true, false, inr, mem, Bool, ◌≡◌, ◌∷◌,
}
use laboratorio_ramiro.Bcache.{
  recycle, is_idle, bget_with, has_block, put_buf, brelse, bget, find_last, find_first, binit_list,
  nbuf, Bcache,
}
use laboratorio_ramiro.Bcache.Find.{
  count-remove, count-binit_list, find_first-none, find_first-some, mem-remove, find_last-some,
  mem-binit_list,
}

-- The cache, and the references to buffers that are held.
abbrev pub Holding : Type 0
Holding = Bcache × List ℕ

-- Device 0 is that of a buffer that holds no block.
pub data Step : Holding → Holding → Type 0 where
  gets :
      {c c' : Bcache} {held : List ℕ} {i : ℕ} (dev blockno : ℕ)
      → dev ≢ 0
      → bget dev blockno c ≡ some (i, c')
      → Step (c, held) (c', i ∷ held)
  releases :
      {c : Bcache} (before : List ℕ) (i : ℕ) (after : List ℕ)
      → Step (c, before ++ i ∷ after) (brelse i c, before ++ after)
  -- The driver and the log set the flags of a buffer.
  flags :
      {c : Bcache} {held : List ℕ} (i : ℕ) (v d : Bool)
      → Step (c, held) (put_buf c i (record (c.buf i) { valid = v; dirty = d }), held)

pub data Reach : Holding → Type 0 where
  boots :
      (c : Bcache)
      → c.list ≡ binit_list nbuf
      → ((i : ℕ) → ((c.buf i).dev ≡ 0) × ((c.buf i).refcnt ≡ 0))
      → Reach (c, [])
  next : {s s' : Holding} → Reach s → Step s s' → Reach s'

pub record IsCache (s : Holding) : Type 0 where
  pub counted : (i : ℕ) → (s.0.buf i).refcnt ≡ count i s.1
  pub in_list : (i : ℕ) → mem i s.0.list ≡ ltb i nbuf
  -- Each buffer is in the list once.
  pub once : (i : ℕ) → count i s.0.list ≡ (if ltb i nbuf then 1 else 0)
  pub unused : (i : ℕ) → nbuf ≤ i → ((s.0.buf i).dev ≡ 0) × ((s.0.buf i).refcnt ≡ 0)
  pub one :
      (i j : ℕ)
      → (s.0.buf i).dev ≢ 0
      → (s.0.buf i).dev ≡ (s.0.buf j).dev
      → (s.0.buf i).blockno ≡ (s.0.buf j).blockno
      → i ≡ j

boots-IsCache :
    (c : Bcache)
    → c.list ≡ binit_list nbuf
    → ((i : ℕ) → ((c.buf i).dev ≡ 0) × ((c.buf i).refcnt ≡ 0))
    → IsCache (c, [])
boots-IsCache c e clear = record {
  counted = λ i. (clear i).1;
  in_list = λ i. ap (mem i) e ∙ mem-binit_list nbuf i;
  once = λ i. ap (count i) e ∙ count-binit_list nbuf i;
  unused = λ i l. clear i;
  one = λ i j on d b. absurd (on (clear i).0);
}

hit-IsCache :
    (c : Bcache) (held : List ℕ) (i : ℕ)
    → mem i c.list ≡ true
    → IsCache (c, held)
    → IsCache (put_buf c i (record (c.buf i) { refcnt = (c.buf i).refcnt + 1 }), i ∷ held)
hit-IsCache c held i inside v = record {
  counted = λ j. ground (arith, v.counted j, v.counted i);
  in_list = v.in_list;
  once = v.once;
  unused = λ j l. ground (arith, v.unused j l, v.in_list i, inside);
  one = λ j k on d b. v.one j k (ground (arith, on)) (ground (arith, d)) (ground (arith, b));
}

-- No buffer has the block, and buffer `i` takes it.
miss-IsCache :
    (c : Bcache) (held : List ℕ) (dev blockno i : ℕ)
    → dev ≢ 0
    → find_first (has_block c dev blockno) c.list ≡ none
    → find_last (is_idle c) c.list ≡ some i
    → IsCache (c, held)
    → IsCache (
      put_buf c i
          (record { dev = dev; blockno = blockno; refcnt = 1; valid = false; dirty = false }),
      i ∷ held,
    )
miss-IsCache c held dev blockno i real missing found v =
    let (idle, inside) = find_last-some (is_idle c) c.list found in
    let place : i < nbuf = ground (arith, v.in_list i) in
    let nowhere : (j : ℕ) → has_block c dev blockno j ≡ false = λ j.
      elim (Bool-cases (mem j c.list)) [
        | inl there ↦ find_first-none (has_block c dev blockno) c.list j missing there
        | inr gone ↦ ground (arith, v.in_list j, v.unused j, real)
      ] in
    record {
      counted = λ j. ground (arith, v.counted j, v.counted i, idle);
      in_list = v.in_list;
      once = v.once;
      unused = λ j l. ground (arith, v.unused j l);
      one = λ j k on d b. ground (arith, nowhere j, nowhere k, v.one j k);
    }

get-IsCache :
    (c : Bcache) (held : List ℕ) (dev blockno : ℕ) {i : ℕ} {c' : Bcache}
    → dev ≢ 0
    → bget dev blockno c ≡ some (i, c')
    → IsCache (c, held)
    → IsCache (c', i ∷ held)
unfolding bget bget_with recycle
get-IsCache c held dev blockno {i} {c'} real e v =
    elim (Option-cases (find_first (has_block c dev blockno) c.list)) [
      | inr (k, found) ↦
          let at : i ≡ k = ground arith in
          let same : c' ≡ put_buf c k (record (c.buf k) { refcnt = (c.buf k).refcnt + 1 }) =
            ground arith in
          let (passes, inside) = find_first-some (has_block c dev blockno) c.list found in
          rw (at, same) (hit-IsCache c held k inside v)
      | inl missing ↦ elim (Option-cases (find_last (is_idle c) c.list)) [
        | inl full ↦ absurd (ground arith)
        | inr (k, found) ↦
            let at : i ≡ k = ground arith in
            let same : c'
                ≡ put_buf c k (record {
                  dev = dev;
                  blockno = blockno;
                  refcnt = 1;
                  valid = false;
                  dirty = false;
                }) =
              ground arith in
            rw (at, same) (miss-IsCache c held dev blockno k real missing found v)
      ]
    ]

release-IsCache :
    (c : Bcache) (before : List ℕ) (i : ℕ) (after : List ℕ)
    → IsCache (c, before ++ i ∷ after)
    → IsCache (brelse i c, before ++ after)
unfolding brelse
release-IsCache c before i after v =
    let counts : (c.buf i).refcnt ≡ suc (count i (before ++ after)) =
      ground (arith, v.counted i, count-middle i before i after) in
    let place : mem i c.list ≡ true = ground (arith, v.in_list i, v.unused i) in
    record {
      counted = λ j. ground (arith, v.counted j, count-middle j before i after, counts);
      in_list = λ j. ground (arith, v.in_list j, mem-remove i j c.list place);
      once = λ j. ground (arith, v.once j, count-remove i j c.list place);
      unused = λ j l. ground (arith, v.unused j l);
      one = λ j k on d b. v.one j k (ground (arith, on)) (ground (arith, d)) (ground (arith, b));
    }

Step-IsCache : {s s' : Holding} → Step s s' → IsCache s → IsCache s'
Step-IsCache (gets {c} {c'} {held} dev blockno real e) v = get-IsCache c held dev blockno real e v
Step-IsCache (releases {c} before i after) v = release-IsCache c before i after v
Step-IsCache (flags {c} {held} i w d) v = record {
  counted = λ j. ground (arith, v.counted j, v.counted i);
  in_list = v.in_list;
  once = v.once;
  unused = λ j l. ground (arith, v.unused j l);
  one = λ j k on e b. v.one j k (ground (arith, on)) (ground (arith, e)) (ground (arith, b));
}

-- In every reachable state each buffer's count is the number of the references to it that are held, the
-- list has each buffer of the cache once and nothing else, and no two buffers have the same block of the same
-- device, where device 0 is none.
pub Reach-IsCache : {s : Holding} → Reach s → IsCache s
Reach-IsCache (boots c e clear) = boots-IsCache c e clear
Reach-IsCache (next r st) = Step-IsCache st (Reach-IsCache r)

-- What `bget` does: it finds the block in buffer `i`, or it takes for it a buffer that no one holds and that is
-- clean, whose data is then to be read.
pub data IsGot (c : Bcache) (held : List ℕ) (dev blockno i : ℕ) (c' : Bcache) : Type 0 where
  hits :
      has_block c dev blockno i ≡ true
      → (c'.buf i).valid ≡ (c.buf i).valid
      → (c'.buf i).dirty ≡ (c.buf i).dirty
      → IsGot c held dev blockno i c'
  takes :
      count i held ≡ 0
      → (c.buf i).dirty ≡ false
      → (c'.buf i).valid ≡ false
      → (c'.buf i).dirty ≡ false
      → ((j : ℕ) → mem j c.list ≡ true → has_block c dev blockno j ≡ false)
      → IsGot c held dev blockno i c'

-- In a reachable state the buffer that `bget` answers has the block that was asked for, with one more reference
-- than it had; every other buffer stays as it was, and so does the list. If no buffer had the block,
-- and only then, the buffer is one that no one held and that was not dirty, and it is to be read.
pub bget-keeps :
    (c : Bcache) (held : List ℕ) (dev blockno : ℕ) {i : ℕ} {c' : Bcache}
    → Reach (c, held)
    → bget dev blockno c ≡ some (i, c')
    → (has_block c' dev blockno i ≡ true)
      × ((c'.buf i).refcnt ≡ suc (count i held))
      × ((j : ℕ) → j ≢ i → c'.buf j ≡ c.buf j)
      × (c'.list ≡ c.list)
      × IsGot c held dev blockno i c'
unfolding bget bget_with recycle
bget-keeps c held dev blockno {i} {c'} r e =
    let v = Reach-IsCache r in
    elim (Option-cases (find_first (has_block c dev blockno) c.list)) [
      | inr (k, found) ↦
          let (passes, inside) = find_first-some (has_block c dev blockno) c.list found in
          let at : i ≡ k = ground arith in
          let same : c' ≡ put_buf c k (record (c.buf k) { refcnt = (c.buf k).refcnt + 1 }) =
            ground arith in
          rw (at, same)
            (
              ground (arith, passes),
              ground (arith, v.counted k),
              (λ j ne. ground arith),
              refl,
              hits passes (ground arith) (ground arith),
            )
      | inl missing ↦ elim (Option-cases (find_last (is_idle c) c.list)) [
        | inl full ↦ absurd (ground arith)
        | inr (k, found) ↦
            let (idle, inside) = find_last-some (is_idle c) c.list found in
            let at : i ≡ k = ground arith in
            let same : c'
                ≡ put_buf c k (record {
                  dev = dev;
                  blockno = blockno;
                  refcnt = 1;
                  valid = false;
                  dirty = false;
                }) =
              ground arith in
            let unheld : count k held ≡ 0 = ground (arith, idle, v.counted k) in
            rw (at, same)
              (
                ground arith,
                ground (arith, unheld),
                (λ j ne. ground arith),
                refl,
                takes unheld (ground (arith, idle)) (ground arith) (ground arith)
                    (λ j l. find_first-none (has_block c dev blockno) c.list j missing l),
              )
      ]
    ]
