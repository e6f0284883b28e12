-- ===== src/Bcache.antt =====
-- xv6/bio.c: which buffer of the cache holds which block. A buffer is its place in `bcache.buf`, and the
-- circular list through `prev` and `next` is the list of the places from `head.next` on. A call is what runs
-- under `bcache.lock`; the sleep locks of the buffers and their data are left out.
pub mod Find
pub mod Unique
use laboratorio_ramiro.Prelude.{
  not, ◌-◌, if◌then◌else◌, List, some, none, ◌&&◌, suc, ℕ, [], Option, false, ◌+◌, ◌==◌, Bool, zero,
  ◌∷◌,
}
mod Tests

abbrev pub nbuf : ℕ
nbuf = 30

-- `valid` and `dirty` are the two flags.
pub record CacheBuf : Type 0 where
  pub dev : ℕ
  pub blockno : ℕ
  pub refcnt : ℕ
  pub valid : Bool
  pub dirty : Bool

pub record Bcache : Type 0 where
  pub buf : ℕ → CacheBuf
  pub list : List ℕ

abbrev pub put_buf : Bcache → ℕ → CacheBuf → Bcache
put_buf c i b = record c { buf = λ j. if j == i then b else c.buf j }

-- The list that `binit` makes of the first `n` buffers, the last of them first.
unfoldable pub binit_list : ℕ → List ℕ
binit_list zero = []
binit_list (suc n) = n ∷ binit_list n

-- The first and the last member of a list that passes a test.
unfoldable pub find_first : (ℕ → Bool) → List ℕ → Option ℕ
find_first test [] = none
find_first test (i ∷ is) = let rest = find_first test is in if test i then some i else rest

unfoldable pub find_last : (ℕ → Bool) → List ℕ → Option ℕ
find_last test [] = none
find_last test (i ∷ is) = elim (find_last test is) [
  | some j ↦ some j
  | none ↦ if test i then some i else none
]

abbrev pub has_block : Bcache → ℕ → ℕ → ℕ → Bool
has_block c dev blockno i = (c.buf i).dev == dev && (c.buf i).blockno == blockno

abbrev pub is_idle : Bcache → ℕ → Bool
is_idle c i = (c.buf i).refcnt == 0 && not (c.buf i).dirty

unfoldable pub recycle : ℕ → ℕ → Option ℕ → Bcache → Option (ℕ × Bcache)
recycle dev blockno none c = none
recycle dev blockno (some i) c = some (
  i,
  put_buf c i (record { dev = dev; blockno = blockno; refcnt = 1; valid = false; dirty = false }),
)

-- `hit` is what the first loop finds, and `idle` what the second one does.
unfoldable pub bget_with : ℕ → ℕ → Option ℕ → Option ℕ → Bcache → Option (ℕ × Bcache)
unfolding recycle
bget_with dev blockno none idle c = recycle dev blockno idle c
bget_with dev blockno (some i) idle c =
    some (i, put_buf c i (record (c.buf i) { refcnt = (c.buf i).refcnt + 1 }))

-- `none` is the panic.
unfoldable pub bget : ℕ → ℕ → Bcache → Option (ℕ × Bcache)
unfolding bget_with find_first find_last
bget dev blockno c =
    bget_with dev blockno (find_first (has_block c dev blockno) c.list)
      (find_last (is_idle c) c.list) c

unfoldable pub remove : ℕ → List ℕ → List ℕ
remove i [] = []
remove i (j ∷ js) = let rest = remove i js in if j == i then js else j ∷ rest

-- The part of `brelse` under `bcache.lock`.
unfoldable pub brelse : ℕ → Bcache → Bcache
unfolding remove
brelse i c =
    let c1 = put_buf c i (record (c.buf i) { refcnt = (c.buf i).refcnt - 1 }) in
    if (c.buf i).refcnt - 1 == 0 then record c1 { list = i ∷ remove i c.list } else c1
