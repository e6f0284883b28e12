-- ===== src/Pipe.antt =====
-- xv6/pipe.c: a byte pipe over a 512-byte ring whose two counters are never reduced: they wrap at
-- 2 ^ 32. A call of `pipewrite` or `piperead` is a run under `p->lock` up to its return or up to its
-- `sleep`, where the other end may run; a call that is woken starts its run again with what is left.
pub mod Ring
pub mod Runs
pub mod Stream
mod Tests
use laboratorio_ramiro.Prelude.{
  Bool, List, [], false, get_or, if◌then◌else◌, not, set, suc, true, zero, ℕ, ◌%◌, ◌&&◌, ◌+◌, ◌==◌,
  ◌^◌, ◌||◌, ◌∷◌,
}

abbrev pub pipesize : ℕ
pipesize = 512

-- `struct pipe`, less its spin lock. A `char` is any number: bytes are moved, never computed with.
pub record Pipe : Type 0 where
  pub buf : List ℕ
  pub nread : ℕ
  pub nwrite : ℕ
  pub readopen : Bool
  pub writeopen : Bool

-- The two wait channels, `&p->nread` and `&p->nwrite`.
pub data Chan : Type 0 where
  readers writers : Chan

-- The fields that `pipealloc` sets; the page that `kalloc` gives is filled with `junk`.
pub pipealloc : List ℕ → Pipe
pipealloc junk = record { buf = junk; nread = 0; nwrite = 0; readopen = true; writeopen = true }

-- `uint` addition.
abbrev pub add_uint : ℕ → ℕ → ℕ
add_uint a b = (a + b) % 2 ^ 32

abbrev pub full : Pipe → Bool
full p = p.nwrite == add_uint p.nread pipesize

abbrev pub empty : Pipe → Bool
empty p = p.nread == p.nwrite

-- `p->data[p->nwrite++ % PIPESIZE] = b`
pub put : Pipe → ℕ → Pipe
put p b = record p { buf = set p.buf (p.nwrite % pipesize) b; nwrite = add_uint p.nwrite 1 }

-- What `p->data[p->nread++ % PIPESIZE]` reads, and the counter after it.
abbrev pub front : Pipe → ℕ
front p = get_or p.buf (p.nread % pipesize) 0

pub advance : Pipe → Pipe
advance p = record p { nread = add_uint p.nread 1 }

-- How a run of `pipewrite` stops.
pub data Wrote : Type 0 where
  -- `return n`
  all_written : Wrote
  -- `return -1`
  write_failed : Wrote
  -- `sleep(&p->nwrite, &p->lock)` with these bytes still to write
  write_asleep : List ℕ → Wrote

pub record WriteRun : Type 0 where
  pub pipe : Pipe
  pub wakes : List Chan
  pub stop : Wrote

-- The list is `addr[i..n)`.
pub pipewrite : Pipe → Bool → List ℕ → WriteRun
pipewrite p killed [] = record { pipe = p; wakes = readers ∷ []; stop = all_written }
pipewrite p killed (b ∷ bs) =
    if full p
    then if not p.readopen || killed
      then record { pipe = p; wakes = []; stop = write_failed }
      else record { pipe = p; wakes = readers ∷ []; stop = write_asleep (b ∷ bs) }
    else pipewrite (put p b) killed bs

-- How a run of `piperead` stops: with the bytes put in `addr`, with -1, or in its sleep.
pub data Got : Type 0 where
  bytes : List ℕ → Got
  read_failed : Got
  read_asleep : Got

pub record ReadRun : Type 0 where
  pub pipe : Pipe
  pub wakes : List Chan
  pub stop : Got

-- The copying loop, with `n - i` rounds left.
pub copy_out : ℕ → Pipe → List ℕ × Pipe
copy_out zero p = ([], p)
copy_out (suc n) p =
    let (bs, q) = copy_out n (advance p) in if empty p then ([], p) else (front p ∷ bs, q)

pub piperead : Pipe → Bool → ℕ → ReadRun
piperead p killed n =
    if empty p && p.writeopen
    then if killed
      then record { pipe = p; wakes = []; stop = read_failed }
      else record { pipe = p; wakes = []; stop = read_asleep }
    else let (bs, q) = copy_out n p in record { pipe = q; wakes = writers ∷ []; stop = bytes bs }

-- The pipe, the channel woken, and whether its page was freed.
pub pipeclose : Pipe → Bool → Pipe × Chan × Bool
pipeclose p writable =
    if writable
    then (record p { writeopen = false }, readers, not p.readopen)
    else (record p { readopen = false }, writers, not p.writeopen)
