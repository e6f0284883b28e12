-- ===== src/Log.antt =====
-- xv6/log.c: the redo log. The in-memory header is the list of its block numbers, `log.lh.n` being
-- the length; an on-disk block is its list of words, so the header block has `n` in word 0 and
-- `block[i]` in word `i + 1`. Commit and recovery run over a machine whose power may fail between
-- any two writes (Log/Disk); `begin_op`, `log_write` and `end_op` are steps on `Log`.
pub mod Disk
pub mod Loops
pub mod Install
pub mod Head
pub mod Crash
pub mod Atomic
pub mod Again
pub mod Space
pub mod Overrun
mod Tests
use laboratorio_ramiro.Prelude.{
  Bool, List, Option, [], false, get_or, if◌then◌else◌, leb, length, ltb, none, set, some, suc,
  true, zero, ℕ, ◌*◌, ◌+◌, ◌-◌, ◌==◌, ◌||◌, ◌∷◌,
}
use Disk.{Block, Machine, bread, bwrite, reboot}

abbrev pub maxopblocks : ℕ
maxopblocks = 10

abbrev pub logsize : ℕ
logsize = 30

-- `install_trans`, with the blocks from `tail` on still to copy.
unfoldable pub install_trans : ℕ → ℕ → List ℕ → Machine → Machine
install_trans start tail [] m = m
install_trans start tail (b ∷ bs) m =
    let (lbuf, m1) = bread m (start + tail + 1) in
    let (_, m2) = bread m1 b in install_trans start (tail + 1) bs (bwrite m2 b lbuf)

-- `write_log`, with the blocks from `tail` on still to copy.
unfoldable pub write_log : ℕ → ℕ → List ℕ → Machine → Machine
write_log start tail [] m = m
write_log start tail (b ∷ bs) m =
    let (_, m1) = bread m (start + tail + 1) in
    let (from, m2) = bread m1 b in write_log start (tail + 1) bs (bwrite m2 (start + tail + 1) from)

-- The loops that copy `lh.block` out of and into the words of the header block, from word `i` on.
unfoldable pub read_words : ℕ → ℕ → Block → List ℕ
read_words i zero buf = []
read_words i (suc n) buf = get_or buf i 0 ∷ read_words (i + 1) n buf

unfoldable pub write_words : ℕ → List ℕ → Block → Block
write_words i [] buf = buf
write_words i (b ∷ bs) buf = write_words (i + 1) bs (set buf i b)

unfoldable pub read_head : ℕ → Machine → List ℕ × Machine
read_head start m = let (buf, m1) = bread m start in (read_words 1 (get_or buf 0 0) buf, m1)

unfoldable pub write_head : ℕ → List ℕ → Machine → Machine
write_head start bs m =
    let (buf, m1) = bread m start in bwrite m1 start (write_words 1 bs (set buf 0 (length bs)))

unfoldable pub commit : ℕ → List ℕ → Machine → Machine
commit start [] m = m
commit start (b ∷ bs) m =
    let m1 = write_log start 0 (b ∷ bs) m in
    let m2 = write_head start (b ∷ bs) m1 in
    let m3 = install_trans start 0 (b ∷ bs) m2 in write_head start [] m3

unfoldable pub recover_from_log : ℕ → Machine → Machine
recover_from_log start m =
    let (bs, m1) = read_head start m in write_head start [] (install_trans start 0 bs m1)

-- `struct log`, less its lock and device. `lh` holds `block[0..n)`.
pub record Log : Type 0 where
  pub start : ℕ
  pub size : ℕ
  pub outstanding : ℕ
  pub committing : Bool
  pub lh : List ℕ

-- `readsb` and `initlog`: words 3 and 4 of the super block are `nlog` and `logstart`.
unfoldable pub initlog : Machine → Log × Machine
initlog m =
    let (sb, m1) = bread m 1 in
    let l : Log = record {
      start = get_or sb 4 0;
      size = get_or sb 3 0;
      outstanding = 0;
      committing = false;
      lh = [];
    } in
    (l, recover_from_log (get_or sb 4 0) m1)

-- One round of the loop of `begin_op`: it has begun, or it sleeps on the log.
unfoldable pub begin_op : Log → Option Log
begin_op l =
    if l.committing
    then none
    else if ltb logsize (length l.lh + (l.outstanding + 1) * maxopblocks)
    then none
    else some (record l { outstanding = l.outstanding + 1 })

-- `end_op` up to its first `release`.
pub data Ended : Type 0 where
  -- panic("log.committing")
  panics : Ended
  -- It has set `committing`, and calls `commit`.
  commits : Log → Ended
  -- Others are at work: it has woken those that wait for space.
  wakes : Log → Ended
  -- No call was at work: `outstanding` is -1, which `Log` has no value for, and it has woken.
  unmatched : Ended

unfoldable pub end_op : Log → Ended
end_op l =
    if l.committing
    then panics
    else if l.outstanding == 0
    then unmatched
    else if l.outstanding - 1 == 0
    then commits (record l { outstanding = l.outstanding - 1; committing = true })
    else wakes (record l { outstanding = l.outstanding - 1 })

-- The rest of `end_op`, after `commit` has set `lh.n` to 0.
unfoldable pub finish : Log → Log
finish l = record l { committing = false; lh = [] }

-- The loop of `log_write`: the block number, absorbed if it is there.
unfoldable pub absorb : ℕ → List ℕ → List ℕ
absorb b [] = b ∷ []
absorb b (x ∷ xs) = if x == b then b ∷ xs else x ∷ absorb b xs

-- `none` is a panic. (`log.size - 1` is an `int`.)
unfoldable pub log_write : ℕ → Log → Option Log
log_write b l =
    if leb logsize (length l.lh) || leb l.size (length l.lh + 1)
    then none
    else if ltb l.outstanding 1
    then none
    else some (record l { lh = absorb b l.lh })
