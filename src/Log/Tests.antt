-- ===== src/Log/Tests.antt =====
-- The log at concrete inputs, and its theorems there.
use laboratorio_ramiro.Prelude.{
  mem, List, [], arith, false, get_or, if◌then◌else◌, ltb, none, refl, replicate, some, ℕ, ◌&&◌,
  ◌==◌, ◌||◌, ◌∷◌, ◌≡◌,
}
use laboratorio_ramiro.Log.Disk.{Block, Machine, bread, bwrite, reboot, update, view}
use laboratorio_ramiro.Log.{
  Log, begin_op, commit, initlog, install_trans, log_write, logsize, read_head, read_words,
  recover_from_log, write_head, write_log, write_words,
}
use laboratorio_ramiro.Log.Head.{listed}
use laboratorio_ramiro.Log.Atomic.{IsReady, commit_atomic, failed_boots}
use laboratorio_ramiro.Log.Space.{Reach, begins, here, initial, log_write-room, next}
use laboratorio_ramiro.Log.Overrun.{written, log_write-panics}

abbrev zeros : Block
zeros = replicate 128 0

abbrev sevens : Block
sevens = replicate 128 7

-- Blocks 40 and 41 are changed in the cache; the power fails after the header is written.
abbrev changed : Machine
changed = record {
  disk = λ _. zeros;
  cache = update (update (λ _. none) 40 (some sevens)) 41 (some sevens);
  fuse = 3;
}

changed-IsReady : IsReady 2 31 (40 ∷ 41 ∷ []) changed
unfolding listed read_words
changed-IsReady = record {
  homes = omega arith;
  fits = omega arith;
  small = omega arith;
  clean = refl;
  block = refl;
}

-- The first boot fails after one write of its recovery, the second at once.
commit_atomic_example :
    (recover_from_log 2
        (reboot (failed_boots 2 (1 ∷ 0 ∷ []) (commit 2 (40 ∷ 41 ∷ []) changed).disk) 30)).disk
      41
    ≡ (if ltb 2 changed.fuse && mem 41 (40 ∷ 41 ∷ []) then view changed 41 else changed.disk 41)
commit_atomic_example =
    commit_atomic 2 31 (40 ∷ 41 ∷ []) changed (1 ∷ 0 ∷ []) 30 41 changed-IsReady (omega arith)
      (omega arith)

recovered_word :
    get_or
      ((recover_from_log 2
          (reboot (failed_boots 2 (1 ∷ 0 ∷ []) (commit 2 (40 ∷ 41 ∷ []) changed).disk) 30)).disk
        41)
      5
      0
    ≡ 7
unfolding commit recover_from_log write_log write_head install_trans read_head read_words
    write_words reboot bread bwrite
recovered_word = refl

-- `mkfs` puts the log at block 2.
initlog_start : (initlog (record changed { fuse = 0 })).0.start ≡ 0
unfolding initlog bread
initlog_start = refl

-- One call has begun, over a log area of 31 blocks.
abbrev one_at_work : Log
one_at_work = record { start = 2; size = 31; outstanding = 1; committing = false; lh = [] }

one_reached : Reach (initial 2 31) (one_at_work, [] ∷ [])
unfolding initial begin_op
one_reached = next here (begins refl)

log_write-room_example :
    (l' : Log) × (log_write 40 one_at_work ≡ some l')
    × ((x : ℕ) → mem x l'.lh ≡ (x == 40 || mem x one_at_work.lh))
log_write-room_example = log_write-room 2 31 [] [] [] 40 (omega arith) (omega arith) one_reached

abbrev idle : Log
idle = record { start = 2; size = 31; outstanding = 0; committing = false; lh = [] }

idle_reached : Reach (initial 2 31) (idle, [])
unfolding initial
idle_reached = here

abbrev tens : List ℕ
tens = 30 ∷ 31 ∷ 32 ∷ 33 ∷ 34 ∷ 35 ∷ 36 ∷ 37 ∷ 38 ∷ 39 ∷ []

abbrev twenties : List ℕ
twenties = 40 ∷ 41 ∷ 42 ∷ 43 ∷ 44 ∷ 45 ∷ 46 ∷ 47 ∷ 48 ∷ 49 ∷ []

abbrev thirties : List ℕ
thirties = 50 ∷ 51 ∷ 52 ∷ 53 ∷ 54 ∷ 55 ∷ 56 ∷ 57 ∷ 58 ∷ []

log_write-panics_example :
    (l : Log) × Reach
      (initial 2 logsize)
      (l, written tens [] ∷ written twenties [] ∷ written thirties [] ∷ [])
    × ((b : ℕ) → log_write b l ≡ none)
log_write-panics_example = log_write-panics 2 tens twenties thirties refl refl refl refl
