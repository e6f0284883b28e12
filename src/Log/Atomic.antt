-- ===== src/Log/Atomic.antt =====
-- A commit is atomic: with a power failure at any of its writes, recovery restores the blocks as
-- they were, or as the transaction left them.
use laboratorio_ramiro.Prelude.{
  mem, All, Bool-cases, List, [], ap, arith, false, get_or, if◌then◌else◌, inl, inr, length, ltb, ℕ,
  ◌&&◌, ◌+◌, ◌<◌, ◌∙◌, ◌∷◌, ◌≡◌, ◌≢◌, ◌≤◌, ◌⊎◌,
}
use laboratorio_ramiro.Log.Disk.{Block, Machine, bsize, view, reboot}
use laboratorio_ramiro.Log.{write_head, install_trans, logsize, write_log, recover_from_log, commit}
use laboratorio_ramiro.Log.Loops.{IsHome, IsLogged, write_log-IsLogged}
use laboratorio_ramiro.Log.Install.{IsInstalled, install_trans-IsInstalled}
use laboratorio_ramiro.Log.Head.{
  header, disk-write_head, fuse-write_head, listed, listed-header, listed-header_nil,
  view-write_head,
}
use laboratorio_ramiro.Log.Crash.{Recovers, clean-Recovers, recovered, mem-home}
use laboratorio_ramiro.Log.Again.{recover-Recovers}

-- The log has `size` blocks from `start` on, and is clean on the disk; the transaction `bs` fits.
pub record IsReady (start size : ℕ) (bs : List ℕ) (m : Machine) : Type 0 where
  pub homes : All (IsHome start size) bs
  pub fits : length bs < size
  pub small : length bs ≤ logsize
  pub clean : listed (m.disk start) ≡ []
  pub block : length (view m start) ≡ bsize

module _ (start size : ℕ) (bs : List ℕ) (m : Machine) (ready : IsReady start size bs m) where
  m1 : Machine
  m1 = write_log start 0 bs m

  m2 : Machine
  unfolding m1
  m2 = write_head start bs m1

  m3 : Machine
  unfolding m2
  m3 = install_trans start 0 bs m2

  m4 : Machine
  unfolding m3
  m4 = write_head start [] m3

  logged : IsLogged start size 0 bs m m1
  unfolding m1
  logged = write_log-IsLogged start size 0 bs m ready.homes (omega (arith, ready.fits))

  installed : IsInstalled start size 0 bs m2 m3
  unfolding m3
  installed = install_trans-IsInstalled start size 0 bs m2 ready.homes (omega (arith, ready.fits))

  -- The power fails before the header is written.
  early-disk : m.fuse ≤ length bs → (x : ℕ) → m4.disk x ≡ m1.disk x
  unfolding m4 m2
  early-disk short x =
      let off : m1.fuse ≡ 0 = omega (arith, logged.fuse) in
      let off2 : m2.fuse ≡ 0 = omega (arith, fuse-write_head start bs m1) in
      let off3 : m3.fuse ≡ 0 = omega (arith, installed.fuse) in
      disk-write_head start [] m3 x
      ∙ ground arith
      ∙ installed.lost off2 x
      ∙ disk-write_head start bs m1 x
      ∙ ground arith

  slot_out : (x : ℕ) → IsHome start size x → (x ≤ start + 0) ⊎ (start + 0 + length bs < x)
  slot_out x home = omega (arith, ready.fits)

  -- What the blocks hold after the crash and the recovery.
  abbrev outcome : ℕ → Block
  outcome x = if ltb (length bs) m.fuse && mem x bs then view m x else m.disk x

  early : m.fuse ≤ length bs → Recovers start size outcome m4.disk
  early short =
      clean-Recovers start size outcome m4.disk (omega (arith, ready.fits))
        (ap listed (early-disk short start ∙ logged.disk_out start (omega arith)) ∙ ready.clean)
        (λ x home. early-disk short x ∙ logged.disk_out x (slot_out x home) ∙ ground arith)

  module _ (enough : length bs < m.fuse) where
    header_written : listed (m3.disk start) ≡ bs
    unfolding m2
    header_written =
        let room : length (view m1 start) ≡ bsize =
          ap length (logged.view_out start (omega arith)) ∙ ready.block in
        let written : m2.disk start ≡ header bs (view m1 start) =
          disk-write_head start bs m1 start ∙ ground (arith, logged.fuse) in
        ap listed (
          installed.disk_out start
            (mem-home start size bs start ready.homes (omega arith) (omega (arith, ready.fits)))
          ∙ written)
        ∙ listed-header bs (view m1 start) (omega (arith, ready.small))

    slots_written : (j : ℕ) → j < length bs → m3.disk (start + 0 + 1 + j) ≡ view m (get_or bs j 0)
    unfolding m2
    slots_written j l =
        let y : ℕ = start + 0 + 1 + j in
        installed.disk_out y
          (mem-home start size bs y ready.homes (omega arith) (omega (arith, ready.fits)))
        ∙ (let apart : y ≢ start = omega arith in
            let same : m2.disk y ≡ m1.disk y = disk-write_head start bs m1 y ∙ ground arith in
            same ∙ logged.slots (omega arith) j l)

    slots_viewed : (j : ℕ) → j < length bs → view m2 (start + 0 + 1 + j) ≡ view m (get_or bs j 0)
    unfolding m2
    slots_viewed j l =
        let y : ℕ = start + 0 + 1 + j in
        let apart : y ≢ start = omega arith in
        let same : view m2 y ≡ view m1 y = view-write_head start bs m1 y ∙ ground arith in
        same ∙ logged.views j l

    others_kept : (x : ℕ) → IsHome start size x → mem x bs ≡ false → m3.disk x ≡ m.disk x
    unfolding m2
    others_kept x home out =
        let same : m2.disk x ≡ m1.disk x =
          disk-write_head start bs m1 x ∙ ground (arith, ready.fits) in
        installed.disk_out x out ∙ same ∙ logged.disk_out x (slot_out x home)

    -- The power fails after the header is written and before it is cleared.
    torn : m3.fuse ≡ 0 → Recovers start size outcome m4.disk
    unfolding m4
    torn off =
        let same = λ (y : ℕ).
          let step : m4.disk y ≡ m3.disk y = disk-write_head start [] m3 y ∙ ground arith in step in
        record {
          blocks = bs;
          slots = view m;
          committed = record {
            homes = ready.homes;
            fits = ready.fits;
            small = ready.small;
            lists = ap listed (same start) ∙ header_written;
            held = λ j l. same (start + 0 + 1 + j) ∙ slots_written j l;
          };
          result = λ x home. elim (Bool-cases (mem x bs)) [
            | inl here ↦ ground arith
            | inr out ↦ rw out (same x ∙ others_kept x home out ∙ ground arith)
          ];
        }

    -- The header is cleared: the blocks are all in place.
    whole : 0 < m3.fuse → Recovers start size outcome m4.disk
    unfolding m4 m2
    whole on =
        let cleared : m4.disk start ≡ header [] (view m3 start) =
          disk-write_head start [] m3 start ∙ ground arith in
        clean-Recovers start size outcome m4.disk (omega (arith, ready.fits))
          (ap listed cleared ∙ listed-header_nil (view m3 start))
          (λ x home.
            let same : m4.disk x ≡ m3.disk x =
              disk-write_head start [] m3 x ∙ ground (arith, ready.fits) in
            same ∙ elim (Bool-cases (mem x bs)) [
              | inl here ↦
                  installed.blocks (view m) (omega (arith, installed.fuse)) slots_viewed x here
                  ∙ ground arith
              | inr out ↦ others_kept x home out ∙ ground arith
            ])

  committed : Recovers start size outcome m4.disk
  committed = elim (Bool-cases (ltb (length bs) m.fuse)) [
    | inr short ↦ early (ground arith)
    | inl enough ↦
        let late : length bs < m.fuse = ground arith in
        elim (Bool-cases (ltb 0 m3.fuse)) [
          | inl on ↦ whole late (ground arith)
          | inr off ↦ torn late (ground arith)
        ]
  ]

commit-Recovers :
    (start size : ℕ) (bs : List ℕ) (m : Machine) (ready : IsReady start size bs m)
    → Recovers start size (outcome start size bs m ready) (commit start bs m).disk
unfolding commit m4
commit-Recovers start size [] m ready =
    clean-Recovers start size _ m.disk (omega (arith, ready.fits)) ready.clean
      (λ x home. ground arith)
commit-Recovers start size (b ∷ bs) m ready = committed start size (b ∷ bs) m ready

-- Boots whose recoveries are cut short, each after that many disk writes.
abbrev pub failed_boots : ℕ → List ℕ → (ℕ → Block) → ℕ → Block
failed_boots start [] d = d
failed_boots start (j ∷ js) d = failed_boots start js (recover_from_log start (reboot d j)).disk

failed_boots-Recovers :
    (start size : ℕ) (js : List ℕ) {w d : ℕ → Block}
    → Recovers start size w d
    → Recovers start size w (failed_boots start js d)
failed_boots-Recovers start size [] r = r
failed_boots-Recovers start size (j ∷ js) r =
    failed_boots-Recovers start size js (recover-Recovers start size j r)

-- A transaction over blocks outside the log is committed from a machine whose log is clean on disk,
-- and the power fails after any number of further disk writes; any number of boots then fail, each
-- after any number of the writes of its recovery, and the last boot recovers with no failure.
-- Every block outside the log is then as the transaction left it if it is one of the transaction's and
-- more writes than the transaction has blocks reached the disk before the first failure, and else is
-- as it was on disk: the whole transaction survives, or none of it.
pub commit_atomic :
    (start size : ℕ) (bs : List ℕ) (m : Machine) (js : List ℕ) (k x : ℕ)
    → IsReady start size bs m
    → logsize ≤ k
    → IsHome start size x
    → (recover_from_log start (reboot (failed_boots start js (commit start bs m).disk) k)).disk x
      ≡ (if ltb (length bs) m.fuse && mem x bs then view m x else m.disk x)
commit_atomic start size bs m js k x ready boot home =
    recovered start size k
      (failed_boots-Recovers start size js (commit-Recovers start size bs m ready)) boot x home
