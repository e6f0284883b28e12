-- ===== src/Log/Crash.antt =====
-- Commit and recovery, with a power failure at any write.
use laboratorio_ramiro.Prelude.{
  mem, All, Bool-cases, List, [], ap, arith, false, get_or, if◌then◌else◌, inl, inr, length, refl,
  ℕ, ◌+◌, ◌<◌, ◌∙◌, ◌∷◌, ◌≡◌, ◌≢◌, ◌≤◌,
}
use laboratorio_ramiro.Log.Disk.{Block, Machine, bread, reboot, view, view-bread}
use laboratorio_ramiro.Log.{write_head, install_trans, read_head, recover_from_log, logsize}
use laboratorio_ramiro.Log.Loops.{IsHome}
use laboratorio_ramiro.Log.Install.{IsInstalled, install_trans-IsInstalled}
use laboratorio_ramiro.Log.Head.{disk-write_head, listed}

module _ (start size : ℕ) where
  pub mem-home :
      (bs : List ℕ) (y : ℕ)
      → All (IsHome start size) bs
      → start ≤ y
      → y < start + size
      → mem y bs ≡ false
  mem-home [] y h lo hi = refl
  mem-home (b ∷ bs) y h lo hi =
      let apart : y ≢ b = omega (arith, h.0) in ground (arith, mem-home bs y h.1 lo hi)

  pub recover_eq :
      (m : Machine)
      → recover_from_log start m
        ≡ write_head start [] (install_trans start 0 (listed (view m start)) (bread m start).1)
  unfolding recover_from_log read_head listed bread
  recover_eq m = refl

  -- The header on disk `d` lists the blocks `bs` of a committed transaction, with `v` in their slots.
  pub record IsCommitted (bs : List ℕ) (v : ℕ → Block) (d : ℕ → Block) : Type 0 where
    pub homes : All (IsHome start size) bs
    pub fits : length bs < size
    pub small : length bs ≤ logsize
    pub lists : listed (d start) ≡ bs
    pub held : (j : ℕ) → j < length bs → d (start + 0 + 1 + j) ≡ v (get_or bs j 0)

  -- Disk `d` determines the contents `w` of the blocks outside the log.
  pub record Recovers (w : ℕ → Block) (d : ℕ → Block) : Type 0 where
    pub blocks : List ℕ
    pub slots : ℕ → Block
    pub committed : IsCommitted blocks slots d
    pub result : (x : ℕ) → IsHome start size x → (if mem x blocks then slots x else d x) ≡ w x

  -- A disk whose log is clean determines what it holds.
  pub clean-Recovers :
      (w d : ℕ → Block)
      → 0 < size
      → listed (d start) ≡ []
      → ((x : ℕ) → IsHome start size x → d x ≡ w x)
      → Recovers w d
  clean-Recovers w d some_room clean same = record {
    blocks = [];
    slots = w;
    committed = record {
      homes = tt;
      fits = some_room;
      small = omega arith;
      lists = clean;
      held = λ j l. absurd (omega arith);
    };
    result = same;
  }

  -- A whole recovery makes the blocks what the disk determines.
  pub recovered :
      {w d : ℕ → Block} (k : ℕ)
      → Recovers w d
      → logsize ≤ k
      → (x : ℕ) → IsHome start size x
      → (recover_from_log start (reboot d k)).disk x ≡ w x
  unfolding reboot bread
  recovered {w} {d} k r boot x home =
      ap (λ m'. m'.disk x) (recover_eq m)
      ∙ ap (λ l. (write_head start [] (install_trans start 0 l m1)).disk x) c.lists
      ∙ disk-write_head start [] (install_trans start 0 r.blocks m1) x
      ∙ elim (Bool-cases (mem x r.blocks)) [
        | inl here ↦ ground (
          arith,
          ok.blocks r.slots (omega (arith, c.small)) slots x here,
          r.result x home,
          c.fits,
        )
        | inr absent ↦ ground (arith, ok.disk_out x absent, r.result x home, c.fits)
      ]
    where
      c : IsCommitted r.blocks r.slots d
      c = r.committed

      m : Machine
      m = reboot d k

      m1 : Machine
      m1 = (bread m start).1

      ok : IsInstalled start size 0 r.blocks m1 (install_trans start 0 r.blocks m1)
      ok = install_trans-IsInstalled start size 0 r.blocks m1 c.homes (omega (arith, c.fits))

      slots :
          (j : ℕ)
          → j < length r.blocks
          → view m1 (start + 0 + 1 + j) ≡ r.slots (get_or r.blocks j 0)
      slots j l = view-bread m start (start + 0 + 1 + j) ∙ c.held j l
